-- ===== src/Examples/Accounts.antt =====
-- Accounts, chat and guards at concrete tables.
use mathlib.Core.List.{mem-cons_self, mem-cons_of_mem}
use gig_drive.Shared.{
  ℕ, ◌+◌, ◌≤◌, ◌<◌, leb, ltb, ◌&&◌, Bool, true, false, ◌≡◌, ◌≢◌, refl, Option, none, some, List, [],
  ◌∷◌, arith, Keyed, sum_by, if◌then◌else◌,
}
use gig_drive.Entities.{Text, User, TripStatus, same_status, BookingStatus, same_booking_status}
use gig_drive.Errors.{ok, err, conflict, Reason}
use gig_drive.Service.{World, ◌>>=◌}
use gig_drive.Users.{same_text, find_by_email, assert_disablable, write_disabled}
use gig_drive.Users.Admins.{active_admins, with_user}
use gig_drive.Auth.{
  Crypto, JwtPayload, RegisterDto, AuthResponseDto, register, validate_credentials, authenticate,
}
use gig_drive.Auth.Login.{same_text_refl, register-authenticates, registered}
use gig_drive.Admin.{GroupCount, get_stats, get, disable_user}
use gig_drive.Admin.Accounts.{
  Accounts, Request, serve_all, serve_all-Accounts, disable_user-not_last,
}
use gig_drive.Admin.Races.{disable-stale}
use gig_drive.Admin.Tally.{get_stats-counts}
use gig_drive.Examples.{env, user, world}

-- A hash shows its salt and the password, and a token is what it stands for.
abbrev matches_hash : Text → Text → Bool
matches_hash password [] = false
matches_hash password (salt ∷ rest) = same_text password rest

abbrev read_token : ℕ → Text → Option JwtPayload
read_token now [] = none
read_token now (signed ∷ []) = none
read_token now (signed ∷ sub ∷ email) =
    if leb signed now && ltb now (signed + 3600)
    then some record { sub = sub; email = email }
    else none

pub read_token-sign :
    (signed now : ℕ) (payload : JwtPayload)
    → signed ≤ now
    → now < signed + 3600
    → read_token now (signed ∷ payload.sub ∷ payload.email) ≡ some payload
read_token-sign signed now payload a b = ground arith

abbrev pub crypto : Crypto
crypto = record {
  hash = λ salt password. salt ∷ password;
  compare = matches_hash;
  sign = λ now payload. now ∷ payload.sub ∷ payload.email;
  verify = read_token;
  lifetime = 3600;
  compare_hash = λ salt password. same_text_refl password;
  verify_sign = read_token-sign;
}

abbrev admin : ℕ → User
admin id = record (user id) { is_admin = true }

-- Two admins and a user.
abbrev office : World
office = record world { users = admin 7 ∷ admin 8 ∷ user 2 ∷ [] }

office-Keyed : Keyed (λ u. u.id) office.users
office-Keyed k = ground arith

abbrev token_of : ℕ → Text
token_of id = 100 ∷ id ∷ []

abbrev requests : List Request
requests =
    Request.disables (token_of 7) 8
    ∷ Request.disables (token_of 7) 7
    ∷ Request.disables (token_of 2) 7
    ∷ Request.waits 10
    ∷ Request.enables (token_of 7) 8
    ∷ []

serve_all-Accounts_example : Accounts (serve_all env crypto requests office)
serve_all-Accounts_example =
    serve_all-Accounts env crypto requests office (office-Keyed, omega arith)

disable_user-not_last_example :
    ((authenticate env crypto (token_of 7) >>= λ user. disable_user env user 8) office).0
    ≢ err (conflict Reason.last_admin)
disable_user-not_last_example = disable_user-not_last env crypto (token_of 7) 8 office

disable-stale_example :
    let w' = (write_disabled env (admin 8) (write_disabled env (admin 7) office).1).1 in
    (assert_disablable env (admin 7) 8 office ≡ (ok tt, office))
    × (assert_disablable env (admin 8) 7 office ≡ (ok tt, office))
    × (active_admins w' ≡ 0)
disable-stale_example =
    disable-stale env (admin 7) (admin 8) office office-Keyed mem-cons_self
      (mem-cons_of_mem (admin 7) mem-cons_self) refl refl (λ e. omega (arith, e)) refl

abbrev form : RegisterDto
form = record {
  email = 5 ∷ [];
  password = 1 ∷ 2 ∷ [];
  first_name = 6 ∷ [];
  last_name = 7 ∷ [];
  phone = none;
}

no_account : find_by_email env (5 ∷ []) office ≡ none
unfolding find_by_email
no_account = refl

register-authenticates_example :
    let member = registered env crypto 9 form office in
    let w' = record (with_user env member office) { now = 200 } in
    (response : AuthResponseDto) × (register env crypto 9 form office
      ≡ (ok response, with_user env member office))
    × (validate_credentials env crypto (5 ∷ []) (1 ∷ 2 ∷ []) w' ≡ (ok member, w'))
    × (authenticate env crypto response.access_token w' ≡ (ok member, w'))
register-authenticates_example =
    register-authenticates env crypto 9 200 form office no_account (omega arith) (omega arith)

-- Each status with the number of its rows.
abbrev count_of : {S : Type 0} → (S → S → Bool) → S → List S → ℕ
count_of same s xs = sum_by (λ x. if same x s then 1 else 0) xs

abbrev trip_counts : List TripStatus → List (TripStatus × ℕ)
trip_counts xs =
    (TripStatus.opened, count_of same_status TripStatus.opened xs)
    ∷ (TripStatus.full, count_of same_status TripStatus.full xs)
    ∷ (TripStatus.ready, count_of same_status TripStatus.ready xs)
    ∷ (TripStatus.confirmed, count_of same_status TripStatus.confirmed xs)
    ∷ (TripStatus.completed, count_of same_status TripStatus.completed xs)
    ∷ (TripStatus.cancelled, count_of same_status TripStatus.cancelled xs)
    ∷ []

trip_counts-once :
    (s : TripStatus) (xs : List TripStatus)
    → sum_by (λ g. if same_status g.0 s then 1 else 0) (trip_counts xs) ≤ 1
trip_counts-once s xs = ground arith

trip_counts-total :
    (s : TripStatus) (xs : List TripStatus)
    → sum_by (λ g. if same_status g.0 s then g.1 else 0) (trip_counts xs)
      ≡ sum_by (λ x. if same_status x s then 1 else 0) xs
trip_counts-total s xs = ground arith

abbrev trip_groups : GroupCount same_status
trip_groups = record {
  groups = trip_counts;
  groups_once = trip_counts-once;
  groups_total = trip_counts-total;
}

abbrev booking_counts : List BookingStatus → List (BookingStatus × ℕ)
booking_counts xs =
    (BookingStatus.pending, count_of same_booking_status BookingStatus.pending xs)
    ∷ (BookingStatus.confirmed, count_of same_booking_status BookingStatus.confirmed xs)
    ∷ (BookingStatus.rejected, count_of same_booking_status BookingStatus.rejected xs)
    ∷ (
      BookingStatus.cancelled_by_passenger,
      count_of same_booking_status BookingStatus.cancelled_by_passenger xs,
    )
    ∷ []

booking_counts-once :
    (s : BookingStatus) (xs : List BookingStatus)
    → sum_by (λ g. if same_booking_status g.0 s then 1 else 0) (booking_counts xs) ≤ 1
booking_counts-once s xs = ground arith

booking_counts-total :
    (s : BookingStatus) (xs : List BookingStatus)
    → sum_by (λ g. if same_booking_status g.0 s then g.1 else 0) (booking_counts xs)
      ≡ sum_by (λ x. if same_booking_status x s then 1 else 0) xs
booking_counts-total s xs = ground arith

abbrev booking_groups : GroupCount same_booking_status
booking_groups = record {
  groups = booking_counts;
  groups_once = booking_counts-once;
  groups_total = booking_counts-total;
}

get_stats-counts_example :
    let stats = get_stats env trip_groups booking_groups world in
    ((s : TripStatus)
      → get same_status s stats.trips_by_status
        ≡ some (sum_by (λ t. if same_status t.status s then 1 else 0) world.trips))
    × ((s : BookingStatus)
        → get same_booking_status s stats.bookings_by_status
          ≡ some (sum_by (λ b. if same_booking_status b.status s then 1 else 0) world.bookings))
    × (stats.concerts.cached + stats.concerts.user_submitted ≡ stats.concerts.total)
get_stats-counts_example = get_stats-counts env trip_groups booking_groups world
