-- ===== src/Admin.antt =====
-- backend/src/admin: the guard and the routes of the admin controller, and the statistics of
-- admin.service.ts and admin-stats.ts.
pub mod Tally
pub mod Accounts
pub mod Races
use gig_drive.Shared.{
  ℕ, ◌+◌, ◌==◌, Bool, true, false, not, ◌&&◌, Option, none, some, List, [], ◌∷◌, get_or, map, foldl,
  if◌then◌else◌, length, sum_by, ◌≤◌, ◌≡◌,
}
use gig_drive.Entities.{
  Text, User, Concert, Trip, TripStatus, same_status, Booking, BookingStatus, same_booking_status,
}
use gig_drive.Errors.{HttpError, forbidden, Reason, Result, ok, err}
use gig_drive.Service.{World, Env, Action, pure, gets, lift, ◌>>=◌, ◌>>◌}
use gig_drive.TripViews.{TripDto}
use gig_drive.Trips
use gig_drive.Users.{disable, enable, list_for_admin}

-- A record of counts by status: the properties of the object in the order in which they were added.
module _ {S : Type 0} (same : S → S → Bool) where
  abbrev pub get : S → List (S × ℕ) → Option ℕ
  get s [] = none
  get s ((t, n) ∷ rest) = if same t s then some n else get s rest

  abbrev pub set : List (S × ℕ) → S → ℕ → List (S × ℕ)
  set [] s n = (s, n) ∷ []
  set ((t, m) ∷ rest) s n = if same t s then (t, n) ∷ rest else (t, m) ∷ set rest s n

  unfoldable pub tally_by_status : List (S × ℕ) → List S → List (S × ℕ)
  tally_by_status rows statuses =
      let counted = foldl (λ acc row. set acc row.0 row.1) [] rows in
      foldl (λ acc status. set acc status (get_or (get status counted) 0)) [] statuses

abbrev pub all_trip_statuses : List TripStatus
all_trip_statuses =
    TripStatus.opened ∷ TripStatus.full ∷ TripStatus.ready ∷ TripStatus.confirmed
    ∷ TripStatus.completed ∷ TripStatus.cancelled ∷ []

abbrev pub all_booking_statuses : List BookingStatus
all_booking_statuses =
    BookingStatus.pending ∷ BookingStatus.confirmed ∷ BookingStatus.rejected
    ∷ BookingStatus.cancelled_by_passenger ∷ []

pub record ConcertStatsDto : Type 0 where
  pub total : ℕ
  pub cached : ℕ
  pub user_submitted : ℕ
  pub hidden : ℕ

pub record AdminStatsDto : Type 0 where
  pub users : ℕ
  pub concerts : ConcertStatsDto
  pub trips_by_status : List (TripStatus × ℕ)
  pub bookings_by_status : List (BookingStatus × ℕ)
  pub reviews : ℕ

-- A query that groups the rows of a table by a column and counts each group: PostgreSQL returns each
-- value that occurs in one row, with the number of its rows, in any order.
pub record GroupCount {S : Type 0} (same : S → S → Bool) : Type 0 where
  pub groups : List S → List (S × ℕ)
  pub groups_once :
      (s : S) (xs : List S) → sum_by (λ g. if same g.0 s then 1 else 0) (groups xs) ≤ 1
  pub groups_total :
      (s : S) (xs : List S)
      → sum_by (λ g. if same g.0 s then g.1 else 0) (groups xs)
        ≡ sum_by (λ x. if same x s then 1 else 0) xs

module _ (env : Env) (trip_groups : GroupCount same_status)
    (booking_groups : GroupCount same_booking_status) where
  unfoldable pub get_stats : World → AdminStatsDto
  get_stats w = record {
    users = env.users_repository.count (λ _. true) w.users;
    concerts = record {
      total = env.concerts_repository.count (λ _. true) w.concerts;
      cached = env.concerts_repository.count (λ c. not c.user_submitted) w.concerts;
      user_submitted = env.concerts_repository.count (λ c. c.user_submitted) w.concerts;
      hidden = env.concerts_repository.count (λ c. c.hidden) w.concerts;
    };
    trips_by_status =
        tally_by_status same_status (trip_groups.groups (map (λ t. t.status) w.trips))
          all_trip_statuses;
    bookings_by_status =
        tally_by_status same_booking_status (booking_groups.groups (map (λ b. b.status) w.bookings))
          all_booking_statuses;
    reviews = env.reviews_repository.count (λ _. true) w.reviews;
  }

pub record AdminUserDto : Type 0 where
  pub id : ℕ
  pub email : Text
  pub first_name : Text
  pub last_name : Text
  pub phone : Option Text
  pub is_admin : Bool
  pub disabled_at : Option ℕ
  pub created_at : ℕ

abbrev pub admin_user_dto : User → AdminUserDto
admin_user_dto user = record {
  id = user.id;
  email = user.email;
  first_name = user.first_name;
  last_name = user.last_name;
  phone = user.phone;
  is_admin = user.is_admin;
  disabled_at = user.disabled_at;
  created_at = user.created_at;
}

pub record AdminUserListDto : Type 0 where
  pub items : List AdminUserDto
  pub total : ℕ
  pub page : ℕ

abbrev pub admin_users_page_size : ℕ
admin_users_page_size = 20

-- `AdminGuard.canActivate`, for the user of the request.
unfoldable pub admin_guard : Option User → Result (Unit {0})
admin_guard none = err (forbidden Reason.admin_required)
admin_guard (some user) = if user.is_admin then ok tt else err (forbidden Reason.admin_required)

-- The routes that change state, for the user of the request.
module _ (env : Env) where
  unfoldable pub disable_user : User → ℕ → Action AdminUserDto
  unfolding admin_guard
  disable_user actor id = do
    lift (admin_guard (some actor))
    user ← disable env id actor.id
    pure (admin_user_dto user)

  unfoldable pub enable_user : User → ℕ → Action AdminUserDto
  unfolding admin_guard
  enable_user actor id = do
    lift (admin_guard (some actor))
    user ← enable env id
    pure (admin_user_dto user)

  unfoldable pub cancel_trip : User → ℕ → Action TripDto
  unfolding admin_guard
  cancel_trip actor id = do lift (admin_guard (some actor)); gig_drive.Trips.cancel env id

  unfoldable pub list_users : User → Option Text → Option ℕ → Action AdminUserListDto
  unfolding admin_guard
  list_users actor q page = do
    lift (admin_guard (some actor))
    (items, total) ← gets (list_for_admin env q (get_or page 0) admin_users_page_size)
    pure record { items = map admin_user_dto items; total = total; page = get_or page 0 }
