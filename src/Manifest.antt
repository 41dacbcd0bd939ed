-- ===== src/Manifest.antt =====
-- backend/src/trips/passenger-manifest.ts, and `exportManifest` of trips.service.ts: the CSV file of a
-- trip's confirmed passengers.
pub mod Reader
pub mod RoundTrip
pub mod Slug
pub mod Digits
use gig_drive.Shared.{
  ℕ, zero, suc, ◌+◌, ◌/◌, ◌%◌, ◌==◌, leb, ltb, Bool, true, false, not, ◌&&◌, ◌||◌, Option, none,
  some, List, [], ◌∷◌, ◌++◌, get_or, if◌then◌else◌, map, filter,
}
use gig_drive.Shared.Sort.{sort_by}
use gig_drive.Entities.{Text, User, Booking, BookingStatus, Trip}
use gig_drive.Errors.{HttpError, Result, ok, err}
use gig_drive.Service.{World, Env, codes, Action, pure, gets, lift, map_each, ◌>>=◌, ◌>>◌}
use gig_drive.Seats.{confirmed_on}
use gig_drive.TripViews.{field}
use gig_drive.TripQueries.{is_empty}
use gig_drive.Trips.{find_trip_or_fail}

pub record ManifestRow : Type 0 where
  pub first_name : Text
  pub last_name : Text
  pub email : Text
  pub phone : Option Text
  pub seats : ℕ
  pub paid : Bool
  pub status : Text

-- `array.join(separator)` for a separator of one character.
join_with : ℕ → List Text → Text
join_with separator [] = []
join_with separator (x ∷ []) = x
join_with separator (x ∷ y ∷ rest) = x ++ (separator ∷ join_with separator (y ∷ rest))

pub drop_leading : (ℕ → Bool) → Text → Text
drop_leading p [] = []
drop_leading p (c ∷ cs) = let rest = drop_leading p cs in if p c then rest else c ∷ cs

pub drop_trailing : (ℕ → Bool) → Text → Text
drop_trailing p [] = []
drop_trailing p (c ∷ cs) =
    let rest = drop_trailing p cs in if p c && is_empty rest then [] else c ∷ rest

abbrev between : ℕ → ℕ → ℕ → Bool
between low high c = leb low c && leb c high

-- White space and line terminators, which `trim` takes off.
abbrev is_white_space : ℕ → Bool
is_white_space c =
    between 9 13 c
    || (c == 32
        || (c == 160
            || (c == 5760
                || (between 8192 8202 c
                    || (between 8232 8233 c
                        || (c == 8239 || (c == 8287 || (c == 12288 || c == 65279))))))))

abbrev pub trim : Text → Text
trim text = drop_trailing is_white_space (drop_leading is_white_space text)

-- `String(n)` of JavaScript, which the source calls; a number has at most as many digits as its value and one.
unfoldable pub decimal_digits : ℕ → ℕ → Text → Text
decimal_digits zero n digits = digits
decimal_digits (suc fuel) n digits =
    let more = decimal_digits fuel (n / 10) ((48 + n % 10) ∷ digits) in
    if ltb n 10 then (48 + n) ∷ digits else more

abbrev pub to_decimal : ℕ → Text
to_decimal n = decimal_digits (suc n) n []

-- The test `/[",\n\r]/`.
abbrev pub is_special : ℕ → Bool
is_special c = c == 34 || (c == 44 || (c == 10 || c == 13))

has_special : Text → Bool
has_special [] = false
has_special (c ∷ cs) = is_special c || has_special cs

double_quotes : Text → Text
double_quotes [] = []
double_quotes (c ∷ cs) = let rest = double_quotes cs in if c == 34 then 34 ∷ 34 ∷ rest else c ∷ rest

unfoldable pub csv_field : Text → Text
unfolding has_special double_quotes
csv_field value = if has_special value then 34 ∷ (double_quotes value ++ (34 ∷ [])) else value

abbrev pub csv_header : List Text
csv_header =
    codes "name"
    ∷ codes "email"
    ∷ codes "phone"
    ∷ codes "seats"
    ∷ codes "paid"
    ∷ codes "status"
    ∷ []

-- The values of a row, before they are quoted.
pub row_values : ManifestRow → List Text
unfolding drop_leading drop_trailing decimal_digits
row_values row =
    trim (row.first_name ++ (codes " " ++ row.last_name))
    ∷ row.email
    ∷ get_or row.phone []
    ∷ to_decimal row.seats
    ∷ (if row.paid then codes "yes" else codes "no")
    ∷ row.status
    ∷ []

unfoldable pub build_passenger_manifest_csv : List ManifestRow → Text
unfolding csv_field join_with row_values
build_passenger_manifest_csv rows =
    join_with 10
      (join_with 44 csv_header ∷ map (λ row. join_with 44 (map csv_field (row_values row))) rows)
    ++ (10 ∷ [])

abbrev is_lower_alnum : ℕ → Bool
is_lower_alnum c = between 97 122 c || between 48 57 c

-- `replaceAll(/[^a-z0-9]+/g, '-')`; the flag says that the last character stood in a run.
dash_runs : Bool → Text → Text
dash_runs in_run [] = []
dash_runs in_run (c ∷ cs) =
    let outside = dash_runs false cs in
    let inside = dash_runs true cs in
    if is_lower_alnum c then c ∷ outside else if in_run then inside else 45 ∷ inside

abbrev status_text : BookingStatus → Text
status_text BookingStatus.pending = codes "PENDING"
status_text BookingStatus.confirmed = codes "CONFIRMED"
status_text BookingStatus.rejected = codes "REJECTED"
status_text BookingStatus.cancelled_by_passenger = codes "CANCELLED_BY_PASSENGER"

abbrev manifest_row : Booking → User → ManifestRow
manifest_row booking passenger = record {
  first_name = passenger.first_name;
  last_name = passenger.last_name;
  email = passenger.email;
  phone = passenger.phone;
  seats = booking.seats;
  paid = booking.paid;
  status = status_text booking.status;
}

module _ (env : Env) where
  unfoldable pub slug : Text → Text
  unfolding dash_runs drop_leading drop_trailing
  slug value =
      let plain = filter (λ c. not (between 768 879 c)) (env.normalize_nfkd value) in
      let dashed = dash_runs false (env.to_lower_case plain) in
      let slugged = drop_trailing (λ c. c == 45) (drop_leading (λ c. c == 45) dashed) in
      if is_empty slugged then codes "unknown" else slugged

  unfoldable pub manifest_filename : Text → Text → ℕ → Text
  unfolding slug
  manifest_filename artist city start_at =
      codes "manifest-"
      ++ (slug artist
          ++ (codes "-" ++ (slug city ++ (codes "-" ++ (env.iso_day start_at ++ codes ".csv")))))

  -- The join of the query finds the passenger, whom a foreign key keeps there.
  abbrev passenger_row : World → Booking → Result ManifestRow
  passenger_row w booking =
      field (env.users_repository.find_one (λ u. u.id == booking.passenger_id) w.users)
        (λ passenger. ok (manifest_row booking passenger)) (err HttpError.internal)

  unfoldable pub export_manifest : ℕ → Action (Text × Text)
  unfolding find_trip_or_fail
  export_manifest trip_id = do
    trip ← find_trip_or_fail env trip_id
    bookings ← gets (λ w.
        sort_by (λ a b. leb a.created_at b.created_at)
          (env.bookings_repository.find (confirmed_on trip_id) w.bookings))
    world ← gets (λ w. w)
    rows ← lift (map_each (passenger_row world) bookings)
    let concert = env.concerts_repository.find_one (λ c. c.id == trip.concert_id) world.concerts
    pure (
      build_passenger_manifest_csv rows,
      manifest_filename (field concert (λ c. c.artist) []) (field concert (λ c. c.city) [])
          (field concert (λ c. c.start_at) trip.departure_at),
    )
