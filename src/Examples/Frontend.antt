-- ===== src/Examples/Frontend.antt =====
-- The client at concrete stores and times.
use mathlib.Core.Logic.Or
use native.Mathlib.Nat.{ℕ_set}
use mathlib.Core.List.{mem-cons, not-mem-nil}
use gig_drive.Shared.{
  ℕ, ◌+◌, ◌-◌, ◌*◌, ◌/◌, ◌%◌, ◌<◌, ◌≤◌, true, false, ◌≡◌, ◌≢◌, refl, sym, ap, ◌∙◌, Option, none,
  some, List, [], ◌∷◌, Mem, arith, All, Keyed, sum_by, if◌then◌else◌,
}
use gig_drive.Entities.{
  Text, Currency, VehicleType, PricingMode, TripStatus, BookingStatus, Concert,
}
use gig_drive.Service.{codes}
use gig_drive.Pricing.{Amount}
use gig_drive.TripViews.{TripDto}
use gig_drive.Bookings.{BookingDto}
use gig_drive.Frontend.Earnings.{
  aggregate_earnings, earned, entries, counts, row_of, aggregate_earnings-totals,
}
use gig_drive.Frontend.LocalDatetime.{LocalTime, minute_of, date_time_string}
use gig_drive.Frontend.Actions.{Response, run_mutation, after_load_for_driver, mutation_error}
use gig_drive.Frontend.Store.{
  EntityAdapter, AppState, initial_state, dispatch_all, with_trip, select_bookings_with_trips,
}
use gig_drive.Frontend.Store.Listed.{listed_entities}
use gig_drive.Frontend.Store.Shown.{Agrees, after_load_for_driver-shown, run_mutation-shown}
use gig_drive.Examples.{concert}

abbrev bookings_adapter : EntityAdapter BookingDto (λ b. b.id)
bookings_adapter = listed_entities (λ b. b.id)

abbrev trips_adapter : EntityAdapter TripDto (λ t. t.id)
trips_adapter = listed_entities (λ t. t.id)

abbrev ride : ℕ → TripDto
ride id = record {
  id = id;
  driver_id = 1;
  driver_name = [];
  driver_average_rating = none;
  driver_review_count = 0;
  vehicle_id = 1;
  vehicle_type = some VehicleType.van;
  concert_id = 1;
  concert_artist = [];
  concert_title = [];
  concert_city = [];
  concert_image_url = none;
  pricing_mode = PricingMode.shared_total;
  total_cost = 100;
  currency = Currency.eur;
  min_passengers = 1;
  max_passengers = 3;
  confirmation_deadline = 500;
  departure_at = 900;
  round_trip = true;
  notes = none;
  status = TripStatus.ready;
  confirmed_seats = 2;
  seats_left = 1;
  stops = [];
  live_price = record {
    per_person = 50;
    lower_bound = Amount.finite 100;
    upper_bound = Amount.finite 34;
  };
}

abbrev seat : ℕ → ℕ → BookingDto
seat id trip_id = record {
  id = id;
  trip_id = trip_id;
  passenger_id = 2;
  passenger_name = [];
  seats = 1;
  status = BookingStatus.confirmed;
  paid = false;
  created_at = 0;
  decided_at = none;
  trip = ride trip_id;
  can_review = false;
}

abbrev seats : List BookingDto
seats = seat 5 1 ∷ seat 6 1 ∷ []

aggregate_earnings-totals_example :
    let es = aggregate_earnings seats (λ k. none) in
    let amount : BookingDto → ℕ =
      λ b. if counts (λ k. none) Currency.eur b then (row_of (λ k. none) b).amount else 0 in
    (entries Currency.eur es ≤ 1)
    × (earned Currency.eur (λ e. e.total) es ≡ sum_by amount seats)
    × (earned Currency.eur (λ e. e.paid) es ≡ sum_by (λ b. if b.paid then amount b else 0) seats)
    × (earned Currency.eur (λ e. e.unpaid) es ≡ sum_by (λ b. if b.paid then 0 else amount b) seats)
aggregate_earnings-totals_example = aggregate_earnings-totals seats (λ k. none) Currency.eur

abbrev blank : AppState bookings_adapter trips_adapter
blank = initial_state bookings_adapter trips_adapter

seats-Keyed : Keyed (λ (b : BookingDto). b.id) seats
seats-Keyed k = ground arith

ride-set : IsSet TripDto
ride-set = hlevel ℕ_set

both :
    {A B : Type 0} (f : A → B) (x y : A) (z : B)
    → IsSet B
    → f x ≡ z
    → f y ≡ z
    → (a : A) → Mem a (x ∷ y ∷ [])
    → f a ≡ z
both f x y z set p q a m =
    Or.elim (set _ _) (mem-cons.0 m) (λ e. ap f e ∙ p)
      (λ n. Or.elim (set _ _) (mem-cons.0 n) (λ e. ap f e ∙ q) (λ k. absurd (not-mem-nil k)))

seats-Agrees : Agrees seats
seats-Agrees b m =
    let trip : b.trip ≡ ride 1 =
      both (λ c. c.trip) (seat 5 1) (seat 6 1) (ride 1) ride-set refl refl b m in
    let trip_id : b.trip_id ≡ 1 =
      both (λ c. c.trip_id) (seat 5 1) (seat 6 1) 1 ℕ_set refl refl b m in
    (
      ap (λ t. t.id) trip ∙ sym trip_id,
      λ t n q. both (λ u. u) (ride 1) (ride 1) (ride 1) ride-set refl refl t n ∙ sym trip,
    )

after_load_for_driver-shown_example :
    let state =
      dispatch_all bookings_adapter trips_adapter
        (after_load_for_driver (Response.success seats))
        blank in
    (select_bookings_with_trips bookings_adapter trips_adapter state ≡ seats)
    × (state.bookings.loading ≡ false)
    × (state.bookings.loaded ≡ true)
    × (state.bookings.pending_id ≡ none)
after_load_for_driver-shown_example =
    after_load_for_driver-shown bookings_adapter trips_adapter seats blank seats-Keyed seats-Agrees

run_mutation-shown_example :
    let b = seat 5 1 in
    let done =
      dispatch_all bookings_adapter trips_adapter
        (run_mutation (codes "accept") (Response.success b))
        blank in
    let failed =
      dispatch_all bookings_adapter trips_adapter
        (run_mutation (codes "accept") (Response.failure (some 409)))
        blank in
    let shown = select_bookings_with_trips bookings_adapter trips_adapter in
    Mem b (shown done)
    × All (λ c. c.trip_id ≡ b.trip_id → c.trip ≡ b.trip) (shown done)
    × ((c : BookingDto)
        → bookings_adapter.entity blank.bookings.entities c.id ≡ some c
        → c.id ≢ b.id
        → c.trip_id ≢ b.trip_id
        → Mem (with_trip bookings_adapter trips_adapter blank c) (shown done))
    × (done.bookings.pending_id ≡ none)
    × (shown failed ≡ shown blank)
    × (failed.bookings.pending_id ≡ none)
    × (failed.bookings.error ≡ some (mutation_error (codes "accept") (some 409)))
run_mutation-shown_example =
    run_mutation-shown bookings_adapter trips_adapter (codes "accept") (seat 5 1) (some 409) blank
      refl

-- A calendar whose months have 31 days, in a zone that never turns its clocks. A text of two characters
-- stands for an instant.
abbrev number_of : ℕ → ℕ → ℕ
number_of a b = (a - 48) * 10 + (b - 48)

abbrev minutes_of : ℕ → ℕ → ℕ → ℕ → ℕ → ℕ
minutes_of year month day hours minutes =
    ((((year - 1970) * 12 + (month - 1)) * 31 + (day - 1)) * 24 + hours) * 60 + minutes

time_in : Text → Option ℕ
time_in (mark ∷ t ∷ []) = some t
time_in (a ∷ b ∷ c ∷ d ∷ _ ∷ e ∷ f ∷ _ ∷ g ∷ h ∷ _ ∷ i ∷ j ∷ _ ∷ k ∷ l ∷ []) = some (
    60000
    * minutes_of (number_of a b * 100 + number_of c d) (number_of e f) (number_of g h)
        (number_of i j) (number_of k l))
time_in _ = none

abbrev minutes_at : ℕ → ℕ
minutes_at t = t / 60000 % 60

abbrev hours_at : ℕ → ℕ
hours_at t = t / 60000 / 60 % 24

abbrev day_at : ℕ → ℕ
day_at t = t / 60000 / 60 / 24 % 31 + 1

abbrev month_at : ℕ → ℕ
month_at t = t / 60000 / 60 / 24 / 31 % 12

abbrev year_at : ℕ → ℕ
year_at t = 1970 + t / 60000 / 60 / 24 / 31 / 12

number_of-two : (n : ℕ) → n < 100 → number_of (48 + n / 10) (48 + n % 10) ≡ n
number_of-two n h = omega arith

number_of-four :
    (n : ℕ)
    → n ≤ 9999
    → number_of (48 + n / 1000) (48 + n / 100 % 10) * 100
        + number_of (48 + n / 10 % 10) (48 + n % 10)
      ≡ n
number_of-four n h = omega arith

minutes_of-parts :
    (t : ℕ)
    → 60000 * minutes_of (year_at t) (month_at t + 1) (day_at t) (hours_at t) (minutes_at t)
      ≡ minute_of t
minutes_of-parts t = omega arith

time_in-date_time_string :
    (t : ℕ)
    → year_at t ≤ 9999
    → time_in (date_time_string (year_at t) (month_at t + 1) (day_at t) (hours_at t) (minutes_at t))
      ≡ some (minute_of t)
unfolding time_in
time_in-date_time_string t h =
    let year = number_of-four (year_at t) h in
    let month = number_of-two (month_at t + 1) (omega arith) in
    let day = number_of-two (day_at t) (omega arith) in
    let hours = number_of-two (hours_at t) (omega arith) in
    let minutes = number_of-two (minutes_at t) (omega arith) in
    rw (year, month, day, hours, minutes) (ap some (minutes_of-parts t))

abbrev local : LocalTime
local = record {
  get_full_year = year_at;
  get_month = month_at;
  get_date = day_at;
  get_hours = hours_at;
  get_minutes = minutes_at;
  get_time = time_in;
  is_repeated = λ t. false;
  year_ge = λ t. omega arith;
  month_lt = λ t. omega arith;
  date_le = λ t. omega arith;
  hours_lt = λ t. omega arith;
  minutes_lt = λ t. omega arith;
  get_time-date_time_string = λ t once. time_in-date_time_string t;
}

abbrev far_concert : Concert
far_concert = record concert { start_at = 200000000 }

abbrev start : Text
start = 1 ∷ 200000000 ∷ []
