-- ===== src/TripQueries.antt =====
-- The read side of backend/src/trips/trips.service.ts: listings and details, with the live price.
pub mod Shown
use gig_drive.Shared.{
  ℕ, ◌-◌, ◌*◌, ◌==◌, leb, ltb, Bool, true, false, not, ◌&&◌, Option, none, some, List, [], ◌∷◌,
  ◌++◌, map, lookup, get_or, includes, unique, filter, of_entries, head?, if◌then◌else◌, zero, suc,
}
use gig_drive.Shared.Sort.{sort_by}
use gig_drive.Entities.{Text, same_type, same_status, TripStatus, User, Trip, TripStop}
use gig_drive.Errors.{not_found, Reason}
use gig_drive.Service.{World, Env, codes, Action, gets, or_throw, ◌>>=◌}
use gig_drive.Pricing.{LivePrice, calculate}
use gig_drive.Listing.{Listed, compare_trips_active_first, browse_hidden_statuses}
use gig_drive.Seats.{count_confirmed_seats_for}
use gig_drive.Ratings.{DriverRating, empty_driver_rating, aggregate_by_driver_ids}
use gig_drive.TripViews.{
  TripDto, ListTripsDto, no_filters, LoadedTrip, trips_page_size, trip_dto, contains_text,
  sorts_before, field,
}

abbrev pub take {ℓ} : {A : Type ℓ} → ℕ → List A → List A
take zero xs = []
take (suc n) [] = []
take (suc n) (x ∷ xs) = x ∷ take n xs

-- `${firstName} ${lastName}`
abbrev pub display_name : User → Text
display_name u = u.first_name ++ (codes " " ++ u.last_name)

-- `!text`
abbrev pub is_empty : Text → Bool
is_empty [] = true
is_empty (_ ∷ _) = false

-- `status IN (…)`
abbrev pub status_in : List TripStatus → TripStatus → Bool
status_in [] s = false
status_in (t ∷ ts) s = if same_status s t then true else status_in ts s

module _ (env : Env) where
  -- `relations: { vehicle, concert, stops, driver }`
  unfoldable pub load : World → Trip → LoadedTrip
  load w trip = record {
    trip = trip;
    driver = env.users_repository.find_one (λ u. u.id == trip.driver_id) w.users;
    vehicle = env.vehicles_repository.find_one (λ v. v.id == trip.vehicle_id) w.vehicles;
    concert = env.concerts_repository.find_one (λ c. c.id == trip.concert_id) w.concerts;
    stops = env.stops_repository.find (λ s. s.trip_id == trip.id) w.stops;
  }

  unfoldable pub matches_departure : List TripStop → Text → Bool
  matches_departure stops query = elim (sort_by (λ a b. leb a.seq b.seq) stops) [
    | [] ↦ false
    | first ∷ _ ↦ contains_text (env.to_lower_case query) (env.to_lower_case first.place)
  ]

  -- The tests of the loop in `hydrateTrips`, in its order; `true` keeps the trip.
  unfoldable pub passes : ListTripsDto → LoadedTrip → ℕ → LivePrice → DriverRating → Bool
  passes dto loaded confirmed_seats live_price rating =
      not (field dto.max_price (λ p. ltb p live_price.per_person) false)
      && (not
            (field dto.seats_min (λ n. ltb (loaded.trip.max_passengers - confirmed_seats) n) false)
          && (not (
                field dto.departure_from
                  (λ q. not (is_empty q) && not (matches_departure loaded.stops q)) false)
              && not (
                  field dto.min_rating (λ r. field rating.average_rating (λ a. ltb a (10 * r)) true)
                    false)))

  abbrev driver_name : LoadedTrip → Text
  driver_name loaded = field loaded.driver display_name (codes "Unknown driver")

  -- One round of the loop: the trip's view, unless a filter drops it.
  unfoldable pub hydrate_trip :
      List (ℕ × ℕ) → List (ℕ × DriverRating) → ListTripsDto → LoadedTrip → Option TripDto
  unfolding passes
  hydrate_trip seat_counts ratings dto loaded =
      let confirmed_seats = get_or (lookup loaded.trip.id seat_counts) 0 in
      let live_price =
        calculate loaded.trip.pricing_mode loaded.trip.total_cost loaded.trip.min_passengers
          loaded.trip.max_passengers confirmed_seats in
      let rating = get_or (lookup loaded.trip.driver_id ratings) empty_driver_rating in
      if passes dto loaded confirmed_seats live_price rating
      then some (trip_dto loaded confirmed_seats live_price (driver_name loaded) rating)
      else none

  abbrev hydrate_loop :
      List (ℕ × ℕ) → List (ℕ × DriverRating) → ListTripsDto → List LoadedTrip → List TripDto
  hydrate_loop seat_counts ratings dto [] = []
  hydrate_loop seat_counts ratings dto (loaded ∷ rest) =
      elim (hydrate_trip seat_counts ratings dto loaded) [
        | none ↦ hydrate_loop seat_counts ratings dto rest
        | some view ↦ view ∷ hydrate_loop seat_counts ratings dto rest
      ]

  unfoldable pub hydrate_trips : ListTripsDto → List LoadedTrip → World → List TripDto
  unfolding hydrate_trip
  hydrate_trips dto trips w = sort_by (sorts_before dto.sort) (
      hydrate_loop (count_confirmed_seats_for env (map (λ t. t.trip.id) trips) w)
        (aggregate_by_driver_ids (map (λ t. t.trip.driver_id) trips) w) dto trips)

  abbrev is_listed : ListTripsDto → LoadedTrip → Bool
  is_listed dto loaded =
      not (status_in browse_hidden_statuses loaded.trip.status)
      && (field dto.concert_id (λ c. loaded.trip.concert_id == c) true
          && field dto.vehicle_type (λ t. field loaded.vehicle (λ v. same_type v.type t) false)
              true)

  abbrev load_trips_with_relations : ListTripsDto → World → List LoadedTrip
  load_trips_with_relations dto w = take trips_page_size (
      sort_by (λ a b. leb a.trip.departure_at b.trip.departure_at)
        (filter (is_listed dto) (map (load w) w.trips)))

  unfoldable pub list : ListTripsDto → World → List TripDto
  list dto w = hydrate_trips dto (load_trips_with_relations dto w) w

  unfoldable pub list_for_admin : Option TripStatus → World → List TripDto
  list_for_admin status w =
      hydrate_trips no_filters
        (take trips_page_size (
          sort_by (λ a b. leb b.trip.departure_at a.trip.departure_at)
            (filter (λ t. field status (same_status t.trip.status) true) (map (load w) w.trips))))
        w

  abbrev pub listed_as : TripDto → Listed
  listed_as view = record { status = view.status; departure_at = view.departure_at }

  unfoldable pub list_mine : ℕ → World → List TripDto
  list_mine driver_id w =
      sort_by (λ a b. compare_trips_active_first (listed_as a) (listed_as b))
        (hydrate_trips no_filters
          (map (load w) (env.trips_repository.find (λ t. t.driver_id == driver_id) w.trips)) w)

  -- `getDetails`: 404 on an unknown trip.
  unfoldable pub get_details : ℕ → Action TripDto
  get_details id = do
    trip ←
        or_throw (← gets (λ w. env.trips_repository.find_one (λ t. t.id == id) w.trips))
          (not_found Reason.trip_not_found)
    views ← gets (λ w. hydrate_trips no_filters (load w trip ∷ []) w)
    or_throw (head? views) (not_found Reason.trip_not_found)

  unfoldable pub get_details_many : List ℕ → World → List (ℕ × TripDto)
  get_details_many ids w = of_entries (
      map (λ view. (view.id, view))
        (hydrate_trips no_filters
          (map (load w) (env.trips_repository.find (λ t. includes t.id (unique ids)) w.trips)) w))
