-- ===== src/TripQueries/Shown.antt =====
-- What the listings show: which trips, and what of each.
use gig_drive.Shared.{
  ℕ, zero, suc, leb, Bool, true, not, ◌≡◌, inl, inr, some, List, [], ◌∷◌, All, arith, Bool-cases,
  Option-cases, filter, map, includes, lookup, get_or,
}
use gig_drive.Shared.Sort.{All-sort_by, IsSorted, sort_by-IsSorted}
use gig_drive.Entities.{TripStatus}
use gig_drive.Service.{World, Env}
use gig_drive.Pricing.{calculate}
use gig_drive.Ratings.{DriverRating, aggregate_by_driver_ids}
use gig_drive.Seats.{confirmed_total, count_confirmed_seats_for}
use gig_drive.Seats.Total.{count_confirmed_seats_for-total}
use gig_drive.Listing.{is_terminal_trip_status, compare_trips_active_first}
use gig_drive.Listing.Order.{compare_trips_active_first-IsConsistent}
use gig_drive.TripViews.{field, TripDto, ListTripsDto, LoadedTrip, trip_dto, sorts_before}
use gig_drive.TripQueries.{
  take, load, passes, hydrate_trip, hydrate_loop, hydrate_trips, is_listed,
  load_trips_with_relations, list, list_mine, listed_as, trips_page_size,
}

-- What a listing with the given filters may show of the tables.
abbrev pub IsShown : ListTripsDto → World → TripDto → Type 0
IsShown dto w view =
    (view.confirmed_seats ≡ confirmed_total view.id w.bookings)
    × (view.live_price
        ≡ calculate view.pricing_mode view.total_cost view.min_passengers view.max_passengers
            view.confirmed_seats)
    × (field dto.max_price (λ p. leb view.live_price.per_person p) true ≡ true)
    × (field dto.seats_min (λ n. leb n view.seats_left) true ≡ true)

module _ {A : Type 0} (P : A → Type 0) where
  All-take : (n : ℕ) (xs : List A) → All P xs → All P (take n xs)
  All-take zero xs h = tt
  All-take (suc n) [] h = tt
  All-take (suc n) (x ∷ xs) h = (h.0, All-take n xs h.1)

All-filter : {A : Type 0} (p : A → Bool) (xs : List A) → All (λ x. p x ≡ true) (filter p xs)
All-filter p [] = tt
All-filter p (x ∷ xs) = elim (Bool-cases (p x)) [
  | inl e ↦ rw e (e, All-filter p xs)
  | inr e ↦ rw e (All-filter p xs)
]

module _ (env : Env) where
  hydrate_trip-IsShown :
      (counts : List (ℕ × ℕ)) (ratings : List (ℕ × DriverRating)) (dto : ListTripsDto)
      (loaded : LoadedTrip) (w : World) (view : TripDto)
      → hydrate_trip env counts ratings dto loaded ≡ some view
      → get_or (lookup loaded.trip.id counts) 0 ≡ confirmed_total loaded.trip.id w.bookings
      → IsShown dto w view × (view.status ≡ loaded.trip.status)
  unfolding hydrate_trip passes trip_dto
  hydrate_trip-IsShown counts ratings dto loaded w view e h = ground arith

  -- The loop shows what its rounds show.
  hydrate_loop-All :
      (P : LoadedTrip → Type 0) (Q : TripDto → Type 0) (counts : List (ℕ × ℕ))
      (ratings : List (ℕ × DriverRating)) (dto : ListTripsDto)
      → ((loaded : LoadedTrip) (view : TripDto)
          → P loaded
          → hydrate_trip env counts ratings dto loaded ≡ some view
          → Q view)
      → (trips : List LoadedTrip) → All P trips
      → All Q (hydrate_loop env counts ratings dto trips)
  hydrate_loop-All P Q counts ratings dto round [] h = tt
  hydrate_loop-All P Q counts ratings dto round (loaded ∷ rest) h =
      elim (Option-cases (hydrate_trip env counts ratings dto loaded)) [
        | inl e ↦ rw (e, All) (hydrate_loop-All P Q counts ratings dto round rest h.1)
        | inr (view, e) ↦
            rw (e, All)
              (round loaded view h.0 e, hydrate_loop-All P Q counts ratings dto round rest h.1)
      ]

  -- Each trip of a list is asked for.
  All-includes :
      (before trips : List LoadedTrip) (ids : List ℕ)
      → ((k : ℕ)
          → includes k (map (λ (t : LoadedTrip). t.trip.id) trips) ≡ true
          → includes k ids ≡ true)
      → All (λ (t : LoadedTrip). includes t.trip.id ids ≡ true) trips
  All-includes before [] ids h = tt
  All-includes before (t ∷ ts) ids h =
      (h t.trip.id (ground arith), All-includes before ts ids (λ k e. h k (ground arith)))

  All-both :
      {A : Type 0} (P Q : A → Type 0) (xs : List A) → All P xs → All Q xs → All (λ x. P x × Q x) xs
  All-both P Q [] h k = tt
  All-both P Q (x ∷ xs) h k = ((h.0, k.0), All-both P Q xs h.1 k.1)

  -- The views of trips with a common property of their status.
  hydrate_trips-IsShown :
      (S : TripStatus → Bool) (dto : ListTripsDto) (trips : List LoadedTrip) (w : World)
      → All (λ (t : LoadedTrip). S t.trip.status ≡ true) trips
      → All (λ view. IsShown dto w view × (S view.status ≡ true)) (hydrate_trips env dto trips w)
  unfolding hydrate_trips
  hydrate_trips-IsShown S dto trips w h =
      let ids = map (λ (t : LoadedTrip). t.trip.id) trips in
      let counts = count_confirmed_seats_for env ids w in
      let ratings = aggregate_by_driver_ids (map (λ (t : LoadedTrip). t.trip.driver_id) trips) w in
      All-sort_by (sorts_before dto.sort) (λ view. IsShown dto w view × (S view.status ≡ true)) _
        (hydrate_loop-All (λ t. (includes t.trip.id ids ≡ true) × (S t.trip.status ≡ true))
          (λ view. IsShown dto w view × (S view.status ≡ true)) counts ratings dto
          (λ loaded view p e.
            let (shown, status) =
              hydrate_trip-IsShown counts ratings dto loaded w view e
                (count_confirmed_seats_for-total env ids loaded.trip.id w p.0) in
            (shown, rw status p.1))
          trips
          (All-both (λ (t : LoadedTrip). includes t.trip.id ids ≡ true)
            (λ (t : LoadedTrip). S t.trip.status ≡ true) trips
            (All-includes trips trips ids (λ k e. e)) h))

  All-map :
      {A : Type 0} (P Q : A → Type 0) → ((x : A) → P x → Q x) → (xs : List A) → All P xs → All Q xs
  All-map P Q f [] h = tt
  All-map P Q f (x ∷ xs) h = (f x h.0, All-map P Q f xs h.1)

  listed_status :
      (dto : ListTripsDto) (t : LoadedTrip)
      → is_listed env dto t ≡ true
      → not (is_terminal_trip_status t.trip.status) ≡ true
  unfolding is_terminal_trip_status
  listed_status dto t h = ground arith

  -- Every trip that `list` shows is neither CANCELLED nor COMPLETED, has its confirmed seats counted and
  -- its price computed from them, and passes the filters on price and on free seats.
  pub list-IsShown :
      (dto : ListTripsDto) (w : World)
      → All
          (λ view. IsShown dto w view × (not (is_terminal_trip_status view.status) ≡ true))
          (list env dto w)
  unfolding list
  list-IsShown dto w =
      hydrate_trips-IsShown (λ s. not (is_terminal_trip_status s)) dto
        (load_trips_with_relations env dto w) w
        (All-take (λ (t : LoadedTrip). not (is_terminal_trip_status t.trip.status) ≡ true)
          trips_page_size _
          (All-sort_by (λ a b. leb a.trip.departure_at b.trip.departure_at)
            (λ (t : LoadedTrip). not (is_terminal_trip_status t.trip.status) ≡ true) _
            (All-map (λ t. is_listed env dto t ≡ true)
              (λ t. not (is_terminal_trip_status t.trip.status) ≡ true)
              (λ t h. listed_status dto t h) _
              (All-filter (is_listed env dto) (map (load env w) w.trips)))))

  -- `listMine` shows the active trips before the finished ones, and each part by departure.
  pub list_mine-IsSorted :
      (driver_id : ℕ) (w : World)
      → IsSorted
          (λ a b. compare_trips_active_first (listed_as env a) (listed_as env b))
          (list_mine env driver_id w)
  unfolding list_mine
  list_mine-IsSorted driver_id w =
      sort_by-IsSorted _
        (record {
          total = λ a b.
              compare_trips_active_first-IsConsistent.total (listed_as env a) (listed_as env b);
          trans = λ a b c.
              compare_trips_active_first-IsConsistent.trans (listed_as env a) (listed_as env b)
                (listed_as env c);
        })
        _
