-- ===== src/Trips/Keeps.antt =====
-- The calls of the trips service and the capacity invariant, and what publishing and editing check.
use gig_drive.Shared.{
  ℕ, ◌≤◌, ◌<◌, ◌==◌, ◌≡◌, ◌⊎◌, inl, inr, Option, none, some, arith, count_key-unused, Option-cases,
}
use gig_drive.Entities.{Trip, Vehicle, Concert}
use gig_drive.Service.{World, Env}
use gig_drive.Capacity.{Valid, save_trip-IsValid}
use gig_drive.TripChecks.{
  CreateTripDto, new_trip, assert_owns_vehicle, assert_valid_capacity, assert_valid_schedule,
}
use gig_drive.TripQueries.{get_details}
use gig_drive.Trips.{create}
use gig_drive.Trips.Effects.{Moves, stays, moves, follows}

-- The moves of the lifecycle keep the capacity invariant.
pub Moves-Valid : {env : Env} {w w' : World} → Moves env w w' → Valid w → Valid w'
Moves-Valid (stays e b) v = rw (e, b) v
Moves-Valid {env} (moves {w = w} t s m l d e b) v =
    rw (e, b) (save_trip-IsValid env w.trips w.bookings v _ (v.within t m))
Moves-Valid (follows a b) v = Moves-Valid b (Moves-Valid a v)

-- What a trip has to satisfy against its vehicle and its concert.
abbrev pub IsOffer : Trip → Vehicle → Concert → Type 0
IsOffer t vehicle concert =
    (t.min_passengers ≤ t.max_passengers)
    × (t.max_passengers ≤ vehicle.seats)
    × (t.confirmation_deadline < t.departure_at)
    × (t.confirmation_deadline < concert.start_at)
    × (t.departure_at ≤ concert.start_at)

module _ (env : Env) where
  open env use {trips_repository, vehicles_repository, concerts_repository}

  abbrev pub created : ℕ → CreateTripDto → World → Trip
  created driver_id dto w = new_trip (trips_repository.new_id w.trips) w.now driver_id dto

  abbrev pub vehicle_of : ℕ → World → Option Vehicle
  vehicle_of id w = vehicles_repository.find_one (λ v. v.id == id) w.vehicles

  abbrev pub concert_of : ℕ → World → Option Concert
  concert_of id w = concerts_repository.find_one (λ c. c.id == id) w.concerts

  -- Every check of `create` passes, and the new trip is written.
  abbrev pub Published : ℕ → CreateTripDto → World → World → Type 0
  Published driver_id dto w w' =
      (vehicle : Vehicle) × (concert : Concert) × (vehicle_of dto.vehicle_id w ≡ some vehicle)
      × (concert_of dto.concert_id w ≡ some concert)
      × (vehicle.owner_id ≡ driver_id)
      × IsOffer (created driver_id dto w) vehicle concert
      × (w'.trips ≡ trips_repository.save (created driver_id dto w) w.trips)

  create-found :
      (driver_id : ℕ) (dto : CreateTripDto) (w : World) (vehicle : Vehicle) (concert : Concert)
      → vehicle_of dto.vehicle_id w ≡ some vehicle
      → concert_of dto.concert_id w ≡ some concert
      → let w' = (create env driver_id dto w).1 in
        (w'.trips ≡ w.trips)
        ⊎ ((vehicle.owner_id ≡ driver_id)
            × IsOffer (created driver_id dto w) vehicle concert
            × (w'.trips ≡ trips_repository.save (created driver_id dto w) w.trips))
  unfolding create assert_owns_vehicle assert_valid_capacity assert_valid_schedule get_details
  create-found driver_id dto w vehicle concert e d = ground arith

  create-missing :
      (driver_id : ℕ) (dto : CreateTripDto) (w : World)
      → (vehicle_of dto.vehicle_id w ≡ none) ⊎ (concert_of dto.concert_id w ≡ none)
      → (create env driver_id dto w).1.trips ≡ w.trips
  unfolding create
  create-missing driver_id dto w m = ground arith

  pub create-bookings :
      (driver_id : ℕ) (dto : CreateTripDto) (w : World)
      → (create env driver_id dto w).1.bookings ≡ w.bookings
  unfolding create get_details
  create-bookings driver_id dto w = ground arith

  -- Publishing leaves the trips as they are, or the vehicle and the concert are there, the vehicle is the
  -- driver's, the offer fits both, and the new trip is written.
  pub create-effect :
      (driver_id : ℕ) (dto : CreateTripDto) (w : World)
      → let w' = (create env driver_id dto w).1 in
        (w'.trips ≡ w.trips) ⊎ Published driver_id dto w w'
  create-effect driver_id dto w = elim (Option-cases (vehicle_of dto.vehicle_id w)) [
    | inl e ↦ inl (create-missing driver_id dto w (inl e))
    | inr (vehicle, e) ↦ elim (Option-cases (concert_of dto.concert_id w)) [
      | inl d ↦ inl (create-missing driver_id dto w (inr d))
      | inr (concert, d) ↦ elim (create-found driver_id dto w vehicle concert e d) [
        | inl same ↦ inl same
        | inr (own, offer, saved) ↦ inr (vehicle, concert, e, d, own, offer, saved)
      ]
    ]
  ]

  -- If the vehicle and the concert are there, the vehicle is the driver's and the offer fits both, the new
  -- trip is written.
  pub create-writes :
      (driver_id : ℕ) (dto : CreateTripDto) (w : World) (vehicle : Vehicle) (concert : Concert)
      → vehicle_of dto.vehicle_id w ≡ some vehicle
      → concert_of dto.concert_id w ≡ some concert
      → vehicle.owner_id ≡ driver_id
      → IsOffer (created driver_id dto w) vehicle concert
      → (create env driver_id dto w).1.trips
        ≡ trips_repository.save (created driver_id dto w) w.trips
  unfolding create assert_owns_vehicle assert_valid_capacity assert_valid_schedule get_details
  create-writes driver_id dto w vehicle concert e d own offer = ground arith

  -- A new trip has no bookings yet.
  pub create-Valid :
      (driver_id : ℕ) (dto : CreateTripDto) (w : World)
      → Valid w
      → Valid (create env driver_id dto w).1
  create-Valid driver_id dto w v =
      let b = create-bookings driver_id dto w in
      let unused =
        count_key-unused (λ (t : Trip). t.id) (trips_repository.new_id w.trips) w.trips
          (trips_repository.new_id_unused w.trips) in
      elim (create-effect driver_id dto w) [
        | inl same ↦ rw (same, b) v
        | inr (_, _, _, _, _, _, e) ↦
            rw (e, b)
              (save_trip-IsValid env w.trips w.bookings v (created driver_id dto w)
                (omega (arith, v.booked (trips_repository.new_id w.trips) unused)))
      ]
