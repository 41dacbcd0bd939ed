-- ===== src/Trips/Edits.antt =====
-- `update` of backend/src/trips/trips.service.ts: what it checks and writes.
use gig_drive.Shared.{
  ℕ, ◌≤◌, ◌<◌, ◌==◌, ◌≡◌, ◌⊎◌, inl, inr, Option, none, some, Mem, arith, get_or, Option-cases,
}
use gig_drive.Entities.{TripStatus, Trip, Vehicle, Concert}
use gig_drive.Repository.Queries.{mem-save_self}
use gig_drive.Service.{World, Env}
use gig_drive.Capacity.{Valid, save_trip-IsValid}
use gig_drive.StateMachine.{assert_editable}
use gig_drive.Seats.{confirmed_total}
use gig_drive.TripChecks.{
  UpdateTripDto, apply_update, assert_owns_vehicle, assert_valid_capacity, assert_valid_schedule,
}
use gig_drive.TripQueries.{get_details}
use gig_drive.Trips.{update}
use gig_drive.Trips.Keeps.{IsOffer, vehicle_of, concert_of}

module _ (env : Env) where
  open env use {trips_repository}

  abbrev pub trip_of : ℕ → World → Option Trip
  trip_of id w = trips_repository.find_one (λ t. t.id == id) w.trips

  -- An edit of a trip that is found, with the vehicle and the concert that it names.
  update-found :
      (id : ℕ) (dto : UpdateTripDto) (w : World) (t : Trip) (vehicle : Vehicle) (concert : Concert)
      → trip_of id w ≡ some t
      → vehicle_of env (get_or dto.vehicle_id t.vehicle_id) w ≡ some vehicle
      → concert_of env (get_or dto.concert_id t.concert_id) w ≡ some concert
      → let w' = (update env id dto w).1 in
        (w'.trips ≡ w.trips)
        ⊎ ((t.status ≡ TripStatus.opened)
            × IsOffer (apply_update dto t) vehicle concert
            × (w'.trips ≡ trips_repository.save (apply_update dto t) w.trips))
  unfolding update assert_editable assert_owns_vehicle assert_valid_capacity assert_valid_schedule
      get_details
  update-found id dto w t vehicle concert e d c = ground arith

  update-missing :
      (id : ℕ) (dto : UpdateTripDto) (w : World)
      → trip_of id w ≡ none
      → (update env id dto w).1.trips ≡ w.trips
  unfolding update
  update-missing id dto w m = ground arith

  update-missing_part :
      (id : ℕ) (dto : UpdateTripDto) (w : World) (t : Trip)
      → trip_of id w ≡ some t
      → (vehicle_of env (get_or dto.vehicle_id t.vehicle_id) w ≡ none)
        ⊎ (concert_of env (get_or dto.concert_id t.concert_id) w ≡ none)
      → (update env id dto w).1.trips ≡ w.trips
  unfolding update
  update-missing_part id dto w t e m = ground arith

  update-bookings :
      (id : ℕ) (dto : UpdateTripDto) (w : World) → (update env id dto w).1.bookings ≡ w.bookings
  unfolding update get_details
  update-bookings id dto w = ground arith

  abbrev pub Edited : ℕ → UpdateTripDto → World → World → Type 0
  Edited id dto w w' =
      (t : Trip) × (vehicle : Vehicle) × (concert : Concert) × (trip_of id w ≡ some t)
      × (vehicle_of env (get_or dto.vehicle_id t.vehicle_id) w ≡ some vehicle)
      × (concert_of env (get_or dto.concert_id t.concert_id) w ≡ some concert)
      × (t.status ≡ TripStatus.opened)
      × IsOffer (apply_update dto t) vehicle concert
      × (w'.trips ≡ trips_repository.save (apply_update dto t) w.trips)

  -- An edit leaves the bookings as they are. It leaves the trips as they are too, or it finds the trip
  -- OPEN and its vehicle and concert there, and writes the edited trip, which fits both.
  pub update-effect :
      (id : ℕ) (dto : UpdateTripDto) (w : World)
      → let w' = (update env id dto w).1 in
        (w'.bookings ≡ w.bookings) × ((w'.trips ≡ w.trips) ⊎ Edited id dto w w')
  update-effect id dto w = (
    update-bookings id dto w,
    elim (Option-cases (trip_of id w)) [
      | inl e ↦ inl (update-missing id dto w e)
      | inr (t, e) ↦ elim (Option-cases (vehicle_of env (get_or dto.vehicle_id t.vehicle_id) w)) [
        | inl d ↦ inl (update-missing_part id dto w t e (inl d))
        | inr (vehicle, d) ↦
            elim (Option-cases (concert_of env (get_or dto.concert_id t.concert_id) w)) [
              | inl c ↦ inl (update-missing_part id dto w t e (inr c))
              | inr (concert, c) ↦ elim (update-found id dto w t vehicle concert e d c) [
                | inl same ↦ inl same
                | inr (op, offer, saved) ↦ inr (t, vehicle, concert, e, d, c, op, offer, saved)
              ]
            ]
      ]
    ],
  )

  -- An edit keeps the capacity invariant if the seats that the edited trip offers cover the seats that
  -- are confirmed on it.
  pub update-Valid :
      (id : ℕ) (dto : UpdateTripDto) (w : World)
      → Valid w
      → ((t : Trip)
          → trip_of id w ≡ some t
          → confirmed_total t.id w.bookings ≤ get_or dto.max_passengers t.max_passengers)
      → Valid (update env id dto w).1
  unfolding apply_update
  update-Valid id dto w v room =
      let (b, effect) = update-effect id dto w in
      elim effect [
        | inl same ↦ rw (same, b) v
        | inr (t, _, _, found, _, _, _, _, e) ↦
            rw (e, b)
              (save_trip-IsValid env w.trips w.bookings v (apply_update dto t) (room t found))
      ]

  update-writes :
      (id : ℕ) (dto : UpdateTripDto) (w : World) (t : Trip) (vehicle : Vehicle) (concert : Concert)
      → trip_of id w ≡ some t
      → vehicle_of env (get_or dto.vehicle_id t.vehicle_id) w ≡ some vehicle
      → concert_of env (get_or dto.concert_id t.concert_id) w ≡ some concert
      → t.status ≡ TripStatus.opened
      → dto.vehicle_id ≡ none
      → IsOffer (apply_update dto t) vehicle concert
      → (update env id dto w).1.trips ≡ trips_repository.save (apply_update dto t) w.trips
  unfolding update assert_editable assert_owns_vehicle assert_valid_capacity assert_valid_schedule
      get_details
  update-writes id dto w t vehicle concert e d c op own offer = ground arith

  -- An edit that keeps the vehicle of an OPEN trip, fits the vehicle and the concert, and offers fewer
  -- seats than are confirmed on the trip, breaks the capacity invariant.
  pub update_overbooks :
      (id : ℕ) (dto : UpdateTripDto) (w : World) (t : Trip) (vehicle : Vehicle) (concert : Concert)
      → trip_of id w ≡ some t
      → vehicle_of env (get_or dto.vehicle_id t.vehicle_id) w ≡ some vehicle
      → concert_of env (get_or dto.concert_id t.concert_id) w ≡ some concert
      → t.status ≡ TripStatus.opened
      → dto.vehicle_id ≡ none
      → IsOffer (apply_update dto t) vehicle concert
      → get_or dto.max_passengers t.max_passengers < confirmed_total t.id w.bookings
      → ¬ Valid (update env id dto w).1
  unfolding apply_update
  update_overbooks id dto w t vehicle concert e d c op own offer over v =
      let saved = update-writes id dto w t vehicle concert e d c op own offer in
      let there : Mem (apply_update dto t) (update env id dto w).1.trips =
        rw saved (mem-save_self trips_repository (apply_update dto t) w.trips) in
      overfull (rw (update-bookings id dto w) at (v.within (apply_update dto t) there))
    where
      overfull : confirmed_total t.id w.bookings ≤ get_or dto.max_passengers t.max_passengers → ⊥
      overfull fits = omega arith
