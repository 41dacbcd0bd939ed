-- ===== src/Vehicles/Histories.antt =====
-- Histories of all services with the edits of trips and the calls of
-- backend/src/vehicles/vehicles.service.ts.
use gig_drive.Shared.{
  ℕ, ◌≤◌, ◌==◌, ==_iff, ◌≡◌, refl, sym, ap, ◌⊎◌, inl, inr, some, List, [], ◌∷◌, arith, get_or,
  sum_by, mem-sum_by-le, Keyed, Option-cases, Bool-cases, subst,
}
use gig_drive.Entities.{Vehicle, Trip, Booking}
use gig_drive.Repository.Queries.{Keyed-save}
use gig_drive.Service.{World, Env}
use gig_drive.TripChecks.{UpdateTripDto, apply_update, assert_owns_vehicle}
use gig_drive.TripQueries.{get_details}
use gig_drive.Trips.{create, update, recompute_status}
use gig_drive.Trips.Effects.{Moves, confirm-Moves, cancel-Moves, recompute_status-Moves}
use gig_drive.Trips.Sweep.{sweep_expired-Moves, Keyed-Moves}
use gig_drive.Trips.Keeps.{create-effect, created, vehicle_of}
use gig_drive.Trips.Edits.{update-effect, trip_of}
use gig_drive.Waitlist.{join, leave}
use gig_drive.Bookings.{request, accept, accept_locked, reject, set_paid, set_paid_on, is_bookable}
use gig_drive.Bookings.Effects.{
  Recomputed, after_save, withdrawn, confirmed_at, accept-effect, cancel-effect, reject-effect,
  request-effect, set_paid-effect,
}
use gig_drive.History.{Call, perform, join-same, leave-same}
use gig_drive.Vehicles.{CreateVehicleDto, UpdateVehicleDto, remove}
use gig_drive.Vehicles.Untouched.{perform-vehicles, update-vehicles}
use gig_drive.Vehicles.Owned.{
  serves, AllOwned, save_trip-AllOwned, Moves-AllOwned, create-Linked, update-Linked, remove-Linked,
  Linked, create-trips, update-trips, remove-trips,
}

-- A call of any of the services, an edit of a trip among them.
pub data Act : Type 0 where
  calls : Call → Act
  edits_trip : ℕ → UpdateTripDto → Act
  adds_vehicle : ℕ → CreateVehicleDto → Act
  edits_vehicle : ℕ → UpdateVehicleDto → Act
  removes_vehicle : ℕ → Act

abbrev pub act : Env → Act → World → World
act env (Act.calls c) w = perform env c w
act env (Act.edits_trip id dto) w = (update env id dto w).1
act env (Act.adds_vehicle owner_id dto) w = (gig_drive.Vehicles.create env owner_id dto w).1
act env (Act.edits_vehicle id dto) w = (gig_drive.Vehicles.update env id dto w).1
act env (Act.removes_vehicle id) w = (remove env id w).1

abbrev pub act_all : Env → List Act → World → World
act_all env [] w = w
act_all env (a ∷ rest) w = act_all env rest (act env a w)

module _ (env : Env) where
  -- The trips after a call: the same, moved along the lifecycle from a world with the same trips, or with
  -- one more.
  abbrev Trips : World → World → Type 0
  Trips w w' =
      Keyed (λ (t : Trip). t.id) w'.trips
      × (AllOwned w.trips w.vehicles → AllOwned w'.trips w.vehicles)

  same_trips : (w w' : World) → Keyed (λ (t : Trip). t.id) w.trips → w'.trips ≡ w.trips → Trips w w'
  same_trips w w' k e = rw e (k, λ h. h)

  moved_trips : (w w' : World) → Keyed (λ (t : Trip). t.id) w.trips → Moves env w w' → Trips w w'
  moved_trips w w' k m = (Keyed-Moves env m k, Moves-AllOwned w.vehicles m)

  Recomputed-trips :
      (b : Booking) (w w' : World)
      → Keyed (λ (t : Trip). t.id) w.trips
      → Recomputed env b w w'
      → Trips w w'
  Recomputed-trips b w w' k (trips, _) = rw trips (
      moved_trips (after_save env b w) (recompute_status env b.trip_id (after_save env b w)).1 k
        (recompute_status-Moves env b.trip_id (after_save env b w)))

  owns-serves :
      (t : Trip) (v : Vehicle) (w : World)
      → vehicle_of env t.vehicle_id w ≡ some v
      → v.owner_id ≡ t.driver_id
      → 1 ≤ sum_by (serves t) w.vehicles
  owns-serves t v w e own =
      let (m, id) = env.vehicles_repository.find_one_hit _ w.vehicles v e in
      let one = mem-sum_by-le (serves t) v w.vehicles m in ground (arith, one)

  perform-trips : (c : Call) (w : World) → Keyed (λ t. t.id) w.trips → Trips w (perform env c w)
  unfolding perform
  perform-trips (Call.publish driver_id dto) w k = elim (create-effect env driver_id dto w) [
    | inl same ↦ same_trips w (create env driver_id dto w).1 k same
    | inr (v, _, e, _, own, _, saved) ↦
        let t = created env driver_id dto w in
        rw saved (
          Keyed-save env.trips_repository t w.trips k,
          λ h. save_trip-AllOwned env t w.trips w.vehicles h (owns-serves t v w e own),
        )
  ]
  perform-trips (Call.confirm_trip id) w k = moved_trips w _ k (confirm-Moves env id w)
  perform-trips (Call.cancel_trip id) w k = moved_trips w _ k (cancel-Moves env id w)
  perform-trips Call.sweep w k = moved_trips w _ k (sweep_expired-Moves env w k)
  perform-trips (Call.ask trip_id passenger_id seats) w k =
      same_trips w (request env trip_id passenger_id seats w).1 k
        (request-effect env trip_id passenger_id seats w).0
  perform-trips (Call.accept_booking id) w k = elim (accept-effect env id w) [
    | inl same ↦ same_trips w (accept env id w).1 k (ap (λ (w : World). w.trips) same)
    | inr (b, _, (_, _, saved)) ↦
        Recomputed-trips (confirmed_at env w.now b) w (accept env id w).1 k saved
  ]
  perform-trips (Call.reject_booking id) w k =
      same_trips w (reject env id w).1 k (reject-effect env id w).0
  perform-trips (Call.cancel_booking id) w k =
      let w' = (gig_drive.Bookings.cancel env id w).1 in
      elim (cancel-effect env id w) [
        | inl same ↦ same_trips w w' k (ap (λ (w : World). w.trips) same)
        | inr (b, _, left) ↦ elim left [
          | inl (_, (trips, _)) ↦ same_trips w w' k trips
          | inr (_, saved) ↦ Recomputed-trips (withdrawn env w.now b) w w' k saved
        ]
      ]
  perform-trips (Call.mark_paid id paid) w k =
      same_trips w (set_paid env id paid w).1 k (set_paid-effect env id paid w).0
  perform-trips (Call.join_waitlist trip_id passenger_id seats) w k =
      same_trips w (join env trip_id passenger_id seats w).1 k
        (join-same env trip_id passenger_id seats w).0
  perform-trips (Call.leave_waitlist trip_id passenger_id) w k =
      same_trips w (leave env trip_id passenger_id w).1 k (leave-same env trip_id passenger_id w).0
  perform-trips (Call.wait ms) w k = (k, λ h. h)

  edit-owner :
      (id : ℕ) (dto : UpdateTripDto) (w : World) (t : Trip) (v : Vehicle)
      → trip_of env id w ≡ some t
      → vehicle_of env (get_or dto.vehicle_id t.vehicle_id) w ≡ some v
      → let w' = (update env id dto w).1 in
        (w'.trips ≡ w.trips)
        ⊎ (((apply_update dto t).vehicle_id ≡ t.vehicle_id) ⊎ (v.owner_id ≡ t.driver_id))
  unfolding update apply_update assert_owns_vehicle get_details
  edit-owner id dto w t v e d = elim (Option-cases dto.vehicle_id) [
    | inl kept ↦ inr (inl (rw kept refl))
    | inr (n, chosen) ↦ elim (Bool-cases (n == t.vehicle_id)) [
      | inl same ↦ inr (inl (rw chosen ((==_iff _ _).0 same)))
      | inr other ↦ elim (Bool-cases (v.owner_id == t.driver_id)) [
        | inl own ↦ inr (inr ((==_iff _ _).0 own))
        | inr foreign ↦ inl (ground arith)
      ]
    ]
  ]

  edit-trips :
      (id : ℕ) (dto : UpdateTripDto) (w : World)
      → Keyed (λ t. t.id) w.trips
      → Trips w (update env id dto w).1
  unfolding apply_update
  edit-trips id dto w k = elim (update-effect env id dto w).1 [
    | inl same ↦ same_trips w (update env id dto w).1 k same
    | inr (t, v, _, e, d, _, _, _, saved) ↦ elim (edit-owner id dto w t v e d) [
      | inl same ↦ same_trips w (update env id dto w).1 k same
      | inr own ↦
          let edited = apply_update dto t in
          let (m, _) = env.trips_repository.find_one_hit _ w.trips t e in
          rw saved (
            Keyed-save env.trips_repository edited w.trips k,
            λ h. save_trip-AllOwned env edited w.trips w.vehicles h (elim own [
              | inl kept ↦
                  subst (λ n. 1 ≤ sum_by (serves record t { vehicle_id = n }) w.vehicles) (sym kept)
                    (h t m)
              | inr own ↦ owns-serves edited v w d own
            ]),
          )
    ]
  ]

  abbrev Sound : World → Type 0
  Sound w = Keyed (λ (t : Trip). t.id) w.trips × Linked w

  linked : (w w' : World) → Sound w → Trips w w' → w'.vehicles ≡ w.vehicles → Sound w'
  linked w w' (kt, (kv, h)) (kt', keeps) e = rw e (kt', (kv, keeps h))

  act-Sound : (a : Act) (w : World) → Sound w → Sound (act env a w)
  act-Sound (Act.calls c) w (kt, l) =
      linked w (perform env c w) (kt, l) (perform-trips c w kt) (perform-vehicles env c w)
  act-Sound (Act.edits_trip id dto) w (kt, l) =
      linked w (update env id dto w).1 (kt, l) (edit-trips id dto w kt)
        (update-vehicles env id dto w)
  act-Sound (Act.adds_vehicle owner_id dto) w (kt, l) =
      (rw (create-trips env owner_id dto w) kt, create-Linked env owner_id dto w l)
  act-Sound (Act.edits_vehicle id dto) w (kt, l) =
      (rw (update-trips env id dto w) kt, update-Linked env id dto w l)
  act-Sound (Act.removes_vehicle id) w (kt, l) =
      (rw (remove-trips env id w) kt, remove-Linked env id w l)

  -- Over any history of calls of the services, with edits of trips and removals of vehicles among them, each
  -- trip has its vehicle in the table, and the vehicle belongs to the driver of the trip, if that holds to
  -- begin with and each id stands in one row.
  pub act_all-AllOwned :
      (acts : List Act) (w : World)
      → Keyed (λ t. t.id) w.trips
      → Linked w
      → let w' = act_all env acts w in AllOwned w'.trips w'.vehicles
  act_all-AllOwned [] w kt l = l.1
  act_all-AllOwned (a ∷ rest) w kt l =
      let (kt', l') = act-Sound a w (kt, l) in act_all-AllOwned rest (act env a w) kt' l'
