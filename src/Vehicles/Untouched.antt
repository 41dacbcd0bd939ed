-- ===== src/Vehicles/Untouched.antt =====
-- The calls of the services for trips, bookings and the waitlist write no vehicles.
use gig_drive.Shared.{ℕ, Bool, ◌≡◌, refl, inl, inr, List, [], ◌∷◌, arith, Option-cases}
use gig_drive.Waitlist.Notices.{notify_on_seat_freed-vehicles}
use gig_drive.Entities.{TripStatus, same_status, Trip, Booking}
use gig_drive.Service.{World, Env, Event}
use gig_drive.TripChecks.{CreateTripDto, UpdateTripDto}
use gig_drive.SignalGroups.{on_trip_confirmed}
use gig_drive.TripQueries.{get_details, status_in}
use gig_drive.Trips.{
  active_statuses, create, confirm, update, sweep_expired, sweep_active, sweep_confirmed,
  recompute_status,
}
use gig_drive.Waitlist.{join, leave, assert_no_active_booking}
use gig_drive.Bookings.{request, accept, accept_locked, reject, set_paid, set_paid_on, is_bookable}
use gig_drive.Bookings.Effects.{after_save, found_booking, withdrawn}
use gig_drive.History.{Call, perform}

module _ (env : Env) where
  sweep_active-vehicles :
      (ts : List Trip) (w : World) → (sweep_active env ts w).1.vehicles ≡ w.vehicles
  unfolding sweep_active
  sweep_active-vehicles [] w = refl
  sweep_active-vehicles (t ∷ ts) w =
      let called_off = record t { status = TripStatus.cancelled } in
      ground (
        arith,
        sweep_active-vehicles ts w,
        sweep_active-vehicles ts record w {
          trips = env.trips_repository.save called_off w.trips;
          outbox = Event.trip_cancelled called_off ∷ w.outbox;
        },
      )

  sweep_confirmed-vehicles :
      (ts : List Trip) (w : World) → (sweep_confirmed env ts w).1.vehicles ≡ w.vehicles
  unfolding sweep_confirmed
  sweep_confirmed-vehicles [] w = refl
  sweep_confirmed-vehicles (t ∷ ts) w =
      let done = record t { status = TripStatus.completed } in
      ground (
        arith,
        sweep_confirmed-vehicles ts w,
        sweep_confirmed-vehicles ts record w {
          trips = env.trips_repository.save done w.trips;
          outbox = Event.trip_completed done ∷ w.outbox;
        },
      )

  sweep-vehicles : (w : World) → (sweep_expired env w).1.vehicles ≡ w.vehicles
  unfolding sweep_expired
  sweep-vehicles w =
      let active = env.trips_repository.find (λ t. status_in active_statuses t.status) w.trips in
      let w1 = (sweep_active env active w).1 in
      let confirmed =
        env.trips_repository.find (λ t. same_status t.status TripStatus.confirmed) w1.trips in
      ground (arith, sweep_active-vehicles active w, sweep_confirmed-vehicles confirmed w1)

  create-vehicles :
      (driver_id : ℕ) (dto : CreateTripDto) (w : World)
      → (create env driver_id dto w).1.vehicles ≡ w.vehicles
  unfolding create get_details
  create-vehicles driver_id dto w = ground arith

  confirm-vehicles : (id : ℕ) (w : World) → (confirm env id w).1.vehicles ≡ w.vehicles
  unfolding confirm get_details on_trip_confirmed
  confirm-vehicles id w = ground arith

  cancel_trip-vehicles :
      (id : ℕ) (w : World) → (gig_drive.Trips.cancel env id w).1.vehicles ≡ w.vehicles
  unfolding gig_drive.Trips.cancel get_details
  cancel_trip-vehicles id w = ground arith

  pub update-vehicles :
      (id : ℕ) (dto : UpdateTripDto) (w : World) → (update env id dto w).1.vehicles ≡ w.vehicles
  unfolding update get_details
  update-vehicles id dto w = ground arith

  recompute_status-vehicles :
      (id : ℕ) (w : World) → (recompute_status env id w).1.vehicles ≡ w.vehicles
  unfolding recompute_status
  recompute_status-vehicles id w = ground arith

  accept_locked-vehicles :
      (b : Booking) (w : World) → (accept_locked env b w).1.vehicles ≡ w.vehicles
  unfolding accept_locked
  accept_locked-vehicles b w = ground arith

  request-vehicles :
      (trip_id passenger_id seats : ℕ) (w : World)
      → (request env trip_id passenger_id seats w).1.vehicles ≡ w.vehicles
  unfolding request assert_no_active_booking
  request-vehicles trip_id passenger_id seats w = ground arith

  reject-vehicles : (id : ℕ) (w : World) → (reject env id w).1.vehicles ≡ w.vehicles
  unfolding reject
  reject-vehicles id w = ground arith

  set_paid-vehicles :
      (id : ℕ) (paid : Bool) (w : World) → (set_paid env id paid w).1.vehicles ≡ w.vehicles
  unfolding set_paid set_paid_on
  set_paid-vehicles id paid w = ground arith

  join-vehicles :
      (trip_id passenger_id seats : ℕ) (w : World)
      → (join env trip_id passenger_id seats w).1.vehicles ≡ w.vehicles
  unfolding join assert_no_active_booking
  join-vehicles trip_id passenger_id seats w = ground arith

  leave-vehicles :
      (trip_id passenger_id : ℕ) (w : World)
      → (leave env trip_id passenger_id w).1.vehicles ≡ w.vehicles
  unfolding leave
  leave-vehicles trip_id passenger_id w = ground arith

  accept-vehicles : (id : ℕ) (w : World) → (accept env id w).1.vehicles ≡ w.vehicles
  unfolding accept
  accept-vehicles id w = elim (Option-cases (found_booking env id w)) [
    | inl e ↦ ground arith
    | inr (b, e) ↦ ground (
      arith,
      accept_locked-vehicles b w,
      recompute_status-vehicles b.trip_id (accept_locked env b w).1,
    )
  ]

  cancel_booking-vehicles :
      (id : ℕ) (w : World) → (gig_drive.Bookings.cancel env id w).1.vehicles ≡ w.vehicles
  unfolding gig_drive.Bookings.cancel
  cancel_booking-vehicles id w = elim (Option-cases (found_booking env id w)) [
    | inl e ↦ ground arith
    | inr (b, e) ↦
        let left = after_save env (withdrawn env w.now b) w in
        let recomputed = (recompute_status env b.trip_id left).1 in
        ground (
          arith,
          recompute_status-vehicles b.trip_id left,
          notify_on_seat_freed-vehicles env b.trip_id recomputed,
        )
  ]

  -- No call on trips, bookings or the waitlist writes vehicles.
  pub perform-vehicles : (c : Call) (w : World) → (perform env c w).vehicles ≡ w.vehicles
  unfolding perform
  perform-vehicles (Call.publish driver_id dto) w = create-vehicles driver_id dto w
  perform-vehicles (Call.confirm_trip id) w = confirm-vehicles id w
  perform-vehicles (Call.cancel_trip id) w = cancel_trip-vehicles id w
  perform-vehicles Call.sweep w = sweep-vehicles w
  perform-vehicles (Call.ask trip_id passenger_id seats) w =
      request-vehicles trip_id passenger_id seats w
  perform-vehicles (Call.accept_booking id) w = accept-vehicles id w
  perform-vehicles (Call.reject_booking id) w = reject-vehicles id w
  perform-vehicles (Call.cancel_booking id) w = cancel_booking-vehicles id w
  perform-vehicles (Call.mark_paid id paid) w = set_paid-vehicles id paid w
  perform-vehicles (Call.join_waitlist trip_id passenger_id seats) w =
      join-vehicles trip_id passenger_id seats w
  perform-vehicles (Call.leave_waitlist trip_id passenger_id) w =
      leave-vehicles trip_id passenger_id w
  perform-vehicles (Call.wait ms) w = refl
