-- ===== src/Trips/Settled.antt =====
-- `sweepExpired` of backend/src/trips/trips.service.ts: the trips after it.
use mathlib.Core.Logic.Or
use gig_drive.Shared.{◌≤◌, ◌<◌, true, ◌≡◌, refl, Mem, arith, Keyed}
use gig_drive.Entities.{TripStatus, same_status, Trip}
use gig_drive.Repository.Queries.{mem-find_true}
use gig_drive.Service.{World, Env}
use gig_drive.StateMachine.Lifecycle.{is_band}
use gig_drive.Seats.{confirmed_total}
use gig_drive.TripQueries.{status_in}
use gig_drive.Trips.{sweep_confirmed, sweep_expired, active_statuses}
use gig_drive.Trips.Sweep.{
  trip_id, active_trips, confirmed_trips, after_active, sweep_expired-loops, after_active-Moves,
  Keyed-Moves,
}
use gig_drive.Trips.Overdue.{
  sweep_active-decides, sweep_confirmed-band, sweep_confirmed-completes, sweep_active-frame,
}

module _ (env : Env) where
  open env use {trips_repository}

  Keyed-after_active :
      (w : World) → Keyed trip_id w.trips → Keyed trip_id (after_active env w).trips
  Keyed-after_active w k = Keyed-Moves env (after_active-Moves env w k) k

  -- If trip ids are unique, then after the sweep every trip that is still open for booking and past its
  -- deadline has its minimum of passengers.
  pub sweep_expired-settles :
      (w : World)
      → Keyed trip_id w.trips
      → (u : Trip) → Mem u (sweep_expired env w).1.trips
      → is_band u.status ≡ true
      → u.confirmation_deadline ≤ w.now
      → u.min_passengers ≤ confirmed_total u.id w.bookings
  sweep_expired-settles w k u m b =
      let w1 = after_active env w in
      let m1 : Mem u (sweep_confirmed env (confirmed_trips env w1) w1).1.trips =
        rw (sweep_expired-loops env w) at m in
      sweep_active-decides env (active_trips env w) w k
        (λ x n c. Or.inr (
          mem-find_true trips_repository (λ t. status_in active_statuses t.status) x w.trips n
            (ground arith)))
        u (sweep_confirmed-band env (confirmed_trips env w1) w1 u m1 (ground arith)) (ground arith)

  -- If trip ids are unique, then after the sweep every trip that is still CONFIRMED has its departure to
  -- come.
  pub sweep_expired-completes :
      (w : World)
      → Keyed trip_id w.trips
      → (u : Trip) → Mem u (sweep_expired env w).1.trips
      → u.status ≡ TripStatus.confirmed
      → w.now < u.departure_at
  sweep_expired-completes w k u m c =
      let w1 = after_active env w in
      let m1 : Mem u (sweep_confirmed env (confirmed_trips env w1) w1).1.trips =
        rw (sweep_expired-loops env w) at m in
      let departs : w1.now < u.departure_at =
        sweep_confirmed-completes env (confirmed_trips env w1) w1 (Keyed-after_active w k)
          (λ x n d. Or.inr (
            mem-find_true trips_repository (λ t. same_status t.status TripStatus.confirmed) x
              w1.trips n (ground arith)))
          u m1 (rw c refl) in
      omega (arith, departs, (sweep_active-frame env (active_trips env w) w).0)
