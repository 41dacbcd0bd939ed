-- ===== src/History.antt =====
-- Histories: any calls of the services, by any users, one after the other, and the passing of time
-- between them. Edits of a trip are no such call.
pub mod Progress
use mathlib.Core.Logic.Or
use mathlib.Core.Bool.{Bool-set}
use gig_drive.Shared.{
  ℕ, ◌+◌, ◌≤◌, ◌<◌, ◌==◌, Bool, true, false, ◌≡◌, refl, ◌⊎◌, inl, inr, Option, none, some, List, [],
  ◌∷◌, Mem, arith, All, count_key-unused,
}
use gig_drive.Entities.{Trip}
use gig_drive.Repository.Queries.{mem-save}
use gig_drive.Service.{World, Env}
use gig_drive.Capacity.{Valid}
use gig_drive.StateMachine.{derive_status}
use gig_drive.Seats.{confirmed_total}
use gig_drive.Synced.{Synced, in_sync, Moves-Synced}
use gig_drive.TripChecks.{CreateTripDto}
use gig_drive.Trips.{create, confirm, sweep_expired}
use gig_drive.Trips.Effects.{Moves, confirm-Moves, cancel-Moves}
use gig_drive.Trips.Sweep.{sweep_expired-Moves}
use gig_drive.Trips.Keeps.{Moves-Valid, create-Valid, create-effect, create-bookings, created}
use gig_drive.Waitlist.{join, leave, assert_no_active_booking}
use gig_drive.Bookings.{request, accept, reject, set_paid}
use gig_drive.Bookings.Keeps.{
  request-Valid, accept-Valid, reject-Valid, cancel-Valid, set_paid-Valid,
}
use gig_drive.Bookings.Single.{
  IsSingle, Moves-Single, request-Single, accept-Single, reject-Single, cancel-Single,
  set_paid-Single,
}
use gig_drive.Bookings.Status.{
  request-Synced, accept-Synced, reject-Synced, cancel-Synced, set_paid-Synced,
}

pub data Call : Type 0 where
  publish : ℕ → CreateTripDto → Call
  confirm_trip cancel_trip : ℕ → Call
  sweep : Call
  ask : ℕ → ℕ → ℕ → Call
  accept_booking reject_booking cancel_booking : ℕ → Call
  mark_paid : ℕ → Bool → Call
  join_waitlist : ℕ → ℕ → ℕ → Call
  leave_waitlist : ℕ → ℕ → Call
  -- Time passes.
  wait : ℕ → Call

unfoldable pub perform : Env → Call → World → World
perform env (Call.publish driver_id dto) w = (create env driver_id dto w).1
perform env (Call.confirm_trip id) w = (confirm env id w).1
perform env (Call.cancel_trip id) w = (gig_drive.Trips.cancel env id w).1
perform env Call.sweep w = (sweep_expired env w).1
perform env (Call.ask trip_id passenger_id seats) w = (request env trip_id passenger_id seats w).1
perform env (Call.accept_booking id) w = (accept env id w).1
perform env (Call.reject_booking id) w = (reject env id w).1
perform env (Call.cancel_booking id) w = (gig_drive.Bookings.cancel env id w).1
perform env (Call.mark_paid id paid) w = (set_paid env id paid w).1
perform env (Call.join_waitlist trip_id passenger_id seats) w =
    (join env trip_id passenger_id seats w).1
perform env (Call.leave_waitlist trip_id passenger_id) w = (leave env trip_id passenger_id w).1
perform env (Call.wait ms) w = record w { now = w.now + ms }

abbrev pub run : Env → List Call → World → World
run env [] w = w
run env (call ∷ calls) w = run env calls (perform env call w)

-- What the validation of the request body lets through: `@Min(1)` on minPassengers.
abbrev pub IsChecked : Call → Type 0
IsChecked (Call.publish driver_id dto) = 1 ≤ dto.min_passengers
IsChecked _ = Unit

module _ (env : Env) where
  open env use {trips_repository}

  pub join-same :
      (trip_id passenger_id seats : ℕ) (w : World)
      → let w' = (join env trip_id passenger_id seats w).1 in
        (w'.trips ≡ w.trips) × (w'.bookings ≡ w.bookings)
  unfolding join assert_no_active_booking
  join-same trip_id passenger_id seats w = ground arith

  pub leave-same :
      (trip_id passenger_id : ℕ) (w : World)
      → let w' = (leave env trip_id passenger_id w).1 in
        (w'.trips ≡ w.trips) × (w'.bookings ≡ w.bookings)
  unfolding leave
  leave-same trip_id passenger_id w = ground arith

  created-in_sync :
      (driver_id : ℕ) (dto : CreateTripDto) (w : World)
      → Valid w
      → 1 ≤ dto.min_passengers
      → dto.min_passengers ≤ dto.max_passengers
      → in_sync w.bookings (created env driver_id dto w) ≡ true
  unfolding derive_status
  created-in_sync driver_id dto w v h k =
      let unused = v.booked (trips_repository.new_id w.trips) (
        count_key-unused (λ (t : Trip). t.id) (trips_repository.new_id w.trips) w.trips
          (trips_repository.new_id_unused w.trips)) in
      rw unused (ground arith)

  create-Synced :
      (driver_id : ℕ) (dto : CreateTripDto) (w : World)
      → Valid w
      → 1 ≤ dto.min_passengers
      → Synced w
      → Synced (create env driver_id dto w).1
  create-Synced driver_id dto w v h s =
      let b = create-bookings env driver_id dto w in
      elim (create-effect env driver_id dto w) [
        | inl same ↦ rw (same, b) s
        | inr (_, _, _, _, _, (k, _, _, _, _), e) ↦
            rw (e, b)
              λ u n.
                Or.elim (Bool-set _ _)
                  (mem-save trips_repository u (created env driver_id dto w) w.trips n)
                  (λ c. rw c (created-in_sync driver_id dto w v h k)) (λ old. s u old)
      ]

  -- The tables are sound: no trip is overbooked, each status is in step with the bookings, and nobody
  -- holds two requests or bookings on one trip.
  abbrev pub Sound : World → Type 0
  Sound w = Valid w × Synced w × IsSingle w.bookings

  Moves-Sound : {w w' : World} → Moves env w w' → Sound w → Sound w'
  Moves-Sound m (v, s, one) = (Moves-Valid m v, Moves-Synced m s, Moves-Single m one)

  perform-Sound : (c : Call) (w : World) → IsChecked c → Sound w → Sound (perform env c w)
  unfolding perform
  perform-Sound (Call.publish driver_id dto) w h (v, s, one) = (
    create-Valid env driver_id dto w v,
    create-Synced driver_id dto w v h s,
    rw (create-bookings env driver_id dto w) one,
  )
  perform-Sound (Call.confirm_trip id) w _ g = Moves-Sound (confirm-Moves env id w) g
  perform-Sound (Call.cancel_trip id) w _ g = Moves-Sound (cancel-Moves env id w) g
  perform-Sound Call.sweep w _ (v, s, one) =
      Moves-Sound (sweep_expired-Moves env w v.trips_keyed) (v, s, one)
  perform-Sound (Call.ask trip_id passenger_id seats) w _ (v, s, one) = (
    request-Valid env trip_id passenger_id seats w v,
    request-Synced env trip_id passenger_id seats w v s,
    request-Single env trip_id passenger_id seats w one,
  )
  perform-Sound (Call.accept_booking id) w _ (v, s, one) =
      (accept-Valid env id w v, accept-Synced env id w v s, accept-Single env id w v one)
  perform-Sound (Call.reject_booking id) w _ (v, s, one) =
      (reject-Valid env id w v, reject-Synced env id w v s, reject-Single env id w v one)
  perform-Sound (Call.cancel_booking id) w _ (v, s, one) =
      (cancel-Valid env id w v, cancel-Synced env id w v s, cancel-Single env id w v one)
  perform-Sound (Call.mark_paid id paid) w _ (v, s, one) = (
    set_paid-Valid env id paid w v,
    set_paid-Synced env id paid w v s,
    set_paid-Single env id paid w v one,
  )
  perform-Sound (Call.join_waitlist trip_id passenger_id seats) w _ g =
      let (trips, bookings) = join-same trip_id passenger_id seats w in rw (trips, bookings) g
  perform-Sound (Call.leave_waitlist trip_id passenger_id) w _ g =
      let (trips, bookings) = leave-same trip_id passenger_id w in rw (trips, bookings) g
  perform-Sound (Call.wait ms) w _ g = g

  -- Any history of calls leads from sound tables to sound tables, if each published payload asks for at
  -- least one passenger: no trip has more confirmed seats than it offers, each trip that is open for
  -- booking has the status derived from its confirmed seats, and nobody holds two requests or bookings
  -- on one trip.
  pub run-Sound :
      (calls : List Call) (w : World) → All IsChecked calls → Sound w → Sound (run env calls w)
  run-Sound [] w _ g = g
  run-Sound (c ∷ calls) w (h, rest) g =
      run-Sound calls (perform env c w) rest (perform-Sound c w h g)
