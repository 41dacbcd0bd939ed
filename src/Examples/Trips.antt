-- ===== src/Examples/Trips.antt =====
-- The theorems on the trips service, at the small database.
use mathlib.Core.Logic.Or
use native.Mathlib.Bridge.{le_prop}
use mathlib.Core.List.{mem-cons, not-mem-nil, mem-cons_self}
use gig_drive.Shared.{◌≤◌, refl, some, none, [], ◌∷◌, arith}
use gig_drive.Entities.{TripStatus, BookingStatus}
use gig_drive.Service.{World}
use gig_drive.Capacity.{Valid}
use gig_drive.Seats.{confirmed_total, count_confirmed_seats}
use gig_drive.TripChecks.{UpdateTripDto, apply_update}
use gig_drive.Trips.{update, recompute_status, sweep_expired}
use gig_drive.Trips.Effects.{Moves, recompute_status-Moves}
use gig_drive.Trips.Settled.{sweep_expired-settles}
use gig_drive.Trips.Edits.{update_overbooks}
use gig_drive.Examples.{env, world, van, concert, trip, booking, world-Valid}

recompute_status-Moves_example : Moves env world (recompute_status env 1 world).1
recompute_status-Moves_example = recompute_status-Moves env 1 world

-- The first trip still has READY, although its one seat is taken.
abbrev lagging : World
lagging = record world { trips = (record (trip 1 TripStatus.ready) { max_passengers = 1 }) ∷ [] }

-- The deadline is over, and the minimum of the first trip is reached.
abbrev overdue : World
overdue = record world { now = 600 }

sweep_expired-settles_example : 1 ≤ confirmed_total 1 overdue.bookings
unfolding sweep_expired count_confirmed_seats
sweep_expired-settles_example =
    sweep_expired-settles env overdue world-Valid.trips_keyed (trip 1 TripStatus.ready)
      mem-cons_self refl (omega arith)

-- The first trip is confirmed and has not left.
abbrev boarding : World
boarding = record overdue { trips = trip 1 TripStatus.confirmed ∷ trip 2 TripStatus.completed ∷ [] }

-- Two seats of an OPEN trip are confirmed, which needs three.
abbrev filling : World
filling = record world {
  trips = record (trip 1 TripStatus.opened) { min_passengers = 3 } ∷ [];
  bookings = booking 1 2 BookingStatus.confirmed ∷ booking 2 3 BookingStatus.confirmed ∷ [];
}

abbrev smaller : UpdateTripDto
smaller = record {
  vehicle_id = none;
  concert_id = none;
  pricing_mode = none;
  total_cost = none;
  currency = none;
  min_passengers = some 1;
  max_passengers = some 1;
  confirmation_deadline = none;
  departure_at = none;
  round_trip = none;
  notes = none;
  stops = none;
}

update_overbooks_example : ¬ Valid (update env 1 smaller filling).1
unfolding apply_update
update_overbooks_example =
    update_overbooks env 1 smaller filling
      (record (trip 1 TripStatus.opened) { min_passengers = 3 }) van concert refl refl refl refl
      refl (omega arith, omega arith, omega arith, omega arith, omega arith) (omega arith)

filling-Valid : Valid filling
filling-Valid = record {
  within =
      λ t m. Or.elim le_prop (mem-cons.0 m) (λ e. rw e (omega arith)) (λ o. absurd (not-mem-nil o));
  trips_keyed = λ k. ground arith;
  bookings_keyed = λ k. ground arith;
  booked = λ k none. ground arith;
}
