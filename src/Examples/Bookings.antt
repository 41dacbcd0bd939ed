-- ===== src/Examples/Bookings.antt =====
-- The theorems on bookings and histories, at the small database.
use mathlib.Core.List.{mem-cons_self, mem-cons_of_mem}
use gig_drive.Shared.{◌≡◌, refl, ◌⊎◌, inl, some, none, true, List, [], ◌∷◌, Mem, arith, All}
use gig_drive.Entities.{TripStatus, PricingMode, Trip, Booking, BookingStatus}
use gig_drive.Errors.{err, conflict, Reason}
use gig_drive.Service.{World}
use gig_drive.Seats.{confirmed_total}
use gig_drive.TripChecks.{CreateTripDto}
use gig_drive.Bookings.{is_bookable, request, accept, accept_locked, set_paid_on, new_booking}
use gig_drive.Capacity.{Valid, save_seatless-IsValid}
use gig_drive.Bookings.Keeps.{accept_locked-Valid}
use gig_drive.Bookings.Seats.{accept-total, accept-refuses}
use gig_drive.Bookings.Requests.{request-checks, IsRequestable}
use gig_drive.Bookings.Effects.{found_trip, withdrawn}
use gig_drive.Bookings.Races.{set_paid_on-stale}
use gig_drive.History.{Call, run, IsChecked, run-Sound, Sound}
use gig_drive.History.Progress.{run-Follows, run-finished, Follows}
use gig_drive.Examples.{env, world, trip, booking, world-Valid, world-Sound}

abbrev pub offer : CreateTripDto
offer = record {
  vehicle_id = 1;
  concert_id = 1;
  pricing_mode = PricingMode.fixed_per_seat;
  total_cost = 10;
  currency = none;
  min_passengers = 2;
  max_passengers = 4;
  confirmation_deadline = 300;
  departure_at = 800;
  round_trip = none;
  notes = none;
  stops = [];
}

-- The driver accepts the second passenger and publishes a trip, the first passenger pays and then
-- cancels, the driver confirms, and the sweep runs after the deadline and after the departure.
abbrev calls : List Call
calls =
    Call.accept_booking 2
    ∷ Call.publish 1 offer
    ∷ Call.mark_paid 1 true
    ∷ Call.cancel_booking 1
    ∷ Call.confirm_trip 1
    ∷ Call.wait 500
    ∷ Call.sweep
    ∷ Call.wait 500
    ∷ Call.sweep
    ∷ []

calls-IsChecked : All IsChecked calls
calls-IsChecked = (tt, (omega arith, (tt, (tt, (tt, (tt, (tt, (tt, (tt, tt)))))))))

run-Sound_example : Sound env (run env calls world)
run-Sound_example = run-Sound env calls world calls-IsChecked world-Sound

run-Follows_example : Follows env calls world (trip 1 TripStatus.ready)
run-Follows_example =
    run-Follows env calls world calls-IsChecked world-Sound (trip 1 TripStatus.ready) mem-cons_self

run-finished_example :
    (u : Trip) × Mem u (run env calls world).trips × (u.id ≡ 2) × (u.status ≡ TripStatus.completed)
run-finished_example =
    run-finished env calls world calls-IsChecked world-Sound (trip 2 TripStatus.completed)
      (mem-cons_of_mem (trip 1 TripStatus.ready) mem-cons_self) (inl refl)

accept_locked-Valid_example : Valid (accept_locked env (booking 2 3 BookingStatus.pending) world).1
accept_locked-Valid_example =
    accept_locked-Valid env (booking 2 3 BookingStatus.pending) world world-Valid

accept-total_example : confirmed_total 1 (accept env 2 world).1.bookings ≡ 2
unfolding is_bookable
accept-total_example =
    accept-total env 2 1 world (booking 2 3 BookingStatus.pending) (trip 1 TripStatus.ready)
      world-Valid refl refl (refl, refl, omega arith)

accept-refuses_example : accept env 1 world ≡ (err (conflict Reason.only_pending_accepted), world)
accept-refuses_example =
    accept-refuses env 1 world (booking 1 2 BookingStatus.confirmed) (trip 1 TripStatus.ready) refl
      refl (inl refl)

request-checks_example :
    ((request env 1 2 1 world).1.bookings ≡ world.bookings)
    ⊎ ((t : Trip) × (found_trip env 1 world ≡ some t)
        × IsRequestable env 1 2 1 t world
        × ((request env 1 2 1 world).1.bookings
            ≡ env.bookings_repository.save (new_booking env 1 2 1 world) world.bookings))
request-checks_example = request-checks env 1 2 1 world

-- The first passenger has cancelled, while `setPaid` holds the row that it read before.
abbrev gone : Booking
gone = withdrawn env 100 (booking 1 2 BookingStatus.confirmed)

abbrev later : World
later = record world { bookings = gone ∷ booking 2 3 BookingStatus.pending ∷ [] }

later-Valid : Valid later
later-Valid =
    save_seatless-IsValid env world.trips world.bookings world-Valid gone (λ k. ground arith)

set_paid_on-stale_example :
    confirmed_total 1 (set_paid_on env (booking 1 2 BookingStatus.confirmed) true later).1.bookings
    ≡ 1
set_paid_on-stale_example =
    set_paid_on-stale env (booking 1 2 BookingStatus.confirmed) gone true later later-Valid refl
      mem-cons_self refl refl
