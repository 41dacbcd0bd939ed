-- ===== src/Bookings/Races.antt =====
-- Calls that run side by side. `accept` and `setPaid` read the row of a booking and write it back later,
-- and other calls may run in between: the part after the read starts at a later world, with the copy
-- that the read has returned.
use gig_drive.Shared.{◌+◌, Bool, ◌≡◌, Mem, arith}
use gig_drive.Entities.{BookingStatus, Booking}
use gig_drive.Service.{World, Env}
use gig_drive.Capacity.{Valid, save_row-total}
use gig_drive.Seats.{confirmed_total}
use gig_drive.Bookings.{set_paid_on}

module _ (env : Env) where
  open env use {bookings_repository}

  set_paid_on-effect :
      (b : Booking) (paid : Bool) (w : World)
      → b.status ≡ BookingStatus.confirmed
      → let w' = (set_paid_on env b paid w).1 in
        w'.bookings ≡ bookings_repository.save (record b { paid = paid }) w.bookings
  unfolding set_paid_on
  set_paid_on-effect b paid w h = ground arith

  -- If the row of a booking is cancelled while `setPaid` holds a copy that is CONFIRMED, then `setPaid`
  -- adds the seats of the copy to the confirmed seats of its trip, however many are left.
  pub set_paid_on-stale :
      (b old : Booking) (paid : Bool) (w : World)
      → Valid w
      → b.status ≡ BookingStatus.confirmed
      → Mem old w.bookings
      → old.id ≡ b.id
      → old.status ≡ BookingStatus.cancelled_by_passenger
      → confirmed_total b.trip_id (set_paid_on env b paid w).1.bookings
        ≡ confirmed_total b.trip_id w.bookings + b.seats
  set_paid_on-stale b old paid w v h m e gone =
      let total =
        save_row-total env w.bookings v.bookings_keyed old (record b { paid = paid }) b.trip_id m
          e in
      rw (set_paid_on-effect b paid w h) (ground arith)
