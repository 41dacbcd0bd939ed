-- ===== src/Bookings/Seats.antt =====
-- What accepting and cancelling a booking do to the seats of its trip.
use gig_drive.Shared.{ℕ, ◌+◌, ◌<◌, ◌==◌, false, not, ◌≡◌, refl, ◌⊎◌, some, arith, if◌then◌else◌}
use gig_drive.Entities.{BookingStatus, same_booking_status, Trip, Booking}
use gig_drive.Errors.{err, conflict, Reason}
use gig_drive.Service.{World, Env}
use gig_drive.Capacity.{Valid, save_row-total}
use gig_drive.Seats.{confirmed_total}
use gig_drive.Trips.{recompute_status}
use gig_drive.Trips.Effects.{recompute_status-effect}
use gig_drive.Waitlist.Notices.{notify_on_seat_freed-same}
use gig_drive.Bookings.{accept, accept_locked, is_bookable, cancel}
use gig_drive.Bookings.Effects.{
  found_booking, found_trip, HasRoom, after_save, confirmed_at, withdrawn,
}

module _ (env : Env) where
  open env use {bookings_repository}

  accept-bookings :
      (id : ℕ) (w : World) (b : Booking) (t : Trip)
      → found_booking env id w ≡ some b
      → b.status ≡ BookingStatus.pending
      → HasRoom env b t w
      → (accept env id w).1.bookings
        ≡ (recompute_status env b.trip_id (after_save env (confirmed_at env w.now b) w)).1.bookings
  unfolding accept accept_locked is_bookable
  accept-bookings id w b t found pending room = ground arith

  -- If the capacity invariant holds and a pending booking has room on its trip, accepting it adds its
  -- seats to the confirmed seats of that trip and leaves those of every other trip.
  pub accept-total :
      (id trip_id : ℕ) (w : World) (b : Booking) (t : Trip)
      → Valid w
      → found_booking env id w ≡ some b
      → b.status ≡ BookingStatus.pending
      → HasRoom env b t w
      → confirmed_total trip_id (accept env id w).1.bookings
        ≡ confirmed_total trip_id w.bookings + (if b.trip_id == trip_id then b.seats else 0)
  accept-total id trip_id w b t v found pending room =
      let saved = confirmed_at env w.now b in
      let (m, _) = bookings_repository.find_one_hit _ w.bookings b found in
      let total = save_row-total env w.bookings v.bookings_keyed b saved trip_id m refl in
      rw
        (
          accept-bookings id w b t found pending room,
          (recompute_status-effect env b.trip_id (after_save env saved w)).0,
        )
        (ground arith)

  -- The first check of `accept` that fails.
  abbrev pub refusal : Booking → Trip → Reason
  refusal b t =
      if not (same_booking_status b.status BookingStatus.pending)
      then Reason.only_pending_accepted
      else if not (is_bookable t.status)
      then Reason.not_accepting_bookings
      else Reason.not_enough_seats

  -- A booking whose trip is there, and which is not pending or whose trip takes no bookings or has too
  -- few seats left, is refused with the reason of the first check that fails, and nothing is written.
  pub accept-refuses :
      (id : ℕ) (w : World) (b : Booking) (t : Trip)
      → found_booking env id w ≡ some b
      → found_trip env b.trip_id w ≡ some t
      → (same_booking_status b.status BookingStatus.pending ≡ false)
        ⊎ (is_bookable t.status ≡ false)
        ⊎ (t.max_passengers < confirmed_total b.trip_id w.bookings + b.seats)
      → accept env id w ≡ (err (conflict (refusal b t)), w)
  unfolding accept accept_locked is_bookable
  accept-refuses id w b t found trip full = ground arith

  cancel-bookings :
      (id : ℕ) (w : World) (b : Booking)
      → found_booking env id w ≡ some b
      → b.status ≡ BookingStatus.confirmed
      → (cancel env id w).1.bookings
        ≡ (recompute_status env b.trip_id (after_save env (withdrawn env w.now b) w)).1.bookings
  unfolding cancel
  cancel-bookings id w b found confirmed = ground (
    arith,
    notify_on_seat_freed-same env b.trip_id
        (recompute_status env b.trip_id (after_save env (withdrawn env w.now b) w)).1,
  )

  -- If the capacity invariant holds, cancelling a confirmed booking takes its seats off the confirmed
  -- seats of its trip and leaves those of every other trip.
  pub cancel-total :
      (id trip_id : ℕ) (w : World) (b : Booking)
      → Valid w
      → found_booking env id w ≡ some b
      → b.status ≡ BookingStatus.confirmed
      → confirmed_total trip_id (cancel env id w).1.bookings
          + (if b.trip_id == trip_id then b.seats else 0)
        ≡ confirmed_total trip_id w.bookings
  cancel-total id trip_id w b v found confirmed =
      let gone = withdrawn env w.now b in
      let (m, _) = bookings_repository.find_one_hit _ w.bookings b found in
      let total = save_row-total env w.bookings v.bookings_keyed b gone trip_id m refl in
      rw
        (
          cancel-bookings id w b found confirmed,
          (recompute_status-effect env b.trip_id (after_save env gone w)).0,
        )
        (ground arith)
