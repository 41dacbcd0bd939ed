-- ===== src/Bookings/Effects.antt =====
-- What the calls of backend/src/bookings/bookings.service.ts write to the tables, on each branch.
use gig_drive.Shared.{
  ℕ, ◌+◌, ◌≤◌, ◌==◌, Bool, true, ◌≡◌, ◌⊎◌, inl, inr, Option, none, some, arith, Option-cases,
}
use gig_drive.Entities.{BookingStatus, Trip, Booking}
use gig_drive.Service.{World, Env}
use gig_drive.Seats.{confirmed_total}
use gig_drive.Trips.{recompute_status}
use gig_drive.Waitlist.{assert_no_active_booking}
use gig_drive.Waitlist.Notices.{notify_on_seat_freed-same}
use gig_drive.Bookings.{
  is_bookable, decided, to_dtos, to_dto, new_booking, request, accept_locked, accept, reject,
  cancel, set_paid,
}

-- Two worlds agree on the tables that the capacity of trips depends on.
abbrev pub Same : World → World → Type 0
Same w w' = (w'.trips ≡ w.trips) × (w'.bookings ≡ w.bookings)

module _ (env : Env) where
  open env use {trips_repository, bookings_repository}

  abbrev pub found_booking : ℕ → World → Option Booking
  found_booking id w = bookings_repository.find_one (λ b. b.id == id) w.bookings

  abbrev pub found_trip : ℕ → World → Option Trip
  found_trip id w = trips_repository.find_one (λ t. t.id == id) w.trips

  pub to_dto-same : (b : Booking) (w : World) → (to_dto env b w).1 ≡ w
  unfolding to_dtos
  to_dto-same b w = ground arith

  pub request-effect :
      (trip_id passenger_id seats : ℕ) (w : World)
      → let w' = (request env trip_id passenger_id seats w).1 in
        (w'.trips ≡ w.trips)
        × ((w'.bookings ≡ w.bookings)
            ⊎ (w'.bookings
                ≡ bookings_repository.save
                    (new_booking env trip_id passenger_id seats w)
                    w.bookings))
  unfolding request assert_no_active_booking
  request-effect trip_id passenger_id seats w = ground arith

  pub reject-effect :
      (id : ℕ) (w : World)
      → let w' = (reject env id w).1 in
        (w'.trips ≡ w.trips)
        × ((w'.bookings ≡ w.bookings)
            ⊎ ((b : Booking) × (found_booking id w ≡ some b)
                × (b.status ≡ BookingStatus.pending)
                × (w'.bookings
                    ≡ bookings_repository.save
                        (decided BookingStatus.rejected w.now b)
                        w.bookings)))
  unfolding reject
  reject-effect id w = ground arith

  pub set_paid-effect :
      (id : ℕ) (paid : Bool) (w : World)
      → let w' = (set_paid env id paid w).1 in
        (w'.trips ≡ w.trips)
        × ((w'.bookings ≡ w.bookings)
            ⊎ ((b : Booking) × (found_booking id w ≡ some b)
                × (b.status ≡ BookingStatus.confirmed)
                × (w'.bookings ≡ bookings_repository.save (record b { paid = paid }) w.bookings)))
  unfolding set_paid
  set_paid-effect id paid w = ground arith

  -- The world after the row of a booking is written.
  abbrev pub after_save : Booking → World → World
  after_save b w = record w { bookings = bookings_repository.save b w.bookings }

  -- A booking finds room on its trip: the trip takes bookings, and the seats are free.
  abbrev pub HasRoom : Booking → Trip → World → Type 0
  HasRoom b t w =
      (found_trip b.trip_id w ≡ some t)
      × (is_bookable t.status ≡ true)
      × (confirmed_total b.trip_id w.bookings + b.seats ≤ t.max_passengers)

  abbrev pub confirmed_at : ℕ → Booking → Booking
  confirmed_at now b = decided BookingStatus.confirmed now b

  -- The transaction writes the confirmed booking, or it throws and writes nothing.
  abbrev pub Accepts : Booking → World → World → Type 0
  Accepts b w w' = (t : Trip) × HasRoom b t w × Same (after_save (confirmed_at w.now b) w) w'

  accept_locked-found :
      (b : Booking) (w : World) (t : Trip)
      → found_trip b.trip_id w ≡ some t
      → let w' = (accept_locked env b w).1 in
        (w' ≡ w) ⊎ (HasRoom b t w × Same (after_save (confirmed_at w.now b) w) w')
  unfolding accept_locked is_bookable
  accept_locked-found b w t e = ground arith

  accept_locked-missing :
      (b : Booking) (w : World) → found_trip b.trip_id w ≡ none → (accept_locked env b w).1 ≡ w
  unfolding accept_locked
  accept_locked-missing b w e = ground arith

  pub accept_locked-effect :
      (b : Booking) (w : World) → let w' = (accept_locked env b w).1 in (w' ≡ w) ⊎ Accepts b w w'
  accept_locked-effect b w = elim (Option-cases (found_trip b.trip_id w)) [
    | inl e ↦ inl (accept_locked-missing b w e)
    | inr (t, e) ↦ elim (accept_locked-found b w t e) [
      | inl same ↦ inl same
      | inr (room, saved) ↦ inr (t, room, saved)
    ]
  ]

  -- The tables after a recomputation that follows the write of a booking.
  abbrev pub Recomputed : Booking → World → World → Type 0
  Recomputed b w w' = Same (recompute_status env b.trip_id (after_save b w)).1 w'

  accept-found :
      (id : ℕ) (w : World) (b : Booking) (t : Trip)
      → found_booking id w ≡ some b
      → found_trip b.trip_id w ≡ some t
      → let w' = (accept env id w).1 in
        (w' ≡ w)
        ⊎ ((b.status ≡ BookingStatus.pending)
            × HasRoom b t w
            × Recomputed (confirmed_at w.now b) w w')
  unfolding accept accept_locked is_bookable
  accept-found id w b t e d = ground arith

  accept-missing :
      (id : ℕ) (w : World)
      → (found_booking id w ≡ none)
        ⊎ ((b : Booking) × (found_booking id w ≡ some b) × (found_trip b.trip_id w ≡ none))
      → (accept env id w).1 ≡ w
  unfolding accept accept_locked
  accept-missing id w h = ground arith

  abbrev pub Accepted : Booking → World → World → Type 0
  Accepted b w w' =
      (b.status ≡ BookingStatus.pending)
      × ((t : Trip) × HasRoom b t w)
      × Recomputed (confirmed_at w.now b) w w'

  pub accept-effect :
      (id : ℕ) (w : World)
      → let w' = (accept env id w).1 in
        (w' ≡ w) ⊎ ((b : Booking) × (found_booking id w ≡ some b) × Accepted b w w')
  accept-effect id w = elim (Option-cases (found_booking id w)) [
    | inl e ↦ inl (accept-missing id w (inl e))
    | inr (b, e) ↦ elim (Option-cases (found_trip b.trip_id w)) [
      | inl d ↦ inl (accept-missing id w (inr (b, e, d)))
      | inr (t, d) ↦ elim (accept-found id w b t e d) [
        | inl same ↦ inl same
        | inr (pending, room, saved) ↦ inr (b, e, (pending, (t, room), saved))
      ]
    ]
  ]

  abbrev pub withdrawn : ℕ → Booking → Booking
  withdrawn now b = decided BookingStatus.cancelled_by_passenger now b

  abbrev pub Withdrawn : Booking → World → World → Type 0
  Withdrawn b w w' =
      ((b.status ≡ BookingStatus.pending) × Same (after_save (withdrawn w.now b) w) w')
      ⊎ ((b.status ≡ BookingStatus.confirmed) × Recomputed (withdrawn w.now b) w w')

  cancel-found :
      (id : ℕ) (w : World) (b : Booking)
      → found_booking id w ≡ some b
      → let w' = (cancel env id w).1 in (w' ≡ w) ⊎ Withdrawn b w w'
  unfolding cancel
  cancel-found id w b e = ground (
    arith,
    notify_on_seat_freed-same env b.trip_id
        (recompute_status env b.trip_id (after_save (withdrawn w.now b) w)).1,
  )

  cancel-missing : (id : ℕ) (w : World) → found_booking id w ≡ none → (cancel env id w).1 ≡ w
  unfolding cancel
  cancel-missing id w e = ground arith

  pub cancel-effect :
      (id : ℕ) (w : World)
      → let w' = (cancel env id w).1 in
        (w' ≡ w) ⊎ ((b : Booking) × (found_booking id w ≡ some b) × Withdrawn b w w')
  cancel-effect id w = elim (Option-cases (found_booking id w)) [
    | inl e ↦ inl (cancel-missing id w e)
    | inr (b, e) ↦ elim (cancel-found id w b e) [
      | inl same ↦ inl same
      | inr left ↦ inr (b, e, left)
    ]
  ]
