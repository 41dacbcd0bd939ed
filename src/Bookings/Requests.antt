-- ===== src/Bookings/Requests.antt =====
-- The checks of `request` in backend/src/bookings/bookings.service.ts.
use gig_drive.Shared.{
  ℕ, ◌+◌, ◌≤◌, true, ◌≡◌, ◌≢◌, refl, ◌⊎◌, inl, inr, Option, none, some, arith, Option-cases,
}
use gig_drive.Entities.{Trip, Booking}
use gig_drive.Service.{World, Env}
use gig_drive.Seats.{confirmed_total}
use gig_drive.Seats.Total.{count_confirmed_seats-total}
use gig_drive.Waitlist.{holds_booking, assert_no_active_booking}
use gig_drive.Bookings.{request, is_bookable, new_booking}
use gig_drive.Bookings.Effects.{found_trip}

module _ (env : Env) where
  open env use {trips_repository, bookings_repository}

  abbrev pub active_booking : ℕ → ℕ → World → Option Booking
  active_booking trip_id passenger_id w =
      bookings_repository.find_one (holds_booking trip_id passenger_id) w.bookings

  -- A request that passes every check of `request`.
  abbrev pub IsRequestable : ℕ → ℕ → ℕ → Trip → World → Type 0
  IsRequestable trip_id passenger_id seats t w =
      (t.driver_id ≢ passenger_id)
      × (is_bookable t.status ≡ true)
      × (active_booking trip_id passenger_id w ≡ none)
      × (confirmed_total trip_id w.bookings + seats ≤ t.max_passengers)

  request-found :
      (trip_id passenger_id seats : ℕ) (w : World) (t : Trip)
      → found_trip env trip_id w ≡ some t
      → let w' = (request env trip_id passenger_id seats w).1 in
        (w'.bookings ≡ w.bookings)
        ⊎ (IsRequestable trip_id passenger_id seats t w
            × (w'.bookings
                ≡ bookings_repository.save
                    (new_booking env trip_id passenger_id seats w)
                    w.bookings))
  unfolding request assert_no_active_booking is_bookable
  request-found trip_id passenger_id seats w t e =
      ground (arith, count_confirmed_seats-total env trip_id w)

  request-missing :
      (trip_id passenger_id seats : ℕ) (w : World)
      → found_trip env trip_id w ≡ none
      → (request env trip_id passenger_id seats w).1 ≡ w
  unfolding request
  request-missing trip_id passenger_id seats w e = ground arith

  -- A request leaves the bookings as they are, or the trip is there, is not the passenger's own, takes
  -- bookings, holds no active booking of the passenger and has the seats, and the new booking is written.
  pub request-checks :
      (trip_id passenger_id seats : ℕ) (w : World)
      → let w' = (request env trip_id passenger_id seats w).1 in
        (w'.bookings ≡ w.bookings)
        ⊎ ((t : Trip) × (found_trip env trip_id w ≡ some t)
            × IsRequestable trip_id passenger_id seats t w
            × (w'.bookings
                ≡ bookings_repository.save
                    (new_booking env trip_id passenger_id seats w)
                    w.bookings))
  request-checks trip_id passenger_id seats w = elim (Option-cases (found_trip env trip_id w)) [
    | inl e ↦ inl (rw (request-missing trip_id passenger_id seats w e) refl)
    | inr (t, e) ↦ elim (request-found trip_id passenger_id seats w t e) [
      | inl same ↦ inl same
      | inr (ask, saved) ↦ inr (t, e, ask, saved)
    ]
  ]

  -- If the trip is there and every check passes, the new pending booking is written.
  pub request-writes :
      (trip_id passenger_id seats : ℕ) (w : World) (t : Trip)
      → found_trip env trip_id w ≡ some t
      → IsRequestable trip_id passenger_id seats t w
      → (request env trip_id passenger_id seats w).1.bookings
        ≡ bookings_repository.save (new_booking env trip_id passenger_id seats w) w.bookings
  unfolding request assert_no_active_booking is_bookable
  request-writes trip_id passenger_id seats w t e ask =
      ground (arith, count_confirmed_seats-total env trip_id w)
