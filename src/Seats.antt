-- ===== src/Seats.antt =====
-- The confirmed seats of a trip: `countConfirmedSeats` of trips.service.ts and bookings.service.ts,
-- the batched `countConfirmedSeatsFor`, and the sum that `accept` takes in SQL.
pub mod Total
use gig_drive.Shared.{
  ℕ, ◌+◌, ◌==◌, ◌&&◌, Bool, List, [], ◌∷◌, Option, foldl, lookup, insert, includes, get_or, sum_by,
  filter, if◌then◌else◌,
}
use gig_drive.Entities.{Booking, BookingStatus, same_booking_status}
use gig_drive.Service.{World, Env}

-- `where: { tripId, status: CONFIRMED }`
abbrev pub confirmed_on : ℕ → Booking → Bool
confirmed_on trip_id b =
    b.trip_id == trip_id && same_booking_status b.status BookingStatus.confirmed

-- `SELECT SUM(seats) … WHERE tripId = … AND status = 'CONFIRMED'`
abbrev pub confirmed_total : ℕ → List Booking → ℕ
confirmed_total trip_id = sum_by λ b. if confirmed_on trip_id b then b.seats else 0

abbrev add_seats : List (ℕ × ℕ) → Booking → List (ℕ × ℕ)
add_seats counts row = insert row.trip_id (get_or (lookup row.trip_id counts) 0 + row.seats) counts

-- `where: { tripId: In(tripIds), status: CONFIRMED }`
abbrev confirmed_on_any : List ℕ → Booking → Bool
confirmed_on_any trip_ids b =
    includes b.trip_id trip_ids && same_booking_status b.status BookingStatus.confirmed

module _ (env : Env) where
  unfoldable pub count_confirmed_seats : ℕ → World → ℕ
  count_confirmed_seats trip_id w =
      foldl (λ sum booking. sum + booking.seats) 0
        (env.bookings_repository.find (confirmed_on trip_id) w.bookings)

  unfoldable pub count_confirmed_seats_for : List ℕ → World → List (ℕ × ℕ)
  count_confirmed_seats_for [] w = []
  count_confirmed_seats_for (id ∷ ids) w =
      foldl add_seats [] (env.bookings_repository.find (confirmed_on_any (id ∷ ids)) w.bookings)
