-- ===== src/Bookings.antt =====
-- backend/src/bookings/bookings.service.ts and its DTOs: a passenger's request and its life.
pub mod Effects
pub mod Keeps
pub mod Status
pub mod Seats
pub mod Requests
pub mod Single
pub mod Races
use gig_drive.Shared.{
  ℕ, ◌+◌, ◌==◌, ltb, leb, Bool, true, false, not, ◌&&◌, ◌||◌, Option, none, some, List, [], ◌∷◌,
  ◌++◌, get_or, if◌then◌else◌, is_some, lookup, includes, map, unique,
}
use gig_drive.Shared.Sort.{sort_by}
use gig_drive.Entities.{
  Text, TripStatus, same_status, BookingStatus, same_booking_status, Trip, Booking,
}
use gig_drive.Errors.{not_found, conflict, Reason, Result, ok, err}
use gig_drive.Service.{
  World, Env, Event, codes, Action, pure, gets, lift, or_throw, throw_if, when, transaction,
  map_each, ◌>>=◌, ◌>>◌, notify, save_booking,
}
use gig_drive.Seats.{confirmed_total, count_confirmed_seats}
use gig_drive.TripViews.{TripDto, field}
use gig_drive.TripQueries.{get_details_many, display_name}
use gig_drive.Trips.{find_trip_or_fail, recompute_status}
use gig_drive.Waitlist.{assert_no_active_booking, notify_on_seat_freed}
use gig_drive.Reviewable.{reviewable_trip_ids}

pub record BookingDto : Type 0 where
  pub id : ℕ
  pub trip_id : ℕ
  pub passenger_id : ℕ
  pub passenger_name : Text
  pub seats : ℕ
  pub status : BookingStatus
  pub paid : Bool
  pub created_at : ℕ
  pub decided_at : Option ℕ
  pub trip : TripDto
  pub can_review : Bool

abbrev booking_dto : Booking → TripDto → Text → Bool → BookingDto
booking_dto booking trip passenger_name can_review = record {
  id = booking.id;
  trip_id = booking.trip_id;
  passenger_id = booking.passenger_id;
  passenger_name = passenger_name;
  seats = booking.seats;
  status = booking.status;
  paid = booking.paid;
  created_at = booking.created_at;
  decided_at = booking.decided_at;
  trip = trip;
  can_review = can_review;
}

unfoldable pub is_bookable : TripStatus → Bool
is_bookable status =
    same_status status TripStatus.opened
    || (same_status status TripStatus.full || same_status status TripStatus.ready)

-- A booking with its status decided at the time `now`.
abbrev pub decided : BookingStatus → ℕ → Booking → Booking
decided status now booking = record booking { status = status; decided_at = some now }

module _ (env : Env) where
  find_booking_or_fail : ℕ → Action Booking
  find_booking_or_fail id = do
    or_throw (← gets (λ w. env.bookings_repository.find_one (λ b. b.id == id) w.bookings))
        (not_found Reason.booking_not_found)

  abbrev passenger_display_name : Booking → World → Text
  passenger_display_name booking w =
      field (env.users_repository.find_one (λ u. u.id == booking.passenger_id) w.users) display_name
        (codes "Unknown passenger")

  -- `options.reviewerId` is `none` where the call gives no reviewer.
  to_dtos : List Booking → Option ℕ → Action (List BookingDto)
  to_dtos bookings reviewer_id = do
    let trip_ids = unique (map (λ b. b.trip_id) bookings)
    trips ← gets (get_details_many env trip_ids)
    reviewable ← gets (λ w. field reviewer_id (λ r. reviewable_trip_ids env r trip_ids w) [])
    world ← gets (λ w. w)
    lift (
        map_each
          (λ booking. elim (lookup booking.trip_id trips) [
            | none ↦ err (not_found Reason.trip_not_found)
            | some trip ↦ ok (
                booking_dto booking trip (passenger_display_name booking world)
                  (includes booking.trip_id reviewable))
          ])
          bookings)

  abbrev to_dto : Booking → Action BookingDto
  to_dto booking = do
    dtos ← to_dtos (booking ∷ []) none
    elim dtos [ [] ↦ λ w. (err (not_found Reason.booking_not_found), w) | dto ∷ _ ↦ pure dto ]

  abbrev pub new_booking : ℕ → ℕ → ℕ → World → Booking
  new_booking trip_id passenger_id seats w = record {
    id = env.bookings_repository.new_id w.bookings;
    trip_id = trip_id;
    passenger_id = passenger_id;
    seats = seats;
    status = BookingStatus.pending;
    paid = false;
    created_at = w.now;
    decided_at = none;
  }

  unfoldable pub request : ℕ → ℕ → ℕ → Action BookingDto
  unfolding find_trip_or_fail find_booking_or_fail is_bookable to_dtos
  request trip_id passenger_id seats = do
    trip ← find_trip_or_fail env trip_id
    throw_if (trip.driver_id == passenger_id) (conflict Reason.driver_books_own_trip)
    throw_if (not (is_bookable trip.status)) (conflict Reason.not_accepting_bookings)
    assert_no_active_booking env trip_id passenger_id
    confirmed_seats ← gets (count_confirmed_seats env trip_id)
    throw_if (ltb trip.max_passengers (confirmed_seats + seats))
        (conflict Reason.not_enough_seats_soft)
    saved ← gets (new_booking trip_id passenger_id seats)
    save_booking env saved
    notify (Event.booking_requested saved)
    found ← find_booking_or_fail saved.id
    to_dto found

  -- The transaction of `accept`, which holds the lock on the trip's row.
  unfoldable pub accept_locked : Booking → Action Booking
  unfolding is_bookable
  accept_locked booking = do
    trip ←
        or_throw
          (← gets (λ w. env.trips_repository.find_one (λ t. t.id == booking.trip_id) w.trips))
          (not_found Reason.trip_not_found)
    throw_if (not (is_bookable trip.status)) (conflict Reason.not_accepting_bookings)
    occupied ← gets (λ w. confirmed_total booking.trip_id w.bookings)
    throw_if (ltb trip.max_passengers (occupied + booking.seats)) (conflict Reason.not_enough_seats)
    saved ← gets (λ w. decided BookingStatus.confirmed w.now booking)
    save_booking env saved
    pure saved

  unfoldable pub accept : ℕ → Action BookingDto
  unfolding find_booking_or_fail accept_locked to_dtos
  accept id = do
    booking ← find_booking_or_fail id
    throw_if (not (same_booking_status booking.status BookingStatus.pending))
        (conflict Reason.only_pending_accepted)
    saved ← transaction (accept_locked booking)
    recompute_status env saved.trip_id
    notify (Event.booking_accepted saved)
    to_dto saved

  unfoldable pub reject : ℕ → Action BookingDto
  unfolding find_booking_or_fail to_dtos
  reject id = do
    booking ← find_booking_or_fail id
    throw_if (not (same_booking_status booking.status BookingStatus.pending))
        (conflict Reason.only_pending_rejected)
    saved ← gets (λ w. decided BookingStatus.rejected w.now booking)
    save_booking env saved
    notify (Event.booking_rejected saved)
    to_dto saved

  unfoldable pub cancel : ℕ → Action BookingDto
  unfolding find_booking_or_fail to_dtos
  cancel id = do
    booking ← find_booking_or_fail id
    throw_if
        (not (same_booking_status booking.status BookingStatus.pending)
          && not (same_booking_status booking.status BookingStatus.confirmed))
        (conflict Reason.no_longer_cancellable)
    saved ← gets (λ w. decided BookingStatus.cancelled_by_passenger w.now booking)
    save_booking env saved
    when (same_booking_status booking.status BookingStatus.confirmed)
        (recompute_status env saved.trip_id >> notify_on_seat_freed env saved.trip_id)
    to_dto saved

  -- What `setPaid` does with the copy of the row that it has read.
  unfoldable pub set_paid_on : Booking → Bool → Action BookingDto
  unfolding to_dtos
  set_paid_on booking paid = do
    throw_if (not (same_booking_status booking.status BookingStatus.confirmed))
        (conflict Reason.only_confirmed_paid)
    let saved = record booking { paid = paid }
    save_booking env saved
    to_dto saved

  unfoldable pub set_paid : ℕ → Bool → Action BookingDto
  unfolding find_booking_or_fail set_paid_on
  set_paid id paid = do booking ← find_booking_or_fail id; set_paid_on booking paid

  unfoldable pub list_mine : ℕ → Action (List BookingDto)
  unfolding to_dtos
  list_mine passenger_id = do
    bookings ← gets (λ w.
        sort_by (λ a b. leb b.created_at a.created_at)
          (env.bookings_repository.find (λ b. b.passenger_id == passenger_id) w.bookings))
    to_dtos bookings (some passenger_id)

  unfoldable pub list_for_driver : ℕ → Action (List BookingDto)
  unfolding to_dtos
  list_for_driver driver_id = do
    trip_ids ←
        gets
          (λ w. map (λ t. t.id) (env.trips_repository.find (λ t. t.driver_id == driver_id) w.trips))
    elim trip_ids [
      | [] ↦ pure []
      | id ∷ ids ↦ do
        bookings ← gets (λ w.
            sort_by (λ a b. leb b.created_at a.created_at)
              (env.bookings_repository.find (λ b. includes b.trip_id (id ∷ ids)) w.bookings))
        to_dtos bookings none
    ]
