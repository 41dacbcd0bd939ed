-- ===== src/Waitlist.antt =====
-- backend/src/waitlist/waitlist.service.ts and its DTOs: the waitlist of a full trip.
pub mod Notices
pub mod Positions
use gig_drive.Shared.{
  ℕ, ◌+◌, ◌==◌, leb, ltb, Bool, true, false, not, ◌&&◌, ◌||◌, Option, none, some, List, [], ◌∷◌,
  get_or, if◌then◌else◌, is_some, foldl, lookup, insert, includes, map, unique,
}
use gig_drive.Shared.Sort.{sort_by}
use gig_drive.Entities.{
  TripStatus, same_status, BookingStatus, same_booking_status, Trip, Booking, WaitlistEntry,
}
use gig_drive.Errors.{not_found, conflict, Reason, Result, ok, err}
use gig_drive.Service.{
  World, Env, Event, Action, pure, gets, lift, or_throw, throw_if, modify, for_each, map_each,
  ◌>>=◌, ◌>>◌, notify,
}
use gig_drive.TripViews.{TripDto}
use gig_drive.TripQueries.{get_details_many}

pub record WaitlistEntryDto : Type 0 where
  pub id : ℕ
  pub trip_id : ℕ
  pub passenger_id : ℕ
  pub seats : ℕ
  pub position : ℕ
  pub created_at : ℕ
  pub trip : TripDto

abbrev entry_dto : WaitlistEntry → TripDto → ℕ → WaitlistEntryDto
entry_dto entry trip position = record {
  id = entry.id;
  trip_id = entry.trip_id;
  passenger_id = entry.passenger_id;
  seats = entry.seats;
  position = position;
  created_at = entry.created_at;
  trip = trip;
}

-- PENDING and CONFIRMED: the statuses in which a booking holds a request.
unfoldable pub is_active_booking : BookingStatus → Bool
is_active_booking s =
    same_booking_status s BookingStatus.pending || same_booking_status s BookingStatus.confirmed

abbrev pub holds_booking : ℕ → ℕ → Booking → Bool
holds_booking trip_id passenger_id b =
    b.trip_id == trip_id && (b.passenger_id == passenger_id && is_active_booking b.status)

-- `order: { createdAt: 'ASC', id: 'ASC' }`
abbrev pub joined_before : WaitlistEntry → WaitlistEntry → Bool
joined_before a b =
    if ltb a.created_at b.created_at
    then true
    else if ltb b.created_at a.created_at
    then false
    else leb a.id b.id

-- The loop of `positionsOnTrips`: entries numbered from 1 on each trip.
positions_loop : List (ℕ × ℕ) → List (ℕ × ℕ) → List WaitlistEntry → List (ℕ × ℕ)
positions_loop counts positions [] = positions
positions_loop counts positions (sibling ∷ rest) =
    let next = get_or (lookup sibling.trip_id counts) 0 + 1 in
    positions_loop (insert sibling.trip_id next counts) (insert sibling.id next positions) rest

module _ (env : Env) where
  abbrev pub entry_of : ℕ → ℕ → World → Option WaitlistEntry
  entry_of trip_id passenger_id w =
      env.waitlist_repository.find_one (λ e. e.trip_id == trip_id && e.passenger_id == passenger_id)
        w.waitlist

  unfoldable pub assert_no_active_booking : ℕ → ℕ → Action (Unit {0})
  assert_no_active_booking trip_id passenger_id = do
    existing ←
        gets (λ w. env.bookings_repository.find_one (holds_booking trip_id passenger_id) w.bookings)
    throw_if (is_some existing) (conflict Reason.already_booked)

  pub positions_on_trips : List ℕ → World → List (ℕ × ℕ)
  unfolding positions_loop
  positions_on_trips trip_ids w = positions_loop [] [] (
      sort_by joined_before
        (env.waitlist_repository.find (λ e. includes e.trip_id trip_ids) w.waitlist))

  abbrev position_of : WaitlistEntry → World → ℕ
  position_of entry w = get_or (lookup entry.id (positions_on_trips (entry.trip_id ∷ []) w)) 1

  to_dto : WaitlistEntry → ℕ → Action WaitlistEntryDto
  to_dto entry position = do
    trips ← gets (get_details_many env (entry.trip_id ∷ []))
    trip ← or_throw (lookup entry.trip_id trips) (not_found Reason.trip_not_found)
    pure (entry_dto entry trip position)

  abbrev pub new_entry : ℕ → ℕ → ℕ → World → WaitlistEntry
  new_entry trip_id passenger_id seats w = record {
    id = env.waitlist_repository.new_id w.waitlist;
    trip_id = trip_id;
    passenger_id = passenger_id;
    seats = seats;
    created_at = w.now;
  }

  unfoldable pub join : ℕ → ℕ → ℕ → Action WaitlistEntryDto
  unfolding assert_no_active_booking positions_on_trips to_dto
  join trip_id passenger_id seats = do
    trip ←
        or_throw (← gets (λ w. env.trips_repository.find_one (λ t. t.id == trip_id) w.trips))
          (not_found Reason.trip_not_found)
    throw_if (trip.driver_id == passenger_id) (conflict Reason.driver_joins_own_waitlist)
    throw_if (not (same_status trip.status TripStatus.full)) (conflict Reason.waitlist_closed)
    throw_if (ltb trip.max_passengers seats) (conflict Reason.seats_above_capacity)
    existing ← gets (entry_of trip_id passenger_id)
    throw_if (is_some existing) (conflict Reason.already_on_waitlist)
    assert_no_active_booking trip_id passenger_id
    saved ← gets (new_entry trip_id passenger_id seats)
    modify (λ w. record w { waitlist = env.waitlist_repository.save saved w.waitlist })
    position ← gets (position_of saved)
    to_dto saved position

  unfoldable pub leave : ℕ → ℕ → Action (Unit {0})
  leave trip_id passenger_id = do
    entry ←
        or_throw (← gets (entry_of trip_id passenger_id))
          (not_found Reason.waitlist_entry_not_found)
    modify (λ w. record w { waitlist = env.waitlist_repository.remove entry w.waitlist })

  entry_dtos : List WaitlistEntry → Action (List WaitlistEntryDto)
  unfolding positions_on_trips
  entry_dtos mine = do
    let trip_ids = unique (map (λ e. e.trip_id) mine)
    positions ← gets (positions_on_trips trip_ids)
    trips ← gets (get_details_many env trip_ids)
    lift (
        map_each
          (λ entry. elim (lookup entry.trip_id trips) [
            | none ↦ err (not_found Reason.trip_not_found)
            | some trip ↦ ok (entry_dto entry trip (get_or (lookup entry.id positions) 1))
          ])
          mine)

  unfoldable pub list_mine : ℕ → Action (List WaitlistEntryDto)
  unfolding entry_dtos
  list_mine passenger_id = do
    mine ← gets (λ w.
        sort_by (λ a b. leb b.created_at a.created_at)
          (env.waitlist_repository.find (λ e. e.passenger_id == passenger_id) w.waitlist))
    elim mine [ [] ↦ pure [] | entry ∷ rest ↦ entry_dtos (entry ∷ rest) ]

  notify_from : ℕ → List WaitlistEntry → Action (Unit {0})
  notify_from position [] = pure tt
  notify_from position (entry ∷ rest) = do
    notify (Event.waitlist_seat_available entry position)
    notify_from (position + 1) rest

  unfoldable pub notify_on_seat_freed : ℕ → Action (Unit {0})
  unfolding notify_from
  notify_on_seat_freed trip_id = do
    entries ← gets (λ w.
        sort_by joined_before (env.waitlist_repository.find (λ e. e.trip_id == trip_id) w.waitlist))
    notify_from 1 entries
