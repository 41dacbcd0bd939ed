-- ===== src/Trips.antt =====
-- The write side of backend/src/trips/trips.service.ts: publishing a trip, editing, confirming and
-- cancelling it, the recomputation of its status, and the scheduled sweep.
pub mod Effects
pub mod Sweep
pub mod Rows
pub mod Overdue
pub mod Settled
pub mod Keeps
pub mod Edits
use gig_drive.Shared.{
  ℕ, ◌+◌, ◌==◌, leb, ltb, Bool, true, false, not, ◌&&◌, Option, none, some, List, [], ◌∷◌, get_or,
  if◌then◌else◌, is_some, foldl,
}
use gig_drive.Entities.{TripStatus, same_status, Vehicle, Concert, Trip, TripStop}
use gig_drive.Errors.{not_found, Reason, Result, ok, err}
use gig_drive.Service.{
  World, Env, Event, Action, pure, gets, lift, or_throw, modify, when, ◌>>=◌, ◌>>◌, notify,
  save_trip,
}
use gig_drive.StateMachine.{assert_editable, assert_cancellable, assert_confirmable, derive_status}
use gig_drive.Seats.{count_confirmed_seats}
use gig_drive.SignalGroups.{on_trip_confirmed}
use gig_drive.TripViews.{TripDto, field}
use gig_drive.TripQueries.{get_details, status_in}
use gig_drive.TripChecks.{
  TripStopDto, CreateTripDto, UpdateTripDto, assert_owns_vehicle, assert_valid_capacity,
  assert_valid_schedule, context, apply_update, new_trip, new_stop,
}

-- `status: In([OPEN, FULL, READY])`
abbrev pub active_statuses : List TripStatus
active_statuses = TripStatus.opened ∷ TripStatus.full ∷ TripStatus.ready ∷ []

module _ (env : Env) where
  abbrev pub call_off : Trip → Action (Unit {0})
  call_off trip = do
    let saved = record trip { status = TripStatus.cancelled }
    save_trip env saved
    notify (Event.trip_cancelled saved)

  abbrev pub complete : Trip → Action (Unit {0})
  complete trip = do
    let saved = record trip { status = TripStatus.completed }
    save_trip env saved
    notify (Event.trip_completed saved)

  unfoldable pub find_trip_or_fail : ℕ → Action Trip
  find_trip_or_fail id = do
    or_throw (← gets (λ w. env.trips_repository.find_one (λ t. t.id == id) w.trips))
        (not_found Reason.trip_not_found)

  find_vehicle_or_fail : ℕ → Action Vehicle
  find_vehicle_or_fail id = do
    or_throw (← gets (λ w. env.vehicles_repository.find_one (λ v. v.id == id) w.vehicles))
        (not_found Reason.vehicle_not_found)

  find_concert_or_fail : ℕ → Action Concert
  find_concert_or_fail id = do
    or_throw (← gets (λ w. env.concerts_repository.find_one (λ c. c.id == id) w.concerts))
        (not_found Reason.concert_not_found)

  abbrev save_stop : ℕ → List TripStop → TripStopDto → List TripStop
  save_stop trip_id rows stop =
      env.stops_repository.save (new_stop (env.stops_repository.new_id rows) trip_id stop) rows

  replace_stops : ℕ → List TripStopDto → Action (Unit {0})
  replace_stops trip_id stops = modify λ w. record w {
    stops =
        foldl (save_stop trip_id) (env.stops_repository.delete (λ s. s.trip_id == trip_id) w.stops)
          stops;
  }

  unfoldable pub create : ℕ → CreateTripDto → Action TripDto
  unfolding find_vehicle_or_fail find_concert_or_fail replace_stops
  create driver_id dto = do
    vehicle ← find_vehicle_or_fail dto.vehicle_id
    concert ← find_concert_or_fail dto.concert_id
    lift (assert_owns_vehicle driver_id vehicle)
    lift (assert_valid_capacity vehicle dto.min_passengers dto.max_passengers)
    lift (assert_valid_schedule dto.confirmation_deadline dto.departure_at concert)
    saved ← gets (λ w. new_trip (env.trips_repository.new_id w.trips) w.now driver_id dto)
    save_trip env saved
    replace_stops saved.id dto.stops
    get_details env saved.id

  unfoldable pub update : ℕ → UpdateTripDto → Action TripDto
  unfolding find_trip_or_fail find_vehicle_or_fail find_concert_or_fail replace_stops apply_update
  update id dto = do
    trip ← find_trip_or_fail id
    lift (assert_editable trip.status)
    vehicle ← find_vehicle_or_fail (get_or dto.vehicle_id trip.vehicle_id)
    concert ← find_concert_or_fail (get_or dto.concert_id trip.concert_id)
    when (field dto.vehicle_id (λ v. not (v == trip.vehicle_id)) false)
        (lift (assert_owns_vehicle trip.driver_id vehicle))
    let edited = apply_update dto trip
    lift (assert_valid_capacity vehicle edited.min_passengers edited.max_passengers)
    lift (assert_valid_schedule edited.confirmation_deadline edited.departure_at concert)
    save_trip env edited
    when (is_some dto.stops) (replace_stops id (get_or dto.stops []))
    get_details env id

  unfoldable pub confirm : ℕ → Action TripDto
  unfolding find_trip_or_fail
  confirm id = do
    trip ← find_trip_or_fail id
    confirmed_seats ← gets (count_confirmed_seats env id)
    lift (assert_confirmable (context trip confirmed_seats))
    let saved = record trip { status = TripStatus.confirmed }
    save_trip env saved
    notify (Event.trip_confirmed saved)
    on_trip_confirmed env saved
    get_details env id

  unfoldable pub cancel : ℕ → Action TripDto
  unfolding find_trip_or_fail
  cancel id = do
    trip ← find_trip_or_fail id
    lift (assert_cancellable trip.status)
    when (not (same_status trip.status TripStatus.cancelled)) (call_off trip)
    get_details env id

  unfoldable pub recompute_status : ℕ → Action (Unit {0})
  unfolding find_trip_or_fail
  recompute_status trip_id = do
    trip ← find_trip_or_fail trip_id
    confirmed_seats ← gets (count_confirmed_seats env trip_id)
    let next = derive_status (context trip confirmed_seats)
    let saved = record trip { status = next }
    if same_status next trip.status
        then pure tt
        else (save_trip env saved
            >> when (same_status next TripStatus.ready) (notify (Event.trip_ready saved)))

  -- The two loops of `sweepExpired`. A round returns 1 where it changed the trip.
  unfoldable pub sweep_active : List Trip → Action ℕ
  sweep_active [] = pure 0
  sweep_active (trip ∷ rest) = do
    now ← gets (λ w. w.now)
    confirmed_seats ← gets (count_confirmed_seats env trip.id)
    cancelled ←
        (if ltb now trip.confirmation_deadline
          then pure 0
          else if leb trip.min_passengers confirmed_seats
          then pure 0
          else (call_off trip >> pure 1))
    others ← sweep_active rest
    pure (cancelled + others)

  unfoldable pub sweep_confirmed : List Trip → Action ℕ
  sweep_confirmed [] = pure 0
  sweep_confirmed (trip ∷ rest) = do
    now ← gets (λ w. w.now)
    completed ← (if ltb now trip.departure_at then pure 0 else (complete trip >> pure 1))
    others ← sweep_confirmed rest
    pure (completed + others)

  unfoldable pub sweep_expired : Action ℕ
  unfolding sweep_active sweep_confirmed
  sweep_expired = do
    active ← gets (λ w. env.trips_repository.find (λ t. status_in active_statuses t.status) w.trips)
    cancelled ← sweep_active active
    confirmed ←
        gets
          (λ w. env.trips_repository.find (λ t. same_status t.status TripStatus.confirmed) w.trips)
    completed ← sweep_confirmed confirmed
    pure (cancelled + completed)
