-- ===== src/TripChecks.antt =====
-- The payloads of backend/src/trips/dto, and the checks of trips.service.ts that read no table.
use gig_drive.Shared.{ℕ, ◌==◌, leb, ltb, Bool, false, not, Option, List, get_or, if◌then◌else◌}
use gig_drive.Entities.{Text, PricingMode, Currency, TripStatus, Vehicle, Concert, Trip, TripStop}
use gig_drive.Errors.{conflict, Reason, Result, ok, err}
use gig_drive.StateMachine.{TripStateContext}

pub record TripStopDto : Type 0 where
  pub seq : ℕ
  pub place : Text
  pub lat : Option ℕ
  pub lng : Option ℕ
  pub planned_time : Option ℕ

-- Payloads that have passed validation: dates are instants, and counts and costs are at least 1.
pub record CreateTripDto : Type 0 where
  pub vehicle_id : ℕ
  pub concert_id : ℕ
  pub pricing_mode : PricingMode
  pub total_cost : ℕ
  pub currency : Option Currency
  pub min_passengers : ℕ
  pub max_passengers : ℕ
  pub confirmation_deadline : ℕ
  pub departure_at : ℕ
  pub round_trip : Option Bool
  pub notes : Option Text
  pub stops : List TripStopDto

pub record UpdateTripDto : Type 0 where
  pub vehicle_id : Option ℕ
  pub concert_id : Option ℕ
  pub pricing_mode : Option PricingMode
  pub total_cost : Option ℕ
  pub currency : Option Currency
  pub min_passengers : Option ℕ
  pub max_passengers : Option ℕ
  pub confirmation_deadline : Option ℕ
  pub departure_at : Option ℕ
  pub round_trip : Option Bool
  pub notes : Option (Option Text)
  pub stops : Option (List TripStopDto)

unfoldable pub assert_owns_vehicle : ℕ → Vehicle → Result (Unit {0})
assert_owns_vehicle driver_id vehicle =
    if not (vehicle.owner_id == driver_id) then err (conflict Reason.not_your_vehicle) else ok tt

unfoldable pub assert_valid_capacity : Vehicle → ℕ → ℕ → Result (Unit {0})
assert_valid_capacity vehicle min_passengers max_passengers =
    if ltb max_passengers min_passengers
    then err (conflict Reason.min_above_max)
    else if ltb vehicle.seats max_passengers
    then err (conflict (Reason.max_above_vehicle_seats vehicle.seats))
    else ok tt

unfoldable pub assert_valid_schedule : ℕ → ℕ → Concert → Result (Unit {0})
assert_valid_schedule deadline departure_at concert =
    if leb concert.start_at deadline
    then err (conflict Reason.deadline_after_concert)
    else if leb departure_at deadline
    then err (conflict Reason.deadline_after_departure)
    else if ltb concert.start_at departure_at
    then err (conflict Reason.departure_after_concert)
    else ok tt

abbrev pub context : Trip → ℕ → TripStateContext
context trip confirmed_seats = record {
  status = trip.status;
  confirmed_seats = confirmed_seats;
  min_passengers = trip.min_passengers;
  max_passengers = trip.max_passengers;
  confirmation_deadline = trip.confirmation_deadline;
  departure_at = trip.departure_at;
}

-- The fields that a partial update assigns.
unfoldable pub apply_update : UpdateTripDto → Trip → Trip
apply_update dto trip = record trip {
  vehicle_id = get_or dto.vehicle_id trip.vehicle_id;
  concert_id = get_or dto.concert_id trip.concert_id;
  pricing_mode = get_or dto.pricing_mode trip.pricing_mode;
  total_cost = get_or dto.total_cost trip.total_cost;
  currency = get_or dto.currency trip.currency;
  min_passengers = get_or dto.min_passengers trip.min_passengers;
  max_passengers = get_or dto.max_passengers trip.max_passengers;
  confirmation_deadline = get_or dto.confirmation_deadline trip.confirmation_deadline;
  departure_at = get_or dto.departure_at trip.departure_at;
  round_trip = get_or dto.round_trip trip.round_trip;
  notes = get_or dto.notes trip.notes;
}

abbrev pub new_trip : ℕ → ℕ → ℕ → CreateTripDto → Trip
new_trip id now driver_id dto = record {
  id = id;
  driver_id = driver_id;
  vehicle_id = dto.vehicle_id;
  concert_id = dto.concert_id;
  pricing_mode = dto.pricing_mode;
  total_cost = dto.total_cost;
  currency = get_or dto.currency Currency.eur;
  min_passengers = dto.min_passengers;
  max_passengers = dto.max_passengers;
  confirmation_deadline = dto.confirmation_deadline;
  departure_at = dto.departure_at;
  round_trip = get_or dto.round_trip false;
  notes = dto.notes;
  status = TripStatus.opened;
  created_at = now;
}

abbrev pub new_stop : ℕ → ℕ → TripStopDto → TripStop
new_stop id trip_id stop = record {
  id = id;
  trip_id = trip_id;
  seq = stop.seq;
  place = stop.place;
  lat = stop.lat;
  lng = stop.lng;
  planned_time = stop.planned_time;
}
