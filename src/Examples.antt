-- ===== src/Examples.antt =====
-- A small database to run the services on: a driver with a vehicle, two passengers, a concert, and
-- two trips.
mod Bookings
mod Trips
mod Pure
mod Listings
mod Reviews
mod Accounts
mod Journeys
mod Catalogue
mod Chat
mod Frontend
use mathlib.Core.Logic.Or
use mathlib.Core.List.{mem-cons, not-mem-nil}
use mathlib.Core.Bool.{Bool-set}
use native.Mathlib.Bridge.{le_prop}
use gig_drive.Shared.{
  ℕ, ◌+◌, ◌%◌, ◌≤◌, ◌==◌, Bool, true, false, ◌≡◌, refl, sym, Option, none, some, List, [], ◌∷◌, Mem,
  arith, All, if◌then◌else◌,
}
use gig_drive.Entities.{
  Text, User, Vehicle, VehicleType, Concert, Trip, TripStatus, PricingMode, Currency, Booking,
  BookingStatus,
}
use gig_drive.Repository.Listed.{listed}
use gig_drive.Service.{World, Env}
use gig_drive.Capacity.{Valid, IsValid}
use gig_drive.Seats.{confirmed_total}
use gig_drive.StateMachine.{derive_status, is_full, has_min_reached}
use gig_drive.Synced.{Synced, in_sync}
use gig_drive.Bookings.Single.{IsSingle}
use gig_drive.Waitlist.{is_active_booking}
use gig_drive.History.{Sound}

abbrev env : Env
env = record {
  users_repository = listed _;
  vehicles_repository = listed _;
  concerts_repository = listed _;
  trips_repository = listed _;
  stops_repository = listed _;
  bookings_repository = listed _;
  waitlist_repository = listed _;
  reviews_repository = listed _;
  messages_repository = listed _;
  to_lower_case = λ text. text;
  normalize_nfkd = λ text. text;
  format_day = λ at. at ∷ [];
  iso_day = λ at. (48 + at % 10) ∷ [];
  lower_like = λ column pattern. true;
  feature_chat = true;
  feature_signal = false;
  signal_configured = false;
  create_group_with_invite = λ name. none;
}

abbrev user : ℕ → User
user id = record {
  id = id;
  email = id ∷ [];
  password_hash = [];
  first_name = id ∷ [];
  last_name = [];
  phone = none;
  email_notifications = true;
  is_admin = false;
  disabled_at = none;
  created_at = 0;
}

abbrev van : Vehicle
van = record {
  id = 1;
  owner_id = 1;
  type = VehicleType.van;
  make = [];
  model = [];
  seats = 6;
  notes = none;
  created_at = 0;
}

abbrev concert : Concert
concert = record {
  id = 1;
  external_id = none;
  user_submitted = false;
  hidden = false;
  artist = [];
  title = [];
  venue = [];
  city = [];
  country = [];
  lat = none;
  lng = none;
  start_at = 1000;
  image_url = none;
  genre = none;
  ticket_url = none;
  created_at = 0;
}

abbrev trip : ℕ → TripStatus → Trip
trip id status = record {
  id = id;
  driver_id = 1;
  vehicle_id = 1;
  concert_id = 1;
  pricing_mode = PricingMode.shared_total;
  total_cost = 100;
  currency = Currency.eur;
  min_passengers = 1;
  max_passengers = 3;
  confirmation_deadline = 500;
  departure_at = 900;
  round_trip = true;
  notes = none;
  status = status;
  created_at = 0;
}

abbrev booking : ℕ → ℕ → BookingStatus → Booking
booking id passenger_id status = record {
  id = id;
  trip_id = 1;
  passenger_id = passenger_id;
  seats = 1;
  status = status;
  paid = false;
  created_at = 0;
  decided_at = none;
}

-- One passenger has a confirmed booking on the first trip, and another has asked for a seat.
abbrev world : World
world = record {
  now = 100;
  users = user 1 ∷ user 2 ∷ user 3 ∷ [];
  vehicles = van ∷ [];
  concerts = concert ∷ [];
  trips = trip 1 TripStatus.ready ∷ trip 2 TripStatus.completed ∷ [];
  stops = [];
  bookings = booking 1 2 BookingStatus.confirmed ∷ booking 2 3 BookingStatus.pending ∷ [];
  waitlist = [];
  reviews = [];
  messages = [];
  outbox = [];
}

two-Mem :
    (t : Trip) (f : Trip → Bool)
    → f (trip 1 TripStatus.ready) ≡ true
    → f (trip 2 TripStatus.completed) ≡ true
    → Mem t world.trips
    → f t ≡ true
two-Mem t f h k m =
    Or.elim (Bool-set _ _) (mem-cons.0 m) (λ e. rw e h)
      (λ n. Or.elim (Bool-set _ _) (mem-cons.0 n) (λ e. rw e k) (λ o. absurd (not-mem-nil o)))

within_three :
    (t : Trip) → Mem t world.trips → confirmed_total t.id world.bookings ≤ t.max_passengers
within_three t m =
    Or.elim le_prop (mem-cons.0 m) (λ e. rw e (omega arith))
      (λ n. Or.elim le_prop (mem-cons.0 n) (λ e. rw e (omega arith)) (λ o. absurd (not-mem-nil o)))

pub world-Valid : Valid world
world-Valid = record {
  within = within_three;
  trips_keyed = λ k. ground arith;
  bookings_keyed = λ k. ground arith;
  booked = λ k none. ground arith;
}

pub world-Synced : Synced world
unfolding derive_status is_full has_min_reached
world-Synced t m = two-Mem t (in_sync world.bookings) refl refl m

world-Single : IsSingle world.bookings
unfolding is_active_booking
world-Single t p = ground arith

pub world-Sound : Sound env world
world-Sound = (world-Valid, world-Synced, world-Single)
