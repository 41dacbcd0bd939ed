-- ===== src/TripViews.antt =====
-- backend/src/trips/dto: what the API shows of a trip, and the query of a listing. The sort orders are
-- those of trips.service.ts.
use gig_drive.Shared.{
  ℕ, ◌-◌, ◌*◌, ◌==◌, leb, Bool, true, false, Option, none, some, List, [], ◌∷◌, map, if◌then◌else◌,
}
use gig_drive.Entities.{
  Text, VehicleType, PricingMode, Currency, TripStatus, User, Vehicle, Concert, Trip, TripStop,
}
use gig_drive.Pricing.{LivePrice, max}
use gig_drive.Ratings.{DriverRating}

pub record TripStopOutputDto : Type 0 where
  pub id : ℕ
  pub seq : ℕ
  pub place : Text
  pub lat : Option ℕ
  pub lng : Option ℕ
  pub planned_time : Option ℕ

pub record TripDto : Type 0 where
  pub id : ℕ
  pub driver_id : ℕ
  pub driver_name : Text
  pub driver_average_rating : Option ℕ
  pub driver_review_count : ℕ
  pub vehicle_id : ℕ
  -- `none` is the empty string that stands for a missing vehicle.
  pub vehicle_type : Option VehicleType
  pub concert_id : ℕ
  pub concert_artist : Text
  pub concert_title : Text
  pub concert_city : Text
  pub concert_image_url : Option Text
  pub pricing_mode : PricingMode
  pub total_cost : ℕ
  pub currency : Currency
  pub min_passengers : ℕ
  pub max_passengers : ℕ
  pub confirmation_deadline : ℕ
  pub departure_at : ℕ
  pub round_trip : Bool
  pub notes : Option Text
  pub status : TripStatus
  pub confirmed_seats : ℕ
  pub seats_left : ℕ
  pub stops : List TripStopOutputDto
  pub live_price : LivePrice

-- The query of GET /trips.
pub data Sorting : Type 0 where
  soonest cheapest likely : Sorting

pub record ListTripsDto : Type 0 where
  pub concert_id : Option ℕ
  pub departure_from : Option Text
  pub vehicle_type : Option VehicleType
  pub max_price : Option ℕ
  pub min_rating : Option ℕ
  pub seats_min : Option ℕ
  pub sort : Option Sorting

abbrev pub no_filters : ListTripsDto
no_filters = record {
  concert_id = none;
  departure_from = none;
  vehicle_type = none;
  max_price = none;
  min_rating = none;
  seats_min = none;
  sort = none;
}

-- A trip with the rows that the query joins.
pub record LoadedTrip : Type 0 where
  pub trip : Trip
  pub driver : Option User
  pub vehicle : Option Vehicle
  pub concert : Option Concert
  pub stops : List TripStop

abbrev pub trips_page_size : ℕ
trips_page_size = 50

abbrev pub stop_dto : TripStop → TripStopOutputDto
stop_dto stop = record {
  id = stop.id;
  seq = stop.seq;
  place = stop.place;
  lat = stop.lat;
  lng = stop.lng;
  planned_time = stop.planned_time;
}

abbrev pub field {ℓ} : {A : Type 0} {B : Type ℓ} → Option A → (A → B) → B → B
field none f default = default
field (some a) f default = f a

unfoldable pub trip_dto : LoadedTrip → ℕ → LivePrice → Text → DriverRating → TripDto
trip_dto loaded confirmed_seats live_price driver_name rating = record {
  id = trip.id;
  driver_id = trip.driver_id;
  driver_name = driver_name;
  driver_average_rating = rating.average_rating;
  driver_review_count = rating.review_count;
  vehicle_id = trip.vehicle_id;
  vehicle_type = field loaded.vehicle (λ v. some v.type) none;
  concert_id = trip.concert_id;
  concert_artist = field loaded.concert (λ c. c.artist) [];
  concert_title = field loaded.concert (λ c. c.title) [];
  concert_city = field loaded.concert (λ c. c.city) [];
  concert_image_url = field loaded.concert (λ c. c.image_url) none;
  pricing_mode = trip.pricing_mode;
  total_cost = trip.total_cost;
  currency = trip.currency;
  min_passengers = trip.min_passengers;
  max_passengers = trip.max_passengers;
  confirmation_deadline = trip.confirmation_deadline;
  departure_at = trip.departure_at;
  round_trip = trip.round_trip;
  notes = trip.notes;
  status = trip.status;
  confirmed_seats = confirmed_seats;
  seats_left = trip.max_passengers - confirmed_seats;
  stops = map stop_dto loaded.stops;
  live_price = live_price;
}
  where
    open loaded use {trip}

-- `haystack.includes(needle)` on strings.
abbrev pub starts_with : Text → Text → Bool
starts_with [] text = true
starts_with (c ∷ cs) [] = false
starts_with (c ∷ cs) (d ∷ ds) = if c == d then starts_with cs ds else false

abbrev pub contains_text : Text → Text → Bool
contains_text needle [] = starts_with needle []
contains_text needle (d ∷ ds) =
    if starts_with needle (d ∷ ds) then true else contains_text needle ds

-- The comparators of the three sort orders. A ratio is compared by multiplying out.
unfoldable pub sorts_before : Option Sorting → TripDto → TripDto → Bool
sorts_before (some Sorting.cheapest) a b = leb a.live_price.per_person b.live_price.per_person
sorts_before (some Sorting.likely) a b =
    leb (b.confirmed_seats * max a.max_passengers 1) (a.confirmed_seats * max b.max_passengers 1)
sorts_before (some Sorting.soonest) a b = leb a.departure_at b.departure_at
sorts_before none a b = leb a.departure_at b.departure_at
