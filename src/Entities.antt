-- ===== src/Entities.antt =====
-- The domain enums and the rows of the database tables: backend/src/common/enums.ts and the
-- TypeORM entities under backend/src/*/entities. A uuid is a number that is only compared, a Date
-- its milliseconds, a double its bit pattern (doubles are only stored), a string its UTF-16 code
-- units. Joined rows are looked up where they are used. The column updatedAt, which TypeORM writes
-- and nothing reads, is left out.
use gig_drive.Shared.{ℕ, Bool, true, false, Option, List}

abbrev pub Text : Type 0
Text = List ℕ

pub data VehicleType : Type 0 where
  car van minibus : VehicleType

pub data TripStatus : Type 0 where
  opened full ready confirmed completed cancelled : TripStatus

pub data BookingStatus : Type 0 where
  pending confirmed rejected cancelled_by_passenger : BookingStatus

pub data PricingMode : Type 0 where
  shared_total fixed_per_seat : PricingMode

pub data Currency : Type 0 where
  eur rsd : Currency

-- `a === b` on the enums.
abbrev pub same_type : VehicleType → VehicleType → Bool
same_type VehicleType.car VehicleType.car = true
same_type VehicleType.van VehicleType.van = true
same_type VehicleType.minibus VehicleType.minibus = true
same_type _ _ = false

abbrev pub same_status : TripStatus → TripStatus → Bool
same_status TripStatus.opened TripStatus.opened = true
same_status TripStatus.full TripStatus.full = true
same_status TripStatus.ready TripStatus.ready = true
same_status TripStatus.confirmed TripStatus.confirmed = true
same_status TripStatus.completed TripStatus.completed = true
same_status TripStatus.cancelled TripStatus.cancelled = true
same_status _ _ = false

abbrev pub same_booking_status : BookingStatus → BookingStatus → Bool
same_booking_status BookingStatus.pending BookingStatus.pending = true
same_booking_status BookingStatus.confirmed BookingStatus.confirmed = true
same_booking_status BookingStatus.rejected BookingStatus.rejected = true
same_booking_status BookingStatus.cancelled_by_passenger BookingStatus.cancelled_by_passenger = true
same_booking_status _ _ = false

pub record User : Type 0 where
  pub id : ℕ
  pub email : Text
  pub password_hash : Text
  pub first_name : Text
  pub last_name : Text
  pub phone : Option Text
  pub email_notifications : Bool
  pub is_admin : Bool
  pub disabled_at : Option ℕ
  pub created_at : ℕ

pub record Vehicle : Type 0 where
  pub id : ℕ
  pub owner_id : ℕ
  pub type : VehicleType
  pub make : Text
  pub model : Text
  pub seats : ℕ
  pub notes : Option Text
  pub created_at : ℕ

pub record Concert : Type 0 where
  pub id : ℕ
  pub external_id : Option Text
  pub user_submitted : Bool
  pub hidden : Bool
  pub artist : Text
  pub title : Text
  pub venue : Text
  pub city : Text
  pub country : Text
  pub lat : Option ℕ
  pub lng : Option ℕ
  pub start_at : ℕ
  pub image_url : Option Text
  pub genre : Option Text
  pub ticket_url : Option Text
  pub created_at : ℕ

pub record Trip : Type 0 where
  pub id : ℕ
  pub driver_id : ℕ
  pub vehicle_id : ℕ
  pub concert_id : ℕ
  pub pricing_mode : PricingMode
  pub total_cost : ℕ
  pub currency : Currency
  pub min_passengers : ℕ
  pub max_passengers : ℕ
  pub confirmation_deadline : ℕ
  pub departure_at : ℕ
  pub round_trip : Bool
  pub notes : Option Text
  pub status : TripStatus
  pub created_at : ℕ

pub record TripStop : Type 0 where
  pub id : ℕ
  pub trip_id : ℕ
  pub seq : ℕ
  pub place : Text
  pub lat : Option ℕ
  pub lng : Option ℕ
  pub planned_time : Option ℕ

pub record Booking : Type 0 where
  pub id : ℕ
  pub trip_id : ℕ
  pub passenger_id : ℕ
  pub seats : ℕ
  pub status : BookingStatus
  pub paid : Bool
  pub created_at : ℕ
  pub decided_at : Option ℕ

pub record WaitlistEntry : Type 0 where
  pub id : ℕ
  pub trip_id : ℕ
  pub passenger_id : ℕ
  pub seats : ℕ
  pub created_at : ℕ

pub record ChatMessage : Type 0 where
  pub id : ℕ
  pub trip_id : ℕ
  pub author_id : ℕ
  pub body : Text
  pub sent_at : ℕ

pub record Review : Type 0 where
  pub id : ℕ
  pub trip_id : ℕ
  pub author_id : ℕ
  pub rating : ℕ
  pub comment : Text
  pub created_at : ℕ
