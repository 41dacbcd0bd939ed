-- ===== src/Vehicles.antt =====
-- backend/src/vehicles/vehicles.service.ts: the vehicles of an owner. A field that an update leaves out is
-- no property of the payload.
pub mod Owned
pub mod Untouched
pub mod Histories
use gig_drive.Shared.{ℕ, ◌==◌, leb, ltb, Bool, Option, none, some, List, get_or, map}
use gig_drive.Shared.Sort.{sort_by}
use gig_drive.Entities.{Text, VehicleType, Vehicle}
use gig_drive.Errors.{not_found, conflict, Reason}
use gig_drive.Service.{World, Env, Action, pure, gets, or_throw, throw_if, modify, ◌>>=◌, ◌>>◌}

pub record CreateVehicleDto : Type 0 where
  pub type : VehicleType
  pub make : Text
  pub model : Text
  pub seats : ℕ
  pub notes : Option Text

-- `notes` may be `null`.
pub record UpdateVehicleDto : Type 0 where
  pub type : Option VehicleType
  pub make : Option Text
  pub model : Option Text
  pub seats : Option ℕ
  pub notes : Option (Option Text)

pub record VehicleDto : Type 0 where
  pub id : ℕ
  pub owner_id : ℕ
  pub type : VehicleType
  pub make : Text
  pub model : Text
  pub seats : ℕ
  pub notes : Option Text

abbrev pub vehicle_dto : Vehicle → VehicleDto
vehicle_dto vehicle = record {
  id = vehicle.id;
  owner_id = vehicle.owner_id;
  type = vehicle.type;
  make = vehicle.make;
  model = vehicle.model;
  seats = vehicle.seats;
  notes = vehicle.notes;
}

abbrev pub assign_vehicle : UpdateVehicleDto → Vehicle → Vehicle
assign_vehicle dto vehicle = record vehicle {
  type = get_or dto.type vehicle.type;
  make = get_or dto.make vehicle.make;
  model = get_or dto.model vehicle.model;
  seats = get_or dto.seats vehicle.seats;
  notes = get_or dto.notes vehicle.notes;
}

module _ (env : Env) where
  abbrev pub new_vehicle : ℕ → CreateVehicleDto → World → Vehicle
  new_vehicle owner_id dto w = record {
    id = env.vehicles_repository.new_id w.vehicles;
    owner_id = owner_id;
    type = dto.type;
    make = dto.make;
    model = dto.model;
    seats = dto.seats;
    notes = dto.notes;
    created_at = w.now;
  }

  abbrev save_vehicle : Vehicle → Action VehicleDto
  save_vehicle vehicle = do
    modify (λ w. record w { vehicles = env.vehicles_repository.save vehicle w.vehicles })
    pure (vehicle_dto vehicle)

  abbrev find_or_fail : ℕ → Action Vehicle
  find_or_fail id = do
    or_throw (← gets (λ w. env.vehicles_repository.find_one (λ v. v.id == id) w.vehicles))
        (not_found Reason.vehicle_not_found)

  unfoldable pub find_all_for_owner : ℕ → World → List VehicleDto
  find_all_for_owner owner_id w = map vehicle_dto (
      sort_by (λ a b. leb a.created_at b.created_at)
        (env.vehicles_repository.find (λ v. v.owner_id == owner_id) w.vehicles))

  unfoldable pub create : ℕ → CreateVehicleDto → Action VehicleDto
  create owner_id dto = do vehicle ← gets (new_vehicle owner_id dto); save_vehicle vehicle

  unfoldable pub update : ℕ → UpdateVehicleDto → Action VehicleDto
  update id dto = do vehicle ← find_or_fail id; save_vehicle (assign_vehicle dto vehicle)

  unfoldable pub remove : ℕ → Action (Unit {0})
  remove id = do
    vehicle ← find_or_fail id
    trip_count ← gets (λ w. env.trips_repository.count (λ t. t.vehicle_id == id) w.trips)
    throw_if (ltb 0 trip_count) (conflict Reason.vehicle_in_use)
    modify (λ w. record w { vehicles = env.vehicles_repository.remove vehicle w.vehicles })
