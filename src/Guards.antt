-- ===== src/Guards.antt =====
-- The ownership guards under backend/src (common/guards and the guards of trips, bookings and vehicles),
-- and the routes of the controllers that they stand before. NestJS runs the guard, then the pipe that
-- parses the id, then the handler. The id in the path is `none` where it is no uuid.
pub mod Owners
use gig_drive.Shared.{ℕ, ◌==◌, not, Bool, Option, none, some}
use gig_drive.Entities.{Text, User, Trip}
use gig_drive.Errors.{HttpError, unauthorized, forbidden, not_found, bad_request, Reason}
use gig_drive.Service.{World, Env, Action, pure, gets, throw, or_throw, throw_if, ◌>>=◌, ◌>>◌}
use gig_drive.TripViews.{TripDto}
use gig_drive.TripChecks.{UpdateTripDto}
use gig_drive.Trips
use gig_drive.Bookings.{BookingDto, accept, reject, set_paid}
use gig_drive.Manifest.{export_manifest}
use gig_drive.Vehicles.{VehicleDto, UpdateVehicleDto}

-- `OwnershipGuard.canActivate`, for the user of the request and the owner that a subclass resolves.
unfoldable pub ownership_guard : Action ℕ → Option User → Action (Unit {0})
ownership_guard owner_id user = do
  caller ← or_throw user unauthorized
  owner ← owner_id
  throw_if (not (owner == caller.id)) (forbidden Reason.no_message)

module _ (env : Env) where
  -- The `getOwnerId` of each guard.
  unfoldable pub trip_owner : Option ℕ → Action ℕ
  trip_owner param = do
    id ← or_throw param (not_found Reason.trip_not_found)
    trip ←
        or_throw (← gets (λ w. env.trips_repository.find_one (λ t. t.id == id) w.trips))
          (not_found Reason.trip_not_found)
    pure trip.driver_id

  unfoldable pub booking_driver : Option ℕ → Action ℕ
  booking_driver param = do
    id ← or_throw param (not_found Reason.booking_not_found)
    booking ←
        or_throw (← gets (λ w. env.bookings_repository.find_one (λ b. b.id == id) w.bookings))
          (not_found Reason.booking_not_found)
    trip ←
        or_throw
          (← gets (λ w. env.trips_repository.find_one (λ t. t.id == booking.trip_id) w.trips))
          (not_found Reason.booking_not_found)
    pure trip.driver_id

  unfoldable pub booking_passenger : Option ℕ → Action ℕ
  booking_passenger param = do
    id ← or_throw param (not_found Reason.booking_not_found)
    booking ←
        or_throw (← gets (λ w. env.bookings_repository.find_one (λ b. b.id == id) w.bookings))
          (not_found Reason.booking_not_found)
    pure booking.passenger_id

  unfoldable pub vehicle_owner : Option ℕ → Action ℕ
  vehicle_owner param = do
    id ← or_throw param (not_found Reason.vehicle_not_found)
    vehicle ←
        or_throw (← gets (λ w. env.vehicles_repository.find_one (λ v. v.id == id) w.vehicles))
          (not_found Reason.vehicle_not_found)
    pure vehicle.owner_id

-- `@UseGuards(guard)` and `@Param('id', ParseUUIDPipe)` before a handler.
unfoldable pub guarded :
    {A : Type 0} → (Option ℕ → Action ℕ) → (ℕ → Action A) → Option User → Option ℕ → Action A
unfolding ownership_guard
guarded owner handler user param = do
  ownership_guard (owner param) user
  id ← or_throw param bad_request
  handler id

-- The guarded routes.
module _ (env : Env) where
  abbrev pub patch_trip : UpdateTripDto → Option User → Option ℕ → Action TripDto
  patch_trip dto = guarded (trip_owner env) (λ id. gig_drive.Trips.update env id dto)

  abbrev pub post_confirm : Option User → Option ℕ → Action TripDto
  post_confirm = guarded (trip_owner env) (gig_drive.Trips.confirm env)

  abbrev pub post_cancel_trip : Option User → Option ℕ → Action TripDto
  post_cancel_trip = guarded (trip_owner env) (gig_drive.Trips.cancel env)

  abbrev pub get_manifest : Option User → Option ℕ → Action (Text × Text)
  get_manifest = guarded (trip_owner env) (export_manifest env)

  abbrev pub post_accept : Option User → Option ℕ → Action BookingDto
  post_accept = guarded (booking_driver env) (accept env)

  abbrev pub post_reject : Option User → Option ℕ → Action BookingDto
  post_reject = guarded (booking_driver env) (reject env)

  abbrev pub post_cancel_booking : Option User → Option ℕ → Action BookingDto
  post_cancel_booking = guarded (booking_passenger env) (gig_drive.Bookings.cancel env)

  abbrev pub patch_paid : Bool → Option User → Option ℕ → Action BookingDto
  patch_paid paid = guarded (booking_driver env) (λ id. set_paid env id paid)

  abbrev pub patch_vehicle : UpdateVehicleDto → Option User → Option ℕ → Action VehicleDto
  patch_vehicle dto = guarded (vehicle_owner env) (λ id. gig_drive.Vehicles.update env id dto)

  abbrev pub delete_vehicle : Option User → Option ℕ → Action (Unit {0})
  delete_vehicle = guarded (vehicle_owner env) (gig_drive.Vehicles.remove env)
