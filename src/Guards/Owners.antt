-- ===== src/Guards/Owners.antt =====
-- Who gets through the guards: the owner, by the tables, and nobody else.
use gig_drive.Shared.{
  ℕ, ◌==◌, ==_iff, Bool, true, false, ◌≡◌, refl, sym, ◌∙◌, ◌⊎◌, inl, inr, Option, none, some, Mem,
  arith, Option-cases, Bool-cases, subst, Keyed, mem-key-eq,
}
use gig_drive.Entities.{User, Trip, Booking, Vehicle}
use gig_drive.Errors.{HttpError, not_found, forbidden, Reason, Result, ok, err}
use gig_drive.Service.{World, Env, Action}
use gig_drive.TripChecks.{UpdateTripDto}
use gig_drive.Vehicles.{UpdateVehicleDto}
use gig_drive.Manifest.{export_manifest}
use gig_drive.Bookings.{accept, reject, set_paid}
use gig_drive.Trips
use gig_drive.Guards.{
  ownership_guard, trip_owner, booking_driver, booking_passenger, vehicle_owner, guarded,
  patch_trip, post_confirm, post_cancel_trip, get_manifest, post_accept, post_reject,
  post_cancel_booking, patch_paid, patch_vehicle, delete_vehicle,
}

-- The owners, by the tables.
abbrev pub OwnsTrip : ℕ → ℕ → World → Type 0
OwnsTrip user_id id w = (t : Trip) × Mem t w.trips × (t.id ≡ id) × (t.driver_id ≡ user_id)

abbrev pub DrivesBooking : ℕ → ℕ → World → Type 0
DrivesBooking user_id id w =
    (b : Booking) × Mem b w.bookings × (b.id ≡ id) × OwnsTrip user_id b.trip_id w

abbrev pub OwnsBooking : ℕ → ℕ → World → Type 0
OwnsBooking user_id id w =
    (b : Booking) × Mem b w.bookings × (b.id ≡ id) × (b.passenger_id ≡ user_id)

abbrev pub OwnsVehicle : ℕ → ℕ → World → Type 0
OwnsVehicle user_id id w = (v : Vehicle) × Mem v w.vehicles × (v.id ≡ id) × (v.owner_id ≡ user_id)

-- What a guard reads: it throws, or it returns the owner of the row that the id names. It writes nothing.
abbrev pub Resolved : Result ℕ × World → (ℕ → ℕ → World → Type 0) → Option ℕ → World → Type 0
Resolved result IsOwner param w =
    ((e : HttpError) × (result ≡ (err e, w)))
    ⊎ ((id : ℕ) × (owner_id : ℕ) × (param ≡ some id)
        × (result ≡ (ok owner_id, w))
        × IsOwner owner_id id w)

module _ (env : Env) where
  open env use {trips_repository, bookings_repository, vehicles_repository}

  trip_hit :
      (id : ℕ) (t : Trip) (w : World)
      → trips_repository.find_one (λ t. t.id == id) w.trips ≡ some t
      → OwnsTrip t.driver_id id w
  trip_hit id t w e =
      let (m, own) = trips_repository.find_one_hit _ w.trips t e in (t, m, (==_iff _ _).0 own, refl)

  trip_owner-Resolved :
      (param : Option ℕ) (w : World) → Resolved (trip_owner env param w) OwnsTrip param w
  unfolding trip_owner
  trip_owner-Resolved none w = inl (_, refl)
  trip_owner-Resolved (some id) w =
      elim (Option-cases (trips_repository.find_one (λ t. t.id == id) w.trips)) [
        | inl e ↦ inl (not_found Reason.trip_not_found, rw e refl)
        | inr (t, e) ↦ inr (id, t.driver_id, refl, rw e refl, trip_hit id t w e)
      ]

  booking_driver-Resolved :
      (param : Option ℕ) (w : World) → Resolved (booking_driver env param w) DrivesBooking param w
  unfolding booking_driver
  booking_driver-Resolved none w = inl (_, refl)
  booking_driver-Resolved (some id) w =
      elim (Option-cases (bookings_repository.find_one (λ b. b.id == id) w.bookings)) [
        | inl e ↦ inl (not_found Reason.booking_not_found, rw e refl)
        | inr (b, e) ↦
            let (m, own) = bookings_repository.find_one_hit _ w.bookings b e in
            elim (Option-cases (trips_repository.find_one (λ t. t.id == b.trip_id) w.trips)) [
              | inl d ↦ inl (not_found Reason.booking_not_found, rw (e, d) refl)
              | inr (t, d) ↦ inr (
                id,
                t.driver_id,
                refl,
                rw (e, d) refl,
                (b, m, (==_iff _ _).0 own, trip_hit b.trip_id t w d),
              )
            ]
      ]

  booking_passenger-Resolved :
      (param : Option ℕ) (w : World) → Resolved (booking_passenger env param w) OwnsBooking param w
  unfolding booking_passenger
  booking_passenger-Resolved none w = inl (_, refl)
  booking_passenger-Resolved (some id) w =
      elim (Option-cases (bookings_repository.find_one (λ b. b.id == id) w.bookings)) [
        | inl e ↦ inl (not_found Reason.booking_not_found, rw e refl)
        | inr (b, e) ↦
            let (m, own) = bookings_repository.find_one_hit _ w.bookings b e in
            inr (id, b.passenger_id, refl, rw e refl, (b, m, (==_iff _ _).0 own, refl))
      ]

  vehicle_owner-Resolved :
      (param : Option ℕ) (w : World) → Resolved (vehicle_owner env param w) OwnsVehicle param w
  unfolding vehicle_owner
  vehicle_owner-Resolved none w = inl (_, refl)
  vehicle_owner-Resolved (some id) w =
      elim (Option-cases (vehicles_repository.find_one (λ v. v.id == id) w.vehicles)) [
        | inl e ↦ inl (not_found Reason.vehicle_not_found, rw e refl)
        | inr (v, e) ↦
            let (m, own) = vehicles_repository.find_one_hit _ w.vehicles v e in
            inr (id, v.owner_id, refl, rw e refl, (v, m, (==_iff _ _).0 own, refl))
      ]

-- A request is refused and writes nothing, or the owner of the row is the user and the handler runs.
abbrev pub Guarded :
    {A : Type 0}
    → Result A × World
    → (ℕ → ℕ → World → Type 0)
    → (ℕ → Action A)
    → Option User
    → Option ℕ
    → World
    → Type 0
Guarded result IsOwner handler user param w =
    ((e : HttpError) × (result ≡ (err e, w)))
    ⊎ ((u : User) × (id : ℕ) × (user ≡ some u)
        × (param ≡ some id)
        × IsOwner u.id id w
        × (result ≡ handler id w))

guarded-Guarded :
    {A : Type 0} (owner : Option ℕ → Action ℕ) (IsOwner : ℕ → ℕ → World → Type 0)
    (handler : ℕ → Action A) (user : Option User) (param : Option ℕ) (w : World)
    → Resolved (owner param w) IsOwner param w
    → Guarded (guarded owner handler user param w) IsOwner handler user param w
unfolding guarded ownership_guard
guarded-Guarded owner IsOwner handler none param w r = inl (_, refl)
guarded-Guarded owner IsOwner handler (some u) param w (inl (e, thrown)) = inl (e, rw thrown refl)
guarded-Guarded owner IsOwner handler (some u) param w (inr (id, owner_id, p, found, owns)) =
    elim (Bool-cases (owner_id == u.id)) [
      | inl own ↦ inr (
        u,
        id,
        refl,
        p,
        subst (λ n. IsOwner n id w) ((==_iff _ _).0 own) owns,
        rw (found, own, p) refl,
      )
      | inr other ↦ inl (forbidden Reason.no_message, rw (found, other) refl)
    ]

abbrev pub RoutesGuarded :
    Env → Option User → Option ℕ → UpdateTripDto → Bool → UpdateVehicleDto → World → Type 0
RoutesGuarded env user param trip_dto paid vehicle_dto w =
    Guarded (patch_trip env trip_dto user param w) OwnsTrip
      (λ id. gig_drive.Trips.update env id trip_dto) user param w
    × Guarded (post_confirm env user param w) OwnsTrip (gig_drive.Trips.confirm env) user param w
    × Guarded (post_cancel_trip env user param w) OwnsTrip (gig_drive.Trips.cancel env) user param w
    × Guarded (get_manifest env user param w) OwnsTrip (export_manifest env) user param w
    × Guarded (post_accept env user param w) DrivesBooking (accept env) user param w
    × Guarded (post_reject env user param w) DrivesBooking (reject env) user param w
    × Guarded (patch_paid env paid user param w) DrivesBooking (λ id. set_paid env id paid) user
        param w
    × Guarded (post_cancel_booking env user param w) OwnsBooking (gig_drive.Bookings.cancel env)
        user param w
    × Guarded (patch_vehicle env vehicle_dto user param w) OwnsVehicle
        (λ id. gig_drive.Vehicles.update env id vehicle_dto) user param w
    × Guarded (delete_vehicle env user param w) OwnsVehicle (gig_drive.Vehicles.remove env) user
        param w

-- What the user must be to get a handler to run: the driver of the trip for its edits, its confirmation,
-- its cancellation and its manifest, the driver of the booking's trip for accept, reject and paid, the
-- passenger for the cancellation of a booking, and the owner for the routes of a vehicle. In every other
-- case the request is refused and nothing is written.
pub routes-Guarded :
    (env : Env) (user : Option User) (param : Option ℕ) (trip_dto : UpdateTripDto) (paid : Bool)
    (vehicle_dto : UpdateVehicleDto) (w : World)
    → RoutesGuarded env user param trip_dto paid vehicle_dto w
routes-Guarded env user param trip_dto paid vehicle_dto w =
    let of_trip = trip_owner-Resolved env param w in
    let of_driver = booking_driver-Resolved env param w in
    let of_passenger = booking_passenger-Resolved env param w in
    let of_vehicle = vehicle_owner-Resolved env param w in
    (
      guarded-Guarded _ OwnsTrip (λ id. gig_drive.Trips.update env id trip_dto) user param w
          of_trip,
      guarded-Guarded _ OwnsTrip (gig_drive.Trips.confirm env) user param w of_trip,
      guarded-Guarded _ OwnsTrip (gig_drive.Trips.cancel env) user param w of_trip,
      guarded-Guarded _ OwnsTrip (export_manifest env) user param w of_trip,
      guarded-Guarded _ DrivesBooking (accept env) user param w of_driver,
      guarded-Guarded _ DrivesBooking (reject env) user param w of_driver,
      guarded-Guarded _ DrivesBooking (λ id. set_paid env id paid) user param w of_driver,
      guarded-Guarded _ OwnsBooking (gig_drive.Bookings.cancel env) user param w of_passenger,
      guarded-Guarded _ OwnsVehicle (λ id. gig_drive.Vehicles.update env id vehicle_dto) user param
          w of_vehicle,
      guarded-Guarded _ OwnsVehicle (gig_drive.Vehicles.remove env) user param w of_vehicle,
    )

-- The driver of a trip, by the tables, gets through the guard of its routes, if each id stands in one row.
pub trip_owner-passes :
    {A : Type 0} (env : Env) (handler : ℕ → Action A) (user : User) (id : ℕ) (w : World)
    → Keyed (λ t. t.id) w.trips
    → OwnsTrip user.id id w
    → guarded (trip_owner env) handler (some user) (some id) w ≡ handler id w
unfolding guarded ownership_guard trip_owner
trip_owner-passes env handler user id w k (t, m, own, drives) =
    elim (Option-cases (env.trips_repository.find_one (λ t. t.id == id) w.trips)) [
      | inl e ↦ absurd (
          clash (sym ((==_iff t.id id).1 own) ∙ env.trips_repository.find_one_miss _ w.trips e t m))
      | inr (u, e) ↦
          let (n, hit) = env.trips_repository.find_one_hit _ w.trips u e in
          let same =
            mem-key-eq (λ (t : Trip). t.id) (λ t. t.driver_id) u t w.trips k n m
              ((==_iff _ _).0 hit ∙ sym own) in
          ground arith
    ]
  where
    clash : true ≡ false → ⊥
    clash q = cc
