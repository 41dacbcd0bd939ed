-- ===== src/Vehicles/Owned.antt =====
-- The vehicles that trips refer to: what the services for trips, bookings, the waitlist and vehicles keep.
use mathlib.Core.Logic.Or
use native.Mathlib.Bridge.{le_prop}
use gig_drive.Shared.{
  ℕ, ◌≤◌, ◌==◌, ==_iff, ◌&&◌, ◌≡◌, refl, ◌⊎◌, inl, inr, Option, some, List, [], ◌∷◌, Mem, arith,
  sum_by, sum_by-perm, mem-sum_by-le, weight_at-none, weight_at-Keyed, count_key-unused, Keyed,
  erase, if◌then◌else◌, Bool-cases,
}
use gig_drive.Entities.{Vehicle, Trip}
use gig_drive.Repository.Queries.{mem-save, sum_by-save, Keyed-save}
use gig_drive.Service.{World, Env}
use gig_drive.Trips.Effects.{Moves, stays, moves, follows}
use gig_drive.Users.Admins.{count-sum_by}
use gig_drive.Vehicles.{
  CreateVehicleDto, UpdateVehicleDto, new_vehicle, assign_vehicle, create, update, remove,
}

-- Whether a vehicle is the one of a trip, and belongs to its driver.
abbrev pub serves : Trip → Vehicle → ℕ
serves t v = if v.id == t.vehicle_id && v.owner_id == t.driver_id then 1 else 0

-- Each trip has its vehicle in the table, as a vehicle of its driver.
abbrev pub AllOwned : List Trip → List Vehicle → Type 0
AllOwned trips vehicles = (t : Trip) → Mem t trips → 1 ≤ sum_by (serves t) vehicles

-- A trip that is written keeps its vehicle and its driver, or has a vehicle of its driver.
pub save_trip-AllOwned :
    (env : Env) (t : Trip) (trips : List Trip) (vehicles : List Vehicle)
    → AllOwned trips vehicles
    → 1 ≤ sum_by (serves t) vehicles
    → AllOwned (env.trips_repository.save t trips) vehicles
save_trip-AllOwned env t trips vehicles h own u m =
    Or.elim le_prop (mem-save env.trips_repository u t trips m) (λ e. rw e own) (h u)

pub Moves-AllOwned :
    {env : Env} {w w' : World} (vehicles : List Vehicle)
    → Moves env w w'
    → AllOwned w.trips vehicles
    → AllOwned w'.trips vehicles
Moves-AllOwned vehicles (stays e b) h = rw e h
Moves-AllOwned {env} vehicles (moves {w = w} t s m l d e b) h =
    rw e (save_trip-AllOwned env _ w.trips vehicles h (h t m))
Moves-AllOwned vehicles (follows a b) h = Moves-AllOwned vehicles b (Moves-AllOwned vehicles a h)

sum_by-erase :
    {A : Type 0} (key : A → ℕ) (f : A → ℕ) (e : A) (xs : List A)
    → ((x : A) → key x ≡ key e → f x ≡ 0)
    → sum_by f (erase key e xs) ≡ sum_by f xs
sum_by-erase key f e [] h = refl
sum_by-erase key f e (x ∷ xs) h = elim (Bool-cases (key x == key e)) [
  | inl q ↦ let zero_weight = h x ((==_iff _ _).0 q) in ground arith
  | inr q ↦ rw q (omega (arith, sum_by-erase key f e xs h))
]

sum_by-erase-le :
    {A : Type 0} (key : A → ℕ) (f : A → ℕ) (e : A) (xs : List A)
    → sum_by f (erase key e xs) ≤ sum_by f xs
sum_by-erase-le key f e [] = omega arith
sum_by-erase-le key f e (x ∷ xs) = ground (arith, sum_by-erase-le key f e xs)

-- A table of vehicles with one row for each id, which holds the vehicle of each trip.
abbrev pub Linked : World → Type 0
Linked w = Keyed (λ (v : Vehicle). v.id) w.vehicles × AllOwned w.trips w.vehicles

module _ (env : Env) where
  open env use {vehicles_repository, trips_repository}

  abbrev found : ℕ → World → Option Vehicle
  found id w = vehicles_repository.find_one (λ v. v.id == id) w.vehicles

  -- A new vehicle takes no trip's vehicle away.
  create-AllOwned :
      (owner_id : ℕ) (dto : CreateVehicleDto) (w : World)
      → Keyed (λ v. v.id) w.vehicles
      → AllOwned w.trips w.vehicles
      → let w' = (create env owner_id dto w).1 in AllOwned w'.trips w'.vehicles
  unfolding create
  create-AllOwned owner_id dto w k h t m =
      let vehicle = new_vehicle env owner_id dto w in
      let total = sum_by-save vehicles_repository (serves t) vehicle w.vehicles k in
      let unused =
        weight_at-none (λ (v : Vehicle). v.id) (serves t) vehicle.id w.vehicles
          (count_key-unused (λ (v : Vehicle). v.id) vehicle.id w.vehicles
            (vehicles_repository.new_id_unused w.vehicles)) in
      omega (arith, total, unused, h t m)

  update-effect :
      (id : ℕ) (dto : UpdateVehicleDto) (w : World)
      → let w' = (update env id dto w).1 in
        (w' ≡ w)
        ⊎ ((v : Vehicle) × (found id w ≡ some v)
            × (w' ≡ record w {
              vehicles = vehicles_repository.save (assign_vehicle dto v) w.vehicles;
            }))
  unfolding update
  update-effect id dto w = ground arith

  remove-effect :
      (id : ℕ) (w : World)
      → let w' = (remove env id w).1 in
        (w' ≡ w)
        ⊎ ((v : Vehicle) × (found id w ≡ some v)
            × (trips_repository.count (λ t. t.vehicle_id == id) w.trips ≡ 0)
            × (w' ≡ record w { vehicles = vehicles_repository.remove v w.vehicles }))
  unfolding remove
  remove-effect id w = ground arith

  update-AllOwned :
      (id : ℕ) (dto : UpdateVehicleDto) (w : World)
      → Keyed (λ v. v.id) w.vehicles
      → AllOwned w.trips w.vehicles
      → let w' = (update env id dto w).1 in AllOwned w'.trips w'.vehicles
  update-AllOwned id dto w k h = elim (update-effect id dto w) [
    | inl same ↦ rw same h
    | inr (v, e, saved) ↦ rw saved λ t m.
        let total =
          sum_by-save vehicles_repository (serves t) (assign_vehicle dto v) w.vehicles k in
        let (there, _) = vehicles_repository.find_one_hit _ w.vehicles v e in
        let own = weight_at-Keyed (λ (v : Vehicle). v.id) (serves t) v w.vehicles k there in
        ground (arith, total, own, h t m)
  ]

  remove-AllOwned :
      (id : ℕ) (w : World)
      → AllOwned w.trips w.vehicles
      → let w' = (remove env id w).1 in AllOwned w'.trips w'.vehicles
  remove-AllOwned id w h = elim (remove-effect id w) [
    | inl same ↦ rw same h
    | inr (v, e, unused, removed) ↦ rw removed λ t m.
        let (_, own) = vehicles_repository.find_one_hit _ w.vehicles v e in
        let none_left = count-sum_by trips_repository (λ t. t.vehicle_id == id) w.trips in
        let used = mem-sum_by-le (λ t. if t.vehicle_id == id then 1 else 0) t w.trips m in
        let kept =
          sum_by-erase (λ (v : Vehicle). v.id) (serves t) v w.vehicles (λ x d. ground arith) in
        omega (
          arith,
          kept,
          h t m,
          sum_by-perm (serves t) (vehicles_repository.remove_rows v w.vehicles),
        )
  ]

  pub create-trips :
      (owner_id : ℕ) (dto : CreateVehicleDto) (w : World)
      → (create env owner_id dto w).1.trips ≡ w.trips
  unfolding create
  create-trips owner_id dto w = refl

  pub update-trips :
      (id : ℕ) (dto : UpdateVehicleDto) (w : World) → (update env id dto w).1.trips ≡ w.trips
  unfolding update
  update-trips id dto w = ground arith

  pub remove-trips : (id : ℕ) (w : World) → (remove env id w).1.trips ≡ w.trips
  unfolding remove
  remove-trips id w = ground arith

  pub create-Linked :
      (owner_id : ℕ) (dto : CreateVehicleDto) (w : World)
      → Linked w
      → Linked (create env owner_id dto w).1
  unfolding create
  create-Linked owner_id dto w (k, h) =
      (Keyed-save vehicles_repository _ w.vehicles k, create-AllOwned owner_id dto w k h)

  pub update-Linked :
      (id : ℕ) (dto : UpdateVehicleDto) (w : World) → Linked w → Linked (update env id dto w).1
  update-Linked id dto w (k, h) = (
    elim (update-effect id dto w) [
      | inl same ↦ rw same k
      | inr (v, e, saved) ↦
          rw saved (Keyed-save vehicles_repository (assign_vehicle dto v) w.vehicles k)
    ],
    update-AllOwned id dto w k h,
  )

  pub remove-Linked : (id : ℕ) (w : World) → Linked w → Linked (remove env id w).1
  remove-Linked id w (k, h) = (
    elim (remove-effect id w) [
      | inl same ↦ rw same k
      | inr (v, e, _, removed) ↦ rw removed λ n.
          let one : Vehicle → ℕ = λ x. if x.id == n then 1 else 0 in
          omega (
            arith,
            k n,
            sum_by-perm one (vehicles_repository.remove_rows v w.vehicles),
            sum_by-erase-le (λ (x : Vehicle). x.id) one v w.vehicles,
          )
    ],
    remove-AllOwned id w h,
  )
