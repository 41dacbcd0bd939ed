-- ===== src/Users/Admins.antt =====
-- The accounts of backend/src/users/users.service.ts: the service always leaves an admin who may act.

use gig_drive.Shared.{
  ℕ, ◌+◌, ◌≤◌, ◌==◌, Bool, false, not, ◌&&◌, ◌≡◌, ◌≢◌, refl, ap, ◌∙◌, ◌⊎◌, inl, inr, Option, none,
  some, List, [], ◌∷◌, Mem, arith, sum_by, sum_by-filter, weight_at, weight_at-none,
  weight_at-Keyed, count_key-unused, Keyed, filter, length, if◌then◌else◌,
}
use gig_drive.Entities.{Text, User}
use gig_drive.Errors.{is_ok}
use gig_drive.Repository.{Repository}
use gig_drive.Repository.Queries.{sum_by-save, Keyed-save}
use gig_drive.Service.{World, Env}
use gig_drive.Users.{
  is_active_admin, find_by_id, other_active_admins, assert_disablable, write_disabled, disable,
  enable, update_profile, create, apply_profile, new_user, UpdateProfileDto,
}

abbrev pub weight : User → ℕ
weight user = if is_active_admin user then 1 else 0

-- How many admins may act.
abbrev pub active_admins : World → ℕ
active_admins w = sum_by weight w.users

length-sum_by : {A : Type 0} (xs : List A) → length xs ≡ sum_by (λ x. 1) xs
length-sum_by [] = refl
length-sum_by (x ∷ xs) = omega (arith, length-sum_by xs)

-- A count of the repository is a sum over the rows.
pub count-sum_by :
    {E : Type 0} {key : E → ℕ} (r : Repository key) (p : E → Bool) (rows : List E)
    → r.count p rows ≡ sum_by (λ e. if p e then 1 else 0) rows
count-sum_by r p rows =
    r.count_rows p rows ∙ length-sum_by (filter p rows) ∙ sum_by-filter (λ e. 1) p rows

-- The rows of a user, and those of the others.
split :
    (id : ℕ) (rows : List User)
    → sum_by weight rows
      ≡ weight_at (λ u. u.id) weight id rows
        + sum_by (λ u. if is_active_admin u && not (u.id == id) then 1 else 0) rows
split id [] = refl
split id (u ∷ rows) = ground (arith, split id rows)

module _ (env : Env) where
  open env use {users_repository}

  abbrev pub with_user : User → World → World
  with_user user w = record w { users = users_repository.save user w.users }

  pub others-total :
      (user : User) (w : World)
      → active_admins w
        ≡ weight_at (λ u. u.id) weight user.id w.users + other_active_admins env user w
  others-total user w = omega (
    arith,
    split user.id w.users,
    count-sum_by users_repository (λ u. is_active_admin u && not (u.id == user.id)) w.users,
  )

  abbrev pub found : ℕ → World → Option User
  found id w = find_by_id env id w

  found-Mem : (id : ℕ) (w : World) (u : User) → found id w ≡ some u → Mem u w.users
  found-Mem id w u e = (users_repository.find_one_hit _ w.users u e).0

  -- Writing a row in place of the row that was read.
  pub rewrite-total :
      (old new : User) (w : World)
      → Keyed (λ u. u.id) w.users
      → Mem old w.users
      → new.id ≡ old.id
      → active_admins (with_user new w) + weight old ≡ active_admins w + weight new
  rewrite-total old new w k m e =
      let kept = sum_by-save users_repository weight new w.users k in
      let own = weight_at-Keyed (λ (u : User). u.id) weight old w.users k m in
      omega (arith, kept, own, ap (λ n. weight_at (λ (u : User). u.id) weight n w.users) e)

  update_profile-effect :
      (id : ℕ) (dto : UpdateProfileDto) (w : World)
      → let w' = (update_profile env id dto w).1 in
        (w'.users ≡ w.users)
        ⊎ ((u : User) × (found id w ≡ some u)
            × (w'.users ≡ users_repository.save (apply_profile dto u) w.users))
  unfolding update_profile
  update_profile-effect id dto w = ground arith

  enable-effect :
      (id : ℕ) (w : World)
      → let w' = (enable env id w).1 in
        (w'.users ≡ w.users)
        ⊎ ((u : User) × (found id w ≡ some u)
            × (w'.users ≡ users_repository.save (record u { disabled_at = none }) w.users))
  unfolding enable
  enable-effect id w = ground arith

  -- Disabling writes nothing, or the user is there and is not the actor, another admin may act if the
  -- user is one, and the user is written as disabled now.
  pub disable-effect :
      (target_id actor_id : ℕ) (w : World)
      → let w' = (disable env target_id actor_id w).1 in
        ((w' ≡ w) × (is_ok (disable env target_id actor_id w).0 ≡ false))
        ⊎ ((u : User) × (found target_id w ≡ some u)
            × (u.id ≢ actor_id)
            × ((u.is_admin ≡ false) ⊎ (1 ≤ other_active_admins env u w))
            × (w' ≡ with_user (record u { disabled_at = some w.now }) w))
  unfolding disable assert_disablable write_disabled
  disable-effect target_id actor_id w = ground arith

  -- Rows that change in place.
  abbrev Keeps : World → World → Type 0
  Keeps w w' = Keyed (λ (u : User). u.id) w'.users × (1 ≤ active_admins w → 1 ≤ active_admins w')

  pub update_profile-Keeps :
      (id : ℕ) (dto : UpdateProfileDto) (w : World)
      → Keyed (λ u. u.id) w.users
      → Keeps w (update_profile env id dto w).1
  update_profile-Keeps id dto w k = elim (update_profile-effect id dto w) [
    | inl same ↦ rw same (k, λ h. h)
    | inr (u, e, saved) ↦
        let total = rewrite-total u (apply_profile dto u) w k (found-Mem id w u e) refl in
        rw saved (Keyed-save users_repository _ w.users k, λ h. omega (arith, total))
  ]

  pub enable-Keeps : (id : ℕ) (w : World) → Keyed (λ u. u.id) w.users → Keeps w (enable env id w).1
  enable-Keeps id w k = elim (enable-effect id w) [
    | inl same ↦ rw same (k, λ h. h)
    | inr (u, e, saved) ↦
        let total =
          rewrite-total u (record u { disabled_at = none }) w k (found-Mem id w u e) refl in
        rw saved (Keyed-save users_repository _ w.users k, λ h. ground (arith, total))
  ]

  pub disable-Keeps :
      (target_id actor_id : ℕ) (w : World)
      → Keyed (λ u. u.id) w.users
      → Keeps w (disable env target_id actor_id w).1
  disable-Keeps target_id actor_id w k = elim (disable-effect target_id actor_id w) [
    | inl (same, _) ↦ rw same (k, λ h. h)
    | inr (u, e, _, others, saved) ↦
        let m = found-Mem target_id w u e in
        let total = rewrite-total u (record u { disabled_at = some w.now }) w k m refl in
        let rest = others-total u w in
        let own = weight_at-Keyed (λ (u : User). u.id) weight u w.users k m in
        rw saved (Keyed-save users_repository _ w.users k, λ h. ground (arith, total, rest, own))
  ]

  pub create-Keeps :
      (email password_hash first_name last_name : Text) (phone : Option Text) (w : World)
      → Keyed (λ u. u.id) w.users
      → Keeps w (create env email password_hash first_name last_name phone w).1
  unfolding create
  create-Keeps email password_hash first_name last_name phone w k =
      let user = new_user env email password_hash first_name last_name phone w in
      let kept = sum_by-save users_repository weight user w.users k in
      let unused =
        weight_at-none (λ (u : User). u.id) weight user.id w.users
          (count_key-unused (λ (u : User). u.id) user.id w.users
            (users_repository.new_id_unused w.users)) in
      (Keyed-save users_repository _ w.users k, λ h. omega (arith, kept, unused))
