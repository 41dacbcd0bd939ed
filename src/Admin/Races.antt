-- ===== src/Admin/Races.antt =====
-- Two calls of `disable` of backend/src/users/users.service.ts that overlap: each counts the other admins
-- before the other has written.
use gig_drive.Shared.{
  ℕ, ◌+◌, ◌≤◌, true, ◌≡◌, ◌≢◌, refl, sym, Mem, arith, Keyed, weight_at-Keyed, some,
}
use gig_drive.Entities.{User}
use gig_drive.Errors.{ok}
use gig_drive.Repository.Queries.{Keyed-save, mem-save_ne}
use gig_drive.Service.{World, Env}
use gig_drive.Users.{is_active_admin, assert_disablable, write_disabled, other_active_admins}
use gig_drive.Users.Admins.{active_admins, weight, others-total, rewrite-total, with_user}

module _ (env : Env) where
  abbrev off : User → World → User
  off user w = record user { disabled_at = some w.now }

  -- The check passes where another admin is counted.
  passes :
      (user : User) (actor_id : ℕ) (w : World)
      → user.id ≢ actor_id
      → 1 ≤ other_active_admins env user w
      → assert_disablable env user actor_id w ≡ (ok tt, w)
  unfolding assert_disablable
  passes user actor_id w apart more = ground arith

  one_less :
      (user : User) (w : World)
      → Keyed (λ u. u.id) w.users
      → Mem user w.users
      → is_active_admin user ≡ true
      → active_admins (write_disabled env user w).1 + 1 ≡ active_admins w
  unfolding write_disabled
  one_less user w k m active =
      let total = rewrite-total env user (off user w) w k m refl in ground (arith, total)

  others :
      (user : User) (w : World)
      → Keyed (λ u. u.id) w.users
      → Mem user w.users
      → is_active_admin user ≡ true
      → active_admins w ≡ 1 + other_active_admins env user w
  others user w k m active =
      let total = others-total env user w in
      let own = weight_at-Keyed (λ (u : User). u.id) weight user w.users k m in
      ground (arith, total, own)

  -- Two enabled admins, and no other, who disable each other at the same time: the checks of both calls
  -- pass on the accounts as they were, and after both have written nobody can act as an admin.
  pub disable-stale :
      (a b : User) (w : World)
      → Keyed (λ u. u.id) w.users
      → Mem a w.users
      → Mem b w.users
      → is_active_admin a ≡ true
      → is_active_admin b ≡ true
      → a.id ≢ b.id
      → active_admins w ≡ 2
      → let w' = (write_disabled env b (write_disabled env a w).1).1 in
        (assert_disablable env a b.id w ≡ (ok tt, w))
        × (assert_disablable env b a.id w ≡ (ok tt, w))
        × (active_admins w' ≡ 0)
  unfolding write_disabled
  disable-stale a b w k m n active_a active_b apart two =
      let w1 = with_user env (off a w) w in
      let k1 = Keyed-save env.users_repository (off a w) w.users k in
      let n1 = mem-save_ne env.users_repository b (off a w) w.users n (λ e. apart (sym e)) in
      (
        passes a b.id w apart (omega (arith, others a w k m active_a)),
        passes b a.id w (λ e. apart (sym e)) (omega (arith, others b w k n active_b)),
        omega (arith, one_less a w k m active_a, one_less b w1 k1 n1 active_b),
      )
