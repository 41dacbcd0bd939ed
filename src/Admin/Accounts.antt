-- ===== src/Admin/Accounts.antt =====
-- Histories of the accounts: registrations, changes of profiles, and what admins do to accounts, each
-- request on behalf of the account that its token stands for.
use gig_drive.Shared.{
  ℕ, ◌+◌, ◌≤◌, ◌==◌, ==_iff, true, ◌≡◌, ◌≢◌, sym, ◌⊎◌, inl, inr, none, some, List, [], ◌∷◌, Mem,
  arith, Keyed, Option-cases, Bool-cases, not, ◌&&◌, if◌then◌else◌, subst, mem-sum_by-le,
}
use gig_drive.Entities.{Text, User}
use gig_drive.Errors.{ok, err, conflict, unauthorized, Reason}
use gig_drive.Service.{World, Env, Action, ◌>>=◌}
use gig_drive.Users.{
  is_active_admin, find_by_id, other_active_admins, assert_disablable, write_disabled, disable,
  enable, create, update_profile, UpdateProfileDto,
}
use gig_drive.Users.Admins.{
  active_admins, count-sum_by, disable-Keeps, enable-Keeps, update_profile-Keeps, create-Keeps,
}
use gig_drive.Auth.{Crypto, RegisterDto, JwtPayload, register, validate_payload, authenticate}
use gig_drive.Admin.{admin_guard, disable_user, enable_user}

-- A request: a registration, or a call with a token.
pub data Request : Type 0 where
  registers : ℕ → RegisterDto → Request
  changes_profile : Text → UpdateProfileDto → Request
  disables enables : Text → ℕ → Request
  -- Time passes.
  waits : ℕ → Request

-- Each id is that of one account, and there is an enabled admin.
abbrev pub Accounts : World → Type 0
Accounts w = Keyed (λ (u : User). u.id) w.users × (1 ≤ active_admins w)

module _ (env : Env) (crypto : Crypto) where
  unfoldable pub serve : Request → World → World
  serve (Request.registers salt dto) w = (register env crypto salt dto w).1
  serve (Request.changes_profile token dto) w =
      ((authenticate env crypto token >>= λ user. update_profile env user.id dto) w).1
  serve (Request.disables token id) w =
      ((authenticate env crypto token >>= λ user. disable_user env user id) w).1
  serve (Request.enables token id) w =
      ((authenticate env crypto token >>= λ user. enable_user env user id) w).1
  serve (Request.waits ms) w = record w { now = w.now + ms }

  abbrev pub serve_all : List Request → World → World
  serve_all [] w = w
  serve_all (r ∷ rs) w = serve_all rs (serve r w)

  payload-cases :
      (payload : JwtPayload) (w : World)
      → (validate_payload env crypto payload w ≡ (err unauthorized, w))
        ⊎ ((user : User) × (validate_payload env crypto payload w ≡ (ok user, w))
            × (find_by_id env payload.sub w ≡ some user)
            × (user.disabled_at ≡ none))
  unfolding validate_payload
  payload-cases payload w = elim (Option-cases (find_by_id env payload.sub w)) [
    | inl e ↦ inl (ground arith)
    | inr (user, e) ↦ elim (Option-cases user.disabled_at) [
      | inl d ↦ inr (user, ground arith, e, d)
      | inr (at, d) ↦ inl (ground arith)
    ]
  ]

  -- A token stands for an account that is there and enabled, or it is refused.
  pub authenticate-cases :
      (token : Text) (w : World)
      → (authenticate env crypto token w ≡ (err unauthorized, w))
        ⊎ ((user : User) × (authenticate env crypto token w ≡ (ok user, w))
            × (find_by_id env user.id w ≡ some user)
            × (user.disabled_at ≡ none))
  unfolding authenticate
  authenticate-cases token w = elim (Option-cases (crypto.verify w.now token)) [
    | inl e ↦ inl (ground arith)
    | inr (payload, e) ↦ elim (payload-cases payload w) [
      | inl refused ↦ inl (rw e refused)
      | inr (user, valid, hit, active) ↦
          let own = (==_iff _ _).0 (env.users_repository.find_one_hit _ w.users user hit).1 in
          inr (user, rw e valid, subst (λ n. find_by_id env n w ≡ some user) (sym own) hit, active)
    ]
  ]

  as_user :
      {A : Type 0} (token : Text) (f : User → Action A) (w : World)
      → Accounts w
      → ((user : User) → Accounts (f user w).1)
      → Accounts ((authenticate env crypto token >>= f) w).1
  as_user token f w g h = elim (authenticate-cases token w) [
    | inl e ↦ rw e g
    | inr (user, e, _, _) ↦ rw e (h user)
  ]

  register-effect :
      (salt : ℕ) (dto : RegisterDto) (w : World)
      → let w' = (register env crypto salt dto w).1 in
        let made =
          create env dto.email
            (crypto.hash salt dto.password)
            dto.first_name
            dto.last_name
            dto.phone
            w in
        (w' ≡ w) ⊎ (w' ≡ made.1)
  unfolding register create
  register-effect salt dto w = ground arith

  disable_user-effect :
      (actor : User) (id : ℕ) (w : World)
      → let w' = (disable_user env actor id w).1 in (w' ≡ w) ⊎ (w' ≡ (disable env id actor.id w).1)
  unfolding disable_user admin_guard
  disable_user-effect actor id w = ground arith

  enable_user-effect :
      (actor : User) (id : ℕ) (w : World)
      → let w' = (enable_user env actor id w).1 in (w' ≡ w) ⊎ (w' ≡ (enable env id w).1)
  unfolding enable_user admin_guard
  enable_user-effect actor id w = ground arith

  either :
      {w u w' : World}
      → Accounts w
      → Keyed (λ (u : User). u.id) u.users × (1 ≤ active_admins w → 1 ≤ active_admins u)
      → (w' ≡ w) ⊎ (w' ≡ u)
      → Accounts w'
  either (k, h) (k', keeps) (inl e) = rw e (k, h)
  either (k, h) (k', keeps) (inr e) = rw e (k', keeps h)

  serve-Accounts : (r : Request) (w : World) → Accounts w → Accounts (serve r w)
  unfolding serve
  serve-Accounts (Request.registers salt dto) w (k, h) =
      let made =
        create-Keeps env dto.email (crypto.hash salt dto.password) dto.first_name dto.last_name
          dto.phone w k in
      either (k, h) made (register-effect salt dto w)
  serve-Accounts (Request.changes_profile token dto) w (k, h) =
      as_user token (λ user. update_profile env user.id dto) w (k, h)
        (λ user. let (k', keeps) = update_profile-Keeps env user.id dto w k in (k', keeps h))
  serve-Accounts (Request.disables token id) w (k, h) =
      as_user token (λ user. disable_user env user id) w (k, h)
        (λ user. either (k, h) (disable-Keeps env id user.id w k) (disable_user-effect user id w))
  serve-Accounts (Request.enables token id) w (k, h) =
      as_user token (λ user. enable_user env user id) w (k, h)
        (λ user. either (k, h) (enable-Keeps env id w k) (enable_user-effect user id w))
  serve-Accounts (Request.waits ms) w g = g

  -- Whatever requests are served, with whatever tokens, the ids of the accounts stay unique and there is an
  -- enabled admin, if both hold to begin with.
  pub serve_all-Accounts :
      (requests : List Request) (w : World) → Accounts w → Accounts (serve_all requests w)
  serve_all-Accounts [] w g = g
  serve_all-Accounts (r ∷ rs) w g = serve_all-Accounts rs (serve r w) (serve-Accounts r w g)

  another_active :
      (a user : User) (w : World)
      → Mem a w.users
      → is_active_admin a ≡ true
      → a.id ≢ user.id
      → 1 ≤ other_active_admins env user w
  another_active a user w m active apart =
      let is_other = λ (u : User). is_active_admin u && not (u.id == user.id) in
      let counted = count-sum_by env.users_repository is_other w.users in
      let own : is_other a ≡ true = ground arith in
      let one = mem-sum_by-le (λ u. if is_other u then 1 else 0) a w.users m in
      omega (arith, counted, (rw own at one))

  disable-not_last :
      (target_id actor_id : ℕ) (w : World)
      → ((u : User) → u.id ≢ actor_id → 1 ≤ other_active_admins env u w)
      → (disable env target_id actor_id w).0 ≢ err (conflict Reason.last_admin)
  unfolding disable assert_disablable write_disabled
  disable-not_last target_id actor_id w others e =
      elim (Option-cases (find_by_id env target_id w)) [
        | inl d ↦ ground arith
        | inr (u, d) ↦ elim (Bool-cases (u.id == actor_id)) [
          | inl own ↦ ground arith
          | inr other ↦ let more = others u (λ same. ground arith) in ground arith
        ]
      ]

  disable_user-not_last_admin :
      (actor : User) (id : ℕ) (w : World)
      → Mem actor w.users
      → actor.disabled_at ≡ none
      → (disable_user env actor id w).0 ≢ err (conflict Reason.last_admin)
  unfolding disable_user admin_guard
  disable_user-not_last_admin actor id w m active e = elim (Bool-cases actor.is_admin) [
    | inl admin ↦
        let never =
          disable-not_last id actor.id w
            (λ u apart. another_active actor u w m (ground arith) (λ d. apart (sym d))) in
        ground arith
    | inr plain ↦ ground arith
  ]

  -- An admin whose token is accepted is never told that the account to disable is the last admin: that
  -- check of `disable` cannot fail on the route.
  pub disable_user-not_last :
      (token : Text) (id : ℕ) (w : World)
      → ((authenticate env crypto token >>= λ user. disable_user env user id) w).0
        ≢ err (conflict Reason.last_admin)
  disable_user-not_last token id w = elim (authenticate-cases token w) [
    | inl refused ↦ rw refused (λ e. ground arith)
    | inr (user, valid, hit, active) ↦ rw valid (
        disable_user-not_last_admin user id w
          (env.users_repository.find_one_hit _ w.users user hit).0 active)
  ]
