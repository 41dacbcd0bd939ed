-- ===== src/Auth/Login.antt =====
-- Registration, login and the authentication of requests, taken together.

use native.Mathlib.Nat.{ℕ_set}
use gig_drive.Shared.{
  ℕ, ◌+◌, ◌≤◌, ◌<◌, ◌==◌, ==_iff, true, false, ◌≡◌, refl, sym, ap, ◌∙◌, inl, inr, Option, none,
  some, [], ◌∷◌, arith, is_some, Option-cases, Keyed, mem-key-eq, if◌then◌else◌,
}
use gig_drive.Entities.{Text, User}
use gig_drive.Errors.{ok, err, is_ok, unauthorized}
use gig_drive.Repository.Queries.{find_one-saved, mem-save_self, Keyed-save}
use gig_drive.Service.{World, Env}
use gig_drive.Users.{same_text, find_by_email, find_by_id, new_user, create, user_dto, disable}
use gig_drive.Users.Admins.{disable-effect, with_user}
use gig_drive.Auth.{
  JwtPayload, Crypto, RegisterDto, AuthResponseDto, register, validate_user, validate_credentials,
  validate_payload, authenticate, payload_of,
}

pub User-set : IsSet User
User-set = hlevel ℕ_set

found-set : IsSet (Option User)
found-set = hlevel User-set

pub same_text_refl : (t : Text) → same_text t t ≡ true
same_text_refl [] = refl
same_text_refl (x ∷ xs) = ground (arith, same_text_refl xs)

clash : true ≡ false → ⊥
clash e = cc

disabled_code : User → ℕ
disabled_code u = if is_some u.disabled_at then 1 else 0

module _ (env : Env) (crypto : Crypto) where
  open env use {users_repository}

  abbrev pub registered : ℕ → RegisterDto → World → User
  registered salt dto w =
      new_user env dto.email (crypto.hash salt dto.password) dto.first_name dto.last_name dto.phone
        w

  registered-found :
      (salt : ℕ) (dto : RegisterDto) (w : World)
      → find_by_email env dto.email w ≡ none
      → let w' = with_user env (registered salt dto w) w in
        find_by_email env dto.email w' ≡ some (registered salt dto w)
  unfolding find_by_email
  registered-found salt dto w e =
      find_one-saved users_repository found-set (λ u. same_text u.email dto.email)
        (registered salt dto w) w.users (same_text_refl dto.email)
        (users_repository.find_one_miss _ w.users e)

  registered-by_id :
      (salt : ℕ) (dto : RegisterDto) (w : World)
      → let w' = with_user env (registered salt dto w) w in
        find_by_id env (registered salt dto w).id w' ≡ some (registered salt dto w)
  registered-by_id salt dto w =
      find_one-saved users_repository found-set (λ u. u.id == users_repository.new_id w.users)
        (registered salt dto w) w.users ((==_iff _ _).1 refl)
        (λ v m. let fresh = users_repository.new_id_unused w.users v m in ground arith)

  register-writes :
      (salt : ℕ) (dto : RegisterDto) (w : World)
      → find_by_email env dto.email w ≡ none
      → let user = registered salt dto w in
        register env crypto salt dto w ≡ (
          ok record {
            access_token = crypto.sign w.now (payload_of env crypto user);
            user = user_dto user;
          },
          with_user env user w,
        )
  unfolding register create
  register-writes salt dto w e = ground arith

  abbrev at_time : ℕ → World → World
  at_time now w = record w { now = now }

  logs_in :
      (user : User) (salt now : ℕ) (email password : Text) (w : World)
      → find_by_email env email w ≡ some user
      → user.disabled_at ≡ none
      → user.password_hash ≡ crypto.hash salt password
      → validate_credentials env crypto email password (at_time now w) ≡ (ok user, at_time now w)
  unfolding validate_credentials validate_user find_by_email
  logs_in user salt now email password w e active made =
      let fits : crypto.compare password user.password_hash ≡ true =
        ap (crypto.compare password) made ∙ crypto.compare_hash salt password in
      ground arith

  token_stands_for :
      (user : User) (now : ℕ) (w : World)
      → find_by_id env user.id w ≡ some user
      → user.disabled_at ≡ none
      → w.now ≤ now
      → now < w.now + crypto.lifetime
      → authenticate env crypto (crypto.sign w.now (payload_of env crypto user)) (at_time now w)
        ≡ (ok user, at_time now w)
  unfolding authenticate validate_payload
  token_stands_for user now w e active a b =
      let valid = crypto.verify_sign w.now now (payload_of env crypto user) a b in ground arith

  -- A registration with an email that no account has succeeds. Until the lifetime of its token is over, if
  -- the accounts do not change, the email and the password log the new user in, and the token of the
  -- response stands for the new user.
  pub register-authenticates :
      (salt now : ℕ) (dto : RegisterDto) (w : World)
      → find_by_email env dto.email w ≡ none
      → w.now ≤ now
      → now < w.now + crypto.lifetime
      → let user = registered salt dto w in
        let w' = with_user env user w in
        (response : AuthResponseDto) × (register env crypto salt dto w ≡ (ok response, w'))
        × (validate_credentials env crypto dto.email dto.password (at_time now w')
            ≡ (ok user, at_time now w'))
        × (authenticate env crypto response.access_token (at_time now w')
            ≡ (ok user, at_time now w'))
  register-authenticates salt now dto w e a b =
      let user = registered salt dto w in
      let w' = with_user env user w in
      (
        record {
          access_token = crypto.sign w.now (payload_of env crypto user);
          user = user_dto user;
        },
        register-writes salt dto w e,
        logs_in user salt now dto.email dto.password w' (registered-found salt dto w e) refl refl,
        token_stands_for user now w' (registered-by_id salt dto w) refl a b,
      )

  refused :
      (payload : JwtPayload) (w : World)
      → ((v : User) → find_by_id env payload.sub w ≡ some v → disabled_code v ≡ 1)
      → validate_payload env crypto payload w ≡ (err unauthorized, w)
  unfolding validate_payload disabled_code
  refused payload w h = elim (Option-cases (find_by_id env payload.sub w)) [
    | inl e ↦ ground arith
    | inr (v, e) ↦ let off = h v e in ground arith
  ]

  -- After an account is disabled, no token of the account is accepted, whenever it was signed.
  pub disable-locks_out :
      (target_id actor_id : ℕ) (email : Text) (w : World)
      → Keyed (λ u. u.id) w.users
      → is_ok (disable env target_id actor_id w).0 ≡ true
      → let w' = (disable env target_id actor_id w).1 in
        validate_payload env crypto record { sub = target_id; email = email } w'
        ≡ (err unauthorized, w')
  unfolding disabled_code
  disable-locks_out target_id actor_id email w k done =
      let w' = (disable env target_id actor_id w).1 in
      refused record { sub = target_id; email = email } w'
        (λ v e. elim (disable-effect env target_id actor_id w) [
          | inl (_, failed) ↦ absurd (clash (sym done ∙ failed))
          | inr (u, hit, _, _, saved) ↦
              let off = record u { disabled_at = some w.now } in
              let (m, id) = users_repository.find_one_hit _ w'.users v e in
              let (_, own) = users_repository.find_one_hit _ w.users u hit in
              mem-key-eq (λ (u : User). u.id) disabled_code v off w'.users
                (rw saved (Keyed-save users_repository off w.users k)) m
                (rw saved (mem-save_self users_repository off w.users))
                ((==_iff _ _).0 id ∙ sym ((==_iff _ _).0 own))
        ])
