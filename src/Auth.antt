-- ===== src/Auth.antt =====
-- backend/src/auth/auth.service.ts with the strategies of passport under backend/src/auth/strategies:
-- registration, login, and the user that a token stands for.
pub mod Login
use gig_drive.Shared.{
  ℕ, ◌+◌, ◌≤◌, ◌<◌, ◌≡◌, Bool, true, false, Option, none, some, is_some, if◌then◌else◌,
}
use gig_drive.Entities.{Text, User}
use gig_drive.Errors.{HttpError, unauthorized, invalid_credentials, conflict, Reason}
use gig_drive.Service.{World, Env, Action, pure, gets, or_throw, throw_if, ◌>>=◌, ◌>>◌}
use gig_drive.Users.{UserDto, user_dto, find_by_email, find_by_id, create}

pub record JwtPayload : Type 0 where
  pub sub : ℕ
  pub email : Text

-- bcryptjs and @nestjs/jwt, with what they document: a hash matches the password that it is made of,
-- and a token is valid from when it is signed until its lifetime is over.
pub record Crypto : Type 0 where
  -- `bcrypt.hash(password, cost)`, with the salt that it draws.
  pub hash : ℕ → Text → Text
  pub compare : Text → Text → Bool
  -- `jwtService.sign(payload)` and the verification of a token, at an instant.
  pub sign : ℕ → JwtPayload → Text
  pub verify : ℕ → Text → Option JwtPayload
  pub lifetime : ℕ
  pub compare_hash : (salt : ℕ) (password : Text) → compare password (hash salt password) ≡ true
  pub verify_sign :
      (signed now : ℕ) (payload : JwtPayload)
      → signed ≤ now
      → now < signed + lifetime
      → verify now (sign signed payload) ≡ some payload

pub record RegisterDto : Type 0 where
  pub email : Text
  pub password : Text
  pub first_name : Text
  pub last_name : Text
  pub phone : Option Text

pub record AuthResponseDto : Type 0 where
  pub access_token : Text
  pub user : UserDto

module _ (env : Env) (crypto : Crypto) where
  abbrev pub payload_of : User → JwtPayload
  payload_of user = record { sub = user.id; email = user.email }

  abbrev pub login : User → Action AuthResponseDto
  login user = do
    now ← gets (λ w. w.now)
    pure record { access_token = crypto.sign now (payload_of user); user = user_dto user }

  unfoldable pub register : ℕ → RegisterDto → Action AuthResponseDto
  unfolding create
  register salt dto = do
    existing ← gets (find_by_email env dto.email)
    throw_if (is_some existing) (conflict Reason.email_registered)
    let password_hash = crypto.hash salt dto.password
    user ← create env dto.email password_hash dto.first_name dto.last_name dto.phone
    login user

  abbrev accepted : Text → User → Option User
  accepted password user =
      if is_some user.disabled_at
      then none
      else if crypto.compare password user.password_hash
      then some user
      else none

  unfoldable pub validate_user : Text → Text → World → Option User
  validate_user email password w = elim (find_by_email env email w) [
    | none ↦ none
    | some user ↦ accepted password user
  ]

  -- `LocalStrategy.validate`
  unfoldable pub validate_credentials : Text → Text → Action User
  unfolding validate_user
  validate_credentials email password = do
    or_throw (← gets (validate_user email password)) invalid_credentials

  -- `JwtStrategy.validate`
  unfoldable pub validate_payload : JwtPayload → Action User
  validate_payload payload = do
    user ← or_throw (← gets (find_by_id env payload.sub)) unauthorized
    throw_if (is_some user.disabled_at) unauthorized
    pure user

  -- The bearer token of a request, which passport-jwt verifies before the strategy sees its payload.
  unfoldable pub authenticate : Text → Action User
  unfolding validate_payload
  authenticate token = do
    now ← gets (λ w. w.now)
    payload ← or_throw (crypto.verify now token) unauthorized
    validate_payload payload
