-- ===== src/Users.antt =====
-- backend/src/users/users.service.ts: profiles, and the accounts that an admin disables and enables.
pub mod Admins
use gig_drive.Shared.{
  ℕ, zero, suc, ◌*◌, ◌==◌, leb, Bool, true, false, not, ◌&&◌, ◌||◌, Option, none, some, List, [],
  ◌∷◌, ◌++◌, get_or, is_some, map,
}
use gig_drive.Shared.Sort.{sort_by}
use gig_drive.Entities.{Text, User}
use gig_drive.Errors.{not_found, conflict, Reason}
use gig_drive.Service.{
  World, Env, Action, pure, gets, or_throw, throw_if, modify, when, codes, ◌>>=◌, ◌>>◌,
}
use gig_drive.Ratings.{DriverRating, aggregate_for_driver}
use gig_drive.TripViews.{field}
use gig_drive.TripQueries.{is_empty, take}

-- `a === b` on strings.
abbrev pub same_text : Text → Text → Bool
same_text [] [] = true
same_text (x ∷ xs) (y ∷ ys) = x == y && same_text xs ys
same_text _ _ = false

pub record UserDto : Type 0 where
  pub id : ℕ
  pub email : Text
  pub first_name : Text
  pub last_name : Text
  pub phone : Option Text
  pub email_notifications : Bool
  pub is_admin : Bool

abbrev pub user_dto : User → UserDto
user_dto user = record {
  id = user.id;
  email = user.email;
  first_name = user.first_name;
  last_name = user.last_name;
  phone = user.phone;
  email_notifications = user.email_notifications;
  is_admin = user.is_admin;
}

-- Each field may be missing. `phone` may be `null`.
pub record UpdateProfileDto : Type 0 where
  pub first_name : Option Text
  pub last_name : Option Text
  pub phone : Option (Option Text)
  pub email_notifications : Option Bool

abbrev pub apply_profile : UpdateProfileDto → User → User
apply_profile dto user = record user {
  first_name = get_or dto.first_name user.first_name;
  last_name = get_or dto.last_name user.last_name;
  phone = get_or dto.phone user.phone;
  email_notifications = get_or dto.email_notifications user.email_notifications;
}

pub record PublicProfileDto : Type 0 where
  pub id : ℕ
  pub first_name : Text
  pub last_name : Text
  pub average_rating : Option ℕ
  pub review_count : ℕ

-- `skip(n)` and `take(n)` of a query.
abbrev pub skip : {A : Type 0} → ℕ → List A → List A
skip zero xs = xs
skip (suc n) [] = []
skip (suc n) (x ∷ xs) = skip n xs

-- `{ isAdmin: true, disabledAt: IsNull() }`
abbrev pub is_active_admin : User → Bool
is_active_admin user = user.is_admin && not (is_some user.disabled_at)

module _ (env : Env) where
  unfoldable pub find_by_email : Text → World → Option User
  find_by_email email w = env.users_repository.find_one (λ u. same_text u.email email) w.users

  abbrev pub find_by_id : ℕ → World → Option User
  find_by_id id w = env.users_repository.find_one (λ u. u.id == id) w.users

  abbrev pub save_user : User → Action User
  save_user user = do
    modify (λ w. record w { users = env.users_repository.save user w.users })
    pure user

  -- The row that `create` makes of the fields of a registration. The columns emailNotifications, isAdmin
  -- and disabledAt have their defaults.
  abbrev pub new_user : Text → Text → Text → Text → Option Text → World → User
  new_user email password_hash first_name last_name phone w = record {
    id = env.users_repository.new_id w.users;
    email = email;
    password_hash = password_hash;
    first_name = first_name;
    last_name = last_name;
    phone = phone;
    email_notifications = true;
    is_admin = false;
    disabled_at = none;
    created_at = w.now;
  }

  unfoldable pub create : Text → Text → Text → Text → Option Text → Action User
  create email password_hash first_name last_name phone = do
    user ← gets (new_user email password_hash first_name last_name phone)
    save_user user

  abbrev require_by_id : ℕ → Action User
  require_by_id id = do or_throw (← gets (find_by_id id)) (not_found Reason.user_not_found)

  unfoldable pub update_profile : ℕ → UpdateProfileDto → Action User
  update_profile user_id dto = do
    user ← or_throw (← gets (find_by_id user_id)) (not_found Reason.user_not_found)
    save_user (apply_profile dto user)

  unfoldable pub get_public_profile : ℕ → Action PublicProfileDto
  get_public_profile id = do
    user ← or_throw (← gets (find_by_id id)) (not_found Reason.user_not_found)
    rating ← gets (aggregate_for_driver id)
    pure record {
      id = user.id;
      first_name = user.first_name;
      last_name = user.last_name;
      average_rating = rating.average_rating;
      review_count = rating.review_count;
    }

  -- `%term%`, with the term in lower case.
  abbrev pub like_term : Text → Text
  like_term q = codes "%" ++ env.to_lower_case q ++ codes "%"

  abbrev matches_user : Option Text → User → Bool
  matches_user q user =
      field q
        (λ term.
          is_empty term
          || (env.lower_like user.email (like_term term)
              || (env.lower_like user.first_name (like_term term)
                  || env.lower_like user.last_name (like_term term))))
        true

  unfoldable pub list_for_admin : Option Text → ℕ → ℕ → World → List User × ℕ
  list_for_admin q page page_size w = (
    take page_size (
        skip (page * page_size) (
          sort_by (λ a b. leb b.created_at a.created_at)
            (env.users_repository.find (matches_user q) w.users))),
    env.users_repository.count (matches_user q) w.users,
  )

  abbrev pub other_active_admins : User → World → ℕ
  other_active_admins user w =
      env.users_repository.count (λ u. is_active_admin u && not (u.id == user.id)) w.users

  -- The part of `disable` after the user is read: the checks, and the write.
  unfoldable pub assert_disablable : User → ℕ → Action (Unit {0})
  assert_disablable user actor_id = do
    throw_if (user.id == actor_id) (conflict Reason.cannot_disable_self)
    remaining_admins ← gets (other_active_admins user)
    when user.is_admin (throw_if (remaining_admins == 0) (conflict Reason.last_admin))

  unfoldable pub write_disabled : User → Action User
  write_disabled user = do
    now ← gets (λ w. w.now)
    save_user (record user { disabled_at = some now })

  unfoldable pub disable : ℕ → ℕ → Action User
  unfolding assert_disablable write_disabled
  disable target_id actor_id = do
    user ← require_by_id target_id
    assert_disablable user actor_id
    write_disabled user

  unfoldable pub enable : ℕ → Action User
  enable target_id = do
    user ← require_by_id target_id
    save_user (record user { disabled_at = none })
