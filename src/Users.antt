-- ===== src/Users.antt =====
-- src/modules/user/user.service.ts: users, whose rows and sessions are those of Auth, their profiles,
-- and the cache of the profiles that `findOne` gives.
pub mod Profiles
pub mod Listing
pub mod Removal
pub mod Staleness
use corporate_lawyers_backen.Prelude.{
  ℕ, Bool, true, false, Option, none, some, List, [], ◌∷◌, ◌++◌, not, ◌&&◌, ◌==◌, is_some, or_else,
  find, any,
}
use corporate_lawyers_backen.World.{
  Text, text_eq, lower, UserRole, UserStatus, HttpError, Ended, ok, err, ◌>>=◌, ◌>>◌, pure, guard,
  need, get, modify,
}
use corporate_lawyers_backen.Cache.{lookup, without}
use corporate_lawyers_backen.Auth
use corporate_lawyers_backen.Auth.{
  Account, Crypto, find_user, write_users, update_user, revoke_where,
}
use corporate_lawyers_backen.Auth.Passwords.{new_password}

-- The number of a text stands for each text that is only stored.
pub record LawyerProfile : Type 0 where
  pub user_id : ℕ
  pub license_number : ℕ
  pub specializations : List ℕ
  pub hourly_rate : ℕ
  pub is_partner : Bool

pub record ClientProfile : Type 0 where
  pub user_id : ℕ
  pub client_type : ℕ
  pub rfc : Option ℕ

-- What `findOne` selects of a user.
pub record UserProfile : Type 0 where
  pub id : ℕ
  pub email : Text
  pub first_name : ℕ
  pub last_name : ℕ
  pub role : UserRole
  pub status : UserStatus
  pub two_factor_enabled : Bool
  pub lawyer_profile : Option LawyerProfile
  pub client_profile : Option ClientProfile

pub data UserAction : Type 0 where
  deleted password_reset : UserAction

-- `cache` is at CacheKeys.USER_PROFILE; `audit` has who did what to which user.
pub record Store : Type 0 where
  pub auth : Auth.Store
  pub lawyer_profiles : List LawyerProfile
  pub client_profiles : List ClientProfile
  pub cache : List (ℕ × UserProfile)
  pub audit : List (ℕ × UserAction × ℕ)

abbrev pub is_live_at : ℕ → Account → Bool
is_live_at id u = u.id == id && not (is_some u.deleted_at)

abbrev pub profile_of : Account → Store → UserProfile
profile_of u s = record {
  id = u.id;
  email = u.email;
  first_name = u.first_name;
  last_name = u.last_name;
  role = u.role;
  status = u.status;
  two_factor_enabled = u.two_factor_enabled;
  lawyer_profile = find (λ p. p.user_id == u.id) s.lawyer_profiles;
  client_profile = find (λ p. p.user_id == u.id) s.client_profiles;
}

-- The two ways of `getOrSet`.
abbrev pub read_through : ℕ → Option UserProfile → Store → Ended Store UserProfile
read_through id (some cached) = pure cached
read_through id none = do
  s ← get
  u ← need (find (is_live_at id) s.auth.users) HttpError.not_found
  modify λ s. record s { cache = (id, profile_of u s) ∷ without id s.cache }
  pure (profile_of u s)

unfoldable pub find_one : ℕ → Store → Ended Store UserProfile
find_one id = do s ← get; read_through id (lookup id s.cache)

abbrev pub forget : ℕ → Store → Ended Store (Unit {0})
forget id = modify λ s. record s { cache = without id s.cache }

abbrev pub log_user : ℕ → UserAction → ℕ → Store → Ended Store (Unit {0})
log_user performed_by action id =
    modify λ s. record s { audit = s.audit ++ (performed_by, action, id) ∷ [] }

-- A request on the rows and sessions of Auth.
abbrev pub with_auth {κ} : {A : Type κ} → Store → Ended Auth.Store A → Ended Store A
with_auth s (ok a t) = ok a (record s { auth = t })
with_auth s (err e t) = err e (record s { auth = t })

abbrev pub on_auth {κ} : {A : Type κ} → (Auth.Store → Ended Auth.Store A) → Store → Ended Store A
on_auth m s = with_auth s (m s.auth)

pub record CreateUserDto : Type 0 where
  pub email : Text
  pub password : ℕ
  pub first_name : ℕ
  pub last_name : ℕ
  pub role : UserRole

pub record UpdateUserDto : Type 0 where
  pub first_name : Option ℕ
  pub last_name : Option ℕ

abbrev pub user_of : (id password_hash : ℕ) → CreateUserDto → Account
user_of id password_hash dto = record {
  id = id;
  email = lower dto.email;
  password_hash = password_hash;
  first_name = dto.first_name;
  last_name = dto.last_name;
  role = dto.role;
  status = UserStatus.active;
  two_factor_enabled = false;
  two_factor_secret = none;
  failed_login_attempts = 0;
  locked_until = none;
  last_login_at = none;
  deleted_at = none;
}

-- The address is unique among all rows, the deleted ones included.
unfoldable pub create : Crypto → (new_id salt : ℕ) → CreateUserDto → Store → Ended Store (Unit {0})
create crypto new_id salt dto = do
  s ← get
  guard (not (is_some (find_user (λ u. text_eq u.email (lower dto.email)) s.auth.users)))
      HttpError.conflict
  guard (not (any (λ u. text_eq u.email (lower dto.email)) s.auth.users)) HttpError.conflict
  on_auth (
      write_users
        λ users. users ++ user_of new_id (crypto.hash_password salt dto.password) dto ∷ [])

abbrev pub renamed : UpdateUserDto → Account → Account
renamed dto u = record u {
  first_name = or_else dto.first_name u.first_name;
  last_name = or_else dto.last_name u.last_name;
}

unfoldable pub update : ℕ → UpdateUserDto → Store → Ended Store (Unit {0})
update id dto = do find_one id; on_auth (update_user id (renamed dto)); forget id

abbrev pub delete_at : (now : ℕ) → Account → Account
delete_at now u = record u { deleted_at = some now }

unfoldable pub remove : (now : ℕ) → ℕ → (performed_by : ℕ) → Store → Ended Store (Unit {0})
remove now id performed_by = do
  find_one id
  guard (not (id == performed_by)) HttpError.forbidden
  on_auth (update_user id (delete_at now))
  forget id
  log_user performed_by UserAction.deleted id

-- `temporary` is the random password, which is the answer.
unfoldable pub admin_reset_password :
    Crypto → (salt temporary : ℕ) → ℕ → (performed_by : ℕ) → Store → Ended Store ℕ
admin_reset_password crypto salt temporary id performed_by = do
  find_one id
  guard (not (id == performed_by)) HttpError.forbidden
  on_auth (update_user id (new_password (crypto.hash_password salt temporary)))
  on_auth (revoke_where λ r. r.user_id == id)
  forget id
  log_user performed_by UserAction.password_reset id
  pure temporary
