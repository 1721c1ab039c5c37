-- ===== src/Auth.antt =====
-- src/modules/auth/auth.service.ts: the rows that it works on, and the code that it calls and that
-- is not the repository's: bcryptjs, @nestjs/jwt, otpauth and node's crypto.
pub mod Sessions
pub mod Login
pub mod TwoFactor
pub mod Passwords
pub mod Calls
pub mod Accounts
pub mod Failures
pub mod Entry
pub mod Lockout
pub mod Codes
pub mod Rotation
pub mod Endings
pub mod Withdrawal
pub mod Resets
pub mod ResetLinks
use corporate_lawyers_backen.Prelude.{
  ℕ, Bool, true, Option, List, [], ◌∷◌, ◌++◌, ◌≡◌, ◌==◌, find, update_where,
}
use corporate_lawyers_backen.World.{
  Text, UserRole, UserStatus, HttpError, Ended, ◌>>=◌, ◌>>◌, pure, need, get, modify,
}
use corporate_lawyers_backen.SoftDelete.{Model, find_unique}

-- `twoFactorSecret`: the JSON `{ totp, recoveryCodes }`, or the base32 text that older rows hold,
-- which is not JSON.
pub data TwoFactorSecret : Type 0 where
  json : (totp : ℕ) → (recovery_codes : List ℕ) → TwoFactorSecret
  base32 : ℕ → TwoFactorSecret

pub record Account : Type 0 where
  pub id : ℕ
  pub email : Text
  pub password_hash : ℕ
  pub first_name : ℕ
  pub last_name : ℕ
  pub role : UserRole
  pub status : UserStatus
  pub two_factor_enabled : Bool
  pub two_factor_secret : Option TwoFactorSecret
  pub failed_login_attempts : ℕ
  pub locked_until : Option ℕ
  pub last_login_at : Option ℕ
  pub deleted_at : Option ℕ

-- `refresh_token` is the hash of the token.
pub record Session : Type 0 where
  pub id : ℕ
  pub user_id : ℕ
  pub refresh_token : ℕ
  pub ip_address : Option ℕ
  pub user_agent : Option ℕ
  pub created_at : ℕ
  pub expires_at : ℕ
  pub is_revoked : Bool

pub record PasswordResetToken : Type 0 where
  pub id : ℕ
  pub user_id : ℕ
  pub token : ℕ
  pub expires_at : ℕ
  pub used_at : Option ℕ

pub data AuditAction : Type 0 where
  register login login_failed account_locked logout logout_all session_revoked two_factor_enabled
        two_factor_disabled two_factor_recovery password_reset_requested password_reset_completed :
      AuditAction

pub record Store : Type 0 where
  pub users : List Account
  pub sessions : List Session
  pub reset_tokens : List PasswordResetToken
  pub audit : List (ℕ × AuditAction)

pub record Payload : Type 0 where
  pub sub : ℕ
  pub email : Text
  pub role : UserRole

-- The libraries. `compare` accepts what `hash_password` made, under any salt; a token made by `sign`
-- is a function of the secret, the payload and the seconds `iat` and `exp`, and `decode` reads `exp`
-- off a token.
pub record Crypto : Type 0 where
  pub hash_password : (salt password : ℕ) → ℕ
  pub compare : (password password_hash : ℕ) → Bool
  pub compare-hash_password :
      (salt password : ℕ) → compare password (hash_password salt password) ≡ true
  pub sha256 : Text → ℕ
  pub sign : (secret : ℕ) → Payload → (iat exp : ℕ) → Text
  pub decode : Text → ℕ
  pub validate_totp : (now secret code : ℕ) → Bool

-- core/config/auth.config.ts; the two expirations in seconds.
pub record AuthConfig : Type 0 where
  pub jwt_access_secret : ℕ
  pub jwt_access_expiration : ℕ
  pub jwt_refresh_secret : ℕ
  pub jwt_refresh_expiration : ℕ

-- `findUnique` and `findUniqueOrThrow` on users, through the extended client
abbrev pub find_user : (Account → Bool) → List Account → Option Account
find_user key = find_unique (λ u. u.deleted_at) Model.user true key

abbrev pub find_unique_or_throw : ℕ → Store → Ended Store Account
find_unique_or_throw id = do s ← get; need (find_user (λ u. u.id == id) s.users) HttpError.not_found

-- A write to the table of users.
unfoldable pub write_users : (List Account → List Account) → Store → Ended Store (Unit {0})
write_users f = modify λ s. record s { users = f s.users }

-- `user.update({ where: { id }, data })`, with the row that it returns
abbrev pub update_user : ℕ → (Account → Account) → Store → Ended Store Account
update_user id data_of = do
  s ← get
  user ← need (find (λ u. u.id == id) s.users) HttpError.not_found
  write_users (update_where (λ u. u.id == id) data_of)
  pure (data_of user)

abbrev pub revoke : Session → Session
revoke row = record row { is_revoked = true }

-- `session.updateMany({ where, data: { isRevoked: true } })`
abbrev pub revoke_where : (Session → Bool) → Store → Ended Store (Unit {0})
revoke_where p = modify λ s. record s { sessions = update_where p revoke s.sessions }

abbrev pub log : ℕ → AuditAction → Store → Ended Store (Unit {0})
log user_id action = modify λ s. record s { audit = s.audit ++ (user_id, action) ∷ [] }
