-- ===== src/Auth/Login.antt =====
-- `register`, `login` and `handleFailedLogin` of src/modules/auth/auth.service.ts.
use corporate_lawyers_backen.Prelude.{
  ℕ, ◌+◌, ◌*◌, suc, Bool, true, false, Option, none, some, [], ◌∷◌, ◌++◌, not, ltb, leb, is_some,
  any,
}
use corporate_lawyers_backen.World.{
  Text, UserRole, UserStatus, HttpError, Ended, ◌>>=◌, ◌>>◌, pure, throw, guard, need, when, get,
  text_eq, lower,
}
use corporate_lawyers_backen.Auth.{
  TwoFactorSecret, json, base32, Account, Store, AuditAction, Crypto, AuthConfig, find_user,
  write_users, update_user, log,
}
use corporate_lawyers_backen.Auth.Sessions.{Tokens, generate_tokens, create_session}

abbrev pub max_failed_attempts : ℕ
max_failed_attempts = 5

abbrev pub lock_duration_minutes : ℕ
lock_duration_minutes = 5

pub record RegisterDto : Type 0 where
  pub email : Text
  pub password : ℕ
  pub first_name : ℕ
  pub last_name : ℕ

pub record LoginDto : Type 0 where
  pub email : Text
  pub password : ℕ
  pub two_factor_code : Option ℕ

pub record Welcome : Type 0 where
  pub user_id : ℕ
  pub user_role : UserRole
  pub two_factor_enabled : Bool
  pub tokens : Tokens

-- The row of a registration: whatever is asked for, the role is CLIENT. Its second factor is off.
abbrev pub new_account : (id password_hash : ℕ) → RegisterDto → Account
new_account id password_hash dto = record {
  id = id;
  email = lower dto.email;
  password_hash = password_hash;
  first_name = dto.first_name;
  last_name = dto.last_name;
  role = UserRole.client;
  status = UserStatus.active;
  two_factor_enabled = false;
  two_factor_secret = none;
  failed_login_attempts = 0;
  locked_until = none;
  last_login_at = none;
  deleted_at = none;
}

-- `new Date(Date.now() + LOCK_DURATION_MINUTES * 60 * 1000)`
abbrev pub lock_end : (now : ℕ) → ℕ
lock_end now = now + lock_duration_minutes * 60 * 1000

abbrev pub one_more_failure : Account → Account
one_more_failure u = record u { failed_login_attempts = suc u.failed_login_attempts }

abbrev pub lock : (now : ℕ) → Account → Account
lock now u = record u { locked_until = some (lock_end now) }

unfoldable pub handle_failed_login : (now : ℕ) → ℕ → Store → Ended Store (Unit {0})
handle_failed_login now user_id = do
  log user_id AuditAction.login_failed
  user ← update_user user_id one_more_failure
  when (leb max_failed_attempts user.failed_login_attempts)
      do update_user user_id (lock now); log user_id AuditAction.account_locked

-- `user.lockedUntil && user.lockedUntil > new Date()`
abbrev pub is_locked : (now : ℕ) → Account → Bool
is_locked now u = elim u.locked_until [ none ↦ false | some until ↦ ltb now until ]

abbrev pub is_suspended : UserStatus → Bool
is_suspended UserStatus.suspended = true
is_suspended _ = false

unfoldable pub extract_totp_secret : TwoFactorSecret → ℕ
extract_totp_secret (json totp recovery_codes) = totp
extract_totp_secret (base32 secret) = secret

-- `data: { failedLoginAttempts: 0, lockedUntil: null, lastLoginAt: new Date() }`
abbrev pub welcome_back : (now : ℕ) → Account → Account
welcome_back now u = record u {
  failed_login_attempts = 0;
  locked_until = none;
  last_login_at = some now;
}

module _ (crypto : Crypto) (config : AuthConfig) where
  unfoldable pub verify_totp_code : (now : ℕ) → ℕ → ℕ → Bool
  verify_totp_code now secret code = crypto.validate_totp now secret code

  -- `extractTotpSecret(user.twoFactorSecret!)` and `verifyTotpCode`; without a secret they fail.
  abbrev pub check_totp : (now : ℕ) → Account → ℕ → HttpError → Store → Ended Store (Unit {0})
  check_totp now user code e = do
    secret ← need user.two_factor_secret HttpError.internal_error
    guard (verify_totp_code now (extract_totp_secret secret) code) e

  unfoldable pub register :
      (now user_id session_id salt : ℕ) → RegisterDto → Store → Ended Store Welcome
  register now user_id session_id salt dto = do
    s ← get
    guard (not (is_some (find_user (λ u. text_eq u.email (lower dto.email)) s.users)))
        HttpError.conflict
    -- `user.create`: the address is unique among all rows, the deleted ones included
    guard (not (any (λ u. text_eq u.email (lower dto.email)) s.users)) HttpError.conflict
    write_users
        λ users. users ++ new_account user_id (crypto.hash_password salt dto.password) dto ∷ []
    log user_id AuditAction.register
    let tokens = generate_tokens crypto config now user_id (lower dto.email) UserRole.client
    create_session crypto config now session_id user_id tokens.refresh_token none none
    pure (record {
      user_id = user_id;
      user_role = UserRole.client;
      two_factor_enabled = false;
      tokens = tokens;
    })

  -- `if (user.twoFactorEnabled) { … }`
  abbrev pub check_two_factor : (now : ℕ) → Account → Option ℕ → Store → Ended Store (Unit {0})
  check_two_factor now user two_factor_code = when user.two_factor_enabled do
    code ← need two_factor_code HttpError.unauthorized
    check_totp now user code HttpError.unauthorized

  abbrev pub enter :
      (now session_id : ℕ)
      → Account
      → (ip_address user_agent : Option ℕ) → Store
      → Ended Store Welcome
  enter now session_id user ip_address user_agent = do
    update_user user.id (welcome_back now)
    let tokens = generate_tokens crypto config now user.id user.email user.role
    create_session crypto config now session_id user.id tokens.refresh_token ip_address user_agent
    log user.id AuditAction.login
    pure (record {
      user_id = user.id;
      user_role = user.role;
      two_factor_enabled = user.two_factor_enabled;
      tokens = tokens;
    })

  unfoldable pub login :
      (now session_id : ℕ)
      → LoginDto
      → (ip_address user_agent : Option ℕ) → Store
      → Ended Store Welcome
  login now session_id dto ip_address user_agent = do
    s ← get
    user ← need (find_user (λ u. text_eq u.email (lower dto.email)) s.users) HttpError.unauthorized
    guard (not (is_some user.deleted_at)) HttpError.unauthorized
    guard (not (is_locked now user)) HttpError.unauthorized
    guard (not (is_suspended user.status)) HttpError.unauthorized
    when (not (crypto.compare dto.password user.password_hash))
        do handle_failed_login now user.id; throw HttpError.unauthorized
    check_two_factor now user dto.two_factor_code
    enter now session_id user ip_address user_agent
