-- ===== src/Auth/TwoFactor.antt =====
-- The second factor in src/modules/auth/auth.service.ts: setupTwoFactor, verifyAndEnableTwoFactor,
-- disableTwoFactor and recoverTwoFactor.
use corporate_lawyers_backen.Prelude.{
  ℕ, suc, true, false, Option, none, some, List, [], ◌∷◌, ◌++◌, not, ◌==◌, if◌then◌else◌, is_some,
  length, take, drop, map,
}
use corporate_lawyers_backen.World.{
  Text, HttpError, Ended, ◌>>=◌, ◌>>◌, pure, guard, need, get, text_eq, lower, upper,
}
use corporate_lawyers_backen.Auth.{
  TwoFactorSecret, json, base32, Account, Store, AuditAction, Crypto, AuthConfig, find_user,
  find_unique_or_throw, update_user, log,
}
use corporate_lawyers_backen.Auth.Sessions.{Tokens, generate_tokens, create_session}
use corporate_lawyers_backen.Auth.Login.{check_totp, welcome_back}

-- `codes.indexOf(code)`
abbrev pub index_of : ℕ → List ℕ → Option ℕ
index_of code [] = none
index_of code (c ∷ codes) =
    let rest = index_of code codes in
    if c == code then some 0 else elim rest [ none ↦ none | some i ↦ some (suc i) ]

-- `codes.splice(i, 1)`
abbrev pub splice : ℕ → List ℕ → List ℕ
splice i codes = take i codes ++ drop (suc i) codes

-- `JSON.parse(user.twoFactorSecret)` and the test on the list of codes.
abbrev pub stored_codes : TwoFactorSecret → Option (ℕ × List ℕ)
stored_codes (json totp []) = none
stored_codes (json totp (c ∷ codes)) = some (totp, c ∷ codes)
stored_codes (base32 secret) = none

abbrev pub with_secret : TwoFactorSecret → Account → Account
with_secret secret u = record u { two_factor_secret = some secret }

abbrev pub enabled : Account → Account
enabled u = record u { two_factor_enabled = true }

abbrev pub disabled : Account → Account
disabled u = record u { two_factor_enabled = false; two_factor_secret = none }

pub record Recovered : Type 0 where
  pub user_id : ℕ
  pub tokens : Tokens
  pub remaining_recovery_codes : ℕ

module _ (crypto : Crypto) (config : AuthConfig) where
  -- `totp` and `recovery_codes` are the random secret and codes; the QR code is left out.
  unfoldable pub setup_two_factor :
      (totp : ℕ) (recovery_codes : List Text) → ℕ → Store → Ended Store (ℕ × List Text)
  setup_two_factor totp recovery_codes user_id = do
    user ← find_unique_or_throw user_id
    guard (not user.two_factor_enabled) HttpError.bad_request
    update_user user_id (with_secret (json totp (map crypto.sha256 recovery_codes)))
    pure (totp, recovery_codes)

  unfoldable pub verify_and_enable_two_factor :
      (now : ℕ) → ℕ → (code : ℕ) → Store → Ended Store (Unit {0})
  verify_and_enable_two_factor now user_id code = do
    user ← find_unique_or_throw user_id
    guard (is_some user.two_factor_secret) HttpError.bad_request
    guard (not user.two_factor_enabled) HttpError.bad_request
    check_totp crypto config now user code HttpError.bad_request
    update_user user_id enabled
    log user_id AuditAction.two_factor_enabled

  unfoldable pub disable_two_factor : (now : ℕ) → ℕ → (code : ℕ) → Store → Ended Store (Unit {0})
  disable_two_factor now user_id code = do
    user ← find_unique_or_throw user_id
    guard user.two_factor_enabled HttpError.bad_request
    check_totp crypto config now user code HttpError.unauthorized
    update_user user_id disabled
    log user_id AuditAction.two_factor_disabled

  -- `createHash('sha256').update(recoveryCode.toUpperCase())`
  abbrev pub code_hash : Text → ℕ
  code_hash recovery_code = crypto.sha256 (upper recovery_code)

  unfoldable pub recover_two_factor :
      (now session_id : ℕ) → (email recovery_code : Text) → Store → Ended Store Recovered
  recover_two_factor now session_id email recovery_code = do
    s ← get
    user ← need (find_user (λ u. text_eq u.email (lower email)) s.users) HttpError.unauthorized
    guard (not (is_some user.deleted_at)) HttpError.unauthorized
    guard user.two_factor_enabled HttpError.unauthorized
    secret ← need user.two_factor_secret HttpError.unauthorized
    (totp, codes) ← need (stored_codes secret) HttpError.bad_request
    i ← need (index_of (code_hash recovery_code) codes) HttpError.unauthorized
    update_user user.id λ u. with_secret (json totp (splice i codes)) (welcome_back now u)
    let tokens = generate_tokens crypto config now user.id user.email user.role
    create_session crypto config now session_id user.id tokens.refresh_token none none
    log user.id AuditAction.two_factor_recovery
    pure (record {
      user_id = user.id;
      tokens = tokens;
      remaining_recovery_codes = length (splice i codes);
    })
