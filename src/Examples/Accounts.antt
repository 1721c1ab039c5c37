-- ===== src/Examples/Accounts.antt =====
-- Rows and a toy of the libraries on which the theorems on src/modules/auth/auth.service.ts are tried.
use corporate_lawyers_backen.Prelude.{
  ℕ, ◌+◌, ◌*◌, true, false, none, some, [], ◌∷◌, ◌==◌, ==_refl, arith,
}
use corporate_lawyers_backen.World.{Text, UserRole, UserStatus}
use corporate_lawyers_backen.Auth.{
  json, Account, Session, PasswordResetToken, Store, Crypto, AuthConfig,
}
use corporate_lawyers_backen.Auth.Accounts.{IsKeyed}

abbrev digest : Text → ℕ
digest [] = 0
digest (c ∷ cs) = c + 3 * digest cs

abbrev first_unit : Text → ℕ
first_unit [] = 0
first_unit (c ∷ cs) = c

-- A password is its own hash; a token is its date of expiry, its secret and its user.
abbrev pub toy : Crypto
toy = record {
  hash_password = λ salt password. password;
  compare = λ password password_hash. password == password_hash;
  compare-hash_password = λ salt password. ==_refl password;
  sha256 = digest;
  sign = λ secret payload iat exp. exp ∷ secret ∷ payload.sub ∷ [];
  decode = first_unit;
  validate_totp = λ now secret code. secret == code;
}

abbrev pub config : AuthConfig
config = record {
  jwt_access_secret = 1;
  jwt_access_expiration = 900;
  jwt_refresh_secret = 2;
  jwt_refresh_expiration = 600;
}

abbrev pub ann_mail : Text
ann_mail = 97 ∷ []

abbrev pub bob_mail : Text
bob_mail = 98 ∷ []

abbrev pub ann : Account
ann = record {
  id = 1;
  email = ann_mail;
  password_hash = 7;
  first_name = 0;
  last_name = 0;
  role = UserRole.lawyer;
  status = UserStatus.active;
  two_factor_enabled = false;
  two_factor_secret = none;
  failed_login_attempts = 0;
  locked_until = none;
  last_login_at = none;
  deleted_at = none;
}

-- The one recovery code is the text "X".
abbrev pub bob : Account
bob = record ann {
  id = 2;
  email = bob_mail;
  password_hash = 8;
  two_factor_enabled = true;
  two_factor_secret = some (json 5 (88 ∷ []));
}

-- The token that a login of Ann at the time 1000 gives.
abbrev pub ann_token : Text
ann_token = 601 ∷ 2 ∷ 1 ∷ []

abbrev pub ann_session : Session
ann_session = record {
  id = 1;
  user_id = 1;
  refresh_token = digest ann_token;
  ip_address = none;
  user_agent = none;
  created_at = 1000;
  expires_at = 601000;
  is_revoked = false;
}

abbrev pub ann_reset : PasswordResetToken
ann_reset = record { id = 1; user_id = 1; token = 42; expires_at = 9000; used_at = none }

abbrev pub auth_store : Store
auth_store = record {
  users = ann ∷ bob ∷ [];
  sessions = ann_session ∷ [];
  reset_tokens = ann_reset ∷ [];
  audit = [];
}

pub auth_store-IsKeyed : IsKeyed auth_store
auth_store-IsKeyed = ((λ e. absurd (omega arith), tt), (tt, tt))
