-- ===== src/Auth/Passwords.antt =====
-- `forgotPassword` and `resetPassword` of src/modules/auth/auth.service.ts.
use corporate_lawyers_backen.Prelude.{
  ℕ, ◌+◌, ◌*◌, Bool, Option, none, some, [], ◌∷◌, ◌++◌, not, ◌&&◌, ◌||◌, ◌==◌, ltb, is_some, any,
  find, update_where,
}
use corporate_lawyers_backen.World.{
  Text, HttpError, Ended, ◌>>=◌, ◌>>◌, pure, guard, need, get, modify, text_eq, lower,
}
use corporate_lawyers_backen.Auth.{
  Account, PasswordResetToken, Store, AuditAction, Crypto, find_user, update_user, revoke_where,
  log,
}

abbrev pub use_up : (now : ℕ) → PasswordResetToken → PasswordResetToken
use_up now row = record row { used_at = some now }

-- `passwordResetToken.updateMany` and `update`, with `data: { usedAt: new Date() }`
abbrev pub use_up_where : (now : ℕ) → (PasswordResetToken → Bool) → Store → Ended Store (Unit {0})
use_up_where now p =
    modify λ s. record s { reset_tokens = update_where p (use_up now) s.reset_tokens }

abbrev pub new_reset_token : (now id token : ℕ) → ℕ → PasswordResetToken
new_reset_token now id token user_id = record {
  id = id;
  user_id = user_id;
  token = token;
  expires_at = now + 60 * 60 * 1000;
  used_at = none;
}

-- `passwordResetToken.create`: the token is unique in its table.
unfoldable pub create_reset_token : (now id token : ℕ) → ℕ → Store → Ended Store (Unit {0})
create_reset_token now id token user_id = do
  s ← get
  guard (not (any (λ r. r.token == token) s.reset_tokens)) HttpError.conflict
  modify
      λ s. record s { reset_tokens = s.reset_tokens ++ new_reset_token now id token user_id ∷ [] }

-- What is done for an address that has a user; nothing is done for any other, and the answer is the
-- same.
abbrev pub issue_for : (now id token : ℕ) → Option Account → Store → Ended Store (Unit {0})
issue_for now id token none = pure tt
issue_for now id token (some user) = do
  use_up_where now λ r. r.user_id == user.id && not (is_some r.used_at)
  create_reset_token now id token user.id
  log user.id AuditAction.password_reset_requested

-- `id` and `token` are random; `token` is unique in its table.
unfoldable pub forgot_password : (now id token : ℕ) → Text → Store → Ended Store (Unit {0})
forgot_password now id token email = do
  s ← get
  issue_for now id token (find_user (λ u. text_eq u.email (lower email)) s.users)

-- `resetToken.usedAt || resetToken.expiresAt < new Date()`, turned round
abbrev pub is_usable : (now : ℕ) → PasswordResetToken → Bool
is_usable now row = not (is_some row.used_at || ltb row.expires_at now)

abbrev pub new_password : (password_hash : ℕ) → Account → Account
new_password password_hash u = record u {
  password_hash = password_hash;
  failed_login_attempts = 0;
  locked_until = none;
}

unfoldable pub reset_password :
    Crypto → (now salt : ℕ) → (token password : ℕ) → Store → Ended Store (Unit {0})
reset_password crypto now salt token password = do
  s ← get
  row ← need (find (λ r. r.token == token) s.reset_tokens) HttpError.bad_request
  guard (is_usable now row) HttpError.bad_request
  update_user row.user_id (new_password (crypto.hash_password salt password))
  use_up_where now λ r. r.id == row.id
  revoke_where λ r. r.user_id == row.user_id
  log row.user_id AuditAction.password_reset_completed
