-- ===== src/Auth/Sessions.antt =====
-- The sessions of src/modules/auth/auth.service.ts: generateTokens, createSession, refreshTokens,
-- logout, logoutAll, getSessions, revokeSession and parseUserAgent.
use corporate_lawyers_backen.Prelude.{
  ℕ, ◌+◌, ◌*◌, ◌/◌, Bool, false, Option, none, some, List, [], ◌∷◌, ◌++◌, not, ◌&&◌, ◌||◌, ◌==◌,
  ltb, if◌then◌else◌, find, select, any, sort_desc,
}
use corporate_lawyers_backen.World.{
  Text, UserRole, HttpError, Ended, ◌>>=◌, ◌>>◌, pure, guard, need, get, modify,
}
use corporate_lawyers_backen.Auth.{
  Session, Store, AuditAction, Payload, Crypto, AuthConfig, revoke_where, log,
}

pub record Tokens : Type 0 where
  pub access_token : Text
  pub refresh_token : Text

-- `session.isRevoked || session.expiresAt < now`, turned round
abbrev pub is_live : (now : ℕ) → Session → Bool
is_live now row = not (row.is_revoked || ltb row.expires_at now)

module _ (crypto : Crypto) (config : AuthConfig) where
  unfoldable pub hash_token : Text → ℕ
  hash_token token = crypto.sha256 token

  -- `iat` is the second in which the token is made.
  unfoldable pub generate_tokens : (now : ℕ) → ℕ → Text → UserRole → Tokens
  generate_tokens now user_id email role =
      let payload : Payload = record { sub = user_id; email = email; role = role } in
      let iat = now / 1000 in
      record {
        access_token =
            crypto.sign config.jwt_access_secret payload iat (iat + config.jwt_access_expiration);
        refresh_token =
            crypto.sign config.jwt_refresh_secret payload iat (iat + config.jwt_refresh_expiration);
      }

  abbrev pub new_session :
      (now new_id : ℕ) → ℕ → Text → (ip_address user_agent : Option ℕ) → Session
  new_session now new_id user_id refresh_token ip_address user_agent = record {
    id = new_id;
    user_id = user_id;
    refresh_token = hash_token refresh_token;
    ip_address = ip_address;
    user_agent = user_agent;
    created_at = now;
    expires_at = crypto.decode refresh_token * 1000;
    is_revoked = false;
  }

  -- `session.create`: the hash of the token is unique in its table.
  unfoldable pub create_session :
      (now new_id : ℕ)
      → ℕ
      → Text
      → (ip_address user_agent : Option ℕ) → Store
      → Ended Store (Unit {0})
  create_session now new_id user_id refresh_token ip_address user_agent = do
    s ← get
    guard (not (any (λ r. r.refresh_token == hash_token refresh_token) s.sessions))
        HttpError.conflict
    modify λ s. record s {
      sessions =
          s.sessions ++ new_session now new_id user_id refresh_token ip_address user_agent ∷ [];
    }

  -- `session.findUnique({ where: { refreshToken }, include: { user: true } })`; the foreign key sees to
  -- it that there is a user.
  abbrev pub find_session : Text → Store → Option Session
  find_session refresh_token s = find (λ r. r.refresh_token == hash_token refresh_token) s.sessions

  unfoldable pub refresh_tokens : (now new_id : ℕ) → Text → Store → Ended Store Tokens
  refresh_tokens now new_id refresh_token = do
    s ← get
    session ← need (find_session refresh_token s) HttpError.unauthorized
    user ← need (find (λ u. u.id == session.user_id) s.users) HttpError.unauthorized
    guard (is_live now session) HttpError.unauthorized
    revoke_where λ r. r.id == session.id
    let tokens = generate_tokens now user.id user.email user.role
    create_session now new_id user.id tokens.refresh_token none none
    pure tokens

  abbrev pub log_logout : Option ℕ → Store → Ended Store (Unit {0})
  log_logout none = pure tt
  log_logout (some user_id) = log user_id AuditAction.logout

  unfoldable pub logout : Text → Option ℕ → Store → Ended Store (Unit {0})
  logout refresh_token user_id = do
    revoke_where λ r. r.refresh_token == hash_token refresh_token
    log_logout user_id

unfoldable pub logout_all : ℕ → Store → Ended Store (Unit {0})
logout_all user_id = do revoke_where λ r. r.user_id == user_id; log user_id AuditAction.logout_all

unfoldable pub get_sessions : (now : ℕ) → ℕ → Store → List Session
get_sessions now user_id s =
    sort_desc (λ r. r.created_at)
      (select (λ r. r.user_id == user_id && (not r.is_revoked && ltb now r.expires_at)) s.sessions)

unfoldable pub revoke_session : ℕ → ℕ → Store → Ended Store (Unit {0})
revoke_session session_id user_id = do
  s ← get
  session ← need (find (λ r. r.id == session_id) s.sessions) HttpError.not_found
  guard (session.user_id == user_id) HttpError.forbidden
  revoke_where λ r. r.id == session_id
  log user_id AuditAction.session_revoked

-- What `ua.includes` asks for.
pub data Mark : Type 0 where
  firefox edg chrome safari opera opr windows mac_os_x macintosh linux android iphone ipad : Mark

pub data Browser : Type 0 where
  firefox edge chrome safari opera unknown : Browser

pub data Os : Type 0 where
  windows mac_os linux android ios unknown : Os

abbrev pub browser_of : (Mark → Bool) → Browser
browser_of has =
    if has Mark.firefox
    then Browser.firefox
    else if has Mark.edg
    then Browser.edge
    else if has Mark.chrome
    then Browser.chrome
    else if has Mark.safari
    then Browser.safari
    else if has Mark.opera || has Mark.opr
    then Browser.opera
    else Browser.unknown

abbrev pub os_of : (Mark → Bool) → Os
os_of has =
    if has Mark.windows
    then Os.windows
    else if has Mark.mac_os_x || has Mark.macintosh
    then Os.mac_os
    else if has Mark.linux
    then Os.linux
    else if has Mark.android
    then Os.android
    else if has Mark.iphone || has Mark.ipad
    then Os.ios
    else Os.unknown

-- A user agent is known by the marks that it includes.
unfoldable pub parse_user_agent : Option (Mark → Bool) → Browser × Os
parse_user_agent none = (Browser.unknown, Os.unknown)
parse_user_agent (some has) = (browser_of has, os_of has)
