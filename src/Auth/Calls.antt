-- ===== src/Auth/Calls.antt =====
-- The calls of the service, src/modules/auth/auth.service.ts, one after another, and a rule of
-- induction for what they all keep.
use corporate_lawyers_backen.Prelude.{
  ℕ, Bool, true, false, ◌≡◌, refl, arith, Option, none, some, List, [], ◌∷◌,
}
use corporate_lawyers_backen.World.{Text, final}
use corporate_lawyers_backen.World.Request.Within.{Preorder, Within, within_rules}
use corporate_lawyers_backen.Auth.{
  Account, Session, PasswordResetToken, Store, AuditAction, Crypto, AuthConfig, log, revoke_where,
  write_users, update_user,
}
use corporate_lawyers_backen.Auth.Sessions.{
  create_session, refresh_tokens, logout, log_logout, logout_all, revoke_session,
}
use corporate_lawyers_backen.Auth.Login.{
  RegisterDto, LoginDto, register, login, handle_failed_login,
}
use corporate_lawyers_backen.Auth.TwoFactor.{
  setup_two_factor, verify_and_enable_two_factor, disable_two_factor, recover_two_factor,
}
use corporate_lawyers_backen.Auth.Passwords.{
  use_up_where, create_reset_token, issue_for, forgot_password, reset_password,
}

pub data Call : Type 0 where
  registers : (now user_id session_id salt : ℕ) → RegisterDto → Call
  logs_in : (now session_id : ℕ) → LoginDto → (ip_address user_agent : Option ℕ) → Call
  refreshes : (now session_id : ℕ) → Text → Call
  logs_out : Text → Option ℕ → Call
  logs_out_all : ℕ → Call
  revokes : ℕ → ℕ → Call
  sets_up : (totp : ℕ) → List Text → ℕ → Call
  enables : (now : ℕ) → ℕ → ℕ → Call
  disables : (now : ℕ) → ℕ → ℕ → Call
  recovers : (now session_id : ℕ) → (email code : Text) → Call
  forgets : (now id token : ℕ) → Text → Call
  resets : (now salt : ℕ) → (token password : ℕ) → Call

module _ (crypto : Crypto) (config : AuthConfig) where
  -- The store that a call leaves, whether or not it threw.
  unfoldable pub step : Call → Store → Store
  step (registers now user_id session_id salt dto) s =
      final (register crypto config now user_id session_id salt dto s)
  step (logs_in now session_id dto ip_address user_agent) s =
      final (login crypto config now session_id dto ip_address user_agent s)
  step (refreshes now session_id token) s =
      final (refresh_tokens crypto config now session_id token s)
  step (logs_out token user_id) s = final (logout crypto config token user_id s)
  step (logs_out_all user_id) s = final (logout_all user_id s)
  step (revokes session_id user_id) s = final (revoke_session session_id user_id s)
  step (sets_up totp codes user_id) s = final (setup_two_factor crypto config totp codes user_id s)
  step (enables now user_id code) s =
      final (verify_and_enable_two_factor crypto config now user_id code s)
  step (disables now user_id code) s = final (disable_two_factor crypto config now user_id code s)
  step (recovers now session_id email code) s =
      final (recover_two_factor crypto config now session_id email code s)
  step (forgets now id token email) s = final (forgot_password now id token email s)
  step (resets now salt token password) s = final (reset_password crypto now salt token password s)

  unfoldable pub run : List Call → Store → Store
  run [] s = s
  run (c ∷ cs) s = run cs (step c s)

-- The calls that end no session.
abbrev pub is_quiet : Call → Bool
is_quiet (refreshes now session_id token) = false
is_quiet (logs_out token user_id) = false
is_quiet (logs_out_all user_id) = false
is_quiet (revokes session_id user_id) = false
is_quiet (resets now salt token password) = false
is_quiet _ = true

-- What a preorder has to allow: every write that the quiet calls make, and, for all calls, the
-- revocations.
pub record AllowsWrites (crypto : Crypto) (config : AuthConfig) (R : Preorder Store) : Type 0 where
  pub logs : (user_id : ℕ) (action : AuditAction) → Within R (log user_id action)
  pub users : (f : List Account → List Account) → Within R (write_users f)
  pub creating :
      (now new_id user_id : ℕ) (token : Text) (ip_address user_agent : Option ℕ)
      → Within R (create_session crypto config now new_id user_id token ip_address user_agent)
  pub using_up : (now : ℕ) (p : PasswordResetToken → Bool) → Within R (use_up_where now p)
  pub issuing : (now id token user_id : ℕ) → Within R (create_reset_token now id token user_id)

pub record Allows (crypto : Crypto) (config : AuthConfig) (R : Preorder Store) : Type 0 where
  pub writes : AllowsWrites crypto config R
  pub revoking : (p : Session → Bool) → Within R (revoke_where p)

module _ {crypto : Crypto} {config : AuthConfig} (R : Preorder Store)
    (writes : AllowsWrites crypto config R) where
  open writes use {logs, users, creating, using_up, issuing}

  updating : (id : ℕ) (f : Account → Account) → Within R (update_user id f)
  updating id f = search (within_rules, users)

  failing : (now user_id : ℕ) → Within R (handle_failed_login now user_id)
  unfolding handle_failed_login
  failing now user_id = search (within_rules, logs, updating)

  leaving : (user_id : Option ℕ) → Within R (log_logout crypto config user_id)
  leaving none = search within_rules
  leaving (some user_id) = search logs

  issuing_for : (now id token : ℕ) (user : Option Account) → Within R (issue_for now id token user)
  issuing_for now id token none = search within_rules
  issuing_for now id token (some user) = search (within_rules, logs, using_up, issuing)

  registering :
      (now user_id session_id salt : ℕ) (dto : RegisterDto)
      → Within R (register crypto config now user_id session_id salt dto)
  unfolding register
  registering now user_id session_id salt dto =
      search (within_rules, logs, users, creating) depth 20

  logging_in :
      (now session_id : ℕ) (dto : LoginDto) (ip_address user_agent : Option ℕ)
      → Within R (login crypto config now session_id dto ip_address user_agent)
  unfolding login
  logging_in now session_id dto ip_address user_agent =
      search (within_rules, logs, updating, failing, creating) depth 20

  setting_up :
      (totp : ℕ) (codes : List Text) (user_id : ℕ)
      → Within R (setup_two_factor crypto config totp codes user_id)
  unfolding setup_two_factor
  setting_up totp codes user_id = search (within_rules, updating)

  enabling :
      (now user_id code : ℕ)
      → Within R (verify_and_enable_two_factor crypto config now user_id code)
  unfolding verify_and_enable_two_factor
  enabling now user_id code = search (within_rules, updating, logs) depth 20

  disabling : (now user_id code : ℕ) → Within R (disable_two_factor crypto config now user_id code)
  unfolding disable_two_factor
  disabling now user_id code = search (within_rules, updating, logs) depth 20

  recovering :
      (now session_id : ℕ) (email code : Text)
      → Within R (recover_two_factor crypto config now session_id email code)
  unfolding recover_two_factor
  recovering now session_id email code = search (within_rules, updating, logs, creating) depth 20

  forgetting : (now id token : ℕ) (email : Text) → Within R (forgot_password now id token email)
  unfolding forgot_password
  forgetting now id token email = search (within_rules, issuing_for)

  pub quiet_induction :
      (c : Call) (s : Store) → is_quiet c ≡ true → R.related s (step crypto config c s)
  unfolding step
  quiet_induction (registers now user_id session_id salt dto) s h =
      (registering now user_id session_id salt dto).at_state s
  quiet_induction (logs_in now session_id dto ip_address user_agent) s h =
      (logging_in now session_id dto ip_address user_agent).at_state s
  quiet_induction (sets_up totp codes user_id) s h = (setting_up totp codes user_id).at_state s
  quiet_induction (enables now user_id code) s h = (enabling now user_id code).at_state s
  quiet_induction (disables now user_id code) s h = (disabling now user_id code).at_state s
  quiet_induction (recovers now session_id email code) s h =
      (recovering now session_id email code).at_state s
  quiet_induction (forgets now id token email) s h = (forgetting now id token email).at_state s
  quiet_induction (refreshes now session_id token) s h = ground arith
  quiet_induction (logs_out token user_id) s h = ground arith
  quiet_induction (logs_out_all user_id) s h = ground arith
  quiet_induction (revokes session_id user_id) s h = ground arith
  quiet_induction (resets now salt token password) s h = ground arith

module _ {crypto : Crypto} {config : AuthConfig} (R : Preorder Store)
    (allows : Allows crypto config R) where
  open allows use {writes, revoking}
  open writes use {logs, creating, using_up}

  refreshing :
      (now session_id : ℕ) (token : Text)
      → Within R (refresh_tokens crypto config now session_id token)
  unfolding refresh_tokens
  refreshing now session_id token = search (within_rules, revoking, creating) depth 20

  resetting :
      (now salt token password : ℕ) → Within R (reset_password crypto now salt token password)
  unfolding reset_password
  resetting now salt token password =
      search (within_rules, updating R writes, using_up, revoking, logs) depth 20

  logging_out : (token : Text) (user_id : Option ℕ) → Within R (logout crypto config token user_id)
  unfolding logout
  logging_out token user_id = search (within_rules, leaving R writes, revoking)

  revoking_one : (a b : ℕ) → Within R (revoke_session a b)
  unfolding revoke_session
  revoking_one a b = search (within_rules, logs, revoking)

  revoking_all : (a : ℕ) → Within R (logout_all a)
  unfolding logout_all
  revoking_all a = search (within_rules, logs, revoking)

  -- Every call stays within what all the writes stay within.
  pub step_induction : (c : Call) (s : Store) → R.related s (step crypto config c s)
  unfolding step
  step_induction (refreshes now session_id token) s = (refreshing now session_id token).at_state s
  step_induction (logs_out token user_id) s = (logging_out token user_id).at_state s
  step_induction (logs_out_all user_id) s = (revoking_all user_id).at_state s
  step_induction (revokes session_id user_id) s = (revoking_one session_id user_id).at_state s
  step_induction (resets now salt token password) s = (resetting now salt token password).at_state s
  step_induction (registers now user_id session_id salt dto) s =
      quiet_induction R writes (registers now user_id session_id salt dto) s refl
  step_induction (logs_in now session_id dto ip_address user_agent) s =
      quiet_induction R writes (logs_in now session_id dto ip_address user_agent) s refl
  step_induction (sets_up totp codes user_id) s =
      quiet_induction R writes (sets_up totp codes user_id) s refl
  step_induction (enables now user_id code) s =
      quiet_induction R writes (enables now user_id code) s refl
  step_induction (disables now user_id code) s =
      quiet_induction R writes (disables now user_id code) s refl
  step_induction (recovers now session_id email code) s =
      quiet_induction R writes (recovers now session_id email code) s refl
  step_induction (forgets now id token email) s =
      quiet_induction R writes (forgets now id token email) s refl

  pub run_induction : (cs : List Call) (s : Store) → R.related s (run crypto config cs s)
  unfolding run
  run_induction [] s = R.still
  run_induction (c ∷ cs) s =
      R.onward (step_induction c s) (run_induction cs (step crypto config c s))
