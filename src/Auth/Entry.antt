-- ===== src/Auth/Entry.antt =====
-- How `login` of src/modules/auth/auth.service.ts ends.
use corporate_lawyers_backen.Prelude.{
  ℕ, Bool, true, false, Option, none, some, [], ◌∷◌, ◌++◌, ◌≡◌, refl, ap, ◌⊎◌, inl, inr, ◌==◌, any,
  update_where, Bool-cases, Option-cases, is_some,
}
use corporate_lawyers_backen.World.{HttpError, Ended, ok, err, ◌>>=◌, ◌>>◌}
use corporate_lawyers_backen.Auth.{
  Account, Store, Crypto, AuthConfig, AuditAction, TwoFactorSecret, write_users,
}
use corporate_lawyers_backen.Auth.Sessions.{
  hash_token, generate_tokens, new_session, create_session,
}
use corporate_lawyers_backen.Auth.Login.{
  LoginDto, Welcome, login, is_locked, is_suspended, welcome_back, extract_totp_secret,
  verify_totp_code, check_two_factor, enter,
}
use corporate_lawyers_backen.Auth.Accounts.{
  has_email, has_id, account_of, IsKeyed, Gentle, find_user-found, find_by_id, find_user-update,
}
use corporate_lawyers_backen.Auth.Failures.{failed, login-fails, login-locked}

welcome_back-Gentle : (now : ℕ) → Gentle (welcome_back now)
welcome_back-Gentle now = record {
  same_id = λ u. refl;
  same_email = λ u. refl;
  same_deleted_at = λ u. refl;
}

module _ (crypto : Crypto) (config : AuthConfig) (now : ℕ) where
  -- The second factor of an account, where it is on: a code that its secret accepts.
  abbrev pub SecondFactor : Account → Option ℕ → Type 0
  SecondFactor u two_factor_code =
      (u.two_factor_enabled ≡ false)
      ⊎ (secret : TwoFactorSecret) × (code : ℕ) × (u.two_factor_secret ≡ some secret)
        × (two_factor_code ≡ some code)
        × (verify_totp_code crypto config now (extract_totp_secret secret) code ≡ true)

  -- Why the second factor refuses.
  abbrev pub NoSecondFactor : Account → Option ℕ → Type 0
  NoSecondFactor u two_factor_code =
      (u.two_factor_enabled ≡ true)
      × ((two_factor_code ≡ none)
          ⊎ (secret : TwoFactorSecret) × (code : ℕ) × (u.two_factor_secret ≡ some secret)
            × (two_factor_code ≡ some code)
            × (verify_totp_code crypto config now (extract_totp_secret secret) code ≡ false))

  check_two_factor_lem :
      (u : Account) (two_factor_code : Option ℕ) (s : Store)
      → (SecondFactor u two_factor_code
          × (check_two_factor crypto config now u two_factor_code s ≡ ok tt s))
        ⊎ (NoSecondFactor u two_factor_code
            × (check_two_factor crypto config now u two_factor_code s
                ≡ err HttpError.unauthorized s))
        ⊎ (u.two_factor_secret ≡ none)
          × (u.two_factor_enabled ≡ true)
          × (check_two_factor crypto config now u two_factor_code s
              ≡ err HttpError.internal_error s)
  check_two_factor_lem u two_factor_code s = elim (Bool-cases u.two_factor_enabled) [
    | inr off ↦ inl (inl off, rw off refl)
    | inl on ↦ elim (Option-cases two_factor_code) [
      | inl no_code ↦ inr (inl ((on, inl no_code), rw (on, no_code, ◌>>=◌, ◌>>◌) refl))
      | inr (code, given) ↦ elim (Option-cases u.two_factor_secret) [
        | inl no_secret ↦ inr (inr (no_secret, on, rw (on, given, no_secret, ◌>>=◌, ◌>>◌) refl))
        | inr (secret, known) ↦
            elim (Bool-cases
              (verify_totp_code crypto config now (extract_totp_secret secret) code)) [
                | inl valid ↦ inl (
                  inr (secret, code, known, given, valid),
                  rw (on, given, known, valid, ◌>>=◌, ◌>>◌) refl,
                )
                | inr invalid ↦ inr (
                    inl (
                      (on, inr (secret, code, known, given, invalid)),
                      rw (on, given, known, invalid, ◌>>=◌, ◌>>◌) refl,
                    ))
              ]
      ]
    ]
  ]

  abbrev pub new_hash : Account → ℕ
  new_hash u =
      hash_token crypto config (generate_tokens crypto config now u.id u.email u.role).refresh_token

  -- Whether the refresh token that a user would get in this second is in use.
  abbrev pub in_use : Account → Store → Bool
  in_use u s = any (λ r. r.refresh_token == new_hash u) s.sessions

  -- A login that is let in: with tokens and a session, or with 409 if the hash of the new refresh
  -- token is in use.
  abbrev pub Entered :
      LoginDto → ℕ → Option ℕ → Option ℕ → Account → Store → Ended Store Welcome → Type 0
  Entered dto session_id ip_address user_agent u s ended =
      (s' : Store) × (account_of dto.email s' ≡ some (welcome_back now u))
      × (((in_use u s ≡ false)
            × (welcome : Welcome) × (ended ≡ ok welcome s')
            × (s'.sessions
                ≡ s.sessions
                  ++ new_session crypto config now session_id u.id welcome.tokens.refresh_token
                      ip_address user_agent
                    ∷ []))
          ⊎ (in_use u s ≡ true) × (ended ≡ err HttpError.conflict s') × (s'.sessions ≡ s.sessions))

  enter_lem :
      (session_id : ℕ) (dto : LoginDto) (ip_address user_agent : Option ℕ) (s : Store) (u : Account)
      → IsKeyed s
      → account_of dto.email s ≡ some u
      → Entered dto session_id ip_address user_agent u s
          (enter crypto config now session_id u ip_address user_agent s)
  unfolding write_users create_session
  enter_lem session_id dto ip_address user_agent s u keyed e =
      let (found, live) = find_user-found (has_email dto.email) s.users u e in
      let there = find_by_id (has_email dto.email) s.users u keyed found in
      let tokens = generate_tokens crypto config now u.id u.email u.role in
      let back = update_where (has_id u.id) (welcome_back now) s.users in
      let e' =
        find_user-update (welcome_back now) dto.email s.users u (welcome_back-Gentle now) e in
      elim (Bool-cases (in_use u s)) [
        | inl used ↦
            (record s { users = back }, e', inr (used, rw (there, used, ◌>>=◌, ◌>>◌) refl, refl))
        | inr fresh ↦
            let row =
              new_session crypto config now session_id u.id tokens.refresh_token ip_address
                user_agent in
            (
              record s {
                users = back;
                sessions = s.sessions ++ row ∷ [];
                audit = s.audit ++ (u.id, AuditAction.login) ∷ [];
              },
              e',
              inl (
                fresh,
                record {
                  user_id = u.id;
                  user_role = u.role;
                  two_factor_enabled = u.two_factor_enabled;
                  tokens = tokens;
                },
                rw (there, fresh, ◌>>=◌, ◌>>◌) refl,
                refl,
              ),
            )
      ]

  -- With the right password, the account's own checks and the second factor passed, all is done.
  pub login-enters :
      (session_id : ℕ) (dto : LoginDto) (ip_address user_agent : Option ℕ) (s : Store) (u : Account)
      → IsKeyed s
      → account_of dto.email s ≡ some u
      → is_locked now u ≡ false
      → is_suspended u.status ≡ false
      → crypto.compare dto.password u.password_hash ≡ true
      → check_two_factor crypto config now u dto.two_factor_code s ≡ ok tt s
      → Entered dto session_id ip_address user_agent u s
          (login crypto config now session_id dto ip_address user_agent s)
  unfolding login
  login-enters session_id dto ip_address user_agent s u keyed e unlocked unsuspended right check =
      let (found, undeleted) = find_user-found (has_email dto.email) s.users u e in
      let live = ap is_some undeleted in
      rw (e, live, unlocked, unsuspended, right, ◌>>=◌, ◌>>◌)
        (rw (check, ◌>>=◌, ◌>>◌) (enter_lem session_id dto ip_address user_agent s u keyed e))

  -- Why a login is refused with nothing written.
  abbrev pub Refusal : LoginDto → Store → Type 0
  Refusal dto s =
      (account_of dto.email s ≡ none)
      ⊎ (u : Account) × (account_of dto.email s ≡ some u)
        × ((is_locked now u ≡ true)
            ⊎ (is_suspended u.status ≡ true)
            ⊎ (crypto.compare dto.password u.password_hash ≡ true)
              × NoSecondFactor u dto.two_factor_code)

  -- A login on a table with unique ids ends in one of five ways. It is refused with 401 and no write
  -- when the address has no live account, when the account is locked or suspended, or when the
  -- password is right and the second factor is on and refuses: a wrong code is not counted. It is
  -- refused with 401 and counted when the password is wrong. With the second factor on and no secret
  -- it is a server error. Otherwise the count and the lock are cleared, and the user gets tokens and
  -- one more session, or gets 409 if a session has the hash of the new token already.
  pub login_lem :
      (session_id : ℕ) (dto : LoginDto) (ip_address user_agent : Option ℕ) (s : Store)
      → IsKeyed s
      → let ended = login crypto config now session_id dto ip_address user_agent s in
        (Refusal dto s × (ended ≡ err HttpError.unauthorized s))
        ⊎ (u : Account) × (account_of dto.email s ≡ some u)
          × (is_locked now u ≡ false)
          × (is_suspended u.status ≡ false)
          × (((crypto.compare dto.password u.password_hash ≡ false)
                × (s' : Store) × (ended ≡ err HttpError.unauthorized s')
                × (account_of dto.email s' ≡ some (failed now u))
                × (s'.sessions ≡ s.sessions))
              ⊎ (crypto.compare dto.password u.password_hash ≡ true)
                × (((u.two_factor_secret ≡ none)
                      × (u.two_factor_enabled ≡ true)
                      × (ended ≡ err HttpError.internal_error s))
                    ⊎ SecondFactor u dto.two_factor_code
                      × Entered dto session_id ip_address user_agent u s ended))
  unfolding login
  login_lem session_id dto ip_address user_agent s keyed =
      elim (Option-cases (account_of dto.email s)) [
        | inl nobody ↦ inl (inl nobody, rw (nobody, ◌>>=◌, ◌>>◌) refl)
        | inr (u, e) ↦
            let (found, undeleted) = find_user-found (has_email dto.email) s.users u e in
            let live = ap is_some undeleted in
            elim (Bool-cases (is_locked now u)) [
              | inl locked ↦ inl (
                inr (u, e, inl locked),
                login-locked crypto config now session_id dto ip_address user_agent s u e locked,
              )
              | inr unlocked ↦ elim (Bool-cases (is_suspended u.status)) [
                | inl suspended ↦ inl (
                  inr (u, e, inr (inl suspended)),
                  rw (e, live, unlocked, suspended, ◌>>=◌, ◌>>◌) refl,
                )
                | inr unsuspended ↦
                    elim (Bool-cases (crypto.compare dto.password u.password_hash)) [
                      | inr wrong ↦
                          let (s', ended, keyed', e', same) =
                            login-fails crypto config now session_id dto ip_address user_agent s u
                              keyed e unlocked unsuspended wrong in
                          inr (u, e, unlocked, unsuspended, inl (wrong, s', ended, e', same))
                      | inl right ↦ elim (check_two_factor_lem u dto.two_factor_code s) [
                        | inl (passed, check) ↦ inr (
                          u,
                          e,
                          unlocked,
                          unsuspended,
                          inr (
                            right,
                            inr (
                              passed,
                              login-enters session_id dto ip_address user_agent s u keyed e unlocked
                                  unsuspended right check,
                            ),
                          ),
                        )
                        | inr (inl (refused, check)) ↦ inl (
                          inr (u, e, inr (inr (right, refused))),
                          rw (e, live, unlocked, unsuspended, right, ◌>>=◌, ◌>>◌)
                              (rw (check, ◌>>=◌, ◌>>◌) refl),
                        )
                        | inr (inr (no_secret, on, check)) ↦ inr (
                          u,
                          e,
                          unlocked,
                          unsuspended,
                          inr (
                            right,
                            inl (
                              no_secret,
                              on,
                              rw (e, live, unlocked, unsuspended, right, ◌>>=◌, ◌>>◌)
                                  (rw (check, ◌>>=◌, ◌>>◌) refl),
                            ),
                          ),
                        )
                      ]
                    ]
              ]
            ]
      ]
