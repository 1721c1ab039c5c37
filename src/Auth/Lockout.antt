-- ===== src/Auth/Lockout.antt =====
-- The lock of src/modules/auth/auth.service.ts over a row of logins: MAX_FAILED_ATTEMPTS wrong
-- passwords lock an account for LOCK_DURATION_MINUTES.
use corporate_lawyers_backen.Prelude.{
  ℕ, ◌+◌, ◌*◌, ◌<◌, ◌≤◌, suc, true, false, Option, none, some, List, [], ◌∷◌, ◌≡◌, refl, ap, ◌∙◌,
  inl, inr, ◌==◌, length, length-append, All, any, arith,
}
use corporate_lawyers_backen.World.{Text, HttpError, ok, err, final}
use corporate_lawyers_backen.Auth.{Account, Store, Crypto, AuthConfig}
use corporate_lawyers_backen.Auth.Login.{
  max_failed_attempts, lock_end, LoginDto, login, is_locked, is_suspended, Welcome, welcome_back,
  lock, one_more_failure,
}
use corporate_lawyers_backen.Auth.Entry.{new_hash, in_use, login-enters}
use corporate_lawyers_backen.Auth.Accounts.{account_of, IsKeyed}
use corporate_lawyers_backen.Auth.Failures.{failed, login-fails, login-locked}

below-limit :
    (now : ℕ) (u : Account)
    → suc u.failed_login_attempts < max_failed_attempts
    → failed now u ≡ one_more_failure u
below-limit now u h = ground arith

at-limit :
    (now : ℕ) (u : Account)
    → max_failed_attempts ≤ suc u.failed_login_attempts
    → failed now u ≡ lock now (one_more_failure u)
at-limit now u h = ground arith

module _ (crypto : Crypto) (config : AuthConfig) (email : Text) where
  -- A login with a password alone, at a time.
  abbrev pub attempt : (now : ℕ) → (password : ℕ) → Store → Store
  attempt now password s =
      let dto : LoginDto = record { email = email; password = password; two_factor_code = none } in
      final (login crypto config now 0 dto none none s)

  abbrev pub attempts : List (ℕ × ℕ) → Store → Store
  attempts [] s = s
  attempts ((now, password) ∷ rest) s = attempts rest (attempt now password s)

  abbrev pub AllWrong : ℕ → List (ℕ × ℕ) → Type 0
  AllWrong password_hash = All (λ a. crypto.compare a.1 password_hash ≡ false)

  attempt-fails :
      (now password : ℕ) (s : Store) (u : Account)
      → IsKeyed s
      → account_of email s ≡ some u
      → is_locked now u ≡ false
      → is_suspended u.status ≡ false
      → crypto.compare password u.password_hash ≡ false
      → IsKeyed (attempt now password s)
        × (account_of email (attempt now password s) ≡ some (failed now u))
        × ((attempt now password s).sessions ≡ s.sessions)
  attempt-fails now password s u keyed e unlocked unsuspended wrong =
      let dto : LoginDto = record { email = email; password = password; two_factor_code = none } in
      let (s', ended, keyed', now_failed, same) =
        login-fails crypto config now 0 dto none none s u keyed e unlocked unsuspended wrong in
      rw (ended, final) (keyed', now_failed, same)

  -- Up to the fourth wrong password the account counts them.
  attempts-count :
      (tries : List (ℕ × ℕ)) (s : Store) (u : Account)
      → IsKeyed s
      → account_of email s ≡ some u
      → u.locked_until ≡ none
      → is_suspended u.status ≡ false
      → u.failed_login_attempts + length tries < max_failed_attempts
      → AllWrong u.password_hash tries
      → IsKeyed (attempts tries s)
        × (account_of email (attempts tries s)
            ≡ some (record u { failed_login_attempts = u.failed_login_attempts + length tries }))
        × ((attempts tries s).sessions ≡ s.sessions)
  attempts-count [] s u keyed e unlocked unsuspended few wrong =
      (keyed, e ∙ ap (λ n. some (record u { failed_login_attempts = n })) (omega arith), refl)
  attempts-count ((now, password) ∷ tries) s u keyed e unlocked unsuspended few (wrong, wrongs) =
      let (keyed', e', same) =
        attempt-fails now password s u keyed e (rw unlocked refl) unsuspended wrong in
      let (keyed'', e'', same') =
        attempts-count tries (attempt now password s) (one_more_failure u) keyed'
          (rw (below-limit now u (omega arith)) at e') unlocked unsuspended (omega arith) wrongs in
      (
        keyed'',
        e'' ∙ ap (λ n. some (record u { failed_login_attempts = n })) (omega arith),
        same' ∙ same,
      )

  -- The account after the fourth wrong password and one more, at the time `now`.
  abbrev pub locked_out : (now : ℕ) → Account → Account
  locked_out now u = record u {
    failed_login_attempts = max_failed_attempts;
    locked_until = some (lock_end now);
  }

  fifth-locks :
      (tries : List (ℕ × ℕ)) (now password : ℕ) (s : Store) (u : Account)
      → IsKeyed s
      → account_of email s ≡ some u
      → u.failed_login_attempts ≡ 0
      → u.locked_until ≡ none
      → is_suspended u.status ≡ false
      → length tries ≡ 4
      → AllWrong u.password_hash tries
      → crypto.compare password u.password_hash ≡ false
      → let s' = attempt now password (attempts tries s) in
        IsKeyed s' × (account_of email s' ≡ some (locked_out now u)) × (s'.sessions ≡ s.sessions)
  fifth-locks tries now password s u keyed e none_yet unlocked unsuspended four wrongs wrong =
      let (keyed', e', same) =
        attempts-count tries s u keyed e unlocked unsuspended (omega arith) wrongs in
      let (keyed'', e'', same') =
        attempt-fails now password (attempts tries s) _ keyed' e' (rw unlocked refl) unsuspended
          wrong in
      (
        keyed'',
        e''
            ∙ ap some (at-limit now _ (omega arith))
            ∙ ap
                (λ n.
                  some (record u { failed_login_attempts = n; locked_until = some (lock_end now) }))
                (omega arith),
        same' ∙ same,
      )

  -- Five wrong passwords in a row, at any times, lock an account that had none: until five minutes
  -- after the fifth every login to it is refused with 401 and writes nothing, with the right password
  -- and code too. No session is made on the way, and none ended.
  pub lockout :
      (tries : List (ℕ × ℕ)) (now password : ℕ) (s : Store) (u : Account)
      → IsKeyed s
      → account_of email s ≡ some u
      → u.failed_login_attempts ≡ 0
      → u.locked_until ≡ none
      → is_suspended u.status ≡ false
      → length tries ≡ 4
      → AllWrong u.password_hash tries
      → crypto.compare password u.password_hash ≡ false
      → let s' = attempt now password (attempts tries s) in
        (s'.sessions ≡ s.sessions)
        × ((later session_id : ℕ) (dto : LoginDto) (ip_address user_agent : Option ℕ)
            → dto.email ≡ email
            → later < now + 5 * 60 * 1000
            → login crypto config later session_id dto ip_address user_agent s'
              ≡ err HttpError.unauthorized s')
  lockout tries now password s u keyed e none_yet unlocked unsuspended four wrongs wrong =
      let (keyed', e', same) =
        fifth-locks tries now password s u keyed e none_yet unlocked unsuspended four wrongs
          wrong in
      (
        same,
        λ later session_id dto ip_address user_agent same_email early.
            login-locked crypto config later session_id dto ip_address user_agent _
              (locked_out now u) (rw same_email e') (ground arith),
      )

  -- The lock ends: from five minutes after the fifth wrong password on, the right password logs the
  -- user in, who gets tokens and a session, and the count and the lock are cleared. The second factor
  -- is off here, and no session has the hash of the token that the user gets.
  pub lock_ends :
      (tries : List (ℕ × ℕ)) (now password : ℕ) (s : Store) (u : Account)
      → IsKeyed s
      → account_of email s ≡ some u
      → u.failed_login_attempts ≡ 0
      → u.locked_until ≡ none
      → is_suspended u.status ≡ false
      → length tries ≡ 4
      → AllWrong u.password_hash tries
      → crypto.compare password u.password_hash ≡ false
      → (later session_id : ℕ) (dto : LoginDto) (ip_address user_agent : Option ℕ)
      → dto.email ≡ email
      → now + 5 * 60 * 1000 ≤ later
      → crypto.compare dto.password u.password_hash ≡ true
      → u.two_factor_enabled ≡ false
      → in_use crypto config later u s ≡ false
      → let s' = attempt now password (attempts tries s) in
        (s'' : Store) × (welcome : Welcome) × (login crypto config later session_id dto ip_address
            user_agent s'
          ≡ ok welcome s'')
        × (account_of email s'' ≡ some (welcome_back later u))
        × (length s''.sessions ≡ length s.sessions + 1)
  lock_ends tries now password s u keyed e none_yet unlocked unsuspended four wrongs wrong later
        session_id dto ip_address user_agent same_email late right off fresh =
      let (keyed', e', same) =
        fifth-locks tries now password s u keyed e none_yet unlocked unsuspended four wrongs
          wrong in
      let (s'', back, outcome) =
        login-enters crypto config later session_id dto ip_address user_agent
          (attempt now password (attempts tries s)) (locked_out now u) keyed' (rw same_email e')
          (ground arith) unsuspended right (rw off refl) in
      elim outcome [
        | inl (fresh', welcome, ended, more) ↦ (
          s'',
          welcome,
          ended,
          rw same_email at back,
          ap length more ∙ length-append _ _ ∙ ap (λ rows. length rows + 1) same,
        )
        | inr (used, _, _) ↦
            absurd (
              ground
                (arith, ap (any (λ r. r.refresh_token == new_hash crypto config later u)) same))
      ]
