-- ===== src/Auth/Failures.antt =====
-- What a wrong password does: `handleFailedLogin` and `login` of src/modules/auth/auth.service.ts.
use corporate_lawyers_backen.Prelude.{
  ℕ, suc, true, false, Option, some, [], ◌∷◌, ◌++◌, ◌≡◌, refl, ap, inl, inr, leb, if◌then◌else◌,
  update_where, Bool-cases, is_some, update_where-Keyed, find-update, ==_refl,
}
use corporate_lawyers_backen.World.{Text, HttpError, ok, err, ◌>>=◌, ◌>>◌}
use corporate_lawyers_backen.Auth.{Account, Store, AuditAction, Crypto, AuthConfig, write_users}
use corporate_lawyers_backen.Auth.Login.{
  one_more_failure, lock, max_failed_attempts, handle_failed_login, LoginDto, login, is_locked,
  is_suspended,
}
use corporate_lawyers_backen.Auth.Accounts.{
  has_email, has_id, account_of, IsKeyed, Gentle, find_user-found, find_by_id, find_user-update,
}

-- What a wrong password makes of an account: one more failure, and from the fifth on a lock.
abbrev pub failed : (now : ℕ) → Account → Account
failed now u =
    if leb max_failed_attempts (suc u.failed_login_attempts)
    then lock now (one_more_failure u)
    else one_more_failure u

one_more_failure-Gentle : Gentle one_more_failure
one_more_failure-Gentle = record {
  same_id = λ u. refl;
  same_email = λ u. refl;
  same_deleted_at = λ u. refl;
}

lock-Gentle : (now : ℕ) → Gentle (lock now)
lock-Gentle now = record {
  same_id = λ u. refl;
  same_email = λ u. refl;
  same_deleted_at = λ u. refl;
}

pub handle_failed_login_lem :
    (now : ℕ) (email : Text) (s : Store) (u : Account)
    → IsKeyed s
    → account_of email s ≡ some u
    → (s' : Store) × (handle_failed_login now u.id s ≡ ok tt s')
      × IsKeyed s'
      × (account_of email s' ≡ some (failed now u))
      × (s'.sessions ≡ s.sessions)
unfolding handle_failed_login write_users
handle_failed_login_lem now email s u keyed e =
    let (found, live) = find_user-found (has_email email) s.users u e in
    let there = find_by_id (has_email email) s.users u keyed found in
    let counted = update_where (has_id u.id) one_more_failure s.users in
    let noted = s.audit ++ (u.id, AuditAction.login_failed) ∷ [] in
    let there' =
      find-update one_more_failure (has_id u.id) (has_id u.id) s.users u (λ v. refl) there
        (==_refl u.id) in
    let keyed' =
      update_where-Keyed (λ v. v.id) one_more_failure (has_id u.id) s.users (λ v. refl) keyed in
    let e' = find_user-update one_more_failure email s.users u one_more_failure-Gentle e in
    elim (Bool-cases (leb max_failed_attempts (suc u.failed_login_attempts))) [
      | inl fifth ↦ (
        record s {
          users = update_where (has_id u.id) (lock now) counted;
          audit = noted ++ (u.id, AuditAction.account_locked) ∷ [];
        },
        rw (there, fifth, there', ◌>>=◌, ◌>>◌) refl,
        update_where-Keyed (λ v. v.id) (lock now) (has_id u.id) counted (λ v. refl) keyed',
        rw fifth
            (find_user-update (lock now) email counted (one_more_failure u) (lock-Gentle now) e'),
        refl,
      )
      | inr below ↦ (
        record s { users = counted; audit = noted },
        rw (there, below, ◌>>=◌, ◌>>◌) refl,
        keyed',
        rw below e',
        refl,
      )
    ]

module _ (crypto : Crypto) (config : AuthConfig) where
  -- A wrong password for an account that is neither locked nor suspended.
  pub login-fails :
      (now session_id : ℕ) (dto : LoginDto) (ip_address user_agent : Option ℕ) (s : Store)
      (u : Account)
      → IsKeyed s
      → account_of dto.email s ≡ some u
      → is_locked now u ≡ false
      → is_suspended u.status ≡ false
      → crypto.compare dto.password u.password_hash ≡ false
      → (s' : Store) × (login crypto config now session_id dto ip_address user_agent s
          ≡ err HttpError.unauthorized s')
        × IsKeyed s'
        × (account_of dto.email s' ≡ some (failed now u))
        × (s'.sessions ≡ s.sessions)
  unfolding login
  login-fails now session_id dto ip_address user_agent s u keyed e unlocked unsuspended wrong =
      let (found, undeleted) = find_user-found (has_email dto.email) s.users u e in
      let live = ap is_some undeleted in
      let (s', handled, keyed', now_failed, same) =
        handle_failed_login_lem now dto.email s u keyed e in
      (
        s',
        rw (e, live, unlocked, unsuspended, wrong, handled, ◌>>=◌, ◌>>◌) refl,
        keyed',
        now_failed,
        same,
      )

  -- A locked account admits nobody, and the request writes nothing.
  pub login-locked :
      (now session_id : ℕ) (dto : LoginDto) (ip_address user_agent : Option ℕ) (s : Store)
      (u : Account)
      → account_of dto.email s ≡ some u
      → is_locked now u ≡ true
      → login crypto config now session_id dto ip_address user_agent s
        ≡ err HttpError.unauthorized s
  unfolding login
  login-locked now session_id dto ip_address user_agent s u e locked =
      let (found, undeleted) = find_user-found (has_email dto.email) s.users u e in
      let live = ap is_some undeleted in rw (e, live, locked, ◌>>=◌, ◌>>◌) refl
