-- ===== src/Auth/Codes.antt =====
-- How `recoverTwoFactor` of src/modules/auth/auth.service.ts ends.
use corporate_lawyers_backen.Prelude.{
  ℕ, ◌+◌, suc, zero, true, false, Option, none, some, List, [], ◌∷◌, ◌++◌, ◌≡◌, ◌≢◌, refl, ap, ◌⊎◌,
  inl, inr, ◌==◌, update_where, length, count_where, arith, Bool-cases, Option-cases, is_some,
}
use corporate_lawyers_backen.World.{Text, HttpError, ok, err, ◌>>=◌, ◌>>◌}
use corporate_lawyers_backen.Auth.{
  Account, Store, Crypto, AuthConfig, AuditAction, TwoFactorSecret, json, write_users,
}
use corporate_lawyers_backen.Auth.Sessions.{generate_tokens, new_session, create_session}
use corporate_lawyers_backen.Auth.Login.{welcome_back}
use corporate_lawyers_backen.Auth.TwoFactor.{
  index_of, splice, stored_codes, with_secret, code_hash, Recovered, recover_two_factor,
}
use corporate_lawyers_backen.Auth.Accounts.{
  has_email, has_id, account_of, IsKeyed, find_user-found, find_by_id, find_user-update,
}
use corporate_lawyers_backen.Auth.Entry.{in_use}

index_of-splice :
    (code : ℕ) (codes : List ℕ) (i : ℕ)
    → index_of code codes ≡ some i
    → (length (splice i codes) + 1 ≡ length codes)
      × (count_where (λ c. c == code) (splice i codes) + 1 ≡ count_where (λ c. c == code) codes)
index_of-splice code [] i e = ground arith
index_of-splice code (c ∷ codes) zero e = elim (Bool-cases (c == code)) [
  | inl here ↦ (omega arith, ground arith)
  | inr there ↦ absurd (not_first (index_of code codes) (rw there at e))
]
  where
    not_first : (o : Option ℕ) → elim o [ none ↦ none | some i ↦ some (suc i) ] ≢ some 0
    not_first none h = ground arith
    not_first (some i) h = ground arith
index_of-splice code (c ∷ codes) (suc j) e = elim (Bool-cases (c == code)) [
  | inl here ↦ ground arith
  | inr there ↦
      let found = later (index_of code codes) (rw there at e) in
      let (shorter, fewer) = index_of-splice code codes j found in (omega arith, ground arith)
]
  where
    later :
        (o : Option ℕ) → elim o [ none ↦ none | some i ↦ some (suc i) ] ≡ some (suc j) → o ≡ some j
    later none h = ground arith
    later (some i) h = ground arith

module _ (crypto : Crypto) (config : AuthConfig) (now : ℕ) where
  -- Why a recovery is refused, and how.
  abbrev pub NoRecovery : Text → Text → Store → HttpError → Type 0
  NoRecovery email recovery_code s e =
      ((e ≡ HttpError.unauthorized)
        × ((account_of email s ≡ none)
            ⊎ (u : Account) × (account_of email s ≡ some u)
              × ((u.two_factor_enabled ≡ false)
                  ⊎ (u.two_factor_secret ≡ none)
                  ⊎ (secret : TwoFactorSecret) × (totp : ℕ) × (codes : List ℕ)
                    × (u.two_factor_secret ≡ some secret)
                    × (stored_codes secret ≡ some (totp, codes))
                    × (index_of (code_hash crypto config recovery_code) codes ≡ none))))
      ⊎ (e ≡ HttpError.bad_request)
        × (u : Account) × (secret : TwoFactorSecret) × (account_of email s ≡ some u)
        × (u.two_factor_secret ≡ some secret)
        × (stored_codes secret ≡ none)

  -- A recovery on a table with unique ids is refused with no write, with 401 when the address has no
  -- live account with a second factor or the code is not one of the account's, and with 400 when the
  -- account has no codes; or it takes one occurrence of the code off the account, which is unlocked,
  -- whatever its status, its lock and its password, and ends with tokens and the number of codes that
  -- are left, or with 409 when the hash of the new refresh token is in use.
  pub recover_two_factor_lem :
      (session_id : ℕ) (email recovery_code : Text) (s : Store)
      → IsKeyed s
      → let ended = recover_two_factor crypto config now session_id email recovery_code s in
        let h = code_hash crypto config recovery_code in
        ((e : HttpError) × NoRecovery email recovery_code s e × (ended ≡ err e s))
        ⊎ (u : Account) × (secret : TwoFactorSecret) × (totp : ℕ) × (codes : List ℕ) × (rest : List
            ℕ)
          × (s' : Store) × (account_of email s ≡ some u)
          × (u.two_factor_enabled ≡ true)
          × (u.two_factor_secret ≡ some secret)
          × (stored_codes secret ≡ some (totp, codes))
          × (length rest + 1 ≡ length codes)
          × (count_where (λ c. c == h) rest + 1 ≡ count_where (λ c. c == h) codes)
          × (account_of email s'
              ≡ some (record u {
                two_factor_secret = some (json totp rest);
                failed_login_attempts = 0;
                locked_until = none;
                last_login_at = some now;
              }))
          × (((in_use crypto config now u s ≡ true) × (ended ≡ err HttpError.conflict s'))
              ⊎ (in_use crypto config now u s ≡ false)
                × (result : Recovered) × (ended ≡ ok result s')
                × (result.user_id ≡ u.id)
                × (result.remaining_recovery_codes ≡ length rest))
  unfolding recover_two_factor write_users create_session
  recover_two_factor_lem session_id email recovery_code s keyed =
      elim (Option-cases (account_of email s)) [
        | inl nobody ↦ inl (_, inl (refl, inl nobody), rw (nobody, ◌>>=◌, ◌>>◌) refl)
        | inr (u, e) ↦
            let (found, undeleted) = find_user-found (has_email email) s.users u e in
            let live = ap is_some undeleted in
            elim (Bool-cases u.two_factor_enabled) [
              | inr off ↦
                  inl (_, inl (refl, inr (u, e, inl off)), rw (e, live, off, ◌>>=◌, ◌>>◌) refl)
              | inl on ↦ elim (Option-cases u.two_factor_secret) [
                | inl no_secret ↦ inl (
                  _,
                  inl (refl, inr (u, e, inr (inl no_secret))),
                  rw (e, live, on, no_secret, ◌>>=◌, ◌>>◌) refl,
                )
                | inr (secret, known) ↦ elim (Option-cases (stored_codes secret)) [
                  | inl no_codes ↦ inl (
                    _,
                    inr (refl, u, secret, e, known, no_codes),
                    rw (e, live, on, known, no_codes, ◌>>=◌, ◌>>◌) refl,
                  )
                  | inr ((totp, codes), stored) ↦
                      elim (Option-cases (index_of (code_hash crypto config recovery_code) codes)) [
                        | inl wrong ↦ inl (
                          _,
                          inl (
                            refl,
                            inr (u, e, inr (inr (secret, totp, codes, known, stored, wrong))),
                          ),
                          rw (e, live, on, known, stored, wrong, ◌>>=◌, ◌>>◌) refl,
                        )
                        | inr (i, listed) ↦
                            let there = find_by_id (has_email email) s.users u keyed found in
                            let f = λ (v : Account).
                              with_secret (json totp (splice i codes)) (welcome_back now v) in
                            let (shorter, fewer) =
                              index_of-splice (code_hash crypto config recovery_code) codes i
                                listed in
                            let tokens = generate_tokens crypto config now u.id u.email u.role in
                            let spent = update_where (has_id u.id) f s.users in
                            let e' =
                              find_user-update f email s.users u
                                (record {
                                  same_id = λ v. refl;
                                  same_email = λ v. refl;
                                  same_deleted_at = λ v. refl;
                                })
                                e in
                            elim (Bool-cases (in_use crypto config now u s)) [
                              | inl used ↦ inr (
                                u,
                                secret,
                                totp,
                                codes,
                                splice i codes,
                                record s { users = spent },
                                e,
                                on,
                                known,
                                stored,
                                shorter,
                                fewer,
                                e',
                                inl (
                                  used,
                                  rw (e, live, on, known, stored, listed, ◌>>=◌, ◌>>◌)
                                      (rw (there, used, ◌>>=◌, ◌>>◌) refl),
                                ),
                              )
                              | inr fresh ↦
                                  let row =
                                    new_session crypto config now session_id u.id
                                      tokens.refresh_token none none in
                                  inr (
                                    u,
                                    secret,
                                    totp,
                                    codes,
                                    splice i codes,
                                    record s {
                                      users = spent;
                                      sessions = s.sessions ++ row ∷ [];
                                      audit =
                                          s.audit ++ (u.id, AuditAction.two_factor_recovery) ∷ [];
                                    },
                                    e,
                                    on,
                                    known,
                                    stored,
                                    shorter,
                                    fewer,
                                    e',
                                    inr (
                                      fresh,
                                      record {
                                        user_id = u.id;
                                        tokens = tokens;
                                        remaining_recovery_codes = length (splice i codes);
                                      },
                                      rw (e, live, on, known, stored, listed, ◌>>=◌, ◌>>◌)
                                          (rw (there, fresh, ◌>>=◌, ◌>>◌) refl),
                                      refl,
                                      refl,
                                    ),
                                  )
                            ]
                      ]
                ]
              ]
            ]
      ]
