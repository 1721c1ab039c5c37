-- ===== src/Auth/Resets.antt =====
-- `resetPassword` of src/modules/auth/auth.service.ts: what a reset link does, and that it does so once.
use corporate_lawyers_backen.Prelude.{
  ℕ, Bool, true, false, Option, none, some, List, [], ◌∷◌, ◌++◌, ◌≡◌, refl, ◌⊎◌, inl, inr, ◌==◌,
  any, find, update_where, arith, Bool-cases, Option-cases, is_some, ==_refl, find-update,
  find_holds,
}
use corporate_lawyers_backen.World.{Text, HttpError, ok, err, ◌>>=◌, ◌>>◌, final}
use corporate_lawyers_backen.World.Request.Within.{Preorder, Within}
use corporate_lawyers_backen.Auth.{
  Account, Session, PasswordResetToken, Store, Crypto, AuthConfig, AuditAction, write_users, revoke,
}
use corporate_lawyers_backen.Auth.Sessions.{create_session, hash_token, find_session, get_sessions}
use corporate_lawyers_backen.Auth.Passwords.{
  use_up, create_reset_token, is_usable, new_password, reset_password,
}
use corporate_lawyers_backen.Auth.Accounts.{has_id}
use corporate_lawyers_backen.Auth.Calls.{Call, run, Allows, run_induction}
use corporate_lawyers_backen.Auth.Rotation.{standing-revoke_where}
use corporate_lawyers_backen.Auth.Endings.{Refused, revoked-forever, none_live}

-- A reset token that has been used up.
abbrev pub Spent : ℕ → Store → Type 0
Spent token s =
    (row : PasswordResetToken) × (find (λ r. r.token == token) s.reset_tokens ≡ some row)
    × (is_some row.used_at ≡ true)

abbrev stays_spent : Preorder Store
stays_spent = record {
  related = λ s t. (token : ℕ) → Spent token s → Spent token t;
  still = λ token h. h;
  onward = λ f g token h. g token (f token h);
}

use_up-found :
    (now token : ℕ) (p : PasswordResetToken → Bool) (rows : List PasswordResetToken)
    (row : PasswordResetToken)
    → find (λ r. r.token == token) rows ≡ some row
    → (is_some row.used_at ≡ true) ⊎ (p row ≡ true)
    → (row' : PasswordResetToken) × (find (λ r. r.token == token) (update_where p (use_up now) rows)
        ≡ some row')
      × (is_some row'.used_at ≡ true)
use_up-found now token p [] row e h = ground arith
use_up-found now token p (r ∷ rows) row e h = elim (Bool-cases (r.token == token)) [
  | inl here ↦ elim (Bool-cases (p r)) [
    | inl hit ↦ (use_up now r, rw (hit, here) refl, refl)
    | inr missed ↦ (r, rw (missed, here) refl, ground arith)
  ]
  | inr there ↦
      let (row', found, gone) = use_up-found now token p rows row (rw there at e) h in
      (row', ground arith, gone)
]

append-found :
    (token : ℕ) (new : PasswordResetToken) (rows : List PasswordResetToken)
    (row : PasswordResetToken)
    → find (λ r. r.token == token) rows ≡ some row
    → find (λ r. r.token == token) (rows ++ new ∷ []) ≡ some row
append-found token new [] row e = ground arith
append-found token new (r ∷ rows) row e = ground (arith, append-found token new rows row)

module _ (crypto : Crypto) (config : AuthConfig) where
  issuing :
      (now id token user_id : ℕ) → Within stays_spent (create_reset_token now id token user_id)
  unfolding create_reset_token
  issuing now id token user_id = record {
    at_state = λ s. elim (Bool-cases (any (λ r. r.token == token) s.reset_tokens)) [
      | inl used ↦ rw (used, ◌>>=◌, ◌>>◌, final) (λ t h. h)
      | inr fresh ↦
          rw (fresh, ◌>>=◌, ◌>>◌, final)
            λ t (row, found, gone). (row, append-found t _ s.reset_tokens row found, gone)
    ];
  }

  creating :
      (now new_id user_id : ℕ) (token : Text) (ip_address user_agent : Option ℕ)
      → Within stays_spent
          (create_session crypto config now new_id user_id token ip_address user_agent)
  unfolding create_session
  creating now new_id user_id token ip_address user_agent = record {
    at_state = λ s.
        elim (Bool-cases
          (any (λ r. r.refresh_token == hash_token crypto config token) s.sessions)) [
            | inl used ↦ rw (used, ◌>>=◌, ◌>>◌, final) (λ t h. h)
            | inr fresh ↦ rw (fresh, ◌>>=◌, ◌>>◌, final) (λ t h. h)
          ];
  }

  allows : Allows crypto config stays_spent
  unfolding write_users
  allows = record {
    writes = record {
      logs = λ user_id action. record { at_state = λ s t h. h };
      users = λ f. record { at_state = λ s t h. h };
      creating = creating;
      using_up = λ now p. record {
        at_state =
            λ s t (row, found, gone). use_up-found now t p s.reset_tokens row found (inl gone);
      };
      issuing = issuing;
    };
    revoking = λ p. record { at_state = λ s t h. h };
  }

  Spent-refused :
      (now salt token password : ℕ) (s : Store)
      → Spent token s
      → reset_password crypto now salt token password s ≡ err HttpError.bad_request s
  unfolding reset_password
  Spent-refused now salt token password s (row, found, gone) = rw (found, gone, ◌>>=◌, ◌>>◌) refl

  -- A reset is refused with 400 and no write when there is no such token, or it is used up or has
  -- expired, and with 404 when its user is gone; or the token's user gets the new password, is
  -- unlocked and has no failed logins; each of the user's sessions ends, and its refresh token is
  -- refused ever after; and the token is refused ever after.
  pub reset_password_lem :
      (now salt token password : ℕ) (s : Store)
      → let ended = reset_password crypto now salt token password s in
        (((find (λ r. r.token == token) s.reset_tokens ≡ none)
            ⊎ (row : PasswordResetToken) × (find (λ r. r.token == token) s.reset_tokens ≡ some row)
              × (is_usable now row ≡ false))
          × (ended ≡ err HttpError.bad_request s))
        ⊎ (row : PasswordResetToken) × (find (λ r. r.token == token) s.reset_tokens ≡ some row)
          × (is_usable now row ≡ true)
          × (((find (has_id row.user_id) s.users ≡ none) × (ended ≡ err HttpError.not_found s))
              ⊎ (u : Account) × (u' : Account) × (s' : Store) × (find (has_id row.user_id) s.users
                  ≡ some u)
                × (find (has_id row.user_id) s'.users ≡ some u')
                × (ended ≡ ok tt s')
                × (crypto.compare password u'.password_hash ≡ true)
                × (u'.failed_login_attempts ≡ 0)
                × (u'.locked_until ≡ none)
                × (get_sessions now row.user_id s' ≡ [])
                × ((t : Text) (session : Session)
                    → find_session crypto config t s ≡ some session
                    → session.user_id ≡ row.user_id
                    → (cs : List Call) → Refused crypto config t (run crypto config cs s'))
                × ((cs : List Call) (now' salt' password' : ℕ)
                    → reset_password crypto now' salt' token password' (run crypto config cs s')
                      ≡ err HttpError.bad_request (run crypto config cs s')))
  unfolding reset_password write_users get_sessions
  reset_password_lem now salt token password s =
      elim (Option-cases (find (λ r. r.token == token) s.reset_tokens)) [
        | inl unknown ↦ inl (inl unknown, rw (unknown, ◌>>=◌, ◌>>◌) refl)
        | inr (row, found) ↦ elim (Bool-cases (is_usable now row)) [
          | inr stale ↦ inl (inr (row, found, stale), rw (found, stale, ◌>>=◌, ◌>>◌) refl)
          | inl usable ↦ inr (
            row,
            found,
            usable,
            elim (Option-cases (find (has_id row.user_id) s.users)) [
              | inl nobody ↦ inl (nobody, rw (found, usable, nobody, ◌>>=◌, ◌>>◌) refl)
              | inr (u, owner) ↦
                  let renew = new_password (crypto.hash_password salt password) in
                  let s' : Store = record {
                    users = update_where (has_id row.user_id) renew s.users;
                    sessions = update_where (λ r. r.user_id == row.user_id) revoke s.sessions;
                    reset_tokens = update_where (λ r. r.id == row.id) (use_up now) s.reset_tokens;
                    audit = s.audit ++ (row.user_id, AuditAction.password_reset_completed) ∷ [];
                  } in
                  let spent : Spent token s' =
                    use_up-found now token (λ r. r.id == row.id) s.reset_tokens row found
                      (inr (==_refl row.id)) in
                  inr (
                    u,
                    renew u,
                    s',
                    owner,
                    find-update renew (has_id row.user_id) (has_id row.user_id) s.users u
                        (λ v. refl) owner (find_holds (has_id row.user_id) s.users u owner),
                    rw (found, usable, owner, ◌>>=◌, ◌>>◌) refl,
                    crypto.compare-hash_password salt password,
                    refl,
                    refl,
                    rw (none_live now row.user_id s.sessions) refl,
                    (λ t session named own cs. revoked-forever crypto config t s' cs (
                        standing-revoke_where (hash_token crypto config t)
                          (λ r. r.user_id == row.user_id) s.sessions session named
                          (rw own (==_refl row.user_id)))),
                    λ cs now' salt' password'.
                        Spent-refused now' salt' token password' (run crypto config cs s')
                          (run_induction stays_spent allows cs s' token spent),
                  )
            ],
          )
        ]
      ]
