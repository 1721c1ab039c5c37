-- ===== src/Auth/Withdrawal.antt =====
-- Which call ends which refresh token (src/modules/auth/auth.service.ts).
use corporate_lawyers_backen.Prelude.{
  ℕ, Bool, true, false, Option, none, some, List, [], ◌∷◌, ◌++◌, ◌≡◌, refl, sym, ◌⊎◌, inl, inr,
  ◌==◌, find, any, update_where, arith, Bool-cases, Option-cases,
}
use corporate_lawyers_backen.World.{Text, ◌>>=◌, ◌>>◌, final}
use corporate_lawyers_backen.World.Request.Within.{Preorder}
use corporate_lawyers_backen.Auth.{
  Account, Session, PasswordResetToken, Store, Crypto, AuthConfig, revoke, write_users,
}
use corporate_lawyers_backen.Auth.Sessions.{
  hash_token, new_session, create_session, find_session, is_live, generate_tokens, refresh_tokens,
  logout, logout_all, revoke_session,
}
use corporate_lawyers_backen.Auth.Passwords.{create_reset_token, is_usable, reset_password}
use corporate_lawyers_backen.Auth.Calls.{
  Call, registers, logs_in, refreshes, logs_out, logs_out_all, revokes, sets_up, enables, disables,
  recovers, forgets, resets, step, run, AllowsWrites, quiet_induction,
}
use corporate_lawyers_backen.Auth.Rotation.{
  Standing, unissued, open_token, revoked, standing, view, run-Moves, Moves-revoked,
}
use corporate_lawyers_backen.Auth.Endings.{any-revoke}

-- The session of the hash is one of those that are meant.
abbrev pub Names : ℕ → (Session → Bool) → Store → Type 0
Names h p s = (r : Session) × (find (λ r. r.refresh_token == h) s.sessions ≡ some r) × (p r ≡ true)

abbrev has_hash : ℕ → Session → Bool
has_hash h r = r.refresh_token == h

standing-kept :
    (h : ℕ) (row : Session) (rows : List Session) (st : Standing)
    → standing h rows ≡ st
    → ¬ (st ≡ unissued)
    → standing h (rows ++ row ∷ []) ≡ st
standing-kept h row [] st e issued = absurd (issued (sym e))
standing-kept h row (r ∷ rows) st e issued = elim (Bool-cases (r.refresh_token == h)) [
  | inl here ↦ ground arith
  | inr there ↦ rw there (standing-kept h row rows st (rw there at e) issued)
]

-- A revocation, as one open hash sees it: the hash is ended, or it is none of those that are meant.
withdrawn :
    (h : ℕ) (p : Session → Bool) (rows : List Session)
    → standing h rows ≡ open_token
    → (r : Session) × (find (has_hash h) rows ≡ some r)
      × (((p r ≡ true) × (standing h (update_where p revoke rows) ≡ revoked))
          ⊎ ((p r ≡ false) × (standing h (update_where p revoke rows) ≡ open_token)))
withdrawn h p [] e = ground arith
withdrawn h p (r ∷ rows) e = elim (Bool-cases (r.refresh_token == h)) [
  | inl here ↦ (
    r,
    rw here refl,
    elim (Bool-cases (p r)) [
      | inl meant ↦ inl (meant, ground arith)
      | inr other ↦ inr (other, ground arith)
    ],
  )
  | inr there ↦
      let (row, found, ends) = withdrawn h p rows (rw there at e) in
      (
        row,
        rw there found,
        elim ends [
          | inl (meant, gone) ↦ inl (meant, ground arith)
          | inr (other, kept) ↦ inr (other, ground arith)
        ],
      )
]

-- What a hash that was open is now, and whether it was to be ended.
abbrev Decided : Standing → Type 0 → Type 0
Decided now_is E = (E × (now_is ≡ revoked)) ⊎ ((E → ⊥) × (now_is ≡ open_token))

withdrawn-Decided :
    (h : ℕ) (p : Session → Bool) (s : Store)
    → view s h ≡ open_token
    → Decided (standing h (update_where p revoke s.sessions)) (Names h p s)
withdrawn-Decided h p s e =
    let (r, found, ends) = withdrawn h p s.sessions e in
    elim ends [
      | inl (meant, gone) ↦ inl ((r, found, meant), gone)
      | inr (other, kept) ↦
          inr ((λ (r', found', meant). unmeant r r' found found' other meant), kept)
    ]
  where
    unmeant :
        (r r' : Session)
        → find (has_hash h) s.sessions ≡ some r
        → find (has_hash h) s.sessions ≡ some r'
        → p r ≡ false
        → p r' ≡ true
        → ⊥
    unmeant r r' found found' other meant = cc

none-some {ℓ} : {A : Type ℓ} {o : Option A} {a : A} → o ≡ none → o ≡ some a → ⊥
none-some e f = cc

some_same {ℓ} : {A : Type ℓ} {o : Option A} {a b : A} → o ≡ some a → o ≡ some b → b ≡ a
some_same e f = cc

not_both {ℓ} :
    {A : Type ℓ} {o : Option A} {a b : A} (p : A → Bool)
    → o ≡ some a
    → o ≡ some b
    → p a ≡ false
    → p b ≡ true
    → ⊥
not_both p e f fails holds = cc

module _ (crypto : Crypto) (config : AuthConfig) where
  -- What a call ends: the exchanged session, the one of the token, all of a user, or one of a user.
  abbrev pub Ends : Call → Store → ℕ → Type 0
  Ends (refreshes now session_id token) s h =
      (row : Session) × (user : Account) × (find_session crypto config token s ≡ some row)
      × (find (λ u. u.id == row.user_id) s.users ≡ some user)
      × (is_live now row ≡ true)
      × Names h (λ r. r.id == row.id) s
  Ends (logs_out token user_id) s h = Names h (has_hash (hash_token crypto config token)) s
  Ends (logs_out_all user_id) s h = Names h (λ r. r.user_id == user_id) s
  Ends (revokes session_id user_id) s h =
      (row : Session) × (find (λ r. r.id == session_id) s.sessions ≡ some row)
      × ((row.user_id == user_id) ≡ true)
      × Names h (λ r. r.id == session_id) s
  Ends (resets now salt token password) s h =
      (row : PasswordResetToken) × (user : Account) × (find (λ r. r.token == token) s.reset_tokens
        ≡ some row)
      × (is_usable now row ≡ true)
      × (find (λ u. u.id == row.user_id) s.users ≡ some user)
      × Names h (λ r. r.user_id == row.user_id) s
  Ends (registers now user_id session_id salt dto) s h = ⊥
  Ends (logs_in now session_id dto ip_address user_agent) s h = ⊥
  Ends (sets_up totp codes user_id) s h = ⊥
  Ends (enables now user_id code) s h = ⊥
  Ends (disables now user_id code) s h = ⊥
  Ends (recovers now session_id email code) s h = ⊥
  Ends (forgets now id token email) s h = ⊥

  abbrev keeps_open : Preorder Store
  keeps_open = record {
    related = λ s t. (h : ℕ) → view s h ≡ open_token → view t h ≡ open_token;
    still = λ h e. e;
    onward = λ f g h e. g h (f h e);
  }

  quiet : AllowsWrites crypto config keeps_open
  unfolding write_users create_session create_reset_token
  quiet = record {
    logs = λ user_id action. record { at_state = λ s h e. e };
    users = λ f. record { at_state = λ s h e. e };
    creating = λ now new_id user_id token ip_address user_agent. record {
      at_state = λ s h e.
          elim (Bool-cases
            (any (λ r. r.refresh_token == hash_token crypto config token) s.sessions)) [
              | inl used ↦ rw (used, ◌>>=◌, ◌>>◌, final) e
              | inr fresh ↦
                  rw (fresh, ◌>>=◌, ◌>>◌, final)
                    (standing-kept h
                      (new_session crypto config now new_id user_id token ip_address user_agent)
                      s.sessions open_token e (λ e. absurd (apart e)))
            ];
    };
    using_up = λ now p. record { at_state = λ s h e. e };
    issuing = λ now id token user_id. record {
      at_state = λ s h e. elim (Bool-cases (any (λ r. r.token == token) s.reset_tokens)) [
        | inl used ↦ rw (used, ◌>>=◌, ◌>>◌, final) e
        | inr fresh ↦ rw (fresh, ◌>>=◌, ◌>>◌, final) e
      ];
    };
  }
    where
      apart : open_token ≡ unissued → ⊥
      apart e = ground arith

  revoke_session-Decided :
      (session_id user_id : ℕ) (s : Store) (h : ℕ)
      → view s h ≡ open_token
      → Decided
          (view (final (revoke_session session_id user_id s)) h)
          (Ends (revokes session_id user_id) s h)
  unfolding revoke_session
  revoke_session-Decided session_id user_id s h e =
      elim (Option-cases (find (λ r. r.id == session_id) s.sessions)) [
        | inl unknown ↦ inr (
          (λ (row, found, own, names). absurd (none-some unknown found)),
          rw (unknown, ◌>>=◌, ◌>>◌, final) e,
        )
        | inr (row, found) ↦ elim (Bool-cases (row.user_id == user_id)) [
          | inr other ↦ inr (
            (λ (row', found', own, names).
                absurd (not_both (λ row. row.user_id == user_id) found found' other own)),
            rw (found, other, ◌>>=◌, ◌>>◌, final) e,
          )
          | inl own ↦ elim (withdrawn-Decided h (λ r. r.id == session_id) s e) [
            | inl (names, gone) ↦
                inl ((row, found, own, names), rw (found, own, ◌>>=◌, ◌>>◌, final) gone)
            | inr (nameless, kept) ↦ inr (
              (λ (row', found', own', names). nameless names),
              rw (found, own, ◌>>=◌, ◌>>◌, final) kept,
            )
          ]
        ]
      ]

  reset_password-Decided :
      (now salt token password : ℕ) (s : Store) (h : ℕ)
      → view s h ≡ open_token
      → Decided
          (view (final (reset_password crypto now salt token password s)) h)
          (Ends (resets now salt token password) s h)
  unfolding reset_password write_users
  reset_password-Decided now salt token password s h e =
      elim (Option-cases (find (λ r. r.token == token) s.reset_tokens)) [
        | inl unknown ↦ inr (
          (λ (row, user, found, second, third, names). absurd (none-some unknown found)),
          rw (unknown, ◌>>=◌, ◌>>◌, final) e,
        )
        | inr (row, found) ↦ elim (Bool-cases (is_usable now row)) [
          | inr dead ↦ inr (
            (λ (row', user, found', usable, owner, names).
                absurd (not_both (is_usable now) found found' dead usable)),
            rw (found, dead, ◌>>=◌, ◌>>◌, final) e,
          )
          | inl usable ↦ elim (Option-cases (find (λ u. u.id == row.user_id) s.users)) [
            | inl nobody ↦ inr (
              (λ (row', user, found', usable', owner, names).
                  absurd (none-some {a = user} nobody (rw (← some_same found found') owner))),
              rw (found, usable, nobody, ◌>>=◌, ◌>>◌, final) e,
            )
            | inr (user, owner) ↦ elim (withdrawn-Decided h (λ r. r.user_id == row.user_id) s e) [
              | inl (names, gone) ↦ inl (
                (row, user, found, usable, owner, names),
                rw (found, usable, owner, ◌>>=◌, ◌>>◌, final) gone,
              )
              | inr (nameless, kept) ↦ inr (
                (λ (row', user', found', usable', owner', names).
                    nameless (rw (← some_same found found') names)),
                rw (found, usable, owner, ◌>>=◌, ◌>>◌, final) kept,
              )
            ]
          ]
        ]
      ]

  -- Once the session is revoked, the new one leaves the standing of an issued hash as it is.
  exchanged :
      (now session_id : ℕ) (token : Text) (s : Store) (h : ℕ) (row : Session) (user : Account)
      (st : Standing)
      → find_session crypto config token s ≡ some row
      → find (λ u. u.id == row.user_id) s.users ≡ some user
      → is_live now row ≡ true
      → standing h (update_where (λ r. r.id == row.id) revoke s.sessions) ≡ st
      → ¬ (st ≡ unissued)
      → view (final (refresh_tokens crypto config now session_id token s)) h ≡ st
  unfolding refresh_tokens create_session
  exchanged now session_id token s h row user st found owner live e issued =
      let tokens = generate_tokens crypto config now user.id user.email user.role in
      let new = new_session crypto config now session_id user.id tokens.refresh_token none none in
      let unchanged = any-revoke new.refresh_token (λ r. r.id == row.id) s.sessions in
      elim (Bool-cases (any (λ r. r.refresh_token == new.refresh_token) s.sessions)) [
        | inl used ↦ rw (found, owner, live, unchanged, used, ◌>>=◌, ◌>>◌, final) e
        | inr fresh ↦
            rw (found, owner, live, unchanged, fresh, ◌>>=◌, ◌>>◌, final)
              (standing-kept h new (update_where (λ r. r.id == row.id) revoke s.sessions) st e
                issued)
      ]

  refresh-Decided :
      (now session_id : ℕ) (token : Text) (s : Store) (h : ℕ)
      → view s h ≡ open_token
      → Decided
          (view (final (refresh_tokens crypto config now session_id token s)) h)
          (Ends (refreshes now session_id token) s h)
  unfolding refresh_tokens
  refresh-Decided now session_id token s h e =
      elim (Option-cases (find_session crypto config token s)) [
        | inl unknown ↦ inr (
          (λ (row, user, found, second, third, names). absurd (none-some unknown found)),
          rw (unknown, ◌>>=◌, ◌>>◌, final) e,
        )
        | inr (row, found) ↦ elim (Option-cases (find (λ u. u.id == row.user_id) s.users)) [
          | inl nobody ↦ inr (
            (λ (row', user, found', owner, live, names).
                absurd (none-some {a = user} nobody (rw (← some_same found found') owner))),
            rw (found, nobody, ◌>>=◌, ◌>>◌, final) e,
          )
          | inr (user, owner) ↦ elim (Bool-cases (is_live now row)) [
            | inr dead ↦ inr (
              (λ (row', user', found', owner', live, names).
                  absurd (not_both (is_live now) found found' dead live)),
              rw (found, owner, dead, ◌>>=◌, ◌>>◌, final) e,
            )
            | inl live ↦ elim (withdrawn-Decided h (λ r. r.id == row.id) s e) [
              | inl (names, gone) ↦ inl (
                (row, user, found, owner, live, names),
                exchanged now session_id token s h row user revoked found owner live gone
                    (λ e. ground arith),
              )
              | inr (nameless, kept) ↦ inr (
                (λ (row', user', found', owner', live', names).
                    nameless (rw (← some_same found found') names)),
                exchanged now session_id token s h row user open_token found owner live kept
                    (λ e. ground arith),
              )
            ]
          ]
        ]
      ]

  step-Decided :
      (c : Call) (s : Store) (h : ℕ)
      → view s h ≡ open_token
      → Decided (view (step crypto config c s) h) (Ends c s h)
  unfolding step logout logout_all
  step-Decided (logs_out token none) s h e = withdrawn-Decided h _ s e
  step-Decided (logs_out token (some user_id)) s h e = withdrawn-Decided h _ s e
  step-Decided (logs_out_all user_id) s h e = withdrawn-Decided h _ s e
  step-Decided (refreshes now session_id token) s h e = refresh-Decided now session_id token s h e
  step-Decided (revokes session_id user_id) s h e = revoke_session-Decided session_id user_id s h e
  step-Decided (resets now salt token password) s h e =
      reset_password-Decided now salt token password s h e
  step-Decided (registers now user_id session_id salt dto) s h e = inr (
    (λ x. x),
    quiet_induction keeps_open quiet (registers now user_id session_id salt dto) s refl h e,
  )
  step-Decided (logs_in now session_id dto ip_address user_agent) s h e = inr (
    (λ x. x),
    quiet_induction keeps_open quiet (logs_in now session_id dto ip_address user_agent) s refl h e,
  )
  step-Decided (sets_up totp codes user_id) s h e =
      inr ((λ x. x), quiet_induction keeps_open quiet (sets_up totp codes user_id) s refl h e)
  step-Decided (enables now user_id code) s h e =
      inr ((λ x. x), quiet_induction keeps_open quiet (enables now user_id code) s refl h e)
  step-Decided (disables now user_id code) s h e =
      inr ((λ x. x), quiet_induction keeps_open quiet (disables now user_id code) s refl h e)
  step-Decided (recovers now session_id email code) s h e =
      inr
        ((λ x. x), quiet_induction keeps_open quiet (recovers now session_id email code) s refl h e)
  step-Decided (forgets now id token email) s h e =
      inr ((λ x. x), quiet_induction keeps_open quiet (forgets now id token email) s refl h e)

  -- What each of the calls does to a refresh token whose hash is open. Either the call is to end it,
  -- and then it is revoked, at once and after any further calls; or it is not, and the token stays
  -- open. A refresh that is not refused with 401 ends the session of its token, a logout the one with
  -- the hash of its token, a logout everywhere all of the user, a revocation the session that is named,
  -- if it is the user's own, a reset with a usable token all of the token's user; any other call ends
  -- none. This is so whatever the call's outcome and whether or not it issues another token.
  pub step-Ends :
      (c : Call) (s : Store) (h : ℕ)
      → view s h ≡ open_token
      → let s' = step crypto config c s in
        (Ends c s h
          × (view s' h ≡ revoked)
          × ((cs : List Call) → view (run crypto config cs s') h ≡ revoked))
        ⊎ ((Ends c s h → ⊥) × (view s' h ≡ open_token))
  step-Ends c s h e = elim (step-Decided c s h e) [
    | inl (ends, gone) ↦ inl (
      ends,
      gone,
      λ cs. Moves-revoked h (run-Moves crypto config cs (step crypto config c s)) gone,
    )
    | inr (goes_on, kept) ↦ inr (goes_on, kept)
  ]
