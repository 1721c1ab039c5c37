-- ===== src/Auth/Endings.antt =====
-- How the sessions of src/modules/auth/auth.service.ts end: what is revoked by refreshTokens and
-- logoutAll is refused ever after.
use corporate_lawyers_backen.Prelude.{
  ℕ, Bool, true, none, some, List, [], ◌∷◌, ◌++◌, ◌≡◌, refl, ◌∙◌, ◌⊎◌, inl, inr, not, ◌&&◌, ◌==◌,
  find, select, any, update_where, arith, Bool-cases, Option-cases, ==_refl, ltb,
}
use corporate_lawyers_backen.World.{HttpError, Text, ok, err, ◌>>=◌, ◌>>◌}
use corporate_lawyers_backen.Auth.{Account, Session, Store, Crypto, AuthConfig, revoke}
use corporate_lawyers_backen.Auth.Sessions.{
  hash_token, new_session, create_session, refresh_tokens, find_session, is_live, generate_tokens,
  logout_all, get_sessions,
}
use corporate_lawyers_backen.Auth.Calls.{Call, run}
use corporate_lawyers_backen.Auth.Rotation.{
  unissued, open_token, revoked, standing, view, standing-revoke_where, standing-new, run-Moves,
  Moves-revoked,
}

standing-find :
    (h : ℕ) (rows : List Session)
    → standing h rows ≡ revoked
    → (row : Session) × (find (λ r. r.refresh_token == h) rows ≡ some row) × (row.is_revoked ≡ true)
standing-find h [] e = ground arith
standing-find h (r ∷ rows) e = elim (Bool-cases (r.refresh_token == h)) [
  | inl here ↦ (r, rw here refl, ground arith)
  | inr there ↦
      let (row, found, gone) = standing-find h rows (ground arith) in (row, rw there found, gone)
]

standing-append :
    (h : ℕ) (rows : List Session) (row : Session)
    → standing h rows ≡ revoked
    → standing h (rows ++ row ∷ []) ≡ revoked
standing-append h [] row e = ground arith
standing-append h (r ∷ rows) row e = ground (arith, standing-append h rows row)

pub any-revoke :
    (h : ℕ) (p : Session → Bool) (rows : List Session)
    → any (λ r. r.refresh_token == h) (update_where p revoke rows)
      ≡ any (λ r. r.refresh_token == h) rows
any-revoke h p [] = refl
any-revoke h p (r ∷ rows) = ground (arith, any-revoke h p rows)

module _ (crypto : Crypto) (config : AuthConfig) where
  -- Whoever holds a revoked token is refused, and nothing is written.
  revoked_token-refused :
      (now new_id : ℕ) (token : Text) (s : Store)
      → view s (hash_token crypto config token) ≡ revoked
      → refresh_tokens crypto config now new_id token s ≡ err HttpError.unauthorized s
  unfolding refresh_tokens
  revoked_token-refused now new_id token s e =
      let (row, found, gone) = standing-find (hash_token crypto config token) s.sessions e in
      elim (Option-cases (find (λ u. u.id == row.user_id) s.users)) [
        | inl nobody ↦ rw (found, nobody, ◌>>=◌, ◌>>◌) refl
        | inr (user, owner) ↦ rw (found, owner, gone, ◌>>=◌, ◌>>◌) refl
      ]

  abbrev pub Refused : Text → Store → Type 0
  Refused token s =
      (now new_id : ℕ)
      → refresh_tokens crypto config now new_id token s ≡ err HttpError.unauthorized s

  pub revoked-forever :
      (token : Text) (s : Store) (cs : List Call)
      → view s (hash_token crypto config token) ≡ revoked
      → Refused token (run crypto config cs s)
  revoked-forever token s cs e now new_id =
      revoked_token-refused now new_id token (run crypto config cs s)
        (Moves-revoked (hash_token crypto config token) (run-Moves crypto config cs s) e)

  -- A refresh token works once. A request with it is refused with 401 and no write, or it uses the
  -- token up: after any further calls the token is refused. A token that is used up was not revoked
  -- and had not expired, and the request then ends in one of two ways: with new tokens, whose hash
  -- was not in use and is open now, or with 409 because the hash of the new token was in use.
  pub refresh_once :
      (now new_id : ℕ) (token : Text) (s : Store)
      → (refresh_tokens crypto config now new_id token s ≡ err HttpError.unauthorized s)
        ⊎ (row : Session) × (user : Account) × (s' : Store) × (find_session crypto config token s
            ≡ some row)
          × (is_live now row ≡ true)
          × (find (λ u. u.id == row.user_id) s.users ≡ some user)
          × ((cs : List Call) → Refused token (run crypto config cs s'))
          × let tokens = generate_tokens crypto config now user.id user.email user.role in
            let h = hash_token crypto config tokens.refresh_token in
            (((view s h ≡ unissued)
                × (view s' h ≡ open_token)
                × (refresh_tokens crypto config now new_id token s ≡ ok tokens s'))
              ⊎ ((any (λ r. r.refresh_token == h) s.sessions ≡ true)
                  × (refresh_tokens crypto config now new_id token s ≡ err HttpError.conflict s')))
  unfolding refresh_tokens create_session
  refresh_once now new_id token s = elim (Option-cases (find_session crypto config token s)) [
    | inl unknown ↦ inl (rw (unknown, ◌>>=◌, ◌>>◌) refl)
    | inr (row, found) ↦ elim (Option-cases (find (λ u. u.id == row.user_id) s.users)) [
      | inl nobody ↦ inl (rw (found, nobody, ◌>>=◌, ◌>>◌) refl)
      | inr (user, owner) ↦ elim (Bool-cases (is_live now row)) [
        | inr dead ↦ inl (rw (found, owner, dead, ◌>>=◌, ◌>>◌) refl)
        | inl live ↦
            let tokens = generate_tokens crypto config now user.id user.email user.role in
            let h = hash_token crypto config tokens.refresh_token in
            let kept = update_where (λ r. r.id == row.id) revoke s.sessions in
            let dead =
              standing-revoke_where (hash_token crypto config token) (λ r. r.id == row.id)
                s.sessions row found (==_refl row.id) in
            elim (Bool-cases (any (λ r. r.refresh_token == h) s.sessions)) [
              | inl used ↦ inr (
                row,
                user,
                record s { sessions = kept },
                found,
                live,
                owner,
                (λ cs. revoked-forever token (record s { sessions = kept }) cs dead),
                inr (
                  used,
                  rw
                      (
                        found,
                        owner,
                        live,
                        any-revoke h (λ r. r.id == row.id) s.sessions,
                        used,
                        ◌>>=◌,
                        ◌>>◌,
                      )
                      refl,
                ),
              )
              | inr fresh ↦
                  let new =
                    new_session crypto config now new_id user.id tokens.refresh_token none none in
                  let s' = record s { sessions = kept ++ new ∷ [] } in
                  inr (
                    row,
                    user,
                    s',
                    found,
                    live,
                    owner,
                    (λ cs.
                        revoked-forever token s' cs
                          (standing-append (hash_token crypto config token) kept new dead)),
                    inl (
                      (standing-new new s.sessions fresh refl).0,
                      (standing-new new kept (any-revoke h (λ r. r.id == row.id) s.sessions ∙ fresh)
                          refl).1,
                      rw
                          (
                            found,
                            owner,
                            live,
                            any-revoke h (λ r. r.id == row.id) s.sessions,
                            fresh,
                            ◌>>=◌,
                            ◌>>◌,
                          )
                          refl,
                    ),
                  )
            ]
      ]
    ]
  ]

pub none_live :
    (now user_id : ℕ) (rows : List Session)
    → select
        (λ r. r.user_id == user_id && (not r.is_revoked && ltb now r.expires_at))
        (update_where (λ r. r.user_id == user_id) revoke rows)
      ≡ []
none_live now user_id [] = refl
none_live now user_id (r ∷ rows) = ground (arith, none_live now user_id rows)

module _ (crypto : Crypto) (config : AuthConfig) where
  -- After a logout everywhere the list of the user's sessions is empty, and each refresh token that
  -- named a session of the user is refused, at once and after any further calls.
  logout_all_lem :
      (user_id : ℕ) (s : Store)
      → (s' : Store) × (logout_all user_id s ≡ ok tt s')
        × ((now : ℕ) → get_sessions now user_id s' ≡ [])
        × ((token : Text) (row : Session)
            → find_session crypto config token s ≡ some row
            → row.user_id ≡ user_id
            → (cs : List Call) → Refused crypto config token (run crypto config cs s'))
  unfolding logout_all get_sessions
  logout_all_lem user_id s = (
    _,
    refl,
    (λ now. rw (none_live now user_id s.sessions) refl),
    λ token row found own cs. revoked-forever crypto config token _ cs (
        standing-revoke_where (hash_token crypto config token) (λ r. r.user_id == user_id)
          s.sessions row found (rw own (==_refl user_id))),
  )
