-- ===== src/Users/Removal.antt =====
-- What is left of a user whom `remove` of user.service.ts deletes, in auth.service.ts, and of one whose
-- password `adminResetPassword` resets.
use corporate_lawyers_backen.Prelude.{
  ℕ, true, false, none, some, List, [], ◌∷◌, ◌++◌, ◌≡◌, ◌⊎◌, inl, inr, refl, ◌==◌, find,
  find-update, find_holds, ==_refl, ==_eq, Bool-cases, Keyed, update_where, arith,
}
use corporate_lawyers_backen.World.{Text, HttpError, ok, err, ◌>>=◌, ◌>>◌}
use corporate_lawyers_backen.Cache.{lookup, without}
use corporate_lawyers_backen.Auth
use corporate_lawyers_backen.Auth.{revoke, Account, Session, Crypto, AuthConfig, write_users}
use corporate_lawyers_backen.Auth.Sessions.{
  Tokens, find_session, is_live, get_sessions, refresh_tokens, generate_tokens, create_session,
  new_session, hash_token,
}
use corporate_lawyers_backen.Auth.Passwords.{new_password}
use corporate_lawyers_backen.Auth.Calls.{Call, run}
use corporate_lawyers_backen.Auth.Accounts.{IsKeyed, has_id, find_by_id}
use corporate_lawyers_backen.Auth.Entry.{in_use, new_hash}
use corporate_lawyers_backen.Auth.Rotation.{standing-revoke_where}
use corporate_lawyers_backen.Auth.Endings.{Refused, any-revoke, revoked-forever, none_live}
use corporate_lawyers_backen.Users.{
  UserAction, Store, profile_of, is_live_at, find_one, delete_at, remove, admin_reset_password,
}

none_left :
    (now id : ℕ) (users : List Account)
    → find (is_live_at id) (update_where (has_id id) (delete_at now) users) ≡ none
none_left now id [] = refl
none_left now id (u ∷ users) = ground (arith, none_left now id users)

missing_entry :
    {A : Type 0} (id : ℕ) (entries : List (ℕ × A)) → lookup id (without id entries) ≡ none
missing_entry id [] = refl
missing_entry id ((k, v) ∷ entries) = elim (Bool-cases (k == id)) [
  | inl same ↦ rw same (missing_entry id entries)
  | inr other ↦ rw (other, other) (missing_entry id entries)
]

row_of :
    (id : ℕ) (users : List Account) (u : Account)
    → Keyed (λ (v : Account). v.id) users
    → find (is_live_at id) users ≡ some u
    → (find (has_id id) users ≡ some u) × (u.id ≡ id)
row_of id users u keyed found =
    let same : u.id ≡ id =
      ground (arith, ==_eq u.id id, find_holds (is_live_at id) users u found) in
    (rw (← same) (find_by_id (is_live_at id) users u keyed found), same)

-- The table of users after a removal.
abbrev pub without_user : (now id : ℕ) → Store → List Account
without_user now id s = update_where (has_id id) (delete_at now) s.auth.users

module _ (crypto : Crypto) (config : AuthConfig) where
  -- A deleted user stays logged in. On a table with unique ids, when another user deletes a user who is
  -- there and is not cached, the user is not found any more; but a refresh token of the user that is
  -- live is still exchanged for new tokens, in any second in which the new token's hash is not in use.
  pub remove-keeps_tokens :
      (now later new_id id performed_by : ℕ) (token : Text) (s : Store) (u : Account)
      (row : Session)
      → IsKeyed s.auth
      → find (is_live_at id) s.auth.users ≡ some u
      → lookup id s.cache ≡ none
      → (id == performed_by) ≡ false
      → find_session crypto config token s.auth ≡ some row
      → row.user_id ≡ id
      → is_live later row ≡ true
      → in_use crypto config later u s.auth ≡ false
      → (s' : Store) × (remove now id performed_by s ≡ ok tt s')
        × (find_one id s' ≡ err HttpError.not_found s')
        × (tokens : Tokens) × (t : Auth.Store) × (refresh_tokens crypto config later new_id token
              s'.auth
            ≡ ok tokens t)
  unfolding remove find_one write_users refresh_tokens create_session
  remove-keeps_tokens now later new_id id performed_by token s u row keyed found uncached other
        named own live fresh =
      let (there, same) = row_of id s.auth.users u keyed found in
      let left = without_user now id s in
      let kept = update_where (λ r. r.id == row.id) revoke s.auth.sessions in
      let tokens = generate_tokens crypto config later u.id u.email u.role in
      let new = new_session crypto config later new_id u.id tokens.refresh_token none none in
      let entries = (id, profile_of u s) ∷ without id s.cache in
      let owner : find (has_id row.user_id) left ≡ some (delete_at now u) = rw own (
        find-update (delete_at now) (has_id id) (has_id id) s.auth.users u (λ v. refl) there
          (rw same (==_refl id))) in
      let s' : Store = record s {
        auth = record s.auth { users = left };
        cache = without id entries;
        audit = s.audit ++ (performed_by, UserAction.deleted, id) ∷ [];
      } in
      (
        s',
        rw (uncached, found, other, there, ◌>>=◌, ◌>>◌) refl,
        rw (missing_entry id entries, none_left now id s.auth.users, ◌>>=◌, ◌>>◌) refl,
        tokens,
        record s.auth { users = left; sessions = kept ++ new ∷ [] },
        rw
            (
              named,
              owner,
              live,
              any-revoke (new_hash crypto config later u) (λ r. r.id == row.id) s.auth.sessions,
              fresh,
              ◌>>=◌,
              ◌>>◌,
            )
            refl,
      )

  -- A reset by an administrator is another matter. It gives a user who is there and is not cached the
  -- temporary password, lifts the lock, and ends each session: the list is empty, and each refresh
  -- token that named a session of the user is refused, after any further calls.
  pub admin_reset_password_lem :
      (now salt temporary id performed_by : ℕ) (s : Store) (u : Account)
      → IsKeyed s.auth
      → find (is_live_at id) s.auth.users ≡ some u
      → lookup id s.cache ≡ none
      → (((id == performed_by) ≡ true)
          × (s' : Store) × (admin_reset_password crypto salt temporary id performed_by s
              ≡ err HttpError.forbidden s')
          × (s'.auth ≡ s.auth))
        ⊎ ((id == performed_by) ≡ false)
          × (s' : Store) × (u' : Account) × (admin_reset_password crypto salt temporary id
                performed_by s
              ≡ ok temporary s')
          × (find (is_live_at id) s'.auth.users ≡ some u')
          × (crypto.compare temporary u'.password_hash ≡ true)
          × (u'.locked_until ≡ none)
          × (get_sessions now id s'.auth ≡ [])
          × ((token : Text) (row : Session)
              → find_session crypto config token s.auth ≡ some row
              → row.user_id ≡ id
              → (cs : List Call) → Refused crypto config token (run crypto config cs s'.auth))
  unfolding admin_reset_password find_one write_users get_sessions
  admin_reset_password_lem now salt temporary id performed_by s u keyed found uncached =
      let (there, same) = row_of id s.auth.users u keyed found in
      let entries = (id, profile_of u s) ∷ without id s.cache in
      elim (Bool-cases (id == performed_by)) [
        | inl self ↦
            inl (
              self,
              record s { cache = entries },
              rw (uncached, found, self, ◌>>=◌, ◌>>◌) refl,
              refl,
            )
        | inr other ↦
            let renew = new_password (crypto.hash_password salt temporary) in
            let s' : Store = record s {
              auth = record s.auth {
                users = update_where (has_id id) renew s.auth.users;
                sessions = update_where (λ r. r.user_id == id) revoke s.auth.sessions;
              };
              cache = without id entries;
              audit = s.audit ++ (performed_by, UserAction.password_reset, id) ∷ [];
            } in
            inr (
              other,
              s',
              renew u,
              rw (uncached, found, other, there, ◌>>=◌, ◌>>◌) refl,
              find-update renew (is_live_at id) (has_id id) s.auth.users u (λ v. refl) found
                  (rw same (==_refl id)),
              crypto.compare-hash_password salt temporary,
              refl,
              rw (none_live now id s.auth.sessions) refl,
              λ token row named own cs. revoked-forever crypto config token s'.auth cs (
                  standing-revoke_where (hash_token crypto config token) (λ r. r.user_id == id)
                    s.auth.sessions row named (rw own (==_refl id))),
            )
      ]
