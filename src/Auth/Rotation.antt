-- ===== src/Auth/Rotation.antt =====
-- The refresh tokens of src/modules/auth/auth.service.ts as an abstract machine: a token is unissued,
-- then open, then revoked, and the calls are moves of that machine.
use corporate_lawyers_backen.Prelude.{
  ℕ, Bool, true, false, Option, some, List, [], ◌∷◌, ◌++◌, ◌≡◌, refl, ◌∙◌, ◌⊎◌, inl, inr, ◌==◌,
  if◌then◌else◌, find, any, update_where, arith, Bool-cases, ==_refl, ==_eq,
}
use corporate_lawyers_backen.World.{Text, ◌>>=◌, ◌>>◌, final}
use corporate_lawyers_backen.World.Request.Within.{Preorder, Within}
use corporate_lawyers_backen.Auth.{
  Session, Store, Crypto, AuthConfig, revoke, revoke_where, write_users,
}
use corporate_lawyers_backen.Auth.Sessions.{hash_token, new_session, create_session}
use corporate_lawyers_backen.Auth.Passwords.{create_reset_token}
use corporate_lawyers_backen.Auth.Calls.{Call, step, run, Allows, step_induction, run_induction}

-- What a hash of a refresh token can be.
pub data Standing : Type 0 where
  unissued open_token revoked : Standing

abbrev pub row_standing : Session → Standing
row_standing row = if row.is_revoked then revoked else open_token

abbrev pub standing : ℕ → List Session → Standing
standing h [] = unissued
standing h (r ∷ rows) = if r.refresh_token == h then row_standing r else standing h rows

-- The abstract state: the standing of every hash.
abbrev pub View : Type 0
View = ℕ → Standing

abbrev pub view : Store → View
view s h = standing h s.sessions

-- One move issues one token that was unissued, or revokes some of the open ones.
pub data Move (v w : View) : Type 0 where
  issue :
      (h : ℕ)
      → v h ≡ unissued
      → w h ≡ open_token
      → ((k : ℕ) → (h == k) ≡ false → w k ≡ v k)
      → Move v w
  withdraw : ((h : ℕ) → (w h ≡ v h) ⊎ ((v h ≡ open_token) × (w h ≡ revoked))) → Move v w

pub data Moves : View → View → Type 0 where
  done : {v : View} → Moves v v
  onto : {u v w : View} → Move u v → Moves v w → Moves u w

Moves-trans : {u v w : View} → Moves u v → Moves v w → Moves u w
Moves-trans done ms = ms
Moves-trans (onto m ms) ns = onto m (Moves-trans ms ns)

abbrev by_moves : Preorder Store
by_moves = record { related = λ s t. Moves (view s) (view t); still = done; onward = Moves-trans }

standing-revoke :
    (h : ℕ) (p : Session → Bool) (rows : List Session)
    → (standing h (update_where p revoke rows) ≡ standing h rows)
      ⊎ ((standing h rows ≡ open_token) × (standing h (update_where p revoke rows) ≡ revoked))
standing-revoke h p [] = inl refl
standing-revoke h p (r ∷ rows) = ground (arith, standing-revoke h p rows)

pub standing-new :
    (row : Session) (rows : List Session)
    → any (λ r. r.refresh_token == row.refresh_token) rows ≡ false
    → row.is_revoked ≡ false
    → (standing row.refresh_token rows ≡ unissued)
      × (standing row.refresh_token (rows ++ row ∷ []) ≡ open_token)
standing-new row [] h e = ground (arith, ==_refl row.refresh_token)
standing-new row (r ∷ rows) h e = ground (arith, standing-new row rows)

pub standing-other :
    (k : ℕ) (row : Session) (rows : List Session)
    → (row.refresh_token == k) ≡ false
    → standing k (rows ++ row ∷ []) ≡ standing k rows
standing-other k row [] h = ground arith
standing-other k row (r ∷ rows) h = ground (arith, standing-other k row rows)

pub standing-revoke_where :
    (h : ℕ) (p : Session → Bool) (rows : List Session) (row : Session)
    → find (λ r. r.refresh_token == h) rows ≡ some row
    → p row ≡ true
    → standing h (update_where p revoke rows) ≡ revoked
standing-revoke_where h p [] row found e = ground arith
standing-revoke_where h p (r ∷ rows) row found e =
    ground (arith, standing-revoke_where h p rows row)

module _ (crypto : Crypto) (config : AuthConfig) where
  creating :
      (now new_id user_id : ℕ) (token : Text) (ip_address user_agent : Option ℕ)
      → Within by_moves
          (create_session crypto config now new_id user_id token ip_address user_agent)
  unfolding create_session
  creating now new_id user_id token ip_address user_agent = record {
    at_state = λ s.
        let row = new_session crypto config now new_id user_id token ip_address user_agent in
        elim (Bool-cases
          (any (λ r. r.refresh_token == hash_token crypto config token) s.sessions)) [
            | inl used ↦ rw (used, ◌>>=◌, ◌>>◌, final) done
            | inr fresh ↦
                let (before, after) = standing-new row s.sessions fresh refl in
                rw (fresh, ◌>>=◌, ◌>>◌, final)
                  (onto (issue row.refresh_token before after λ k. standing-other k row s.sessions)
                    done)
          ];
  }

  revoking : (p : Session → Bool) → Within by_moves (revoke_where p)
  revoking p = record { at_state = λ s. onto (withdraw λ h. standing-revoke h p s.sessions) done }

  issuing : (now id token user_id : ℕ) → Within by_moves (create_reset_token now id token user_id)
  unfolding create_reset_token
  issuing now id token user_id = record {
    at_state = λ s. elim (Bool-cases (any (λ r. r.token == token) s.reset_tokens)) [
      | inl used ↦ rw (used, ◌>>=◌, ◌>>◌, final) done
      | inr fresh ↦ rw (fresh, ◌>>=◌, ◌>>◌, final) done
    ];
  }

  allows : Allows crypto config by_moves
  unfolding write_users
  allows = record {
    writes = record {
      logs = λ user_id action. record { at_state = λ s. done };
      users = λ f. record { at_state = λ s. done };
      creating = creating;
      using_up = λ now p. record { at_state = λ s. done };
      issuing = issuing;
    };
    revoking = revoking;
  }

  pub step-Moves : (c : Call) (s : Store) → Moves (view s) (view (step crypto config c s))
  step-Moves = step_induction by_moves allows

  -- The service implements the abstract machine: whatever calls are made, in whatever order and with
  -- whatever outcome, the standing of the hashes in the table of sessions changes by a row of moves. So
  -- a hash is issued only while it is unissued, and goes from open to revoked and never back.
  pub run-Moves : (cs : List Call) (s : Store) → Moves (view s) (view (run crypto config cs s))
  run-Moves = run_induction by_moves allows

-- A token that is revoked stays revoked.
pub Moves-revoked : {v w : View} (h : ℕ) → Moves v w → v h ≡ revoked → w h ≡ revoked
Moves-revoked h done e = e
Moves-revoked h (onto m ms) e = Moves-revoked h ms (one m e)
  where
    one : {v w : View} → Move v w → v h ≡ revoked → w h ≡ revoked
    one (issue k before after others) e = elim (Bool-cases (k == h)) [
      | inl same ↦ ground (arith, ==_eq k h same)
      | inr other ↦ others h other ∙ e
    ]
    one (withdraw f) e = ground (arith, f h)
