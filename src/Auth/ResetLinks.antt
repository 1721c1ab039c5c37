-- ===== src/Auth/ResetLinks.antt =====
-- What `forgotPassword` of src/modules/auth/auth.service.ts does for an address.
use corporate_lawyers_backen.Prelude.{
  ℕ, ◌+◌, ◌*◌, ◌≤◌, Bool, true, false, none, some, List, [], ◌∷◌, ◌++◌, ◌≡◌, refl, ◌∙◌, ◌⊎◌, inl,
  inr, ◌==◌, not, ◌&&◌, any, find, update_where, count_where, count_where-append, arith,
  Option-cases, is_some, ==_refl,
}
use corporate_lawyers_backen.World.{Text, ok, ◌>>=◌, ◌>>◌}
use corporate_lawyers_backen.Auth.{Account, PasswordResetToken, Store, AuditAction}
use corporate_lawyers_backen.Auth.Passwords.{
  use_up, create_reset_token, new_reset_token, issue_for, forgot_password, is_usable,
}
use corporate_lawyers_backen.Auth.Accounts.{account_of}

-- A token that could be used, but for its date.
abbrev pub is_open : ℕ → PasswordResetToken → Bool
is_open user_id r = r.user_id == user_id && not (is_some r.used_at)

none_open :
    (now user_id : ℕ) (rows : List PasswordResetToken)
    → count_where (is_open user_id) (update_where (is_open user_id) (use_up now) rows) ≡ 0
none_open now user_id [] = refl
none_open now user_id (r ∷ rows) = ground (arith, none_open now user_id rows)

any-use_up :
    (now token : ℕ) (p : PasswordResetToken → Bool) (rows : List PasswordResetToken)
    → any (λ r. r.token == token) (update_where p (use_up now) rows)
      ≡ any (λ r. r.token == token) rows
any-use_up now token p [] = refl
any-use_up now token p (r ∷ rows) = ground (arith, any-use_up now token p rows)

find-new :
    (new : PasswordResetToken) (rows : List PasswordResetToken)
    → any (λ r. r.token == new.token) rows ≡ false
    → find (λ r. r.token == new.token) (rows ++ new ∷ []) ≡ some new
find-new new [] h = ground (arith, ==_refl new.token)
find-new new (r ∷ rows) h = ground (arith, find-new new rows)

-- A request for a reset link answers the same for every address. For an address without a live account
-- it writes nothing. For any other, when the token drawn is a new one, the user has exactly one open
-- token then, the new one, which can be used for an hour.
pub forgot_password_lem :
    (now id token : ℕ) (email : Text) (s : Store)
    → any (λ r. r.token == token) s.reset_tokens ≡ false
    → ((account_of email s ≡ none) × (forgot_password now id token email s ≡ ok tt s))
      ⊎ (u : Account) × (s' : Store) × (account_of email s ≡ some u)
        × (forgot_password now id token email s ≡ ok tt s')
        × (count_where (is_open u.id) s'.reset_tokens ≡ 1)
        × ((later : ℕ)
            → later ≤ now + 60 * 60 * 1000
            → (row : PasswordResetToken) × (find (λ r. r.token == token) s'.reset_tokens ≡ some row)
              × (row.user_id ≡ u.id)
              × (is_usable later row ≡ true))
unfolding forgot_password create_reset_token
forgot_password_lem now id token email s fresh = elim (Option-cases (account_of email s)) [
  | inl nobody ↦ inl (nobody, rw (nobody, issue_for) refl)
  | inr (u, e) ↦
      let rows = update_where (is_open u.id) (use_up now) s.reset_tokens in
      let new = new_reset_token now id token u.id in
      let fresh' = any-use_up now token (is_open u.id) s.reset_tokens ∙ fresh in
      inr (
        u,
        record s {
          reset_tokens = rows ++ new ∷ [];
          audit = s.audit ++ (u.id, AuditAction.password_reset_requested) ∷ [];
        },
        e,
        rw (e, issue_for, fresh', ◌>>=◌, ◌>>◌) refl,
        count_where-append (is_open u.id) rows (new ∷ [])
            ∙ ground (arith, none_open now u.id s.reset_tokens, ==_refl u.id),
        λ later soon. (new, find-new new rows fresh', refl, ground arith),
      )
]
