-- ===== src/Auth/Accounts.antt =====
-- The rows of users that src/modules/auth/auth.service.ts finds and updates.
use corporate_lawyers_backen.Prelude.{
  ℕ, Bool, true, Option, none, some, List, ◌≡◌, refl, inl, inr, ◌==◌, find, update_where, arith,
  Option-cases, ==_refl, Keyed, find-key, find-update,
}
use corporate_lawyers_backen.World.{Text, text_eq, lower}
use corporate_lawyers_backen.SoftDelete.{is_soft_delete_model, find_unique, screen}
use corporate_lawyers_backen.Auth.{Account, Store, find_user}

abbrev pub has_email : Text → Account → Bool
has_email email u = text_eq u.email (lower email)

abbrev pub has_id : ℕ → Account → Bool
has_id id u = u.id == id

-- The account that an address belongs to.
abbrev pub account_of : Text → Store → Option Account
account_of email s = find_user (has_email email) s.users

abbrev pub IsKeyed : Store → Type 0
IsKeyed s = Keyed (λ (u : Account). u.id) s.users

-- An update that leaves the key, the address and the deletion alone.
pub record Gentle (f : Account → Account) : Type 0 where
  pub same_id : (u : Account) → (f u).id ≡ u.id
  pub same_email : (u : Account) → (f u).email ≡ u.email
  pub same_deleted_at : (u : Account) → (f u).deleted_at ≡ u.deleted_at

pub find_user-found :
    (key : Account → Bool) (users : List Account) (u : Account)
    → find_user key users ≡ some u
    → (find key users ≡ some u) × (u.deleted_at ≡ none)
unfolding find_unique is_soft_delete_model
find_user-found key users u e = screened (find key users) e
  where
    screened :
        (o : Option Account)
        → screen (λ v. v.deleted_at) true o ≡ some u
        → (o ≡ some u) × (u.deleted_at ≡ none)
    screened none h = ground arith
    screened (some v) h = elim (Option-cases v.deleted_at) [
      | inl live ↦ ground arith
      | inr (t, gone) ↦ ground arith
    ]

pub find_by_id :
    (p : Account → Bool) (users : List Account) (u : Account)
    → Keyed (λ (v : Account). v.id) users
    → find p users ≡ some u
    → find (has_id u.id) users ≡ some u
find_by_id = find-key (λ u. u.id)

pub find_user-update :
    (f : Account → Account) (email : Text) (users : List Account) (u : Account)
    → Gentle f
    → find_user (has_email email) users ≡ some u
    → find_user (has_email email) (update_where (has_id u.id) f users) ≡ some (f u)
unfolding find_unique is_soft_delete_model
find_user-update f email users u g e =
    let (found, live) = find_user-found (has_email email) users u e in
    rw
      (
        find-update f (has_email email) (has_id u.id) users u (λ v. rw (g.same_email v) refl) found
            (==_refl u.id),
        screen,
        g.same_deleted_at u,
        live,
      )
      refl
