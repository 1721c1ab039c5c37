-- ===== src/Billing/Invoices/Visibility.antt =====
-- What `findAll` of src/modules/billing/invoice.service.ts shows a client.
use corporate_lawyers_backen.Prelude.{
  ℕ, zero, suc, Bool, true, false, none, some, List, [], ◌∷◌, ◌≡◌, refl, not, ◌&&◌, ◌==◌, or_else,
  find, select, any, take, drop, ◌∙◌, arith, Bool-cases, inl, inr,
}
use corporate_lawyers_backen.World.{
  UserRole, InvoiceStatus, Invoice, ClientProfile, World, err, HttpError, ◌>>=◌,
}
use corporate_lawyers_backen.Paging.{page}
use corporate_lawyers_backen.Billing.Status.{is_draft}
use corporate_lawyers_backen.Billing.Payments.{is_live, find_invoice}
use corporate_lawyers_backen.Billing.Invoices.Find.{find_one}
use corporate_lawyers_backen.Billing.Invoices.Listing.{
  StatusClause, InvoiceWhere, with_query, InvoiceQueryDto, matches, find_all,
}

-- A live invoice of the client's own that has been issued.
abbrev pub is_own : ClientProfile → Invoice → Bool
is_own cp i = is_live i && i.client_profile_id == cp.id && not (is_draft i.status)

any-select :
    (p q : Invoice → Bool) (rows : List Invoice)
    → ((i : Invoice) → p i ≡ true → q i ≡ false)
    → any q (select p rows) ≡ false
any-select p q [] h = refl
any-select p q (i ∷ rows) h = ground (arith, h i, any-select p q rows h)

any-drop :
    (q : Invoice → Bool) (n : ℕ) (rows : List Invoice)
    → any q rows ≡ false
    → any q (drop n rows) ≡ false
any-drop q zero rows h = h
any-drop q (suc n) [] h = refl
any-drop q (suc n) (i ∷ rows) h = any-drop q n rows (ground (arith, h))

any-take :
    (q : Invoice → Bool) (n : ℕ) (rows : List Invoice)
    → any q rows ≡ false
    → any q (take n rows) ≡ false
any-take q zero rows h = refl
any-take q (suc n) [] h = refl
any-take q (suc n) (i ∷ rows) h = ground (arith, any-take q n rows)

-- The query for the drafts of a profile.
abbrev pub drafts_of : ℕ → InvoiceQueryDto
drafts_of profile = record {
  case_id = none;
  client_profile_id = some profile;
  status = some InvoiceStatus.draft;
  date_from = none;
  date_to = none;
  due_date_from = none;
  due_date_to = none;
  limit = none;
  offset = none;
}

-- The `where` of a client, before the query comes to it.
abbrev base : InvoiceQueryDto → ClientProfile → InvoiceWhere
base q cp = record {
  client_profile_id = some cp.id;
  status = StatusClause.not_draft;
  assigned_to = none;
  query = q;
}

module _ (created_at : Invoice → ℕ) (order_by : List Invoice → List Invoice)
    (same_rows : (p : Invoice → Bool) (rows : List Invoice) → any p (order_by rows) ≡ any p rows)
    (q : InvoiceQueryDto) (user_id : ℕ) (w : World) (cp : ClientProfile)
    (profile : find (λ p. p.user_id == user_id) w.db.client_profiles ≡ some cp) where
  matches-own :
      (i : Invoice) → matches created_at order_by w.db (base q cp) i ≡ true → is_own cp i ≡ true
  matches-own i h = ground arith

  -- A client whose query names neither a client profile nor a status is shown issued invoices of
  -- the client's own only, when ordering the rows neither adds nor drops any.
  pub find_all-own :
      q.client_profile_id ≡ none
      → q.status ≡ none
      → any (λ i. not (is_own cp i)) (find_all created_at order_by q user_id UserRole.client w.db).0
        ≡ false
  unfolding find_all page
  find_all-own no_profile no_status =
      let same : with_query q (base q cp) ≡ (base q cp) = cc in
      let matching = select (matches created_at order_by w.db (base q cp)) w.db.invoices in
      let none_other : any (λ i. not (is_own cp i)) matching ≡ false =
        any-select (matches created_at order_by w.db (base q cp)) (λ i. not (is_own cp i))
          w.db.invoices (λ i h. rw (matches-own i h)) in
      rw (profile, same)
        (any-take _ (or_else q.limit 20) _ (
          any-drop _ (or_else q.offset 0) (order_by matching)
            (same_rows (λ i. not (is_own cp i)) matching ∙ none_other)))

select-cong :
    (p q : Invoice → Bool) (rows : List Invoice)
    → ((i : Invoice) → p i ≡ q i)
    → select p rows ≡ select q rows
select-cong p q [] h = refl
select-cong p q (i ∷ rows) h = rw (h i, select-cong p q rows h)

module _ (created_at : Invoice → ℕ) (order_by : List Invoice → List Invoice) (user_id : ℕ)
    (w : World) (cp : ClientProfile)
    (profile : find (λ p. p.user_id == user_id) w.db.client_profiles ≡ some cp) where
  -- The query replaces what the role asks for. A client who asks for the drafts of any profile, the
  -- client's own or another's, is shown the first page of all live ones, while `findOne` refuses the
  -- same client each live draft with 403.
  pub find_all-shows_drafts :
      (other : ℕ) (i : Invoice)
      → find_invoice i.id w.db.invoices ≡ some i
      → i.status ≡ InvoiceStatus.draft
      → (find_all created_at order_by (drafts_of other) user_id UserRole.client w.db
          ≡ page none none (
              order_by (
                select
                  (λ i. is_live i && i.client_profile_id == other && is_draft i.status)
                  w.db.invoices)))
        × (find_one i.id (some (user_id, UserRole.client)) w ≡ err HttpError.forbidden w)
  unfolding find_all find_one
  find_all-shows_drafts other i stored draft = (
    rw (
      profile,
      select-cong
          (matches created_at order_by w.db
            (with_query (drafts_of other) (base (drafts_of other) cp)))
          (λ i. is_live i && i.client_profile_id == other && is_draft i.status) w.db.invoices
          (λ i. same i),
    ),
    elim (Bool-cases (i.client_profile_id == cp.id)) [
      | inl own ↦ rw (stored, profile, own, hidden, ◌>>=◌)
      | inr foreign ↦ rw (stored, profile, foreign, ◌>>=◌)
    ],
  )
    where
      same :
          (i : Invoice)
          → matches created_at order_by w.db
              (with_query (drafts_of other) (base (drafts_of other) cp))
              i
            ≡ (is_live i && i.client_profile_id == other && is_draft i.status)
      same i = ground arith

      hidden : is_draft i.status ≡ true
      hidden = rw draft
