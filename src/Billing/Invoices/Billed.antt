-- ===== src/Billing/Invoices/Billed.antt =====
-- Which time entries and expenses an invoice of src/modules/billing/invoice.service.ts can bill.
use corporate_lawyers_backen.Prelude.{
  ℕ, ◌+◌, ◌≤◌, Bool, true, false, Option, none, List, [], ◌∷◌, ◌≡◌, ◌≢◌, refl, ◌⊎◌, inl, inr, not,
  ◌&&◌, ◌==◌, is_some, length, select, includes, count_where, All, Keyed, Bool-cases, arith,
}
use corporate_lawyers_backen.World.{TimeEntry, Expense}
use corporate_lawyers_backen.Billing.Invoices.Create.{
  billable_entry, billable_expense, mark_entries, mark_expenses,
}
use corporate_lawyers_backen.Billing.Invoices.Update.{billed_on, unmark_entries, unmark_expenses}

module _ {A : Type 0} (key : A → ℕ) where
  key_is : ℕ → A → Bool
  key_is k x = key x == k

  key_in : List ℕ → A → Bool
  key_in ids x = includes ids (key x)

  count-absent :
      (k : ℕ) (rows : List A) → All (λ y. k ≢ key y) rows → count_where (key_is k) rows ≡ 0
  unfolding key_is
  count-absent k [] h = refl
  count-absent k (x ∷ rows) h = ground (arith, count-absent k rows h.1)

  -- A key stands in at most one row.
  count-key : (k : ℕ) (rows : List A) → Keyed key rows → count_where (key_is k) rows ≤ 1
  unfolding key_is
  count-key k [] h = omega arith
  count-key k (x ∷ rows) h = elim (Bool-cases (key x == k)) [
    | inl here ↦
        let e : key x ≡ k = ground arith in
        let absent : All (λ y. k ≢ key y) rows = rw e at h.0 in
        rw here (omega (arith, count-absent k rows absent))
    | inr later ↦ rw later (omega (arith, count-key k rows h.1))
  ]

  count-key_in-cons :
      (k : ℕ) (ids : List ℕ) (rows : List A)
      → count_where (key_in (k ∷ ids)) rows
        ≤ count_where (key_is k) rows + count_where (key_in ids) rows
  unfolding key_is key_in
  count-key_in-cons k ids [] = omega arith
  count-key_in-cons k ids (x ∷ rows) = ground (arith, count-key_in-cons k ids rows)

  count-key_in-nil : (rows : List A) → count_where (key_in []) rows ≡ 0
  unfolding key_in
  count-key_in-nil [] = refl
  count-key_in-nil (x ∷ rows) = ground (arith, count-key_in-nil rows)

  -- So at most as many rows are listed as there are ids.
  count-key_in :
      (ids : List ℕ) (rows : List A) → Keyed key rows → count_where (key_in ids) rows ≤ length ids
  count-key_in [] rows h = omega (arith, count-key_in-nil rows)
  count-key_in (k ∷ ids) rows h =
      omega (arith, count-key_in-cons k ids rows, count-key k rows h, count-key_in ids rows h)

  module _ (fit : A → Bool) where
    -- The rows that are listed and not fit.
    unfit : List ℕ → A → Bool
    unfit ids x = includes ids (key x) && not (fit x)

    length-select-fit :
        (ids : List ℕ) (rows : List A)
        → length (select (λ x. includes ids (key x) && fit x) rows) + count_where (unfit ids) rows
          ≡ count_where (key_in ids) rows
    unfolding unfit key_in
    length-select-fit ids [] = refl
    length-select-fit ids (x ∷ rows) = ground (arith, length-select-fit ids rows)

    none_unfit :
        (ids : List ℕ) (rows : List A)
        → count_where (unfit ids) rows ≡ 0
        → All (λ x. (includes ids (key x) ≡ false) ⊎ (fit x ≡ true)) rows
    unfolding unfit
    none_unfit ids [] h = tt
    none_unfit ids (x ∷ rows) h = (ground arith, none_unfit ids rows (ground arith))

    -- The length check: if as many fit rows are listed as there are ids, all listed rows are fit.
    pub listed_fit :
        (ids : List ℕ) (rows : List A)
        → Keyed key rows
        → (length (select (λ x. includes ids (key x) && fit x) rows) == length ids) ≡ true
        → All (λ x. (includes ids (key x) ≡ false) ⊎ (fit x ≡ true)) rows
    listed_fit ids rows keys h =
        none_unfit ids rows (ground (arith, length-select-fit ids rows, count-key_in ids rows keys))

-- What an entry has to be for an invoice of the case to bill it.
abbrev pub IsBillable : ℕ → TimeEntry → Type 0
IsBillable case_id e =
    (e.case_id ≡ case_id) × (e.is_billable ≡ true) × (e.is_billed ≡ false) × (e.deleted_at ≡ none)

abbrev pub IsBillableExpense : ℕ → Expense → Type 0
IsBillableExpense case_id e =
    (e.case_id ≡ case_id) × (e.is_billable ≡ true) × (e.is_billed ≡ false) × (e.deleted_at ≡ none)

-- Every row that is listed has the property.
abbrev pub Listed : {A : Type 0} → (A → ℕ) → List ℕ → (A → Type 0) → List A → Type 0
Listed key ids P = All (λ x. (includes ids (key x) ≡ false) ⊎ P x)

pub IsBillable-entries :
    (ids : List ℕ) (case_id : ℕ) (rows : List TimeEntry)
    → Keyed (λ e. e.id) rows
    → (length (select (billable_entry ids case_id) rows) == length ids) ≡ true
    → Listed (λ e. e.id) ids (IsBillable case_id) rows
IsBillable-entries ids case_id rows keys h = spell rows (listed_fit (λ e. e.id) fit ids rows keys h)
  where
    fit : TimeEntry → Bool
    fit e = e.case_id == case_id && e.is_billable && not e.is_billed && not (is_some e.deleted_at)

    spell :
        (rows : List TimeEntry)
        → All (λ e. (includes ids e.id ≡ false) ⊎ (fit e ≡ true)) rows
        → Listed (λ e. e.id) ids (IsBillable case_id) rows
    spell [] h = tt
    spell (e ∷ rows) h = (ground arith, spell rows h.1)

pub billable_expenses :
    (ids : List ℕ) (case_id : ℕ) (rows : List Expense)
    → Keyed (λ e. e.id) rows
    → (length (select (billable_expense ids case_id) rows) == length ids) ≡ true
    → Listed (λ e. e.id) ids (IsBillableExpense case_id) rows
billable_expenses ids case_id rows keys h = spell rows (listed_fit (λ e. e.id) fit ids rows keys h)
  where
    fit : Expense → Bool
    fit e = e.case_id == case_id && e.is_billable && not e.is_billed && not (is_some e.deleted_at)

    spell :
        (rows : List Expense)
        → All (λ e. (includes ids e.id ≡ false) ⊎ (fit e ≡ true)) rows
        → Listed (λ e. e.id) ids (IsBillableExpense case_id) rows
    spell [] h = tt
    spell (e ∷ rows) h = (ground arith, spell rows h.1)

-- An unbilled row names no invoice, and no row names the new one.
abbrev pub IsClean : ℕ → Bool → Option ℕ → Type 0
IsClean new_id billed invoice_id =
    ((billed ≡ true) ⊎ (invoice_id ≡ none)) × (billed_on new_id invoice_id ≡ false)

-- Releasing the entries of a cancelled or deleted invoice undoes their billing: the time entries
-- are as they were before the invoice billed them.
pub unmark-mark_entries :
    (ids : List ℕ) (case_id new_id : ℕ) (rows : List TimeEntry)
    → Listed (λ e. e.id) ids (IsBillable case_id) rows
    → All (λ e. IsClean new_id e.is_billed e.invoice_id) rows
    → unmark_entries new_id (mark_entries ids new_id rows) ≡ rows
unmark-mark_entries ids case_id new_id [] h k = refl
unmark-mark_entries ids case_id new_id (e ∷ rows) h k =
    ground (arith, h.0, k.0, unmark-mark_entries ids case_id new_id rows h.1 k.1)

pub unmark-mark_expenses :
    (ids : List ℕ) (case_id new_id : ℕ) (rows : List Expense)
    → Listed (λ e. e.id) ids (IsBillableExpense case_id) rows
    → All (λ e. IsClean new_id e.is_billed e.invoice_id) rows
    → unmark_expenses new_id (mark_expenses ids new_id rows) ≡ rows
unmark-mark_expenses ids case_id new_id [] h k = refl
unmark-mark_expenses ids case_id new_id (e ∷ rows) h k =
    ground (arith, h.0, k.0, unmark-mark_expenses ids case_id new_id rows h.1 k.1)
