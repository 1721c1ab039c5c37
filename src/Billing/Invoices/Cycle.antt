-- ===== src/Billing/Invoices/Cycle.antt =====
-- The rows that `create` of src/modules/billing/invoice.service.ts writes, and what `remove` does
-- to them.
use corporate_lawyers_backen.Prelude.{
  ℕ, true, none, some, List, [], ◌∷◌, ◌++◌, ◌≡◌, refl, ap, inl, inr, ◌&&◌, ◌==◌, find-append,
  update_where, All, Keyed, ==_refl, arith,
}
use corporate_lawyers_backen.World.{Invoice, Tables, World, ok, err, HttpError, ◌>>=◌, final}
use corporate_lawyers_backen.Billing.Figures.{Numeric}
use corporate_lawyers_backen.Billing.Payments.{find_invoice, is_live}
use corporate_lawyers_backen.Billing.Invoices.Find.{find_one}
use corporate_lawyers_backen.Billing.Invoices.Create.{
  CreateInvoiceDto, mark_entries, mark_expenses, item_rows, all_items, invoice_row, create_rows,
}
use corporate_lawyers_backen.Billing.Invoices.Update.{remove}
use corporate_lawyers_backen.Billing.Invoices.Creation.{entries_ok, expenses_ok, create_rows-cases}
use corporate_lawyers_backen.Billing.Invoices.Billed.{
  IsBillable, IsBillableExpense, Listed, IsBillable-entries, billable_expenses, IsClean,
  unmark-mark_entries, unmark-mark_expenses,
}

pub find_one-found :
    (id : ℕ) (w : World) (i : Invoice)
    → find_invoice id w.db.invoices ≡ some i
    → find_one id none w ≡ ok i w
unfolding find_one
find_one-found id w i h = rw (h, ◌>>=◌)

find_invoice-deleted :
    (now id : ℕ) (rows : List Invoice)
    → find_invoice id
        (update_where (λ i. i.id == id) (λ i. record i { deleted_at = some now }) rows)
      ≡ none
find_invoice-deleted now id [] = refl
find_invoice-deleted now id (i ∷ rows) = ground (arith, find_invoice-deleted now id rows)

module _ (numeric : Numeric) (new_id : ℕ) (item_ids : ℕ → ℕ) (dto : CreateInvoiceDto)
    (w : World) where
  abbrev pub Created : World → Type 0
  Created w' = create_rows numeric new_id item_ids dto w ≡ ok tt w'

  -- What is written when both checks pass.
  abbrev pub Written : Tables → Type 0
  Written tx =
      (tx.invoices ≡ w.tx.invoices ++ invoice_row numeric new_id dto w.tx ∷ [])
      × (tx.items ≡ w.tx.items ++ item_rows numeric new_id item_ids (all_items dto w.tx))
      × (tx.time_entries ≡ mark_entries dto.time_entry_ids new_id w.tx.time_entries)
      × (tx.expenses ≡ mark_expenses dto.expense_ids new_id w.tx.expenses)

  Created-passes :
      (w' : World) → Created w' → (entries_ok dto w.tx ≡ true) × (expenses_ok dto w.tx ≡ true)
  Created-passes w' e = elim (create_rows-cases numeric new_id item_ids dto w) [
    | inl refused ↦ absurd (clash refused.0)
    | inr (tx', written, entries, expenses) ↦ (entries, expenses)
  ]
    where
      clash : create_rows numeric new_id item_ids dto w ≡ err HttpError.bad_request w → ⊥
      clash refused = cc

  Created-Written : (w' : World) → Created w' → Written w'.tx
  unfolding create_rows
  Created-Written w' e =
      let (entries, expenses) = Created-passes w' e in
      rw (← ap final e) (rw (entries, expenses, ◌>>=◌, final) (refl, refl, refl, refl))

  -- When an invoice's rows are written, in tables whose time entries and expenses have different
  -- ids, every time entry and expense that the request lists is a live, billable row of the case
  -- that no invoice has billed, and exactly the listed rows are marked with the new invoice, which is
  -- a draft behind the invoices that were there.
  pub create_rows-bills_unbilled :
      (w' : World)
      → Keyed (λ e. e.id) w.tx.time_entries
      → Keyed (λ e. e.id) w.tx.expenses
      → create_rows numeric new_id item_ids dto w ≡ ok tt w'
      → Listed (λ e. e.id) dto.time_entry_ids (IsBillable dto.case_id) w.tx.time_entries
        × Listed (λ e. e.id) dto.expense_ids (IsBillableExpense dto.case_id) w.tx.expenses
        × (w'.tx.time_entries ≡ mark_entries dto.time_entry_ids new_id w.tx.time_entries)
        × (w'.tx.expenses ≡ mark_expenses dto.expense_ids new_id w.tx.expenses)
        × (w'.tx.invoices ≡ w.tx.invoices ++ invoice_row numeric new_id dto w.tx ∷ [])
  create_rows-bills_unbilled w' keys keys' e =
      let (entries, expenses) = Created-passes w' e in
      let (invoices, items, marked, marked') = Created-Written w' e in
      (
        IsBillable-entries dto.time_entry_ids dto.case_id w.tx.time_entries keys entries,
        billable_expenses dto.expense_ids dto.case_id w.tx.expenses keys' expenses,
        marked,
        marked',
        invoices,
      )

  -- Once an invoice's rows are written and committed, deleting the invoice succeeds, gives back every
  -- time entry and every expense as it was before the invoice billed it, and the invoice is not found
  -- any more. The tables have rows of different ids, and before the invoice was created none of its
  -- id was live, no row was marked with it, and rows not billed were marked with no invoice.
  pub remove-create_rows :
      (now user_id : ℕ) (w' : World)
      → Keyed (λ e. e.id) w.tx.time_entries
      → Keyed (λ e. e.id) w.tx.expenses
      → find_invoice new_id w.tx.invoices ≡ none
      → All (λ e. IsClean new_id e.is_billed e.invoice_id) w.tx.time_entries
      → All (λ e. IsClean new_id e.is_billed e.invoice_id) w.tx.expenses
      → create_rows numeric new_id item_ids dto w ≡ ok tt w'
      → (w'' : World) × (remove now new_id user_id (record w' { db = w'.tx }) ≡ ok tt w'')
        × (w''.db.time_entries ≡ w.tx.time_entries)
        × (w''.db.expenses ≡ w.tx.expenses)
        × (find_invoice new_id w''.db.invoices ≡ none)
  unfolding remove
  remove-create_rows now user_id w' keys keys' fresh clean clean' e =
      let (listed, listed', marked, marked', invoices) =
        create_rows-bills_unbilled w' keys keys' e in
      let row = invoice_row numeric new_id dto w.tx in
      let live : (row.id == new_id && is_live row) ≡ true = ground (arith, ==_refl new_id) in
      let found : find_invoice new_id w'.tx.invoices ≡ some row =
        rw invoices (find-append (λ i. i.id == new_id && is_live i) w.tx.invoices row fresh live) in
      let reads = find_one-found new_id (record w' { db = w'.tx }) row found in
      (
        final (remove now new_id user_id (record w' { db = w'.tx })),
        rw (reads, ◌>>=◌, final),
        rw (reads, ◌>>=◌, final)
            (rw marked (
              unmark-mark_entries dto.time_entry_ids dto.case_id new_id w.tx.time_entries listed
                clean)),
        rw (reads, ◌>>=◌, final)
            (rw marked' (
              unmark-mark_expenses dto.expense_ids dto.case_id new_id w.tx.expenses listed'
                clean')),
        rw (reads, ◌>>=◌, final) (find_invoice-deleted now new_id w'.tx.invoices),
      )
