-- ===== src/Billing/Invoices/Reconcile.antt =====
-- After every change of its items, an invoice's columns agree with them
-- (src/modules/billing/invoice.service.ts, addItem, updateItem, removeItem, recalculateTotals).
use corporate_lawyers_backen.Prelude.{
  ℕ, ◌+◌, ◌*◌, true, false, none, some, List, [], ◌∷◌, ◌++◌, ◌≡◌, refl, sym, ◌∙◌, ap, ◌⊎◌, inl, inr,
  not, ◌==◌, find, select, update_where, Bool-cases, Option-cases, ==_refl, arith,
}
use corporate_lawyers_backen.World.{
  InvoiceStatus, Invoice, InvoiceItem, Tables, World, ok, err, HttpError, ◌>>=◌,
}
use corporate_lawyers_backen.Billing.Status.{is_draft}
use corporate_lawyers_backen.Billing.Figures.{Numeric, Item, totals, stored_amount}
use corporate_lawyers_backen.Billing.Figures.Rounding.{totals_of_cents}
use corporate_lawyers_backen.Billing.Payments.{find_invoice}
use corporate_lawyers_backen.Billing.Payments.Balance.{find_invoice-update}
use corporate_lawyers_backen.Billing.Invoices.Create.{item_row}
use corporate_lawyers_backen.Billing.Invoices.Items.{
  items_total, rate_of, with_totals, add_item, item_edited, find_item, update_item, remove_item,
}
use corporate_lawyers_backen.Billing.Invoices.Creation.{find_one-missing}
use corporate_lawyers_backen.Billing.Invoices.Cycle.{find_one-found}

-- The invoice is a live draft whose subtotal is the sum of its items' stored amounts, and whose
-- total is exactly the subtotal plus the tax.
abbrev pub Reconciled : ℕ → Tables → Type 0
Reconciled id db =
    (i : Invoice) × (find_invoice id db.invoices ≡ some i)
    × (i.status ≡ InvoiceStatus.draft)
    × (i.subtotal ≡ items_total id db.items)
    × (i.total ≡ i.subtotal + i.tax_amount)

-- The end of the three operations, on the tables whose items have changed.
abbrev retotalled : Numeric → ℕ → Tables → Tables
retotalled numeric id db = record db {
  invoices =
      update_where (λ i. i.id == id)
        (with_totals numeric
          (totals numeric (items_total id db.items * 100) (rate_of (find_invoice id db.invoices))))
        db.invoices;
}

retotalled-Reconciled :
    (numeric : Numeric) (id : ℕ) (db : Tables) (i : Invoice)
    → find_invoice id db.invoices ≡ some i
    → is_draft i.status ≡ true
    → Reconciled id (retotalled numeric id db)
retotalled-Reconciled numeric id db i found draft =
    let t =
      totals numeric (items_total id db.items * 100) (rate_of (find_invoice id db.invoices)) in
    let (subtotal, total) =
      totals_of_cents numeric (items_total id db.items) (rate_of (find_invoice id db.invoices)) in
    (
      with_totals numeric t i,
      find_invoice-update id (with_totals numeric t) db.invoices i (λ i. refl) (λ i. refl) found,
      ground arith,
      subtotal,
      total ∙ ap (λ c. c + t.tax_amount) (sym subtotal),
    )

items_total-append :
    (id : ℕ) (items : List InvoiceItem) (item : InvoiceItem)
    → (item.invoice_id == id) ≡ true
    → items_total id (items ++ item ∷ []) ≡ items_total id items + item.amount
items_total-append id [] item h = ground arith
items_total-append id (x ∷ items) item h = ground (arith, items_total-append id items item h)

find-removed :
    (item_id : ℕ) (items : List InvoiceItem)
    → find (λ item. item.id == item_id) (select (λ item. not (item.id == item_id)) items) ≡ none
find-removed item_id [] = refl
find-removed item_id (item ∷ items) = ground (arith, find-removed item_id items)

-- The invoice is unknown, or no draft.
abbrev pub NotEditable : ℕ → Tables → HttpError → Type 0
NotEditable id db e =
    ((find_invoice id db.invoices ≡ none) × (e ≡ HttpError.not_found))
    ⊎ (i : Invoice) × (find_invoice id db.invoices ≡ some i)
      × (is_draft i.status ≡ false)
      × (e ≡ HttpError.bad_request)

-- The item is not one of the invoice's own.
abbrev pub NotAnItem : (invoice_id item_id : ℕ) → Tables → HttpError → Type 0
NotAnItem invoice_id item_id db e =
    (find_item invoice_id item_id db.items ≡ none) × (e ≡ HttpError.not_found)

module _ (numeric : Numeric) (invoice_id : ℕ) (w : World) where
  -- Adding an item is refused, and nothing is written, with 404 for an unknown invoice and 400 for
  -- one that is no draft. Otherwise its stored amount is on top of the sum of the other items and
  -- the invoice, a live draft, agrees with its items.
  pub add_item_lem :
      (new_id : ℕ) (dto : Item)
      → ((e : HttpError) × (add_item numeric new_id invoice_id dto w ≡ err e w)
          × NotEditable invoice_id w.db e)
        ⊎ (item : InvoiceItem) × (w' : World) × (add_item numeric new_id invoice_id dto w
            ≡ ok item w')
          × (item.amount ≡ stored_amount numeric dto)
          × (items_total invoice_id w'.db.items ≡ items_total invoice_id w.db.items + item.amount)
          × Reconciled invoice_id w'.db
  unfolding add_item
  add_item_lem new_id dto = elim (Option-cases (find_invoice invoice_id w.db.invoices)) [
    | inl missing ↦ inl (
      HttpError.not_found,
      rw (find_one-missing invoice_id w missing, ◌>>=◌),
      inl (missing, refl),
    )
    | inr (i, found) ↦ elim (Bool-cases (is_draft i.status)) [
      | inr sent ↦ inl (
        HttpError.bad_request,
        rw (find_one-found invoice_id w i found, sent, ◌>>=◌),
        inr (i, found, sent, refl),
      )
      | inl draft ↦
          let item = item_row numeric invoice_id new_id dto in
          let db = record (w.db) { items = w.db.items ++ item ∷ [] } in
          inr (
            item,
            record w { db = retotalled numeric invoice_id db },
            rw (find_one-found invoice_id w i found, draft, ◌>>=◌),
            refl,
            items_total-append invoice_id w.db.items item (==_refl invoice_id),
            retotalled-Reconciled numeric invoice_id db i found draft,
          )
    ]
  ]

  -- Editing an item is refused, and nothing is written, or the item was one of the invoice's own and
  -- the invoice, a live draft, agrees with its items afterwards.
  pub update_item_lem :
      (item_id : ℕ) (dto : Item)
      → ((e : HttpError) × (update_item numeric invoice_id item_id dto w ≡ err e w)
          × (NotEditable invoice_id w.db e ⊎ NotAnItem invoice_id item_id w.db e))
        ⊎ (item : InvoiceItem) × (w' : World) × (update_item numeric invoice_id item_id dto w
            ≡ ok (item_edited numeric dto item) w')
          × (find_item invoice_id item_id w.db.items ≡ some item)
          × Reconciled invoice_id w'.db
  unfolding update_item
  update_item_lem item_id dto = elim (Option-cases (find_invoice invoice_id w.db.invoices)) [
    | inl missing ↦ inl (
      HttpError.not_found,
      rw (find_one-missing invoice_id w missing, ◌>>=◌),
      inl (inl (missing, refl)),
    )
    | inr (i, found) ↦ elim (Bool-cases (is_draft i.status)) [
      | inr sent ↦ inl (
        HttpError.bad_request,
        rw (find_one-found invoice_id w i found, sent, ◌>>=◌),
        inl (inr (i, found, sent, refl)),
      )
      | inl draft ↦ elim (Option-cases (find_item invoice_id item_id w.db.items)) [
        | inl unknown ↦ inl (
          HttpError.not_found,
          rw (find_one-found invoice_id w i found, draft, unknown, ◌>>=◌),
          inr (unknown, refl),
        )
        | inr (item, known) ↦
            let db = record (w.db) {
              items =
                  update_where (λ item. item.id == item_id) (item_edited numeric dto) w.db.items;
            } in
            inr (
              item,
              record w { db = retotalled numeric invoice_id db },
              rw (find_one-found invoice_id w i found, draft, known, ◌>>=◌),
              known,
              retotalled-Reconciled numeric invoice_id db i found draft,
            )
      ]
    ]
  ]

  -- Removing an item is refused, and nothing is written, with 404 for an unknown invoice or an item
  -- that is not one of its own, and 400 for an invoice that is no draft. Otherwise the item was
  -- one of the invoice's own, the rows of its id are gone and no others, and the invoice, a live draft, agrees with its items.
  pub remove_item_lem :
      (item_id : ℕ)
      → ((e : HttpError) × (remove_item numeric invoice_id item_id w ≡ err e w)
          × (NotEditable invoice_id w.db e ⊎ NotAnItem invoice_id item_id w.db e))
        ⊎ (item : InvoiceItem) × (w' : World) × (remove_item numeric invoice_id item_id w
            ≡ ok tt w')
          × (find_item invoice_id item_id w.db.items ≡ some item)
          × (w'.db.items ≡ select (λ x. not (x.id == item_id)) w.db.items)
          × (find (λ item. item.id == item_id) w'.db.items ≡ none)
          × Reconciled invoice_id w'.db
  unfolding remove_item
  remove_item_lem item_id = elim (Option-cases (find_invoice invoice_id w.db.invoices)) [
    | inl missing ↦ inl (
      HttpError.not_found,
      rw (find_one-missing invoice_id w missing, ◌>>=◌),
      inl (inl (missing, refl)),
    )
    | inr (i, found) ↦ elim (Bool-cases (is_draft i.status)) [
      | inr sent ↦ inl (
        HttpError.bad_request,
        rw (find_one-found invoice_id w i found, sent, ◌>>=◌),
        inl (inr (i, found, sent, refl)),
      )
      | inl draft ↦ elim (Option-cases (find_item invoice_id item_id w.db.items)) [
        | inl unknown ↦ inl (
          HttpError.not_found,
          rw (find_one-found invoice_id w i found, draft, unknown, ◌>>=◌),
          inr (unknown, refl),
        )
        | inr (item, known) ↦
            let db = record (w.db) {
              items = select (λ item. not (item.id == item_id)) w.db.items;
            } in
            inr (
              item,
              record w { db = retotalled numeric invoice_id db },
              rw (find_one-found invoice_id w i found, draft, known, ◌>>=◌),
              known,
              refl,
              find-removed item_id w.db.items,
              retotalled-Reconciled numeric invoice_id db i found draft,
            )
      ]
    ]
  ]
