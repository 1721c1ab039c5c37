-- ===== src/Billing/Invoices/Items.antt =====
-- The invoice items of src/modules/billing/invoice.service.ts, and `recalculateTotals`.
use corporate_lawyers_backen.Prelude.{
  ℕ, ◌*◌, Option, none, some, List, [], ◌∷◌, ◌++◌, not, ◌&&◌, ◌==◌, find, select, update_where,
  sum_by,
}
use corporate_lawyers_backen.World.{
  Invoice, InvoiceItem, HttpError, M, pure, ◌>>=◌, ◌>>◌, guard, need, read_db, write_db,
}
use corporate_lawyers_backen.Billing.Status.{is_draft}
use corporate_lawyers_backen.Billing.Figures.{
  Numeric, Item, default_tax_rate, Totals, totals, stored_amount,
}
use corporate_lawyers_backen.Billing.Payments.{find_invoice}
use corporate_lawyers_backen.Billing.Invoices.Find.{find_one}
use corporate_lawyers_backen.Billing.Invoices.Create.{item_row}

abbrev pub items_of : ℕ → List InvoiceItem → List InvoiceItem
items_of invoice_id = select (λ item. item.invoice_id == invoice_id)

-- The sum of an invoice's stored amounts, in hundredths.
abbrev pub items_total : ℕ → List InvoiceItem → ℕ
items_total invoice_id items = sum_by (λ item. item.amount) (items_of invoice_id items)

-- `invoice?.taxRate ?? 0.16`
abbrev pub rate_of : Option Invoice → ℕ
rate_of none = default_tax_rate
rate_of (some i) = i.tax_rate

-- `where: { id: itemId, invoiceId }`
abbrev pub find_item : ℕ → ℕ → List InvoiceItem → Option InvoiceItem
find_item invoice_id item_id = find (λ item. item.id == item_id && item.invoice_id == invoice_id)

module _ (numeric : Numeric) where
  abbrev pub with_totals : Totals → Invoice → Invoice
  with_totals t i = record i { subtotal = t.subtotal; tax_amount = t.tax_amount; total = t.total }

  -- `recalculateTotals`
  abbrev pub recalculate_totals : ℕ → M (Unit {0})
  recalculate_totals invoice_id = do
    db ← read_db
    let subtotal = items_total invoice_id db.items
    let rate = rate_of (find_invoice invoice_id db.invoices)
    write_db λ db. record db {
      invoices =
          update_where (λ i. i.id == invoice_id)
            (with_totals (totals numeric (subtotal * 100) rate)) db.invoices;
    }

  -- `addItem`
  unfoldable pub add_item : (new_id : ℕ) → ℕ → Item → M InvoiceItem
  add_item new_id invoice_id dto = do
    invoice ← find_one invoice_id none
    guard (is_draft invoice.status) HttpError.bad_request
    write_db λ db. record db { items = db.items ++ item_row numeric invoice_id new_id dto ∷ [] }
    recalculate_totals invoice_id
    pure (item_row numeric invoice_id new_id dto)

  abbrev pub item_edited : Item → InvoiceItem → InvoiceItem
  item_edited dto item = record item {
    description = dto.description;
    quantity = dto.quantity;
    unit_price = dto.unit_price;
    amount = stored_amount numeric dto;
  }

  -- `updateItem`
  unfoldable pub update_item : ℕ → ℕ → Item → M InvoiceItem
  update_item invoice_id item_id dto = do
    invoice ← find_one invoice_id none
    guard (is_draft invoice.status) HttpError.bad_request
    db ← read_db
    item ← need (find_item invoice_id item_id db.items) HttpError.not_found
    write_db λ db. record db {
      items = update_where (λ item. item.id == item_id) (item_edited dto) db.items;
    }
    recalculate_totals invoice_id
    pure (item_edited dto item)

  -- `removeItem`
  unfoldable pub remove_item : ℕ → ℕ → M (Unit {0})
  remove_item invoice_id item_id = do
    invoice ← find_one invoice_id none
    guard (is_draft invoice.status) HttpError.bad_request
    db ← read_db
    item ← need (find_item invoice_id item_id db.items) HttpError.not_found
    write_db λ db. record db { items = select (λ item. not (item.id == item_id)) db.items }
    recalculate_totals invoice_id
