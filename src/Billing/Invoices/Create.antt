-- ===== src/Billing/Invoices/Create.antt =====
-- `create` of src/modules/billing/invoice.service.ts.
use corporate_lawyers_backen.Prelude.{
  ℕ, suc, Bool, true, Option, none, some, List, [], ◌∷◌, ◌++◌, map, not, ◌&&◌, ◌==◌, is_some,
  or_else, length, select, update_where, includes,
}
use corporate_lawyers_backen.World.{
  InvoiceStatus, Invoice, InvoiceItem, TimeEntry, Expense, EventType, Action, EntityType,
  WebhookEvent, Tables, HttpError, M, ◌>>=◌, ◌>>◌, guard, need, read_db, read_tx, write_tx, log,
  dispatch, transaction,
}
use corporate_lawyers_backen.Cases.Records.{find_case}
use corporate_lawyers_backen.Billing.Figures.{
  Numeric, Item, time_entry_item, expense_item, subtotal_of, default_tax_rate, totals,
  stored_amount,
}
use corporate_lawyers_backen.Billing.Invoices.Find.{find_one}

-- Lists of ids or items that the request leaves out are empty here, which the code treats alike.
pub record CreateInvoiceDto : Type 0 where
  pub case_id : ℕ
  pub client_profile_id : ℕ
  pub due_date : ℕ
  pub tax_rate : Option ℕ
  pub notes : Option ℕ
  pub time_entry_ids : List ℕ
  pub expense_ids : List ℕ
  pub items : List Item

-- `where: { id: { in: ids }, caseId, isBillable: true, isBilled: false }`, of rows not deleted
abbrev pub billable_entry : List ℕ → ℕ → TimeEntry → Bool
billable_entry ids case_id e =
    includes ids e.id
    && (e.case_id == case_id && e.is_billable && not e.is_billed && not (is_some e.deleted_at))

abbrev pub billable_expense : List ℕ → ℕ → Expense → Bool
billable_expense ids case_id e =
    includes ids e.id
    && (e.case_id == case_id && e.is_billable && not e.is_billed && not (is_some e.deleted_at))

-- `updateMany({ where: { id: { in: ids } }, data: { isBilled: true, invoiceId } })`
abbrev pub mark_entries : List ℕ → ℕ → List TimeEntry → List TimeEntry
mark_entries ids invoice_id =
    update_where (λ e. includes ids e.id)
      (λ e. record e { is_billed = true; invoice_id = some invoice_id })

abbrev pub mark_expenses : List ℕ → ℕ → List Expense → List Expense
mark_expenses ids invoice_id =
    update_where (λ e. includes ids e.id)
      (λ e. record e { is_billed = true; invoice_id = some invoice_id })

-- The items of the new invoice, in the order in which they are created.
abbrev pub all_items : CreateInvoiceDto → Tables → List Item
all_items dto tx =
    map time_entry_item (select (billable_entry dto.time_entry_ids dto.case_id) tx.time_entries)
    ++ (map expense_item (select (billable_expense dto.expense_ids dto.case_id) tx.expenses)
        ++ dto.items)

module _ (numeric : Numeric) where
  abbrev pub item_row : (invoice_id id : ℕ) → Item → InvoiceItem
  item_row invoice_id id item = record {
    id = id;
    invoice_id = invoice_id;
    description = item.description;
    quantity = item.quantity;
    unit_price = item.unit_price;
    amount = stored_amount numeric item;
  }

  -- The loop over `allItems`; `ids n` is the id that the database gives to the n-th row.
  abbrev pub item_rows : (invoice_id : ℕ) → (ids : ℕ → ℕ) → List Item → List InvoiceItem
  item_rows invoice_id ids [] = []
  item_rows invoice_id ids (item ∷ items) =
      item_row invoice_id (ids 0) item ∷ item_rows invoice_id (λ n. ids (suc n)) items

  abbrev pub invoice_row : (new_id : ℕ) → CreateInvoiceDto → Tables → Invoice
  invoice_row new_id dto tx =
      let rate = or_else dto.tax_rate default_tax_rate in
      let t = totals numeric (subtotal_of (all_items dto tx)) rate in
      record {
        id = new_id;
        case_id = dto.case_id;
        client_profile_id = dto.client_profile_id;
        subtotal = t.subtotal;
        tax_rate = rate;
        tax_amount = t.tax_amount;
        total = t.total;
        status = InvoiceStatus.draft;
        due_date = dto.due_date;
        paid_at = none;
        notes = dto.notes;
        deleted_at = none;
      }

  -- The rows that the callback of the transaction writes.
  unfoldable pub create_rows : (new_id : ℕ) → (item_ids : ℕ → ℕ) → CreateInvoiceDto → M (Unit {0})
  create_rows new_id item_ids dto = do
    tx ← read_tx
    guard
        (length (select (billable_entry dto.time_entry_ids dto.case_id) tx.time_entries)
          == length dto.time_entry_ids)
        HttpError.bad_request
    guard
        (length (select (billable_expense dto.expense_ids dto.case_id) tx.expenses)
          == length dto.expense_ids)
        HttpError.bad_request
    write_tx λ t. record t {
      invoices = t.invoices ++ invoice_row new_id dto tx ∷ [];
      items = t.items ++ item_rows new_id item_ids (all_items dto tx);
    }
    write_tx λ t. record t {
      time_entries = mark_entries dto.time_entry_ids new_id t.time_entries;
      expenses = mark_expenses dto.expense_ids new_id t.expenses;
    }
    write_tx λ t. record t {
      timeline =
          t.timeline
          ++ record {
            case_id = dto.case_id;
            event_type = EventType.invoice_created;
            is_public = true;
          }
            ∷ [];
    }

  -- The callback: its last line reads the new invoice with `this.prisma`, not with `tx`.
  unfoldable pub create_in_tx : (new_id : ℕ) → (item_ids : ℕ → ℕ) → CreateInvoiceDto → ℕ → M Invoice
  create_in_tx new_id item_ids dto user_id = do
    create_rows new_id item_ids dto
    log user_id Action.create EntityType.invoice_entity new_id
    dispatch (WebhookEvent.invoice_created new_id)
    find_one new_id none

  unfoldable pub create : (new_id : ℕ) → (item_ids : ℕ → ℕ) → CreateInvoiceDto → ℕ → M Invoice
  create new_id item_ids dto user_id = do
    db ← read_db
    case_data ← need (find_case dto.case_id db.cases) HttpError.not_found
    guard (case_data.client_profile_id == dto.client_profile_id) HttpError.bad_request
    transaction (create_in_tx new_id item_ids dto user_id)
