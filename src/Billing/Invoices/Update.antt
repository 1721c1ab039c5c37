-- ===== src/Billing/Invoices/Update.antt =====
-- `update` and `remove` of src/modules/billing/invoice.service.ts.
use corporate_lawyers_backen.Prelude.{
  ℕ, ◌*◌, Bool, true, false, Option, none, some, List, [], ◌∷◌, ◌++◌, not, ◌&&◌, ◌||◌, ◌==◌,
  if◌then◌else◌, is_some, or_else, find, update_where,
}
use corporate_lawyers_backen.World.{
  UserRole, InvoiceStatus, Invoice, TimeEntry, Expense, ClientProfile, EventType, Action,
  EntityType, WebhookEvent, Notification, NotificationType, HttpError, ok, M, pure, ◌>>=◌, ◌>>◌,
  guard, read_db, write_db, log, dispatch,
}
use corporate_lawyers_backen.Roles.{is_client}
use corporate_lawyers_backen.Billing.Status.{same_status, lists, status_transitions, is_draft}
use corporate_lawyers_backen.Billing.Figures.{Numeric, totals}
use corporate_lawyers_backen.Billing.Invoices.Find.{find_one}

pub record UpdateInvoiceDto : Type 0 where
  pub due_date : Option ℕ
  pub tax_rate : Option ℕ
  pub notes : Option ℕ
  pub status : Option InvoiceStatus

-- `where: { invoiceId }`
abbrev pub billed_on : ℕ → Option ℕ → Bool
billed_on invoice_id none = false
billed_on invoice_id (some i) = i == invoice_id

abbrev pub unmark_entries : ℕ → List TimeEntry → List TimeEntry
unmark_entries invoice_id =
    update_where (λ e. billed_on invoice_id e.invoice_id)
      (λ e. record e { is_billed = false; invoice_id = none })

abbrev pub unmark_expenses : ℕ → List Expense → List Expense
unmark_expenses invoice_id =
    update_where (λ e. billed_on invoice_id e.invoice_id)
      (λ e. record e { is_billed = false; invoice_id = none })

-- `unmarkBilledEntries`
abbrev pub unmark_billed_entries : ℕ → M (Unit {0})
unmark_billed_entries invoice_id = write_db λ db. record db {
  time_entries = unmark_entries invoice_id db.time_entries;
  expenses = unmark_expenses invoice_id db.expenses;
}

abbrev pub add_timeline : ℕ → EventType → Bool → M (Unit {0})
add_timeline case_id event_type is_public = write_db λ db. record db {
  timeline =
      db.timeline
      ++ record { case_id = case_id; event_type = event_type; is_public = is_public } ∷ [];
}

-- `dto.status && dto.status !== invoice.status`
abbrev pub changes : Option InvoiceStatus → InvoiceStatus → Bool
changes none old = false
changes (some status) old = not (same_status status old)

abbrev pub mails : Option ClientProfile → List Notification
mails none = []
mails (some p) = record { user_id = p.user_id; kind = NotificationType.email } ∷ []

-- `if (clientProfile) send`
abbrev pub mail_client : Option ClientProfile → M (Unit {0})
mail_client profile w = ok tt (record w { notifications = w.notifications ++ mails profile })

abbrev pub on_sent : Invoice → M (Unit {0})
on_sent invoice = do
  db ← read_db
  mail_client (find (λ p. p.id == invoice.client_profile_id) db.client_profiles)
  add_timeline invoice.case_id EventType.invoice_sent true
  dispatch (WebhookEvent.invoice_sent invoice.id)

-- The side effects of a change of status.
abbrev pub effects : InvoiceStatus → Invoice → M (Unit {0})
effects InvoiceStatus.cancelled invoice = do
  unmark_billed_entries invoice.id
  add_timeline invoice.case_id EventType.invoice_cancelled false
effects InvoiceStatus.sent invoice = on_sent invoice
effects InvoiceStatus.paid invoice = dispatch (WebhookEvent.invoice_paid invoice.id)
effects _ invoice = pure tt

abbrev pub change_status : Option InvoiceStatus → Invoice → M (Unit {0})
change_status none invoice = pure tt
change_status (some status) invoice =
    if same_status status invoice.status
    then pure tt
    else guard (lists (status_transitions invoice.status) status) HttpError.bad_request
      >> effects status invoice

-- `dto.dueDate || dto.taxRate !== undefined`
abbrev pub edits_terms : UpdateInvoiceDto → Bool
edits_terms dto = is_some dto.due_date || is_some dto.tax_rate

-- Whether the request turns the invoice into a paid one, which sets `paidAt`.
abbrev pub becomes_paid : Option InvoiceStatus → InvoiceStatus → Bool
becomes_paid none old = false
becomes_paid (some status) old =
    not (same_status status old) && same_status status InvoiceStatus.paid

module _ (numeric : Numeric) where
  -- The new tax and total, from the stored subtotal.
  abbrev pub retaxed : Option ℕ → Invoice → Invoice
  retaxed none i = i
  retaxed (some rate) i =
      let t = totals numeric (i.subtotal * 100) rate in
      record i { tax_rate = rate; tax_amount = t.tax_amount; total = t.total }

  -- The `data` of the update, on the row that was read.
  abbrev pub edited : (now : ℕ) → UpdateInvoiceDto → Invoice → Invoice
  edited now dto i = record (retaxed dto.tax_rate i) {
    status = or_else dto.status i.status;
    due_date = or_else dto.due_date i.due_date;
    notes = if is_some dto.notes then dto.notes else i.notes;
    paid_at = if becomes_paid dto.status i.status then some now else i.paid_at;
  }

  unfoldable pub update : (now : ℕ) → ℕ → UpdateInvoiceDto → ℕ → UserRole → M Invoice
  update now id dto user_id user_role = do
    guard (not (is_client user_role)) HttpError.forbidden
    invoice ← find_one id (some (user_id, user_role))
    change_status dto.status invoice
    guard (not (not (is_draft invoice.status) && edits_terms dto) || is_some dto.status)
        HttpError.bad_request
    write_db
        λ db. record db { invoices = update_where (λ i. i.id == id) (edited now dto) db.invoices }
    log user_id Action.update EntityType.invoice_entity id
    find_one id none

unfoldable pub remove : (now : ℕ) → ℕ → ℕ → M (Unit {0})
remove now id user_id = do
  invoice ← find_one id none
  guard (is_draft invoice.status) HttpError.bad_request
  unmark_billed_entries id
  write_db λ db. record db {
    invoices = update_where (λ i. i.id == id) (λ i. record i { deleted_at = some now }) db.invoices;
  }
  log user_id Action.delete EntityType.invoice_entity id
