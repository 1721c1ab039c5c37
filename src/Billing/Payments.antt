-- ===== src/Billing/Payments.antt =====
-- src/modules/billing/payment.service.ts, `create`.
pub mod Balance
pub mod Laws
use corporate_lawyers_backen.Prelude.{
  ℕ, ◌+◌, Bool, true, false, Option, none, some, List, [], ◌∷◌, ◌++◌, not, ◌&&◌, ◌||◌, ◌==◌, ltb,
  leb, if◌then◌else◌, is_some, or_else, find, select, update_where, sum_by,
}
use corporate_lawyers_backen.World.{
  InvoiceStatus, PaymentStatus, PaymentMethod, CaseAssignmentRole, Invoice, Payment, CaseAssignment,
  EventType, Action, EntityType, WebhookEvent, NotificationType, Notification, Tables, World,
  HttpError, ok, M, pure, ◌>>=◌, ◌>>◌, guard, need, read_tx, write_tx, log, dispatch, transaction,
}
use corporate_lawyers_backen.Billing.Status.{lists, is_completed}
use corporate_lawyers_backen.Cases.Assignments.{leads}

pub record CreatePaymentDto : Type 0 where
  pub invoice_id : ℕ
  pub amount : ℕ
  pub method : PaymentMethod
  pub paid_at : Option ℕ

abbrev pub is_live : Invoice → Bool
is_live i = not (is_some i.deleted_at)

abbrev pub find_invoice : ℕ → List Invoice → Option Invoice
find_invoice id = find (λ i. i.id == id && is_live i)

-- `payments: { where: { status: COMPLETED } }`
abbrev pub completed : ℕ → Payment → Bool
completed invoice_id p = p.invoice_id == invoice_id && is_completed p.status

-- The sum of an invoice's completed payments, in hundredths.
abbrev pub total_paid : ℕ → List Payment → ℕ
total_paid invoice_id payments = sum_by (λ p. p.amount) (select (completed invoice_id) payments)

abbrev pub payable : List InvoiceStatus
payable = InvoiceStatus.sent ∷ InvoiceStatus.partially_paid ∷ InvoiceStatus.overdue ∷ []

abbrev pub settled : ℕ → ℕ → InvoiceStatus
settled paid total = if leb total paid then InvoiceStatus.paid else InvoiceStatus.partially_paid

-- The two `tx.invoice.update` calls: only a full payment sets `paidAt`.
abbrev pub receive : (now paid total : ℕ) → Invoice → Invoice
receive now paid total i = record i {
  status = settled paid total;
  paid_at = if leb total paid then some now else i.paid_at;
}

abbrev pub event_of : ℕ → ℕ → EventType
event_of paid total = if leb total paid then EventType.invoice_paid else EventType.payment_received

-- `if (leadAttorney) send`
abbrev pub notices : Option CaseAssignment → List Notification
notices none = []
notices (some a) = record { user_id = a.user_id; kind = NotificationType.in_app } ∷ []

abbrev pub notify : Option CaseAssignment → M (Unit {0})
notify lead w = ok tt (record w { notifications = w.notifications ++ notices lead })

-- The callback of the transaction. `amount > total - paid` is written with `paid` on the other
-- side, since the balance may be negative.
unfoldable pub create_in_tx : (now new_id : ℕ) → CreatePaymentDto → ℕ → M Payment
create_in_tx now new_id dto user_id = do
  tx ← read_tx
  invoice ← need (find_invoice dto.invoice_id tx.invoices) HttpError.not_found
  guard (lists payable invoice.status) HttpError.bad_request
  let paid = total_paid dto.invoice_id tx.payments
  guard (not (ltb invoice.total (paid + dto.amount))) HttpError.bad_request
  let payment : Payment = record {
    id = new_id;
    invoice_id = dto.invoice_id;
    amount = dto.amount;
    method = dto.method;
    status = PaymentStatus.completed;
    paid_at = or_else dto.paid_at now;
  }
  write_tx λ t. record t { payments = t.payments ++ payment ∷ [] }
  write_tx λ t. record t {
    invoices =
        update_where (λ i. i.id == dto.invoice_id) (receive now (paid + dto.amount) invoice.total)
          t.invoices;
  }
  write_tx λ t. record t {
    timeline =
        t.timeline
        ++ record {
          case_id = invoice.case_id;
          event_type = event_of (paid + dto.amount) invoice.total;
          is_public = true;
        }
          ∷ [];
  }
  notify (find (leads invoice.case_id) tx.assignments)
  log user_id Action.create EntityType.payment_entity new_id
  dispatch (WebhookEvent.payment_received new_id)
  pure payment

unfoldable pub create : (now new_id : ℕ) → CreatePaymentDto → ℕ → M Payment
unfolding create_in_tx
create now new_id dto user_id = transaction (create_in_tx now new_id dto user_id)
