-- ===== src/Billing/Status.antt =====
-- The status transitions of src/modules/billing/invoice.service.ts.
use corporate_lawyers_backen.Prelude.{ℕ, Bool, true, false, List, [], ◌∷◌, ◌||◌, ◌==◌}
use corporate_lawyers_backen.World.{InvoiceStatus, PaymentStatus}

abbrev pub ordinal : InvoiceStatus → ℕ
ordinal InvoiceStatus.draft = 0
ordinal InvoiceStatus.sent = 1
ordinal InvoiceStatus.paid = 2
ordinal InvoiceStatus.overdue = 3
ordinal InvoiceStatus.cancelled = 4
ordinal InvoiceStatus.partially_paid = 5

-- `===` on statuses
abbrev pub same_status : InvoiceStatus → InvoiceStatus → Bool
same_status s t = ordinal s == ordinal t

-- `statuses.includes(status)`
abbrev pub lists : List InvoiceStatus → InvoiceStatus → Bool
lists [] t = false
lists (s ∷ ss) t = same_status s t || lists ss t

-- STATUS_TRANSITIONS
unfoldable pub status_transitions : InvoiceStatus → List InvoiceStatus
status_transitions InvoiceStatus.draft = InvoiceStatus.sent ∷ InvoiceStatus.cancelled ∷ []
status_transitions InvoiceStatus.sent =
    InvoiceStatus.paid ∷ InvoiceStatus.partially_paid ∷ InvoiceStatus.overdue
    ∷ InvoiceStatus.cancelled ∷ []
status_transitions InvoiceStatus.partially_paid =
    InvoiceStatus.paid ∷ InvoiceStatus.overdue ∷ InvoiceStatus.cancelled ∷ []
status_transitions InvoiceStatus.overdue =
    InvoiceStatus.paid ∷ InvoiceStatus.partially_paid ∷ InvoiceStatus.cancelled ∷ []
status_transitions InvoiceStatus.cancelled = []
status_transitions InvoiceStatus.paid = []

abbrev pub is_draft : InvoiceStatus → Bool
is_draft s = same_status s InvoiceStatus.draft

abbrev pub is_completed : PaymentStatus → Bool
is_completed PaymentStatus.completed = true
is_completed _ = false
