-- ===== src/World/Monad.antt =====
-- The state that a request works on, and the monad of the services: a request ends with a value or
-- with an HTTP exception, and keeps what it has written in both cases.
use corporate_lawyers_backen.Prelude.{ℕ, Bool, List, ◌∷◌, [], ◌++◌}
use corporate_lawyers_backen.World.Request.{Ended, ok, err}
use corporate_lawyers_backen.World.Rows.{
  User, ClientProfile, LawyerProfile, Case, CaseAssignment, TimeEntry, Expense, Invoice,
  InvoiceItem, Payment, Lead, IntakeForm, ConflictCheck, CaseParty,
}

-- The `eventType` of a timeline entry; titles and metadata are left out.
pub data EventType : Type 0 where
  case_created status_changed lawyer_assigned lawyer_removed invoice_created invoice_cancelled
        invoice_sent invoice_paid payment_received :
      EventType

pub record TimelineEntry : Type 0 where
  pub case_id : ℕ
  pub event_type : EventType
  pub is_public : Bool

pub data Action : Type 0 where
  create update delete status_change assign_lawyer remove_assignment convert conflict_check : Action

pub data EntityType : Type 0 where
  case_entity invoice_entity payment_entity time_entry_entity expense_entity lead_entity :
      EntityType

pub record AuditEntry : Type 0 where
  pub user_id : ℕ
  pub action : Action
  pub entity_type : EntityType
  pub entity_id : ℕ

-- The webhook events, with the id that their payload names first.
pub data WebhookEvent : Type 0 where
  case_created case_status_changed case_closed invoice_created invoice_sent invoice_paid
        payment_received lead_created lead_converted :
      ℕ → WebhookEvent

pub data NotificationType : Type 0 where
  email in_app : NotificationType

pub record Notification : Type 0 where
  pub user_id : ℕ
  pub kind : NotificationType

pub record Tables : Type 0 where
  pub users : List User
  pub client_profiles : List ClientProfile
  pub lawyer_profiles : List LawyerProfile
  pub cases : List Case
  pub assignments : List CaseAssignment
  pub timeline : List TimelineEntry
  pub time_entries : List TimeEntry
  pub expenses : List Expense
  pub invoices : List Invoice
  pub items : List InvoiceItem
  pub payments : List Payment
  pub leads : List Lead
  pub intake_forms : List IntakeForm
  pub conflict_checks : List ConflictCheck
  pub parties : List CaseParty

-- `db` is what `this.prisma` reads and writes, the committed rows. `tx` is what the client of an
-- open transaction reads and writes. The logs have the newest entry at the end.
pub record World : Type 0 where
  pub db : Tables
  pub tx : Tables
  pub cache : List (ℕ × Case)
  pub audit : List AuditEntry
  pub webhooks : List WebhookEvent
  pub notifications : List Notification

abbrev pub Outcome : Type 0 → Type 0
Outcome = Ended World

abbrev pub M : Type 0 → Type 0
M A = World → Outcome A

abbrev pub read_db : M Tables
read_db w = ok w.db w

abbrev pub write_db : (Tables → Tables) → M (Unit {0})
write_db f w = ok tt (record w { db = f w.db })

abbrev pub read_tx : M Tables
read_tx w = ok w.tx w

abbrev pub write_tx : (Tables → Tables) → M (Unit {0})
write_tx f w = ok tt (record w { tx = f w.tx })

-- `AuditService.log`, `WebhookDispatcherService.dispatch` and `NotificationService.send`, as far as
-- a service that calls them sees them: none of them writes to a table of `Tables`.
abbrev pub log : ℕ → Action → EntityType → ℕ → M (Unit {0})
log user_id action entity_type entity_id w = ok tt (record w {
  audit =
      w.audit
      ++ record {
        user_id = user_id;
        action = action;
        entity_type = entity_type;
        entity_id = entity_id;
      }
        ∷ [];
})

abbrev pub dispatch : WebhookEvent → M (Unit {0})
dispatch event w = ok tt (record w { webhooks = w.webhooks ++ event ∷ [] })

abbrev pub send : ℕ → NotificationType → M (Unit {0})
send user_id kind w =
    ok tt (record w {
      notifications = w.notifications ++ record { user_id = user_id; kind = kind } ∷ [];
    })

-- How an interactive transaction ends: its rows are committed, or dropped when the callback throws.
abbrev pub settle : {A : Type 0} → Tables → Outcome A → Outcome A
settle before (ok a w) = ok a (record w { db = w.tx })
settle before (err e w) = err e (record w { tx = before })

-- `prisma.$transaction(callback)` at isolation level Serializable. The callback's client works on
-- a copy of the tables; `this.prisma` does not see that copy until the callback has returned.
abbrev pub transaction : {A : Type 0} → M A → M A
transaction callback w = settle w.db (callback (record w { tx = w.db }))
