-- ===== src/Examples/Billing.antt =====
-- The theorems on src/modules/billing at concrete rows, and runs of the operations.
use corporate_lawyers_backen.Prelude.{
  ℕ, ◌+◌, ◌≤◌, none, some, [], ◌∷◌, ◌++◌, ◌≡◌, refl, ◌⊎◌, inr, find, select, not, ◌==◌, arith,
}
use corporate_lawyers_backen.World.{
  UserRole, InvoiceStatus, PaymentStatus, PaymentMethod, Payment, WebhookEvent, InvoiceItem, World,
  ok, err, HttpError, final,
}
use corporate_lawyers_backen.Billing.Payments.{CreatePaymentDto, find_invoice, create as pay}
use corporate_lawyers_backen.Billing.Payments.Balance.{Reason}
use corporate_lawyers_backen.Billing.Payments.Laws.{Balanced, Booked, create_lem, create-Balanced}
use corporate_lawyers_backen.Billing.Figures.{Item, subtotal_of, totals}
use corporate_lawyers_backen.Billing.Figures.Rounding.{half_up, totals-within_a_cent}
use corporate_lawyers_backen.Billing.Invoices.Find.{find_one}
use corporate_lawyers_backen.Billing.Invoices.Create.{
  CreateInvoiceDto, mark_entries, mark_expenses, invoice_row, create_rows, create_in_tx, create,
}
use corporate_lawyers_backen.Billing.Invoices.Update.{UpdateInvoiceDto, retaxed, update, remove}
use corporate_lawyers_backen.Billing.Invoices.Items.{find_item, remove_item}
use corporate_lawyers_backen.Billing.Invoices.Creation.{create-fails}
use corporate_lawyers_backen.Billing.Invoices.Billed.{IsBillable, IsBillableExpense, Listed}
use corporate_lawyers_backen.Billing.Invoices.Cycle.{create_rows-bills_unbilled, remove-create_rows}
use corporate_lawyers_backen.Billing.Invoices.Reconcile.{
  NotEditable, NotAnItem, Reconciled, remove_item_lem,
}
use corporate_lawyers_backen.Billing.Invoices.Edits.{
  Refused, Edited, invoice_update_lem, retax, update-retaxes_paid,
}
use corporate_lawyers_backen.Samples.{invoice_with, world}

-- 500.00 on the sent invoice.
abbrev part_payment : CreatePaymentDto
part_payment = record {
  invoice_id = 71;
  amount = 50000;
  method = PaymentMethod.cash;
  paid_at = none;
}

abbrev part_paid : Payment
part_paid = record {
  id = 90;
  invoice_id = 71;
  amount = 50000;
  method = PaymentMethod.cash;
  status = PaymentStatus.completed;
  paid_at = 500;
}

create_lem_example :
    ((e : HttpError) × (w' : World) × (pay 500 90 part_payment 1 world ≡ err e w')
      × (w'.db ≡ world.db)
      × Reason part_payment world.db e)
    ⊎ (p : Payment) × (w' : World) × (pay 500 90 part_payment 1 world ≡ ok p w')
      × Booked 500 90 part_payment 1 world p w'
create_lem_example = create_lem 500 90 part_payment 1 world

pay_run : pay 500 90 part_payment 1 world ≡ ok part_paid (final (pay 500 90 part_payment 1 world))
unfolding pay
pay_run = refl

world-Balanced : Balanced world.db
world-Balanced id i h = omega arith

create-Balanced_example : Balanced (final (pay 500 90 part_payment 1 world)).db
create-Balanced_example = create-Balanced 500 90 part_payment 1 world world-Balanced

-- Bills the entry and the expense of the case.
abbrev bill : CreateInvoiceDto
bill = record {
  case_id = 10;
  client_profile_id = 30;
  due_date = 900;
  tax_rate = none;
  notes = none;
  time_entry_ids = 50 ∷ [];
  expense_ids = 60 ∷ [];
  items = record { description = 0; quantity = 200; unit_price = 300000 } ∷ [];
}

abbrev item_ids : ℕ → ℕ
item_ids n = 81 + n

create-fails_example :
    (e : HttpError) × (w' : World) × (create half_up 99 item_ids bill 1 world ≡ err e w')
    × (w'.db ≡ world.db)
    × ((w'.webhooks ≡ world.webhooks)
        ⊎ (w'.webhooks ≡ world.webhooks ++ WebhookEvent.invoice_created 99 ∷ []))
create-fails_example = create-fails half_up 99 item_ids bill 1 world refl

-- The request of `bill` passes every check, and ends in 404 all the same.
create_run :
    create half_up 99 item_ids bill 1 world
    ≡ err HttpError.not_found (final (create half_up 99 item_ids bill 1 world))
unfolding create create_in_tx create_rows find_one
create_run = refl

abbrev billed_world : World
billed_world = final (create_rows half_up 99 item_ids bill world)

-- 5000.00 + 1500.00 + 6000.00, and 16 % of that.
create_rows_run :
    (create_rows half_up 99 item_ids bill world ≡ ok tt billed_world)
    × (find_invoice 99 billed_world.tx.invoices
        ≡ some (record (invoice_with 99 InvoiceStatus.draft) {
          subtotal = 1250000;
          tax_amount = 200000;
          total = 1450000;
        }))
unfolding create_rows
create_rows_run = (refl, refl)

create_rows-bills_unbilled_example :
    Listed (λ e. e.id) (50 ∷ []) (IsBillable 10) world.tx.time_entries
    × Listed (λ e. e.id) (60 ∷ []) (IsBillableExpense 10) world.tx.expenses
    × (billed_world.tx.time_entries ≡ mark_entries (50 ∷ []) 99 world.tx.time_entries)
    × (billed_world.tx.expenses ≡ mark_expenses (60 ∷ []) 99 world.tx.expenses)
    × (billed_world.tx.invoices ≡ world.tx.invoices ++ invoice_row half_up 99 bill world.tx ∷ [])
create_rows-bills_unbilled_example =
    create_rows-bills_unbilled half_up 99 item_ids bill world billed_world (tt, tt) (tt, tt)
      create_rows_run.0

remove-create_rows_example :
    (w'' : World) × (remove 500 99 1 (record billed_world { db = billed_world.tx }) ≡ ok tt w'')
    × (w''.db.time_entries ≡ world.tx.time_entries)
    × (w''.db.expenses ≡ world.tx.expenses)
    × (find_invoice 99 w''.db.invoices ≡ none)
remove-create_rows_example =
    remove-create_rows half_up 99 item_ids bill world 500 1 billed_world (tt, tt) (tt, tt) refl
      ((inr refl, refl), tt) ((inr refl, refl), tt) create_rows_run.0

totals-within_a_cent_example :
    let t = totals half_up (subtotal_of bill.items) 16 in
    (t.total ≤ t.subtotal + t.tax_amount + 1) × (t.subtotal + t.tax_amount ≤ t.total + 1)
totals-within_a_cent_example = totals-within_a_cent half_up bill.items 16

abbrev extra : Item
extra = record { description = 0; quantity = 25; unit_price = 18 }

remove_item_lem_example :
    ((e : HttpError) × (remove_item half_up 70 80 world ≡ err e world)
      × (NotEditable 70 world.db e ⊎ NotAnItem 70 80 world.db e))
    ⊎ (item : InvoiceItem) × (w' : World) × (remove_item half_up 70 80 world ≡ ok tt w')
      × (find_item 70 80 world.db.items ≡ some item)
      × (w'.db.items ≡ select (λ x. not (x.id == 80)) world.db.items)
      × (find (λ item. item.id == 80) w'.db.items ≡ none)
      × Reconciled 70 w'.db
remove_item_lem_example = remove_item_lem half_up 70 world 80

abbrev send_invoice : UpdateInvoiceDto
send_invoice = record {
  due_date = none;
  tax_rate = none;
  notes = none;
  status = some InvoiceStatus.sent;
}

invoice_update_lem_example :
    Refused half_up 500 70 send_invoice 1 UserRole.admin world
    ⊎ Edited half_up 500 70 send_invoice 1 UserRole.admin world
invoice_update_lem_example = invoice_update_lem half_up 500 70 send_invoice 1 UserRole.admin world

abbrev annotate : UpdateInvoiceDto
annotate = record { due_date = none; tax_rate = none; notes = some 4; status = none }

update-retaxes_paid_example :
    (w' : World) × (update half_up 500 72 (retax 0 none) 1 UserRole.admin world
      ≡ err HttpError.bad_request world)
    × (update half_up 500 72 (retax 0 (some InvoiceStatus.paid)) 1 UserRole.admin world
        ≡ ok (retaxed half_up (some 0) (invoice_with 72 InvoiceStatus.paid)) w')
    × (find_invoice 72 w'.db.invoices
        ≡ some (retaxed half_up (some 0) (invoice_with 72 InvoiceStatus.paid)))
update-retaxes_paid_example =
    update-retaxes_paid half_up 500 72 0 1 world (invoice_with 72 InvoiceStatus.paid) refl refl
