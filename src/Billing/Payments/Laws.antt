-- ===== src/Billing/Payments/Laws.antt =====
-- What the payments of src/modules/billing/payment.service.ts keep, one at a time and in sequence.
use corporate_lawyers_backen.Prelude.{
  ℕ, ◌+◌, ◌≤◌, true, false, some, [], ◌∷◌, ◌++◌, ◌≡◌, refl, sym, ◌∙◌, ap, ◌⊎◌, ◌↔◌, inl, inr, ◌==◌,
  Bool-cases, ==_eq, arith,
}
use corporate_lawyers_backen.World.{
  InvoiceStatus, Invoice, Payment, Tables, World, ok, err, HttpError, final,
}
use corporate_lawyers_backen.Billing.Payments.{
  CreatePaymentDto, payable, lists, find_invoice, total_paid, receive, create,
}
use corporate_lawyers_backen.Billing.Payments.Balance.{
  total_paid-append, find_invoice-update, find_invoice-update_ne, Received, create-cases, Reason,
}

-- No live invoice has received more than its total.
abbrev pub Balanced : Tables → Type 0
Balanced db =
    (id : ℕ) (i : Invoice)
    → find_invoice id db.invoices ≡ some i
    → total_paid id db.payments ≤ i.total

module _ (now new_id : ℕ) (dto : CreatePaymentDto) (user_id : ℕ) (w : World) where
  abbrev pub sum_after : ℕ
  sum_after = total_paid dto.invoice_id w.db.payments + dto.amount

  Received-sum :
      (r : Received now new_id dto user_id w)
      → total_paid dto.invoice_id r.after.db.payments ≡ sum_after
  Received-sum r =
      ap (total_paid dto.invoice_id) r.recorded
      ∙ total_paid-append dto.invoice_id w.db.payments r.payment
      ∙ ground (arith, r.of_invoice, r.of_amount, r.is_complete)

  Received-other :
      (r : Received now new_id dto user_id w) (j : ℕ)
      → (dto.invoice_id == j) ≡ false
      → total_paid j r.after.db.payments ≡ total_paid j w.db.payments
  Received-other r j ne =
      ap (total_paid j) r.recorded
      ∙ total_paid-append j w.db.payments r.payment
      ∙ ground (arith, r.of_invoice)

  Received-row :
      (r : Received now new_id dto user_id w)
      → find_invoice dto.invoice_id r.after.db.invoices
        ≡ some (receive now sum_after r.invoice.total r.invoice)
  Received-row r = rw r.row_after (
      find_invoice-update dto.invoice_id (receive now sum_after r.invoice.total) w.db.invoices
        r.invoice (λ i. refl) (λ i. refl) r.is_row)

  -- The statuses in which an invoice may be paid.
  abbrev pub IsPayable : InvoiceStatus → Type 0
  IsPayable status =
      (status ≡ InvoiceStatus.sent)
      ⊎ (status ≡ InvoiceStatus.partially_paid)
      ⊎ (status ≡ InvoiceStatus.overdue)

  -- The invoice before and after an accepted payment, and what it has received.
  abbrev pub Booked : Payment → World → Type 0
  Booked p w' =
      (i : Invoice) × (i' : Invoice) × (find_invoice dto.invoice_id w.db.invoices ≡ some i)
      × (find_invoice dto.invoice_id w'.db.invoices ≡ some i')
      × IsPayable i.status
      × (w'.db.payments ≡ w.db.payments ++ p ∷ [])
      × (total_paid dto.invoice_id w'.db.payments
          ≡ total_paid dto.invoice_id w.db.payments + dto.amount)
      × (total_paid dto.invoice_id w'.db.payments ≤ i'.total)
      × (i'.total ≡ i.total)
      × ((i'.status ≡ InvoiceStatus.paid) ↔ (total_paid dto.invoice_id w'.db.payments ≡ i'.total))
      × ((i'.status ≡ InvoiceStatus.paid) ⊎ (i'.status ≡ InvoiceStatus.partially_paid))

  payable_lem : (status : InvoiceStatus) → lists payable status ≡ true → IsPayable status
  payable_lem status h = ground arith

  Received-Booked : (r : Received now new_id dto user_id w) → Booked r.payment r.after
  Received-Booked r =
      let sum = Received-sum r in
      let fits = r.fits in
      (
        r.invoice,
        receive now sum_after r.invoice.total r.invoice,
        r.is_row,
        Received-row r,
        payable_lem r.invoice.status r.was_payable,
        r.recorded,
        sum,
        omega arith,
        refl,
        (λ is_paid. ground arith, λ reached. ground arith),
        ground arith,
      )

  -- Every payment request ends in one of two ways. It is refused, with the tables as they were:
  -- with 404 for an unknown invoice, and with 400 when the invoice's status takes no payment or the
  -- amount exceeds what is left of the total. Or the invoice was SENT, PARTIALLY_PAID or OVERDUE,
  -- the payment is the last row of the payments, and the invoice has received it on top of what it
  -- had, never more than its total, and is PAID when the total is reached and PARTIALLY_PAID
  -- otherwise.
  pub create_lem :
      ((e : HttpError) × (w' : World) × (create now new_id dto user_id w ≡ err e w')
        × (w'.db ≡ w.db)
        × Reason dto w.db e)
      ⊎ (p : Payment) × (w' : World) × (create now new_id dto user_id w ≡ ok p w') × Booked p w'
  create_lem = elim (create-cases now new_id dto user_id w) [
    | inl refused ↦ inl refused
    | inr r ↦ inr (r.payment, r.after, r.returns, Received-Booked r)
  ]

  Received-Balanced :
      (r : Received now new_id dto user_id w) → Balanced w.db → Balanced (r.after).db
  Received-Balanced r h id i found = elim (Bool-cases (dto.invoice_id == id)) [
    | inl here ↦
        let e : dto.invoice_id ≡ id = ==_eq dto.invoice_id id here in
        let found' : find_invoice dto.invoice_id r.after.db.invoices ≡ some i = rw (← e) at found in
        let row : some (receive now sum_after r.invoice.total r.invoice) ≡ some i =
          sym (Received-row r) ∙ found' in
        let total : r.invoice.total ≡ i.total = cc in
        let sum = Received-sum r in let fits = r.fits in rw (← e) (omega arith)
    | inr other ↦
        let row : find_invoice id r.after.db.invoices ≡ find_invoice id w.db.invoices =
          rw r.row_after (
            find_invoice-update_ne dto.invoice_id id (receive now sum_after r.invoice.total)
              w.db.invoices (λ i. refl) other) in
        rw (Received-other r id other) (h id i (sym row ∙ found))
  ]

  -- A payment request keeps every live invoice within its total, however it ends.
  pub create-Balanced : Balanced w.db → Balanced (final (create now new_id dto user_id w)).db
  create-Balanced h = elim (create-cases now new_id dto user_id w) [
    | inl (error, world, failed, same, reason) ↦ rw (failed, final) (rw same h)
    | inr r ↦ rw (r.returns, final) (Received-Balanced r h)
  ]
