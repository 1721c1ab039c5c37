-- ===== src/Billing/Payments/Balance.antt =====
-- What `create` of src/modules/billing/payment.service.ts does to the balance of its invoice.
use corporate_lawyers_backen.Prelude.{
  ℕ, ◌+◌, ◌≤◌, ◌<◌, ltb→lt, none, true, false, some, List, [], ◌∷◌, ◌++◌, ◌≡◌, refl, ◌⊎◌, inl, inr,
  ◌==◌, ltb, if◌then◌else◌, or_else, update_where, Bool-cases, Option-cases, arith,
}
use corporate_lawyers_backen.World.{
  PaymentStatus, Invoice, Tables, Payment, World, ok, err, HttpError, ◌>>=◌, settle, final,
}
use corporate_lawyers_backen.Billing.Status.{lists}
use corporate_lawyers_backen.Billing.Payments.{
  CreatePaymentDto, find_invoice, completed, total_paid, payable, receive, create,
}

pub total_paid-append :
    (id : ℕ) (payments : List Payment) (p : Payment)
    → total_paid id (payments ++ p ∷ [])
      ≡ total_paid id payments + (if completed id p then p.amount else 0)
total_paid-append id [] p = ground arith
total_paid-append id (q ∷ payments) p = ground (arith, total_paid-append id payments p)

pub find_invoice-update :
    (k : ℕ) (f : Invoice → Invoice) (rows : List Invoice) (i : Invoice)
    → ((i : Invoice) → (f i).id ≡ i.id)
    → ((i : Invoice) → (f i).deleted_at ≡ i.deleted_at)
    → find_invoice k rows ≡ some i
    → find_invoice k (update_where (λ i. i.id == k) f rows) ≡ some (f i)
find_invoice-update k f [] i same live e = ground arith
find_invoice-update k f (r ∷ rows) i same live e =
    ground (arith, same r, live r, find_invoice-update k f rows i same live)

pub find_invoice-update_ne :
    (k j : ℕ) (f : Invoice → Invoice) (rows : List Invoice)
    → ((i : Invoice) → (f i).id ≡ i.id)
    → (k == j) ≡ false
    → find_invoice j (update_where (λ i. i.id == k) f rows) ≡ find_invoice j rows
find_invoice-update_ne k j f [] same ne = refl
find_invoice-update_ne k j f (r ∷ rows) same ne =
    ground (arith, same r, find_invoice-update_ne k j f rows same ne)

-- How a payment of `dto.amount` for the invoice `i` ends, from `w`.
pub record Received (now new_id : ℕ) (dto : CreatePaymentDto) (user_id : ℕ) (w : World)
    : Type 0 where
  pub invoice : Invoice
  pub payment : Payment
  pub after : World
  pub is_row : find_invoice dto.invoice_id w.db.invoices ≡ some invoice
  pub returns : create now new_id dto user_id w ≡ ok payment after
  pub was_payable : lists payable invoice.status ≡ true
  pub fits : total_paid dto.invoice_id w.db.payments + dto.amount ≤ invoice.total
  pub recorded : after.db.payments ≡ w.db.payments ++ payment ∷ []
  pub of_invoice : payment.invoice_id ≡ dto.invoice_id
  pub of_amount : payment.amount ≡ dto.amount
  pub is_complete : payment.status ≡ PaymentStatus.completed
  pub row_after :
      after.db.invoices
      ≡ update_where
          (λ i. i.id == dto.invoice_id)
          (receive now (total_paid dto.invoice_id w.db.payments + dto.amount) invoice.total)
          w.db.invoices

-- Why a payment is refused: its invoice is unknown, or may not be paid in its status, or the amount
-- exceeds what is left of the total.
abbrev pub Reason : CreatePaymentDto → Tables → HttpError → Type 0
Reason dto db e =
    ((find_invoice dto.invoice_id db.invoices ≡ none) × (e ≡ HttpError.not_found))
    ⊎ (i : Invoice) × (find_invoice dto.invoice_id db.invoices ≡ some i)
      × (e ≡ HttpError.bad_request)
      × ((lists payable i.status ≡ false)
          ⊎ (i.total < total_paid dto.invoice_id db.payments + dto.amount))

-- Every payment request ends in one of two ways: refused, with the tables as they were, or received.
pub create-cases :
    (now new_id : ℕ) (dto : CreatePaymentDto) (user_id : ℕ) (w : World)
    → ((e : HttpError) × (w' : World) × (create now new_id dto user_id w ≡ err e w')
        × (w'.db ≡ w.db)
        × Reason dto w.db e)
      ⊎ Received now new_id dto user_id w
unfolding create
create-cases now new_id dto user_id w =
    elim (Option-cases (find_invoice dto.invoice_id w.db.invoices)) [
      | inl missing ↦ inl (
        HttpError.not_found,
        record w { tx = w.db },
        rw (missing, ◌>>=◌, settle),
        refl,
        inl (missing, refl),
      )
      | inr (i, found) ↦ elim (Bool-cases (lists payable i.status)) [
        | inr unpayable ↦ inl (
          HttpError.bad_request,
          record w { tx = w.db },
          rw (found, unpayable, ◌>>=◌, settle),
          refl,
          inr (i, found, refl, inl unpayable),
        )
        | inl ready ↦
            elim (Bool-cases (ltb i.total (total_paid dto.invoice_id w.db.payments + dto.amount))) [
              | inl exceeds ↦ inl (
                HttpError.bad_request,
                record w { tx = w.db },
                rw (found, ready, exceeds, ◌>>=◌, settle),
                refl,
                inr (i, found, refl, inr (ltb→lt _ _ exceeds)),
              )
              | inr fits ↦ inr (record {
                invoice = i;
                payment = record {
                  id = new_id;
                  invoice_id = dto.invoice_id;
                  amount = dto.amount;
                  method = dto.method;
                  status = PaymentStatus.completed;
                  paid_at = or_else dto.paid_at now;
                };
                after = final (create now new_id dto user_id w);
                is_row = found;
                returns = rw (found, ready, fits, ◌>>=◌, settle, final);
                was_payable = ready;
                fits = ground arith;
                recorded = rw (found, ready, fits, ◌>>=◌, settle, final);
                of_invoice = refl;
                of_amount = refl;
                is_complete = refl;
                row_after = rw (found, ready, fits, ◌>>=◌, settle, final);
              })
            ]
      ]
    ]
