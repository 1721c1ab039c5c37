-- ===== src/Billing/Invoices/Edits.antt =====
-- `update` of src/modules/billing/invoice.service.ts as a whole.
use corporate_lawyers_backen.Prelude.{
  ℕ, Bool, true, false, Option, none, some, [], ◌∷◌, ◌++◌, ◌≡◌, refl, sym, ap, ◌∙◌, ◌⊎◌, inl, inr,
  not, ◌&&◌, ◌||◌, ◌==◌, is_some, or_else, update_where, Bool-cases, arith,
}
use corporate_lawyers_backen.World.{
  UserRole, InvoiceStatus, Invoice, World, ok, err, HttpError, Action, EntityType, ◌>>=◌,
}
use corporate_lawyers_backen.Roles.{is_client}
use corporate_lawyers_backen.Billing.Status.{status_transitions, is_draft}
use corporate_lawyers_backen.Billing.Figures.{Numeric}
use corporate_lawyers_backen.Billing.Payments.{find_invoice}
use corporate_lawyers_backen.Billing.Payments.Balance.{find_invoice-update}
use corporate_lawyers_backen.Billing.Invoices.Find.{find_one}
use corporate_lawyers_backen.Billing.Invoices.Update.{
  UpdateInvoiceDto, change_status, edits_terms, edited, retaxed, update,
}
use corporate_lawyers_backen.Billing.Invoices.Cycle.{find_one-found}
use corporate_lawyers_backen.Billing.Invoices.Transitions.{
  find_one-view, Permitted, Unlisted, change_status-cases,
}

change_status-idle :
    (status : Option InvoiceStatus) (i : Invoice) (w : World)
    → is_some status ≡ false
    → change_status status i w ≡ ok tt w
change_status-idle none i w h = refl
change_status-idle (some status) i w h = absurd (cc)

module _ (numeric : Numeric) (now id : ℕ) (dto : UpdateInvoiceDto) (user_id : ℕ) (role : UserRole)
    (w : World) where
  -- The last guard of `update`.
  abbrev pub may_edit : Invoice → Bool
  may_edit i = not (not (is_draft i.status) && edits_terms dto) || is_some dto.status

  abbrev pub Edited : Type 0
  Edited =
      (i : Invoice) × (w' : World) × (find_invoice id w.db.invoices ≡ some i)
      × (is_client role ≡ false)
      × (find_one id (some (user_id, role)) w ≡ ok i w)
      × (update numeric now id dto user_id role w ≡ ok (edited numeric now dto i) w')
      × (find_invoice id w'.db.invoices ≡ some (edited numeric now dto i))
      × Permitted i.status (or_else dto.status i.status)
      × (may_edit i ≡ true)

  -- A client asks, or the invoice may not be seen, or the status is not listed, or the terms may not
  -- be edited.
  abbrev pub Reason : HttpError → Type 0
  Reason e =
      ((is_client role ≡ true) × (e ≡ HttpError.forbidden))
      ⊎ (find_one id (some (user_id, role)) w ≡ err e w)
      ⊎ (i : Invoice) × (find_invoice id w.db.invoices ≡ some i)
        × (e ≡ HttpError.bad_request)
        × (Unlisted dto.status i.status ⊎ (may_edit i ≡ false))

  abbrev pub Refused : Type 0
  Refused =
      (e : HttpError) × (w' : World) × (update numeric now id dto user_id role w ≡ err e w')
      × (w'.db ≡ w.db)
      × Reason e

  edited-row :
      (i : Invoice) (w' : World)
      → find_invoice id w.db.invoices ≡ some i
      → w'.db.invoices ≡ w.db.invoices
      → find_invoice id (update_where (λ i. i.id == id) (edited numeric now dto) w'.db.invoices)
        ≡ some (edited numeric now dto i)
  edited-row i w' found kept = rw kept (
      find_invoice-update id (edited numeric now dto) w.db.invoices i (λ i. edited-id i)
        (λ i. edited-deleted i) found)
    where
      edited-id : (i : Invoice) → (edited numeric now dto i).id ≡ i.id
      edited-id i = ground arith

      edited-deleted : (i : Invoice) → (edited numeric now dto i).deleted_at ≡ i.deleted_at
      edited-deleted i = ground arith

  -- The world in which `update` reads the invoice for the last time.
  abbrev stored_world : World → World
  stored_world w' = record w' {
    db = record (w'.db) {
      invoices = update_where (λ i. i.id == id) (edited numeric now dto) w'.db.invoices;
    };
    audit =
        w'.audit
        ++ record {
          user_id = user_id;
          action = Action.update;
          entity_type = EntityType.invoice_entity;
          entity_id = id;
        }
          ∷ [];
  }

  -- An update of an invoice is all or nothing. It is refused, with the tables as they were, when a
  -- client asks for it, when `findOne` refuses the user the invoice, when it asks for another status
  -- that the table does not list, or when it edits the terms of an issued invoice without a status.
  -- Otherwise the user is no client, `findOne` shows the user the invoice, the row is rewritten as the
  -- request says and handed back, and the new status is the
  -- old one or one that the table lists behind it.
  pub invoice_update_lem : Refused ⊎ Edited
  unfolding update
  invoice_update_lem = elim (Bool-cases (is_client role)) [
    | inl client ↦ inl (HttpError.forbidden, w, rw (client, ◌>>=◌), refl, inl (client, refl))
    | inr staff ↦ elim (find_one-view id (some (user_id, role)) w) [
      | inl (e, refused) ↦ inl (e, w, rw (staff, refused, ◌>>=◌), refl, inr (inl refused))
      | inr (i, found, reads) ↦ elim (change_status-cases dto.status i w) [
        | inl (stops, unlisted) ↦ inl (
          HttpError.bad_request,
          w,
          rw (staff, reads, stops, ◌>>=◌),
          refl,
          inr (inr (i, found, refl, inl unlisted)),
        )
        | inr (w', changed, kept, permitted) ↦ elim (Bool-cases (may_edit i)) [
          | inl may ↦
              let row = edited-row i w' found kept in
              let last = find_one-found id (stored_world w') (edited numeric now dto i) row in
              inr (
                i,
                stored_world w',
                found,
                staff,
                reads,
                rw (staff, reads, changed, may, ◌>>=◌) last,
                row,
                permitted,
                may,
              )
          | inr may_not ↦
              let idle = change_status-idle dto.status i w (ground arith) in
              inl (
                HttpError.bad_request,
                w,
                rw (staff, reads, idle, may_not, ◌>>=◌),
                refl,
                inr (inr (i, found, refl, inr may_not)),
              )
        ]
      ]
    ]
  ]

stays :
    (old new : InvoiceStatus)
    → (old ≡ InvoiceStatus.paid) ⊎ (old ≡ InvoiceStatus.cancelled)
    → Permitted old new
    → new ≡ old
unfolding status_transitions
stays old new over permitted = ground arith

-- PAID and CANCELLED are final: no update takes an invoice out of them.
pub update-final_status :
    (numeric : Numeric) (now id : ℕ) (dto : UpdateInvoiceDto) (user_id : ℕ) (role : UserRole)
    (w w' : World) (i i' : Invoice)
    → find_invoice id w.db.invoices ≡ some i
    → (i.status ≡ InvoiceStatus.paid) ⊎ (i.status ≡ InvoiceStatus.cancelled)
    → update numeric now id dto user_id role w ≡ ok i' w'
    → i'.status ≡ i.status
update-final_status numeric now id dto user_id role w w' i i' found over e =
    elim (invoice_update_lem numeric now id dto user_id role w) [
      | inl (error, world, refused, same, reason) ↦ absurd (clash error world refused)
      | inr (row, world, is_row, staff, reads, returns, row', permitted, may) ↦
          let same_row : row ≡ i = cc in
          let same_result : edited numeric now dto row ≡ i' = cc in
          ap (λ x. x.status) (sym same_result)
          ∙ stays row.status (or_else dto.status row.status) (rw same_row over) permitted
          ∙ ap (λ x. x.status) same_row
    ]
  where
    clash :
        (error : HttpError) (world : World)
        → update numeric now id dto user_id role w ≡ err error world
        → ⊥
    clash error world refused = cc

find_one-admin :
    (id user_id : ℕ) (w : World) (i : Invoice)
    → find_invoice id w.db.invoices ≡ some i
    → find_one id (some (user_id, UserRole.admin)) w ≡ ok i w
unfolding find_one
find_one-admin id user_id w i h = rw (h, ◌>>=◌)

abbrev pub retax : ℕ → Option InvoiceStatus → UpdateInvoiceDto
retax rate status = record { due_date = none; tax_rate = some rate; notes = none; status = status }

-- The guard that keeps the terms of an issued invoice only looks at whether a status is given. The
-- tax rate and the total of any PAID invoice can be rewritten by repeating its status, and the same
-- request without the status is refused.
pub update-retaxes_paid :
    (numeric : Numeric) (now id rate user_id : ℕ) (w : World) (i : Invoice)
    → find_invoice id w.db.invoices ≡ some i
    → i.status ≡ InvoiceStatus.paid
    → (w' : World) × (update numeric now id (retax rate none) user_id UserRole.admin w
        ≡ err HttpError.bad_request w)
      × (update numeric now id (retax rate (some InvoiceStatus.paid)) user_id UserRole.admin w
          ≡ ok (retaxed numeric (some rate) i) w')
      × (find_invoice id w'.db.invoices ≡ some (retaxed numeric (some rate) i))
unfolding update
update-retaxes_paid numeric now id rate user_id w i found paid =
    let dto = retax rate (some InvoiceStatus.paid) in
    let reads = find_one-admin id user_id w i found in
    let draft : is_draft i.status ≡ false = rw paid in
    let idle : change_status (some InvoiceStatus.paid) i w ≡ ok tt w = rw paid in
    let same : edited numeric now dto i ≡ retaxed numeric (some rate) i = ground arith in
    let row = edited-row numeric now id dto user_id UserRole.admin w i w found refl in
    let last =
      find_one-found id (stored_world numeric now id dto user_id UserRole.admin w w)
        (edited numeric now dto i) row in
    (
      stored_world numeric now id dto user_id UserRole.admin w w,
      rw (reads, draft, ◌>>=◌),
      rw (← same) (rw (reads, idle, draft, ◌>>=◌) last),
      rw (← same) row,
    )
