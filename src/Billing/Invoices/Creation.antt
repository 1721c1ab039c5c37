-- ===== src/Billing/Invoices/Creation.antt =====
-- What `create` of src/modules/billing/invoice.service.ts leaves behind.
use corporate_lawyers_backen.Prelude.{
  ℕ, Bool, true, false, none, [], ◌∷◌, ◌++◌, ◌≡◌, refl, ◌⊎◌, inl, inr, ◌==◌, length, select,
  Bool-cases, Option-cases,
}
use corporate_lawyers_backen.World.{
  Action, EntityType, WebhookEvent, Tables, World, ok, err, HttpError, ◌>>=◌, settle, final,
}
use corporate_lawyers_backen.Cases.Records.{find_case}
use corporate_lawyers_backen.Billing.Figures.{Numeric}
use corporate_lawyers_backen.Billing.Payments.{find_invoice}
use corporate_lawyers_backen.Billing.Invoices.Find.{find_one}
use corporate_lawyers_backen.Billing.Invoices.Create.{
  CreateInvoiceDto, billable_entry, billable_expense, create_rows, create_in_tx, create,
}

pub find_one-missing :
    (id : ℕ) (w : World)
    → find_invoice id w.db.invoices ≡ none
    → find_one id none w ≡ err HttpError.not_found w
unfolding find_one
find_one-missing id w h = rw (h, ◌>>=◌)

-- The two checks of `create_rows`.
abbrev pub entries_ok : CreateInvoiceDto → Tables → Bool
entries_ok dto db =
    length (select (billable_entry dto.time_entry_ids dto.case_id) db.time_entries)
    == length dto.time_entry_ids

abbrev pub expenses_ok : CreateInvoiceDto → Tables → Bool
expenses_ok dto db =
    length (select (billable_expense dto.expense_ids dto.case_id) db.expenses)
    == length dto.expense_ids

module _ (numeric : Numeric) (new_id : ℕ) (item_ids : ℕ → ℕ) (dto : CreateInvoiceDto) where
  -- `create_rows` is refused with no write, or writes to the transaction's tables alone.
  pub create_rows-cases :
      (w : World)
      → ((create_rows numeric new_id item_ids dto w ≡ err HttpError.bad_request w)
          × ((entries_ok dto w.tx ≡ false) ⊎ (expenses_ok dto w.tx ≡ false)))
        ⊎ (tx' : Tables) × (create_rows numeric new_id item_ids dto w
            ≡ ok tt (record w { tx = tx' }))
          × (entries_ok dto w.tx ≡ true)
          × (expenses_ok dto w.tx ≡ true)
  unfolding create_rows
  create_rows-cases w = elim (Bool-cases (entries_ok dto w.tx)) [
    | inr bad ↦ inl (rw (bad, ◌>>=◌), inl bad)
    | inl entries ↦ elim (Bool-cases (expenses_ok dto w.tx)) [
      | inr bad ↦ inl (rw (entries, bad, ◌>>=◌), inr bad)
      | inl expenses ↦ inr (
        (final (create_rows numeric new_id item_ids dto w)).tx,
        rw (entries, expenses, ◌>>=◌, final),
        entries,
        expenses,
      )
    ]
  ]

  -- The entries that the callback logs and sends after its rows.
  abbrev announced : ℕ → World → World
  announced user_id w = record w {
    audit =
        w.audit
        ++ record {
          user_id = user_id;
          action = Action.create;
          entity_type = EntityType.invoice_entity;
          entity_id = new_id;
        }
          ∷ [];
    webhooks = w.webhooks ++ WebhookEvent.invoice_created new_id ∷ [];
  }

  -- No request creates an invoice. Whatever it asks for, when the id of the new row is not that of
  -- a live invoice, it ends in an exception, and the tables are as they were: the last step of the
  -- transaction reads the new invoice outside it, where the invoice is not there yet. The webhook
  -- that announces the invoice is either not sent, or sent for an invoice that does not exist.
  pub create-fails :
      (user_id : ℕ) (w : World)
      → find_invoice new_id w.db.invoices ≡ none
      → (e : HttpError) × (w' : World) × (create numeric new_id item_ids dto user_id w ≡ err e w')
        × (w'.db ≡ w.db)
        × ((w'.webhooks ≡ w.webhooks)
            ⊎ (w'.webhooks ≡ w.webhooks ++ WebhookEvent.invoice_created new_id ∷ []))
  unfolding create create_in_tx
  create-fails user_id w fresh = elim (Option-cases (find_case dto.case_id w.db.cases)) [
    | inl missing ↦ (HttpError.not_found, w, rw (missing, ◌>>=◌), refl, inl refl)
    | inr (c, found) ↦ elim (Bool-cases (c.client_profile_id == dto.client_profile_id)) [
      | inr other ↦ (HttpError.bad_request, w, rw (found, other, ◌>>=◌), refl, inl refl)
      | inl same ↦ elim (create_rows-cases (record w { tx = w.db })) [
        | inl refused ↦ (
          HttpError.bad_request,
          record w { tx = w.db },
          rw (found, same, refused.0, ◌>>=◌, settle),
          refl,
          inl refl,
        )
        | inr (tx', written, entries, expenses) ↦
            let lost = find_one-missing new_id (announced user_id (record w { tx = tx' })) fresh in
            (
              HttpError.not_found,
              record (announced user_id w) { tx = w.db },
              rw (found, same, written, lost, ◌>>=◌, settle),
              refl,
              inr refl,
            )
      ]
    ]
  ]
