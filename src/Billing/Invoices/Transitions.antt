-- ===== src/Billing/Invoices/Transitions.antt =====
-- What `update` of src/modules/billing/invoice.service.ts may do to an invoice.
use corporate_lawyers_backen.Prelude.{
  ℕ, true, false, Option, none, some, ◌≡◌, refl, ◌⊎◌, inl, inr, ◌==◌, or_else, find, Bool-cases,
  Option-cases, arith,
}
use corporate_lawyers_backen.World.{
  InvoiceStatus, Invoice, World, Outcome, ok, err, HttpError, ◌>>=◌,
}
use corporate_lawyers_backen.Roles.{is_admin, is_client}
use corporate_lawyers_backen.Cases.Access.{is_assigned}
use corporate_lawyers_backen.Billing.Status.{same_status, lists, status_transitions, is_draft}
use corporate_lawyers_backen.Billing.Payments.{find_invoice}
use corporate_lawyers_backen.Billing.Invoices.Find.{
  Viewer, find_one, check_view, client_view, staff_view,
}
use corporate_lawyers_backen.Billing.Invoices.Update.{change_status, effects}

-- A check that passes or throws, and writes nothing.
abbrev IsQuiet : Outcome (Unit {0}) → World → Type 0
IsQuiet r w = (r ≡ ok tt w) ⊎ ((e : HttpError) × (r ≡ err e w))

client_view-IsQuiet : (user_id : ℕ) (i : Invoice) (w : World) → IsQuiet (client_view user_id i w) w
client_view-IsQuiet user_id i w =
    elim (Option-cases (find (λ p. p.user_id == user_id) w.db.client_profiles)) [
      | inl nobody ↦ inr (HttpError.forbidden, rw (nobody, ◌>>=◌))
      | inr (p, found) ↦ elim (Bool-cases (i.client_profile_id == p.id)) [
        | inr other ↦ inr (HttpError.forbidden, rw (found, other, ◌>>=◌))
        | inl own ↦ elim (Bool-cases (is_draft i.status)) [
          | inl draft ↦ inr (HttpError.forbidden, rw (found, own, draft, ◌>>=◌))
          | inr issued ↦ inl (rw (found, own, issued, ◌>>=◌))
        ]
      ]
    ]

staff_view-IsQuiet : (user_id : ℕ) (i : Invoice) (w : World) → IsQuiet (staff_view user_id i w) w
staff_view-IsQuiet user_id i w =
    elim (Option-cases (find (is_assigned i.case_id user_id) w.db.assignments)) [
      | inl nobody ↦ inr (HttpError.forbidden, rw (nobody, ◌>>=◌))
      | inr (a, found) ↦ inl (rw (found, ◌>>=◌))
    ]

check_view-IsQuiet : (viewer : Viewer) (i : Invoice) (w : World) → IsQuiet (check_view viewer i w) w
check_view-IsQuiet none i w = inl refl
check_view-IsQuiet (some (user_id, role)) i w = elim (Bool-cases (is_client role)) [
  | inl client ↦ rw client (client_view-IsQuiet user_id i w)
  | inr other ↦ elim (Bool-cases (is_admin role)) [
    | inl admin ↦ inl (rw (other, admin))
    | inr staff ↦ rw (other, staff) (staff_view-IsQuiet user_id i w)
  ]
]

-- Whoever asks, a read hands over the live row or throws, and writes nothing.
pub find_one-view :
    (id : ℕ) (viewer : Viewer) (w : World)
    → ((e : HttpError) × (find_one id viewer w ≡ err e w))
      ⊎ (i : Invoice) × (find_invoice id w.db.invoices ≡ some i) × (find_one id viewer w ≡ ok i w)
unfolding find_one
find_one-view id viewer w = elim (Option-cases (find_invoice id w.db.invoices)) [
  | inl missing ↦ inl (HttpError.not_found, rw (missing, ◌>>=◌))
  | inr (i, found) ↦ elim (check_view-IsQuiet viewer i w) [
    | inl passes ↦ inr (i, found, rw (found, passes, ◌>>=◌))
    | inr (e, refused) ↦ inl (e, rw (found, refused, ◌>>=◌))
  ]
]

-- The status that a request asks for is the old one, or the table lists it behind the old one.
abbrev pub Permitted : InvoiceStatus → InvoiceStatus → Type 0
Permitted old new = (new ≡ old) ⊎ (lists (status_transitions old) new ≡ true)

effects-invoices :
    (status : InvoiceStatus) (i : Invoice) (w : World)
    → (w' : World) × (effects status i w ≡ ok tt w') × (w'.db.invoices ≡ w.db.invoices)
effects-invoices InvoiceStatus.cancelled i w = (_, refl, refl)
effects-invoices InvoiceStatus.sent i w = (_, refl, refl)
effects-invoices InvoiceStatus.paid i w = (_, refl, refl)
effects-invoices _ i w = (w, refl, refl)

same_status_eq : (s t : InvoiceStatus) → same_status s t ≡ true → s ≡ t
same_status_eq s t h = ground arith

-- The request asks for another status that the table does not list behind the old one.
abbrev pub Unlisted : Option InvoiceStatus → InvoiceStatus → Type 0
Unlisted asked old =
    (new : InvoiceStatus) × (asked ≡ some new)
    × (same_status new old ≡ false)
    × (lists (status_transitions old) new ≡ false)

pub change_status-cases :
    (status : Option InvoiceStatus) (i : Invoice) (w : World)
    → ((change_status status i w ≡ err HttpError.bad_request w) × Unlisted status i.status)
      ⊎ (w' : World) × (change_status status i w ≡ ok tt w')
        × (w'.db.invoices ≡ w.db.invoices)
        × Permitted i.status (or_else status i.status)
change_status-cases none i w = inr (w, refl, refl, inl refl)
change_status-cases (some status) i w = elim (Bool-cases (same_status status i.status)) [
  | inl same ↦ inr (w, rw same, refl, inl (same_status_eq status i.status same))
  | inr other ↦ elim (Bool-cases (lists (status_transitions i.status) status)) [
    | inr unlisted ↦ inl (rw (other, unlisted, ◌>>=◌), (status, refl, other, unlisted))
    | inl listed ↦
        let (w', done, kept) = effects-invoices status i w in
        inr (w', rw (other, listed, done, ◌>>=◌), kept, inr listed)
  ]
]
