-- ===== src/Billing/Invoices/Find.antt =====
-- `findOne` of src/modules/billing/invoice.service.ts, with its access control.
use corporate_lawyers_backen.Prelude.{ℕ, Option, none, some, not, ◌==◌, if◌then◌else◌, find}
use corporate_lawyers_backen.World.{
  UserRole, Invoice, HttpError, M, pure, ◌>>=◌, ◌>>◌, guard, need, read_db,
}
use corporate_lawyers_backen.Roles.{is_admin, is_client}
use corporate_lawyers_backen.Cases.Access.{is_assigned}
use corporate_lawyers_backen.Billing.Status.{is_draft}
use corporate_lawyers_backen.Billing.Payments.{find_invoice}

-- The user that asks, if the caller passes one on.
abbrev pub Viewer : Type 0
Viewer = Option (ℕ × UserRole)

abbrev pub client_view : ℕ → Invoice → M (Unit {0})
client_view user_id invoice = do
  db ← read_db
  profile ← need (find (λ p. p.user_id == user_id) db.client_profiles) HttpError.forbidden
  guard (invoice.client_profile_id == profile.id) HttpError.forbidden
  guard (not (is_draft invoice.status)) HttpError.forbidden

abbrev pub staff_view : ℕ → Invoice → M (Unit {0})
staff_view user_id invoice = do
  db ← read_db
  assignment ← need (find (is_assigned invoice.case_id user_id) db.assignments) HttpError.forbidden
  pure tt

abbrev pub check_view : Viewer → Invoice → M (Unit {0})
check_view none invoice = pure tt
check_view (some (user_id, role)) invoice =
    if is_client role
    then client_view user_id invoice
    else if is_admin role
    then pure tt
    else staff_view user_id invoice

unfoldable pub find_one : ℕ → Viewer → M Invoice
find_one id viewer = do
  db ← read_db
  invoice ← need (find_invoice id db.invoices) HttpError.not_found
  check_view viewer invoice
  pure invoice
