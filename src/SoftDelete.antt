-- ===== src/SoftDelete.antt =====
-- src/core/database/prisma.extension.ts: what the extended Prisma client does with a query.
pub mod Laws
use corporate_lawyers_backen.Prelude.{
  ℕ, Bool, true, false, Option, none, some, List, [], ◌∷◌, not, ◌&&◌, if◌then◌else◌, is_some, find,
  select, update_where, length,
}

-- The models of the schema (prisma/schema.prisma).
pub data Model : Type 0 where
  user lawyer_profile client_profile session password_reset_token case_model case_assignment
        case_party case_note case_timeline case_task document case_document document_version
        document_signature time_entry expense invoice invoice_item payment event event_attendee
        reminder lead intake_form conflict_check client_message notification audit_log
        webhook_endpoint webhook_delivery :
      Model

-- `SOFT_DELETE_MODELS.includes(model)`
unfoldable pub is_soft_delete_model : Model → Bool
is_soft_delete_model Model.user = true
is_soft_delete_model Model.case_model = true
is_soft_delete_model Model.case_note = true
is_soft_delete_model Model.document = true
is_soft_delete_model Model.time_entry = true
is_soft_delete_model Model.expense = true
is_soft_delete_model Model.invoice = true
is_soft_delete_model Model.event = true
is_soft_delete_model Model.webhook_endpoint = true
is_soft_delete_model _ = false

-- A property of an object of JavaScript: absent, null, or a date.
pub data Field : Type 0 where
  undefined null : Field
  at : ℕ → Field

-- What a nullable column gives.
abbrev pub field_of : Option ℕ → Field
field_of none = Field.null
field_of (some t) = Field.at t

-- `field !== null`
abbrev pub is_not_null : Field → Bool
is_not_null Field.null = false
is_not_null _ = true

-- `args.where`: what it asks of `deletedAt`, if anything, and of the other columns.
pub record Where (A : Type 0) : Type 0 where
  pub deleted_clause : Option (Option ℕ → Bool)
  pub rest : A → Bool

abbrev pub holds : Option (Option ℕ → Bool) → Option ℕ → Bool
holds none deleted = true
holds (some clause) deleted = clause deleted

module _ {A : Type 0} (deleted_at : A → Option ℕ) where
  -- The rows that Prisma matches to a `where`.
  abbrev pub matches : Where A → A → Bool
  matches q row = holds q.deleted_clause (deleted_at row) && q.rest row

  -- `{ ...args.where, deletedAt: null }` on a model with soft deletion.
  unfoldable pub scoped : Model → Where A → Where A
  scoped model q =
      if is_soft_delete_model model
      then record q { deleted_clause = some (λ deleted. not (is_some deleted)) }
      else q

  unfoldable pub find_many : Model → Where A → List A → List A
  unfolding scoped
  find_many model q = select (matches (scoped model q))

  unfoldable pub find_first : Model → Where A → List A → Option A
  unfolding scoped
  find_first model q = find (matches (scoped model q))

  unfoldable pub count : Model → Where A → List A → ℕ
  unfolding scoped
  count model q rows = length (select (matches (scoped model q)) rows)

  -- What a `select` hands over of `deletedAt`.
  abbrev pub selected : (with_deleted_at : Bool) → A → Field
  selected false row = Field.undefined
  selected true row = field_of (deleted_at row)

  -- The two returns of `findUnique`; the second one runs the query again.
  abbrev pub screen : (with_deleted_at : Bool) → Option A → Option A
  screen with_deleted_at none = none
  screen with_deleted_at (some row) =
      if is_not_null (selected with_deleted_at row) then none else some row

  -- `findUnique`, by a unique key. `with_deleted_at` is false when the query has a `select` that does
  -- not name `deletedAt`.
  unfoldable pub find_unique : Model → (with_deleted_at : Bool) → (A → Bool) → List A → Option A
  find_unique model with_deleted_at key rows =
      if is_soft_delete_model model then screen with_deleted_at (find key rows) else find key rows
