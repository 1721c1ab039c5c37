-- ===== src/Billing/Invoices/Listing.antt =====
-- `findAll` of src/modules/billing/invoice.service.ts: what of the invoices a user is shown. The
-- order of the rows is the database's, and so is the column `createdAt`, which nothing else reads.
use corporate_lawyers_backen.Prelude.{
  ℕ, Bool, true, false, Option, none, some, List, [], not, ◌&&◌, ◌==◌, leb, if◌then◌else◌, or_else,
  find, select, any,
}
use corporate_lawyers_backen.World.{UserRole, InvoiceStatus, Invoice, Tables}
use corporate_lawyers_backen.Roles.{is_admin, is_client}
use corporate_lawyers_backen.Paging.{Meta, page}
use corporate_lawyers_backen.Cases.Access.{is_assigned}
use corporate_lawyers_backen.Billing.Status.{same_status, is_draft}
use corporate_lawyers_backen.Billing.Payments.{is_live}

pub record InvoiceQueryDto : Type 0 where
  pub case_id : Option ℕ
  pub client_profile_id : Option ℕ
  pub status : Option InvoiceStatus
  pub date_from : Option ℕ
  pub date_to : Option ℕ
  pub due_date_from : Option ℕ
  pub due_date_to : Option ℕ
  pub limit : Option ℕ
  pub offset : Option ℕ

-- What a `where` asks of the status: nothing, `{ not: DRAFT }`, or one value.
pub data StatusClause : Type 0 where
  any_status not_draft : StatusClause
  only : InvoiceStatus → StatusClause

-- The `where` that the code puts together; a later assignment to a key replaces an earlier one.
pub record InvoiceWhere : Type 0 where
  pub client_profile_id : Option ℕ
  pub status : StatusClause
  pub assigned_to : Option ℕ
  pub query : InvoiceQueryDto

abbrev pub has_status : StatusClause → InvoiceStatus → Bool
has_status StatusClause.any_status s = true
has_status StatusClause.not_draft s = not (is_draft s)
has_status (StatusClause.only t) s = same_status s t

abbrev pub equals_if : Option ℕ → ℕ → Bool
equals_if none n = true
equals_if (some m) n = n == m

abbrev pub within : (from to : Option ℕ) → ℕ → Bool
within none none t = true
within none (some b) t = leb t b
within (some a) none t = leb a t
within (some a) (some b) t = leb a t && leb t b

-- `case: { assignments: { some: { userId, removedAt: null } } }`
abbrev pub assigned_if : Option ℕ → ℕ → Tables → Bool
assigned_if none case_id db = true
assigned_if (some user_id) case_id db = any (is_assigned case_id user_id) db.assignments

-- The part of the `where` that comes from the user's role: nothing for a client without a profile.
abbrev pub role_where : InvoiceQueryDto → ℕ → UserRole → Tables → Option InvoiceWhere
role_where q user_id role db =
    if is_client role
    then elim (find (λ p. p.user_id == user_id) db.client_profiles) [
      | none ↦ none
      | some cp ↦ some (record {
        client_profile_id = some cp.id;
        status = StatusClause.not_draft;
        assigned_to = none;
        query = q;
      })
    ]
    else some (record {
      client_profile_id = none;
      status = StatusClause.any_status;
      assigned_to = if is_admin role then none else some user_id;
      query = q;
    })

-- `if (query.clientProfileId) where.clientProfileId = query.clientProfileId`
abbrev pub override : Option ℕ → Option ℕ → Option ℕ
override none old = old
override (some p) old = some p

-- `if (query.status) where.status = query.status`
abbrev pub override_status : Option InvoiceStatus → StatusClause → StatusClause
override_status none old = old
override_status (some s) old = StatusClause.only s

abbrev pub with_query : InvoiceQueryDto → InvoiceWhere → InvoiceWhere
with_query q c = record c {
  client_profile_id = override q.client_profile_id c.client_profile_id;
  status = override_status q.status c.status;
}

module _ (created_at : Invoice → ℕ) (order_by : List Invoice → List Invoice) where
  abbrev pub matches : Tables → InvoiceWhere → Invoice → Bool
  matches db c i =
      is_live i
      && equals_if c.client_profile_id i.client_profile_id
      && has_status c.status i.status
      && assigned_if c.assigned_to i.case_id db
      && equals_if c.query.case_id i.case_id
      && within c.query.date_from c.query.date_to (created_at i)
      && within c.query.due_date_from c.query.due_date_to i.due_date

  abbrev pub listed : InvoiceQueryDto → Option InvoiceWhere → Tables → List Invoice × Meta
  listed q none db = (
    [],
    record {
      total = 0;
      limit = or_else q.limit 20;
      offset = or_else q.offset 0;
      has_next_page = false;
      has_previous_page = false;
    },
  )
  listed q (some c) db =
      page q.limit q.offset (order_by (select (matches db (with_query q c)) db.invoices))

  unfoldable pub find_all : InvoiceQueryDto → ℕ → UserRole → Tables → List Invoice × Meta
  find_all q user_id role db = listed q (role_where q user_id role db) db
