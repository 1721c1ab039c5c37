-- ===== src/Leads/Convert.antt =====
-- `convert` of src/modules/crm/lead.service.ts: a lead becomes a client.
use corporate_lawyers_backen.Prelude.{
  ℕ, Bool, true, Option, none, some, [], ◌∷◌, ◌++◌, not, ◌==◌, is_some, or_else, update_where, any,
}
use corporate_lawyers_backen.World.{
  UserRole, UserStatus, User, Case, CaseStatus, CasePriority, CaseAssignmentRole, LeadStatus, Lead,
  EventType, Action, EntityType, WebhookEvent, NotificationType, HttpError, M, pure, ◌>>=◌, ◌>>◌,
  guard, read_db, read_tx, write_tx, log, dispatch, send, transaction,
}
use corporate_lawyers_backen.SoftDelete.{Model, find_unique}
use corporate_lawyers_backen.Cases.Numbers.{generate_case_number, is_taken}
use corporate_lawyers_backen.Leads.Status.{is_convertible}
use corporate_lawyers_backen.World.{text_eq}
use corporate_lawyers_backen.Leads.Records.{find_one}

-- The password and the tax data of the client are left out.
pub record ConvertLeadDto : Type 0 where
  pub assigned_lawyer_id : Option ℕ
  pub case_title : Option ℕ
  pub case_type : Option ℕ

-- The ids that the database makes.
pub record NewIds : Type 0 where
  pub user : ℕ
  pub profile : ℕ
  pub case_file : ℕ
  pub assignment : ℕ

abbrev pub client_user : ℕ → Lead → User
client_user id lead = record {
  id = id;
  email = lead.email;
  first_name = lead.first_name;
  last_name = lead.last_name;
  role = UserRole.client;
  status = UserStatus.active;
  deleted_at = none;
}

-- `OTHER`, the last of the case types
abbrev pub other_type : ℕ
other_type = 10

abbrev pub first_case : NewIds → (year number title : ℕ) → Option ℕ → Lead → Case
first_case ids year number title case_type lead = record {
  id = ids.case_file;
  year = year;
  number = number;
  title = title;
  description = none;
  case_type = or_else case_type other_type;
  legal_area = lead.area_of_interest;
  court = none;
  court_file_number = none;
  priority = CasePriority.medium;
  status = CaseStatus.intake;
  client_profile_id = ids.profile;
  close_date = none;
  deleted_at = none;
}

-- The case, its lead attorney and its first timeline entry. The case has the next number of the year,
-- and the column is unique over the deleted rows too: Prisma's P2002 becomes 409. An assignment names a
-- user of the table (a foreign key): if there is none, Prisma's P2003 becomes 400. `below` is the
-- database's order on the texts of two numbers.
abbrev pub open_case :
    (below : ℕ → ℕ → Bool) (year : ℕ)
    → NewIds
    → Option ℕ
    → Option ℕ
    → Option ℕ
    → Lead
    → M (Unit {0})
open_case below year ids none title case_type lead = λ w. pure tt w
open_case below year ids (some lawyer_id) none case_type lead = λ w. pure tt w
open_case below year ids (some lawyer_id) (some title) case_type lead = do
  before ← read_tx
  let number = generate_case_number below year before.cases
  guard (not (is_taken year number before.cases)) HttpError.conflict
  write_tx λ t. record t { cases = t.cases ++ first_case ids year number title case_type lead ∷ [] }
  tx ← read_tx
  guard (any (λ u. u.id == lawyer_id) tx.users) HttpError.bad_request
  write_tx λ t. record t {
    assignments =
        t.assignments
        ++ record {
          id = ids.assignment;
          case_id = ids.case_file;
          user_id = lawyer_id;
          role = CaseAssignmentRole.lead_attorney;
          removed_at = none;
        }
          ∷ [];
    timeline =
        t.timeline
        ++ record { case_id = ids.case_file; event_type = EventType.case_created; is_public = true }
          ∷ [];
  }

-- The callback of the transaction. Addresses of users are unique, those of deleted users included:
-- Prisma's P2002 becomes 409.
unfoldable pub convert_in_tx :
    (below : ℕ → ℕ → Bool) (year : ℕ) → NewIds → ℕ → ConvertLeadDto → Lead → M User
convert_in_tx below year ids id dto lead = do
  tx ← read_tx
  guard (not (any (λ u. text_eq u.email lead.email) tx.users)) HttpError.conflict
  write_tx λ t. record t {
    users = t.users ++ client_user ids.user lead ∷ [];
    client_profiles = t.client_profiles ++ record { id = ids.profile; user_id = ids.user } ∷ [];
    leads =
        update_where (λ l. l.id == id) (λ l. record l { status = LeadStatus.converted }) t.leads;
  }
  open_case below year ids dto.assigned_lawyer_id dto.case_title dto.case_type lead
  pure (client_user ids.user lead)

-- `if (lead.assignedToId)`
abbrev pub notify_assignee : Option ℕ → M (Unit {0})
notify_assignee none = λ w. pure tt w
notify_assignee (some assignee) = send assignee NotificationType.in_app

unfoldable pub convert :
    (below : ℕ → ℕ → Bool) (year : ℕ) → NewIds → ℕ → ConvertLeadDto → ℕ → M Lead
convert below year ids id dto user_id = do
  lead ← find_one id
  guard (is_convertible lead.status) HttpError.bad_request
  db ← read_db
  guard
      (not (
        is_some (
          find_unique (λ u. u.deleted_at) Model.user true (λ u. text_eq u.email lead.email)
            db.users)))
      HttpError.conflict
  result ← transaction (convert_in_tx below year ids id dto lead)
  send result.id NotificationType.email
  notify_assignee lead.assigned_to_id
  log user_id Action.convert EntityType.lead_entity id
  dispatch (WebhookEvent.lead_converted id)
  find_one id
