-- ===== src/Leads/Records.antt =====
-- The operations of src/modules/crm/lead.service.ts on the rows of leads.
use corporate_lawyers_backen.Prelude.{
  ℕ, Bool, true, false, Option, none, some, List, [], ◌∷◌, ◌++◌, not, ◌&&◌, ◌==◌, if◌then◌else◌,
  is_some, or_else, set_if, find, select, update_where, any,
}
use corporate_lawyers_backen.World.{
  Text, UserRole, LeadStatus, LeadSource, Lead, Action, EntityType, WebhookEvent, Tables, HttpError,
  M, pure, ◌>>=◌, ◌>>◌, guard, need, read_db, write_db, log, dispatch,
}
use corporate_lawyers_backen.Roles.{is_active_user}
use corporate_lawyers_backen.Leads.Status.{same_status, permits, is_active}
use corporate_lawyers_backen.World.{text_eq, is_filled, lower}
use corporate_lawyers_backen.Leads.Score.{calculate_score}

pub record CreateLeadDto : Type 0 where
  pub first_name : Text
  pub last_name : Text
  pub email : Text
  pub phone : Option ℕ
  pub source : Option LeadSource
  pub area_of_interest : Option ℕ
  pub message : Option Text

-- An active lead with the address.
abbrev pub takes : Text → Lead → Bool
takes email l = text_eq l.email email && is_active l.status

abbrev pub new_lead : (new_id : ℕ) → CreateLeadDto → Lead
new_lead new_id dto = record {
  id = new_id;
  first_name = dto.first_name;
  last_name = dto.last_name;
  email = lower dto.email;
  phone = dto.phone;
  source = or_else dto.source LeadSource.website;
  area_of_interest = dto.area_of_interest;
  message = dto.message;
  score = 0;
  status = LeadStatus.new;
  assigned_to_id = none;
}

-- `lead.update({ where: { id }, data })`
abbrev pub update_lead : ℕ → (Lead → Lead) → M (Unit {0})
update_lead id f = write_db λ db. record db { leads = update_where (λ l. l.id == id) f db.leads }

abbrev pub with_score : ℕ → Lead → Lead
with_score score l = record l { score = score }

-- `if (userId) auditService.log(…)`
abbrev pub log_user : Option ℕ → Action → ℕ → M (Unit {0})
log_user none action id = λ w. pure tt w
log_user (some user_id) action id = log user_id action EntityType.lead_entity id

unfoldable pub create : (new_id : ℕ) → CreateLeadDto → Option ℕ → M Lead
create new_id dto user_id = do
  db ← read_db
  guard (not (any (takes (lower dto.email)) db.leads)) HttpError.conflict
  let lead = new_lead new_id dto
  write_db λ db. record db { leads = db.leads ++ lead ∷ [] }
  let score = calculate_score db lead false false
  update_lead new_id (with_score score)
  log_user user_id Action.create new_id
  dispatch (WebhookEvent.lead_created new_id)
  pure (with_score score lead)

abbrev pub find_lead : ℕ → List Lead → Option Lead
find_lead id = find (λ l. l.id == id)

unfoldable pub find_one : ℕ → M Lead
find_one id = do db ← read_db; need (find_lead id db.leads) HttpError.not_found

-- `!!lead.intakeForm`
abbrev pub has_intake : ℕ → Tables → Bool
has_intake id db = any (λ f. f.lead_id == id) db.intake_forms

-- `lead.conflictChecks.some((c) => c.result === true)`
abbrev pub has_clean_check : ℕ → Tables → Bool
has_clean_check id db = any (λ c. c.lead_id == id && c.result) db.conflict_checks

pub record UpdateLeadDto : Type 0 where
  pub first_name : Option Text
  pub last_name : Option Text
  pub email : Option Text
  pub phone : Option ℕ
  pub source : Option LeadSource
  pub area_of_interest : Option ℕ
  pub message : Option Text
  pub status : Option LeadStatus
  pub score : Option ℕ

-- `dto.email ? dto.email.toLowerCase() : undefined`
abbrev pub edited_email : Option Text → Text → Text
edited_email none old = old
edited_email (some e) old = if is_filled e then lower e else old

abbrev pub edited : UpdateLeadDto → Lead → Lead
edited dto l = record l {
  first_name = or_else dto.first_name l.first_name;
  last_name = or_else dto.last_name l.last_name;
  email = edited_email dto.email l.email;
  phone = set_if dto.phone l.phone;
  source = or_else dto.source l.source;
  area_of_interest = set_if dto.area_of_interest l.area_of_interest;
  message = set_if dto.message l.message;
  status = or_else dto.status l.status;
  score = or_else dto.score l.score;
}

unfoldable pub update : ℕ → UpdateLeadDto → ℕ → M Lead
unfolding find_one
update id dto user_id = do
  existing ← find_one id
  guard (permits existing.status dto.status) HttpError.bad_request
  update_lead id (edited dto)
  db ← read_db
  let score = calculate_score db (edited dto existing) (has_intake id db) (has_clean_check id db)
  update_lead id (with_score score)
  log user_id Action.update EntityType.lead_entity id
  find_one id

-- The conflict checks of a deleted lead go with it (`onDelete: Cascade`).
unfoldable pub remove : ℕ → M (Unit {0})
unfolding find_one
remove id = do
  lead ← find_one id
  guard (same_status lead.status LeadStatus.new) HttpError.bad_request
  db ← read_db
  guard (not (has_intake id db)) HttpError.bad_request
  write_db λ db. record db {
    leads = select (λ l. not (l.id == id)) db.leads;
    conflict_checks = select (λ c. not (c.lead_id == id)) db.conflict_checks;
  }

abbrev pub may_be_assigned : UserRole → Bool
may_be_assigned UserRole.lawyer = true
may_be_assigned UserRole.admin = true
may_be_assigned _ = false

unfoldable pub assign : ℕ → (assigned_to_id : ℕ) → M Lead
unfolding find_one
assign id assigned_to_id = do
  lead ← find_one id
  db ← read_db
  assignee ←
      need (find (λ u. u.id == assigned_to_id && not (is_some u.deleted_at)) db.users)
        HttpError.not_found
  guard (may_be_assigned assignee.role) HttpError.bad_request
  guard (is_active_user assignee.status) HttpError.bad_request
  update_lead id λ l. record l { assigned_to_id = some assigned_to_id }
  find_one id
