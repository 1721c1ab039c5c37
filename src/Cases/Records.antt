-- ===== src/Cases/Records.antt =====
-- The CRUD operations and the status change of src/modules/case/case.service.ts.
use corporate_lawyers_backen.Prelude.{
  ℕ, Bool, true, Option, some, List, [], ◌∷◌, ◌++◌, not, ◌&&◌, ◌||◌, ◌==◌, if◌then◌else◌, is_some,
  or_else, set_if, find, update_where,
}
use corporate_lawyers_backen.World.{
  UserRole, CasePriority, CaseStatus, Case, EventType, Action, EntityType, WebhookEvent, HttpError,
  M, ◌>>=◌, ◌>>◌, guard, need, when, read_db, write_db, log, dispatch,
}
use corporate_lawyers_backen.Roles.{is_admin}
use corporate_lawyers_backen.Cache.{get_or_set, del}
use corporate_lawyers_backen.Cases.Status.{
  lists, status_transitions, is_closed, is_archived, is_over,
}

-- `deletedAt: null`, which the soft delete extension adds to every `findFirst` on a case.
abbrev pub is_live : Case → Bool
is_live c = not (is_some c.deleted_at)

abbrev pub find_case : ℕ → List Case → Option Case
find_case id = find (λ c. c.id == id && is_live c)

abbrev pub load_case : ℕ → M Case
load_case id = do db ← read_db; need (find_case id db.cases) HttpError.not_found

-- `findOne`
unfoldable pub find_one : ℕ → M Case
find_one id = get_or_set id (load_case id)

-- `prisma.case.update({ where: { id }, data })`
abbrev pub update_case : ℕ → (Case → Case) → M (Unit {0})
update_case id f = write_db λ db. record db { cases = update_where (λ c. c.id == id) f db.cases }

-- `createTimelineEntry`
abbrev pub create_timeline_entry : ℕ → EventType → Bool → M (Unit {0})
create_timeline_entry case_id event_type is_public = write_db λ db. record db {
  timeline =
      db.timeline
      ++ record { case_id = case_id; event_type = event_type; is_public = is_public } ∷ [];
}

pub record UpdateCaseDto : Type 0 where
  pub title : Option ℕ
  pub description : Option ℕ
  pub case_type : Option ℕ
  pub priority : Option CasePriority
  pub legal_area : Option ℕ
  pub court : Option ℕ
  pub court_file_number : Option ℕ

-- What `update` writes into a row.
abbrev pub edited : UpdateCaseDto → Case → Case
edited dto c = record c {
  title = or_else dto.title c.title;
  description = set_if dto.description c.description;
  case_type = or_else dto.case_type c.case_type;
  priority = or_else dto.priority c.priority;
  legal_area = set_if dto.legal_area c.legal_area;
  court = set_if dto.court c.court;
  court_file_number = set_if dto.court_file_number c.court_file_number;
}

unfoldable pub update : ℕ → UpdateCaseDto → ℕ → M Case
update id dto user_id = do
  existing ← find_one id
  guard (not (is_over existing.status)) HttpError.bad_request
  update_case id (edited dto)
  del id
  log user_id Action.update EntityType.case_entity id
  find_one id

unfoldable pub remove : (now : ℕ) → ℕ → ℕ → M (Unit {0})
remove now id user_id = do
  existing ← find_one id
  update_case id λ c. record c { deleted_at = some now }
  del id
  log user_id Action.delete EntityType.case_entity id

-- `updateStatus`. A `closeDate` of `undefined` leaves the column as it is.
unfoldable pub update_status : (now : ℕ) → ℕ → CaseStatus → ℕ → UserRole → M Case
update_status now id status user_id user_role = do
  existing ← find_one id
  guard (lists (status_transitions existing.status) status) HttpError.bad_request
  guard (not (is_closed existing.status && is_archived status) || is_admin user_role)
      HttpError.forbidden
  update_case id λ c. record c {
    status = status;
    close_date = if is_closed status then some now else c.close_date;
  }
  create_timeline_entry id EventType.status_changed true
  log user_id Action.status_change EntityType.case_entity id
  dispatch (WebhookEvent.case_status_changed id)
  when (is_closed status) (dispatch (WebhookEvent.case_closed id))
  find_one id
