-- ===== src/Cases/Create.antt =====
-- `create` of src/modules/case/case.service.ts, and the conflict check by name that it makes
-- (src/modules/case/conflict-check.service.ts).
use corporate_lawyers_backen.Prelude.{
  ℕ, Bool, true, false, Option, none, some, List, [], ◌∷◌, ◌++◌, not, ◌&&◌, ◌||◌, ◌==◌, ltb, leb,
  if◌then◌else◌, is_some, or_else, length, find, select,
}
use corporate_lawyers_backen.World.{
  Text, UserRole, User, CaseStatus, CasePriority, Case, CaseAssignmentRole, CaseParty, EventType,
  Action, EntityType, WebhookEvent, Tables, HttpError, M, pure, ◌>>=◌, ◌>>◌, guard, need, read_db,
  read_tx, write_tx, log, dispatch, transaction,
}
use corporate_lawyers_backen.Roles.{is_active_user}
use corporate_lawyers_backen.Cases.Status.{is_archived}
use corporate_lawyers_backen.Cases.Records.{find_one}
use corporate_lawyers_backen.Cases.Numbers.{generate_case_number, is_taken}

pub record CreateCaseDto : Type 0 where
  pub title : ℕ
  pub description : Option ℕ
  pub case_type : ℕ
  pub priority : Option CasePriority
  pub legal_area : Option ℕ
  pub court : Option ℕ
  pub court_file_number : Option ℕ
  pub client_profile_id : ℕ
  pub assigned_lawyer_id : ℕ

-- White space and line ends.
abbrev pub is_space : ℕ → Bool
is_space c =
    c == 32
    || leb 9 c && leb c 13
    || c == 160
    || c == 5760
    || leb 8192 c && leb c 8202
    || c == 8232
    || c == 8233
    || c == 8239
    || c == 8287
    || c == 12288
    || c == 65279

abbrev pub trim_start : Text → Text
trim_start [] = []
trim_start (c ∷ cs) = let rest = trim_start cs in if is_space c then rest else c ∷ cs

abbrev pub unless_blank : ℕ → Text → Text
unless_blank c [] = if is_space c then [] else c ∷ []
unless_blank c (d ∷ ds) = c ∷ d ∷ ds

abbrev pub trim_end : Text → Text
trim_end [] = []
trim_end (c ∷ cs) = unless_blank c (trim_end cs)

-- `trim()`
abbrev pub trim : Text → Text
trim t = trim_end (trim_start t)

-- A party's case is neither deleted nor archived.
abbrev pub counts : Option Case → Bool
counts none = false
counts (some c) = not (is_some c.deleted_at) && not (is_archived c.status)

-- `${firstName} ${lastName}`
abbrev pub name_of : User → Text
name_of u = u.first_name ++ 32 ∷ u.last_name

abbrev pub new_case : (new_id year number : ℕ) → CreateCaseDto → Case
new_case new_id year number dto = record {
  id = new_id;
  year = year;
  number = number;
  title = dto.title;
  description = dto.description;
  case_type = dto.case_type;
  legal_area = dto.legal_area;
  court = dto.court;
  court_file_number = dto.court_file_number;
  priority = or_else dto.priority CasePriority.medium;
  status = CaseStatus.intake;
  client_profile_id = dto.client_profile_id;
  close_date = none;
  deleted_at = none;
}

abbrev pub is_lawyer : UserRole → Bool
is_lawyer UserRole.lawyer = true
is_lawyer _ = false

-- The callback of the transaction, in the given year. Numbers are unique, those of deleted cases
-- included: Prisma's P2002 becomes 409.
unfoldable pub create_in_tx :
    (below : ℕ → ℕ → Bool) (year new_id assignment_id : ℕ) → CreateCaseDto → M (Unit {0})
create_in_tx below year new_id assignment_id dto = do
  tx ← read_tx
  let number = generate_case_number below year tx.cases
  guard (not (is_taken year number tx.cases)) HttpError.conflict
  write_tx λ t. record t { cases = t.cases ++ new_case new_id year number dto ∷ [] }
  write_tx λ t. record t {
    assignments =
        t.assignments
        ++ record {
          id = assignment_id;
          case_id = new_id;
          user_id = dto.assigned_lawyer_id;
          role = CaseAssignmentRole.lead_attorney;
          removed_at = none;
        }
          ∷ [];
  }
  write_tx λ t. record t {
    timeline =
        t.timeline
        ++ record { case_id = new_id; event_type = EventType.case_created; is_public = true } ∷ [];
  }

-- `contains haystack needle` is the database's `contains` in mode `insensitive`, and `below` its order
-- on the texts of two numbers.
module _ (contains : Text → Text → Bool) where
  -- `checkByName`: the parties of live cases that have the name.
  abbrev pub check_by_name : Text → Tables → List CaseParty
  check_by_name name db =
      if ltb (length (trim name)) 2
      then []
      else select
          (λ p. contains p.name (trim name) && counts (find (λ c. c.id == p.case_id) db.cases))
          db.parties

  -- The answer is the case, and the matches of the conflict check.
  unfoldable pub create :
      (below : ℕ → ℕ → Bool) (year new_id assignment_id : ℕ)
      → CreateCaseDto
      → ℕ
      → M (Case × List CaseParty)
  create below year new_id assignment_id dto user_id = do
    db ← read_db
    profile ←
        need (find (λ p. p.id == dto.client_profile_id) db.client_profiles) HttpError.bad_request
    client ← need (find (λ u. u.id == profile.user_id) db.users) HttpError.bad_request
    guard (is_active_user client.status) HttpError.bad_request
    lawyer ←
        need
          (find
            (λ u. u.id == dto.assigned_lawyer_id && is_lawyer u.role && not (is_some u.deleted_at))
            db.users)
          HttpError.bad_request
    guard (is_active_user lawyer.status) HttpError.bad_request
    let matches = check_by_name (name_of client) db
    transaction (create_in_tx below year new_id assignment_id dto)
    log user_id Action.create EntityType.case_entity new_id
    dispatch (WebhookEvent.case_created new_id)
    case_data ← find_one new_id
    pure (case_data, matches)
