-- ===== src/Cases/Assignments.antt =====
-- The assignments of src/modules/case/case.service.ts.
use corporate_lawyers_backen.Prelude.{
  ℕ, Bool, true, false, Option, none, some, List, [], ◌∷◌, ◌++◌, not, ◌&&◌, ◌==◌, if◌then◌else◌,
  is_some, or_else, find, select, update_where,
}
use corporate_lawyers_backen.World.{
  UserRole, CaseAssignmentRole, CaseAssignment, EventType, Action, EntityType, HttpError, M, pure,
  ◌>>=◌, ◌>>◌, guard, need, read_db, write_db, log,
}
use corporate_lawyers_backen.Cases.Records.{find_one, create_timeline_entry}
use corporate_lawyers_backen.Cases.Access.{same_assignment_role, is_assigned}

abbrev pub is_lead : CaseAssignmentRole → Bool
is_lead role = same_assignment_role role CaseAssignmentRole.lead_attorney

-- `where: { caseId, role: LEAD_ATTORNEY, removedAt: null }`
abbrev pub leads : ℕ → CaseAssignment → Bool
leads case_id a = a.case_id == case_id && is_lead a.role && not (is_some a.removed_at)

-- `role === LAWYER || role === ASSISTANT`
abbrev pub can_be_assigned : UserRole → Bool
can_be_assigned UserRole.lawyer = true
can_be_assigned UserRole.assistant = true
can_be_assigned _ = false

abbrev pub current : ℕ → List CaseAssignment → List CaseAssignment
current case_id = select (λ a. a.case_id == case_id && not (is_some a.removed_at))

unfoldable pub get_assignments : ℕ → M (List CaseAssignment)
get_assignments case_id = do
  found ← find_one case_id
  db ← read_db
  pure (current case_id db.assignments)

abbrev pub demote : ℕ → List CaseAssignment → List CaseAssignment
demote case_id =
    update_where (leads case_id) (λ a. record a { role = CaseAssignmentRole.co_counsel })

abbrev pub reinstated : CaseAssignmentRole → CaseAssignment → CaseAssignment
reinstated role a = record a { role = role; removed_at = none }

-- The update of the row that the search has found, or the creation of one.
abbrev pub place :
    (new_id case_id target : ℕ)
    → CaseAssignmentRole
    → Option CaseAssignment
    → List CaseAssignment
    → List CaseAssignment
place new_id case_id target role none rows =
    rows
    ++ record { id = new_id; case_id = case_id; user_id = target; role = role; removed_at = none }
      ∷ []
place new_id case_id target role (some existing) rows =
    update_where (λ a. a.id == existing.id) (reinstated role) rows

-- `where: { caseId, userId }`, removed assignments among them
abbrev pub find_any : ℕ → ℕ → List CaseAssignment → Option CaseAssignment
find_any case_id target = find (λ a. a.case_id == case_id && a.user_id == target)

unfoldable pub upsert :
    (new_id case_id target : ℕ) → CaseAssignmentRole → List CaseAssignment → List CaseAssignment
upsert new_id case_id target role rows =
    let rows' = if is_lead role then demote case_id rows else rows in
    place new_id case_id target role (find_any case_id target rows') rows'

unfoldable pub assign_lawyer :
    (new_id : ℕ) → ℕ → (target : ℕ) → Option CaseAssignmentRole → ℕ → M (List CaseAssignment)
assign_lawyer new_id case_id target role user_id = do
  found ← find_one case_id
  db ← read_db
  user ←
      need (find (λ u. u.id == target && not (is_some u.deleted_at)) db.users) HttpError.bad_request
  guard (can_be_assigned user.role) HttpError.bad_request
  write_db λ db. record db {
    assignments =
        upsert new_id case_id target (or_else role CaseAssignmentRole.co_counsel) db.assignments;
  }
  create_timeline_entry case_id EventType.lawyer_assigned false
  log user_id Action.assign_lawyer EntityType.case_entity case_id
  get_assignments case_id

unfoldable pub remove_assignment : (now : ℕ) → ℕ → (target : ℕ) → ℕ → M (Unit {0})
remove_assignment now case_id target user_id = do
  db ← read_db
  assignment ← need (find (is_assigned case_id target) db.assignments) HttpError.not_found
  write_db λ db. record db {
    assignments =
        update_where (λ a. a.id == assignment.id) (λ a. record a { removed_at = some now })
          db.assignments;
  }
  create_timeline_entry case_id EventType.lawyer_removed false
  log user_id Action.remove_assignment EntityType.case_entity case_id
