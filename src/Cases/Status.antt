-- ===== src/Cases/Status.antt =====
-- The status transitions of src/modules/case/case.service.ts.
use corporate_lawyers_backen.Prelude.{ℕ, Bool, false, List, [], ◌∷◌, ◌||◌, ◌==◌}
use corporate_lawyers_backen.World.{CaseStatus}

abbrev pub ordinal : CaseStatus → ℕ
ordinal CaseStatus.intake = 0
ordinal CaseStatus.active = 1
ordinal CaseStatus.in_hearing = 2
ordinal CaseStatus.sentencing = 3
ordinal CaseStatus.appeal = 4
ordinal CaseStatus.closed = 5
ordinal CaseStatus.archived = 6

-- `===` on statuses
abbrev pub same_status : CaseStatus → CaseStatus → Bool
same_status s t = ordinal s == ordinal t

-- `statuses.includes(status)`
abbrev pub lists : List CaseStatus → CaseStatus → Bool
lists [] t = false
lists (s ∷ ss) t = same_status s t || lists ss t

-- STATUS_TRANSITIONS
unfoldable pub status_transitions : CaseStatus → List CaseStatus
status_transitions CaseStatus.intake = CaseStatus.active ∷ []
status_transitions CaseStatus.active = CaseStatus.in_hearing ∷ CaseStatus.closed ∷ []
status_transitions CaseStatus.in_hearing =
    CaseStatus.sentencing ∷ CaseStatus.active ∷ CaseStatus.closed ∷ []
status_transitions CaseStatus.sentencing = CaseStatus.appeal ∷ CaseStatus.closed ∷ []
status_transitions CaseStatus.appeal = CaseStatus.in_hearing ∷ CaseStatus.closed ∷ []
status_transitions CaseStatus.closed = CaseStatus.archived ∷ []
status_transitions CaseStatus.archived = []

abbrev pub is_closed : CaseStatus → Bool
is_closed s = same_status s CaseStatus.closed

abbrev pub is_archived : CaseStatus → Bool
is_archived s = same_status s CaseStatus.archived

-- `status === 'CLOSED' || status === 'ARCHIVED'`
abbrev pub is_over : CaseStatus → Bool
is_over s = is_closed s || is_archived s
