-- ===== src/Examples/Cases.antt =====
-- The theorems on src/modules/case at concrete rows, and runs of the operations.
use corporate_lawyers_backen.Prelude.{◌≤◌, true, false, none, some, ◌≡◌, refl, ◌⊎◌, arith}
use corporate_lawyers_backen.World.{
  UserRole, CaseStatus, CaseAssignmentRole, Case, World, ok, err, HttpError, final,
}
use corporate_lawyers_backen.Cache.{lookup}
use corporate_lawyers_backen.Cases.Status.{lists, status_transitions}
use corporate_lawyers_backen.Cases.Records.{find_case, find_one, UpdateCaseDto, update_status}
use corporate_lawyers_backen.Cases.Lookup.{Coherent}
use corporate_lawyers_backen.Cases.Moving.{moved, may_archive, update_status_lem}
use corporate_lawyers_backen.Cases.Stale.{closed_case_reopens}
use corporate_lawyers_backen.Cases.Access.{
  assert_case_access, MayAccess, Decides, assert_case_access_sound, assert_case_access-client,
}
use corporate_lawyers_backen.Cases.Assignments.{assign_lawyer}
use corporate_lawyers_backen.Cases.LeadAttorney.{lead_count, assign_lawyer-one_lead}
use corporate_lawyers_backen.Samples.{active_case, world, cached_world}

cached_world-Coherent : Coherent cached_world
cached_world-Coherent id c h = ground arith

abbrev rename : UpdateCaseDto
rename = record {
  title = some 5;
  description = none;
  case_type = none;
  priority = none;
  legal_area = none;
  court = none;
  court_file_number = none;
}

update_status_lem_example :
    ((find_case 10 cached_world.db.cases ≡ none)
      × (update_status 500 10 CaseStatus.closed 2 UserRole.lawyer cached_world
          ≡ err HttpError.not_found cached_world))
    ⊎ (row : Case) × (w' : World) × (find_case 10 cached_world.db.cases ≡ some row)
      × (((lists (status_transitions row.status) CaseStatus.closed ≡ false)
            × (update_status 500 10 CaseStatus.closed 2 UserRole.lawyer cached_world
                ≡ err HttpError.bad_request w')
            × (w'.db ≡ cached_world.db))
          ⊎ ((lists (status_transitions row.status) CaseStatus.closed ≡ true)
              × (may_archive row.status CaseStatus.closed UserRole.lawyer ≡ false)
              × (update_status 500 10 CaseStatus.closed 2 UserRole.lawyer cached_world
                  ≡ err HttpError.forbidden w')
              × (w'.db ≡ cached_world.db))
          ⊎ ((lists (status_transitions row.status) CaseStatus.closed ≡ true)
              × (may_archive row.status CaseStatus.closed UserRole.lawyer ≡ true)
              × (update_status 500 10 CaseStatus.closed 2 UserRole.lawyer cached_world ≡ ok row w')
              × (find_case 10 w'.db.cases ≡ some (moved 500 CaseStatus.closed row))
              × (lookup 10 w'.cache ≡ some row)))
update_status_lem_example =
    update_status_lem 500 10 CaseStatus.closed 2 UserRole.lawyer cached_world cached_world-Coherent

closed_case_reopens_example :
    let w' = final (update_status 500 10 CaseStatus.closed 2 UserRole.lawyer cached_world) in
    let w'' = final (update_status 600 10 CaseStatus.in_hearing 2 UserRole.lawyer w') in
    (find_case 10 w'.db.cases ≡ some (moved 500 CaseStatus.closed active_case))
    × (find_case 10 w''.db.cases
        ≡ some (moved 600 CaseStatus.in_hearing (moved 500 CaseStatus.closed active_case)))
    × (lists (status_transitions CaseStatus.closed) CaseStatus.in_hearing ≡ false)
closed_case_reopens_example =
    closed_case_reopens 500 600 10 2 2 UserRole.lawyer UserRole.lawyer cached_world active_case refl
      refl refl

assert_case_access_sound_example :
    Decides
      (assert_case_access 10 7 UserRole.lawyer (some CaseAssignmentRole.lead_attorney) world)
      world
      (MayAccess world.db 10 7 UserRole.lawyer (some CaseAssignmentRole.lead_attorney))
assert_case_access_sound_example =
    assert_case_access_sound 10 7 UserRole.lawyer (some CaseAssignmentRole.lead_attorney) world

assert_case_access-client_example :
    assert_case_access 10 3 UserRole.client (some CaseAssignmentRole.lead_attorney) world
    ≡ assert_case_access 10 3 UserRole.client none world
assert_case_access-client_example =
    assert_case_access-client 10 3 CaseAssignmentRole.lead_attorney world

assign_lawyer-one_lead_example :
    lead_count 10
      (final (assign_lawyer 21 10 2 (some CaseAssignmentRole.lead_attorney) 1 world)).db.assignments
    ≤ 1
assign_lawyer-one_lead_example =
    assign_lawyer-one_lead 21 10 2 (some CaseAssignmentRole.lead_attorney) 1 world (tt, tt)
      (omega arith)

-- Closing the case answers with the case as it was, and the row is closed.
close_run :
    (update_status 500 10 CaseStatus.closed 2 UserRole.lawyer cached_world
      ≡ ok active_case
          (final (update_status 500 10 CaseStatus.closed 2 UserRole.lawyer cached_world)))
    × (find_case 10
          (final (update_status 500 10 CaseStatus.closed 2 UserRole.lawyer cached_world)).db.cases
        ≡ some (moved 500 CaseStatus.closed active_case))
unfolding update_status find_one status_transitions
close_run = (refl, refl)
