-- ===== src/Cases/Stale.antt =====
-- What the missing `cacheService.del` in `updateStatus` of src/modules/case/case.service.ts allows.
use corporate_lawyers_backen.Prelude.{ℕ, true, false, some, ◌≡◌, refl, sym, ◌∙◌}
use corporate_lawyers_backen.World.{UserRole, CaseStatus, Case, World, final}
use corporate_lawyers_backen.Cache.{lookup, expire}
use corporate_lawyers_backen.Cache.Coherence.{without-Agrees}
use corporate_lawyers_backen.Cases.Status.{lists, status_transitions}
use corporate_lawyers_backen.Cases.Records.{find_case, update_status}
use corporate_lawyers_backen.Cases.Lookup.{Coherent, find_case-update, find_case-update_ne}
use corporate_lawyers_backen.Cases.Moving.{moved, announced_world, may_archive, update_status-hit}

-- No status may follow itself.
pub status_transitions-irreflexive : (s : CaseStatus) → lists (status_transitions s) s ≡ false
unfolding status_transitions
status_transitions-irreflexive CaseStatus.intake = refl
status_transitions-irreflexive _ = refl

module _ (now id : ℕ) (status : CaseStatus) (user_id : ℕ) (role : UserRole) where
  -- A change that goes through rewrites the row, and leaves the cache entry as it was.
  hit-row :
      (w : World) (row : Case)
      → find_case id w.db.cases ≡ some row
      → find_case id (announced_world now id status user_id w).db.cases
        ≡ some (moved now status row)
  hit-row w row stored = find_case-update id (moved now status) _ row (λ c. refl) (λ c. refl) stored

  -- When the cache holds a case as it is in the rows, every status change that the table and the
  -- archiving guard let through leaves an incoherent cache: the entry still has the old status.
  pub update_status-not-Coherent :
      (w : World) (row : Case)
      → lookup id w.cache ≡ some row
      → find_case id w.db.cases ≡ some row
      → lists (status_transitions row.status) status ≡ true
      → may_archive row.status status role ≡ true
      → ¬ Coherent (final (update_status now id status user_id role w))
  update_status-not-Coherent w row cached stored allowed may =
      rw (update_status-hit now id status user_id role w row cached allowed may) λ coherent.
        let same : some (moved now status row) ≡ some row =
          sym (hit-row w row stored) ∙ coherent id row cached in
        different (status-eq same)
    where
      status-eq : some (moved now status row) ≡ some row → status ≡ row.status
      status-eq e = cc

      different : status ≡ row.status → ⊥
      different e =
          let refused : lists (status_transitions row.status) status ≡ false =
            rw e (status_transitions-irreflexive row.status) in
          cc

  -- From a coherent cache that holds the case, once the entry of the case has expired after a
  -- status change that goes through, the cache is coherent again.
  pub expire-update_status-Coherent :
      (w : World) (row : Case)
      → Coherent w
      → lookup id w.cache ≡ some row
      → lists (status_transitions row.status) status ≡ true
      → may_archive row.status status role ≡ true
      → Coherent (expire id (final (update_status now id status user_id role w)))
  expire-update_status-Coherent w row h cached allowed may =
      rw (update_status-hit now id status user_id role w row cached allowed may) (
        without-Agrees id w.cache (λ j. find_case j w.db.cases)
          (λ j. find_case j (announced_world now id status user_id w).db.cases) h
          (λ j ne. find_case-update_ne id j (moved now status) w.db.cases (λ c. refl) ne))

-- A closed case can be reopened. While the cache holds an active case as it is in the rows,
-- closing the case and then setting it to IN_HEARING both succeed, whoever asks, although the table lets a
-- closed case be archived only.
pub closed_case_reopens :
    (now now' id user_id user_id' : ℕ) (role role' : UserRole) (w : World) (row : Case)
    → lookup id w.cache ≡ some row
    → find_case id w.db.cases ≡ some row
    → row.status ≡ CaseStatus.active
    → let w' = final (update_status now id CaseStatus.closed user_id role w) in
      let w'' = final (update_status now' id CaseStatus.in_hearing user_id' role' w') in
      (find_case id w'.db.cases ≡ some (moved now CaseStatus.closed row))
      × (find_case id w''.db.cases
          ≡ some (moved now' CaseStatus.in_hearing (moved now CaseStatus.closed row)))
      × (lists (status_transitions CaseStatus.closed) CaseStatus.in_hearing ≡ false)
unfolding status_transitions
closed_case_reopens now now' id user_id user_id' role role' w row cached stored active =
    rw
      (
        update_status-hit now id CaseStatus.closed user_id role w row cached (rw active)
            (rw active),
        update_status-hit now' id CaseStatus.in_hearing user_id' role'
            (announced_world now id CaseStatus.closed user_id w) row cached (rw active) (rw active),
      )
      (
        closed_row,
        hit-row now' id CaseStatus.in_hearing user_id' role'
            (announced_world now id CaseStatus.closed user_id w) (moved now CaseStatus.closed row)
            closed_row,
        refl,
      )
  where
    closed_row :
        find_case id (announced_world now id CaseStatus.closed user_id w).db.cases
        ≡ some (moved now CaseStatus.closed row)
    closed_row = hit-row now id CaseStatus.closed user_id role w row stored
