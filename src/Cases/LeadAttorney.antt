-- ===== src/Cases/LeadAttorney.antt =====
-- A case keeps at most one lead attorney (src/modules/case/case.service.ts, assignLawyer).
use corporate_lawyers_backen.Prelude.{
  ℕ, ◌+◌, ◌≤◌, true, false, Option, none, some, List, [], ◌∷◌, ◌≡◌, ◌≢◌, refl, inl, inr, not, ◌&&◌,
  ◌==◌, if◌then◌else◌, is_some, or_else, find, update_where, count_where, count_where-append, All,
  Keyed, Bool-cases, Option-cases, arith,
}
use corporate_lawyers_backen.World.{CaseAssignmentRole, CaseAssignment, World, final}
use corporate_lawyers_backen.Cases.Assignments.{
  is_lead, leads, demote, reinstated, place, find_any, upsert, can_be_assigned, get_assignments,
  assign_lawyer,
}
use corporate_lawyers_backen.Cases.Lookup.{find_one-outcome}

abbrev pub lead_count : ℕ → List CaseAssignment → ℕ
lead_count case_id = count_where (leads case_id)

-- The ids are the table's primary key.
abbrev pub HasKeys : List CaseAssignment → Type 0
HasKeys = Keyed (λ a. a.id)

lead_count-demote :
    (case_id : ℕ) (rows : List CaseAssignment) → lead_count case_id (demote case_id rows) ≡ 0
lead_count-demote case_id [] = refl
lead_count-demote case_id (a ∷ rows) = ground (arith, lead_count-demote case_id rows)

demote-All :
    (case_id k : ℕ) (rows : List CaseAssignment)
    → All (λ a. k ≢ a.id) rows
    → All (λ a. k ≢ a.id) (demote case_id rows)
demote-All case_id k [] h = tt
demote-All case_id k (a ∷ rows) h = (ground arith, demote-All case_id k rows h.1)

demote-HasKeys :
    (case_id : ℕ) (rows : List CaseAssignment) → HasKeys rows → HasKeys (demote case_id rows)
demote-HasKeys case_id [] h = tt
demote-HasKeys case_id (a ∷ rows) h = elim (Bool-cases (leads case_id a)) [
  | inl lead ↦ rw lead (demote-All case_id a.id rows h.0, demote-HasKeys case_id rows h.1)
  | inr other ↦ rw other (demote-All case_id a.id rows h.0, demote-HasKeys case_id rows h.1)
]

-- Rewriting a row that is not there.
reinstate-absent :
    (k : ℕ) (role : CaseAssignmentRole) (rows : List CaseAssignment)
    → All (λ a. k ≢ a.id) rows
    → update_where (λ a. a.id == k) (reinstated role) rows ≡ rows
reinstate-absent k role [] h = refl
reinstate-absent k role (a ∷ rows) h = ground (arith, reinstate-absent k role rows h.1)

-- Rewriting one row adds at most one lead.
reinstate-lead_count :
    (case_id k : ℕ) (role : CaseAssignmentRole) (rows : List CaseAssignment)
    → HasKeys rows
    → lead_count case_id (update_where (λ a. a.id == k) (reinstated role) rows)
      ≤ lead_count case_id rows + (if is_lead role then 1 else 0)
reinstate-lead_count case_id k role [] h = omega arith
reinstate-lead_count case_id k role (a ∷ rows) h = elim (Bool-cases (a.id == k)) [
  | inl here ↦
      let e : a.id ≡ k = ground arith in
      let absent : All (λ b. k ≢ b.id) rows = rw e at h.0 in
      rw (here, reinstate-absent k role rows absent) (ground arith)
  | inr later ↦ rw later (ground (arith, reinstate-lead_count case_id k role rows h.1))
]

lead_count-place :
    (new_id case_id target : ℕ) (role : CaseAssignmentRole) (found : Option CaseAssignment)
    (rows : List CaseAssignment)
    → HasKeys rows
    → lead_count case_id (place new_id case_id target role found rows)
      ≤ lead_count case_id rows + (if is_lead role then 1 else 0)
lead_count-place new_id case_id target role none rows h = ground (
  arith,
  count_where-append (leads case_id) rows (
      record { id = new_id; case_id = case_id; user_id = target; role = role; removed_at = none }
      ∷ []),
)
lead_count-place new_id case_id target role (some existing) rows h =
    reinstate-lead_count case_id existing.id role rows h

pub lead_count-upsert :
    (new_id case_id target : ℕ) (role : CaseAssignmentRole) (rows : List CaseAssignment)
    → HasKeys rows
    → lead_count case_id rows ≤ 1
    → lead_count case_id (upsert new_id case_id target role rows) ≤ 1
unfolding upsert
lead_count-upsert new_id case_id target role rows h one = elim (Bool-cases (is_lead role)) [
  | inl lead ↦
      let rows' = demote case_id rows in
      rw lead (
        omega
          (arith, lead_count-demote case_id rows, bound rows' (demote-HasKeys case_id rows h) lead))
  | inr other ↦ rw other (omega (arith, same rows h other))
]
  where
    bound :
        (rows : List CaseAssignment)
        → HasKeys rows
        → is_lead role ≡ true
        → lead_count case_id (place new_id case_id target role (find_any case_id target rows) rows)
          ≤ lead_count case_id rows + 1
    bound rows h lead =
        rw lead at
          (lead_count-place new_id case_id target role (find_any case_id target rows) rows h)

    same :
        (rows : List CaseAssignment)
        → HasKeys rows
        → is_lead role ≡ false
        → lead_count case_id (place new_id case_id target role (find_any case_id target rows) rows)
          ≤ lead_count case_id rows + 0
    same rows h other =
        rw other at
          (lead_count-place new_id case_id target role (find_any case_id target rows) rows h)

get_assignments-db : (case_id : ℕ) (w : World) → (final (get_assignments case_id w)).db ≡ w.db
unfolding get_assignments
get_assignments-db case_id w = elim (find_one-outcome case_id w) [
  | inl (c, cache', e) ↦ rw (e, final)
  | inr e ↦ rw (e, final)
]

-- In a table of assignments with different ids, assigning a lawyer to a case that has at most one
-- current lead attorney leaves at most one, whichever role is asked for and however the request
-- ends.
pub assign_lawyer-one_lead :
    (new_id case_id target : ℕ) (role : Option CaseAssignmentRole) (user_id : ℕ) (w : World)
    → HasKeys w.db.assignments
    → lead_count case_id w.db.assignments ≤ 1
    → lead_count case_id (final (assign_lawyer new_id case_id target role user_id w)).db.assignments
      ≤ 1
unfolding assign_lawyer
assign_lawyer-one_lead new_id case_id target role user_id w keys one =
    elim (find_one-outcome case_id w) [
      | inr e ↦ rw (e, final) one
      | inl (c, cache', e) ↦
          elim (Option-cases
            (find (λ u. u.id == target && not (is_some u.deleted_at)) w.db.users)) [
              | inl nobody ↦ rw (e, nobody, final) one
              | inr (user, found) ↦ elim (Bool-cases (can_be_assigned user.role)) [
                | inr other ↦ rw (e, found, other, final) one
                | inl fit ↦
                    rw (e, found, fit, final)
                      (rw get_assignments-db (
                        lead_count-upsert new_id case_id target
                          (or_else role CaseAssignmentRole.co_counsel) w.db.assignments keys one))
              ]
            ]
    ]
