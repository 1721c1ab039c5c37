-- ===== src/Cases/Access.antt =====
-- `assertCaseAccess` of src/modules/case/case.service.ts.
use mathlib.Core.List.{Memᴰ}
use corporate_lawyers_backen.Prelude.{
  ℕ, Bool, true, false, Option, none, some, List, [], ◌∷◌, ◌≡◌, refl, ◌⊎◌, inl, inr, not, ◌&&◌,
  ◌==◌, if◌then◌else◌, is_some, find, find_holds, Bool-cases, Option-cases, arith,
}
use corporate_lawyers_backen.World.{
  UserRole, CaseAssignmentRole, ClientProfile, Case, CaseAssignment, Tables, World, Outcome, ok,
  err, HttpError, M, pure, ◌>>=◌, guard, need, read_db,
}
use corporate_lawyers_backen.Roles.{is_admin, is_client}
use corporate_lawyers_backen.Cases.Records.{is_live}

abbrev pub assignment_ordinal : CaseAssignmentRole → ℕ
assignment_ordinal CaseAssignmentRole.lead_attorney = 0
assignment_ordinal CaseAssignmentRole.co_counsel = 1
assignment_ordinal CaseAssignmentRole.assistant = 2
assignment_ordinal CaseAssignmentRole.supervisor = 3

-- `===` on assignment roles
abbrev pub same_assignment_role : CaseAssignmentRole → CaseAssignmentRole → Bool
same_assignment_role r s = assignment_ordinal r == assignment_ordinal s

-- `where: { caseId, userId, removedAt: null }`
abbrev pub is_assigned : ℕ → ℕ → CaseAssignment → Bool
is_assigned case_id user_id a =
    a.case_id == case_id && a.user_id == user_id && not (is_some a.removed_at)

-- `requiredAssignmentRole && assignment.role !== requiredAssignmentRole` fails
abbrev pub meets : Option CaseAssignmentRole → CaseAssignmentRole → Bool
meets none role = true
meets (some required) role = same_assignment_role role required

abbrev pub client_access : ℕ → ℕ → M (Unit {0})
client_access case_id user_id = do
  db ← read_db
  profile ← need (find (λ p. p.user_id == user_id) db.client_profiles) HttpError.forbidden
  record_found ←
      need (find (λ c. c.id == case_id && c.client_profile_id == profile.id && is_live c) db.cases)
        HttpError.forbidden
  pure tt

abbrev pub staff_access : ℕ → ℕ → Option CaseAssignmentRole → M (Unit {0})
staff_access case_id user_id required = do
  db ← read_db
  assignment ← need (find (is_assigned case_id user_id) db.assignments) HttpError.forbidden
  guard (meets required assignment.role) HttpError.forbidden

unfoldable pub assert_case_access : ℕ → ℕ → UserRole → Option CaseAssignmentRole → M (Unit {0})
assert_case_access case_id user_id user_role required =
    if is_admin user_role
    then pure tt
    else if is_client user_role
    then client_access case_id user_id
    else staff_access case_id user_id required

-- Who may see a case, over the rows. A client is asked for no assignment role.
pub data MayAccess (db : Tables) (case_id user_id : ℕ) (role : UserRole)
    (required : Option CaseAssignmentRole) : Type 0 where
  as_admin : is_admin role ≡ true → MayAccess db case_id user_id role required
  as_owner :
      (p : ClientProfile) (c : Case)
      → role ≡ UserRole.client
      → Memᴰ p db.client_profiles
      → p.user_id ≡ user_id
      → Memᴰ c db.cases
      → c.id ≡ case_id
      → c.client_profile_id ≡ p.id
      → c.deleted_at ≡ none
      → MayAccess db case_id user_id role required
  as_assigned :
      (a : CaseAssignment)
      → is_client role ≡ false
      → Memᴰ a db.assignments
      → a.case_id ≡ case_id
      → a.user_id ≡ user_id
      → a.removed_at ≡ none
      → meets required a.role ≡ true
      → MayAccess db case_id user_id role required

pub find-Memᴰ {ℓ} :
    {A : Type ℓ} (p : A → Bool) (xs : List A) (y : A) → find p xs ≡ some y → Memᴰ y xs
find-Memᴰ p [] y e = absurd (cc)
find-Memᴰ p (x ∷ xs) y e = elim (Bool-cases (p x)) [
  | inl here ↦ Memᴰ.head (ground arith)
  | inr later ↦ Memᴰ.tail (find-Memᴰ p xs y (ground arith))
]

-- A check that passes for a reason, or is refused with 403; it writes nothing in either case.
abbrev pub Decides : Outcome (Unit {0}) → World → Type 0 → Type 0
Decides r w P = ((r ≡ ok tt w) × P) ⊎ (r ≡ err HttpError.forbidden w)

module _ (case_id user_id : ℕ) (role : UserRole) (required : Option CaseAssignmentRole)
    (w : World) where
  abbrev Ground : Type 0
  Ground = MayAccess w.db case_id user_id role required

  client_access_sound : role ≡ UserRole.client → Decides (client_access case_id user_id w) w Ground
  client_access_sound client =
      elim (Option-cases (find (λ p. p.user_id == user_id) w.db.client_profiles)) [
        | inl e ↦ inr (rw (e, ◌>>=◌))
        | inr (p, e) ↦ elim (Option-cases (find (owned p) w.db.cases)) [
          | inl e' ↦ inr (rw (e, e', ◌>>=◌))
          | inr (c, e') ↦
              let mine = find_holds _ w.db.client_profiles p e in
              let facts = find_holds (owned p) w.db.cases c e' in
              inl (
                rw (e, e', ◌>>=◌),
                as_owner p c client (find-Memᴰ _ w.db.client_profiles p e) (ground arith)
                    (find-Memᴰ (owned p) w.db.cases c e') (ground arith) (ground arith)
                    (ground arith),
              )
        ]
      ]
    where
      owned : ClientProfile → Case → Bool
      owned p c = c.id == case_id && c.client_profile_id == p.id && is_live c

  staff_access_sound :
      is_client role ≡ false → Decides (staff_access case_id user_id required w) w Ground
  staff_access_sound staff =
      elim (Option-cases (find (is_assigned case_id user_id) w.db.assignments)) [
        | inl e ↦ inr (rw (e, ◌>>=◌))
        | inr (a, e) ↦ elim (Bool-cases (meets required a.role)) [
          | inl enough ↦
              let facts = find_holds (is_assigned case_id user_id) w.db.assignments a e in
              inl (
                rw (e, enough, ◌>>=◌),
                as_assigned a staff (find-Memᴰ (is_assigned case_id user_id) w.db.assignments a e)
                    (ground arith) (ground arith) (ground arith) enough,
              )
          | inr short ↦ inr (rw (e, short, ◌>>=◌))
        ]
      ]

  -- Access is granted to nobody without one of the three grounds over the rows: an administrator,
  -- the client who owns the live case, or a member of the staff with a current assignment of the
  -- required role. Everybody else gets 403, and the check writes nothing.
  pub assert_case_access_sound :
      Decides (assert_case_access case_id user_id role required w) w Ground
  unfolding assert_case_access
  assert_case_access_sound = elim (Bool-cases (is_admin role)) [
    | inl admin ↦ rw admin (inl (refl, as_admin admin))
    | inr other ↦ elim (Bool-cases (is_client role)) [
      | inl client ↦ rw (other, client) (client_access_sound (ground arith))
      | inr staff ↦ rw (other, staff) (staff_access_sound staff)
    ]
  ]

-- The role that an endpoint requires does not bind a client: whatever it is, a client passes
-- exactly when the client would pass with none.
pub assert_case_access-client :
    (case_id user_id : ℕ) (required : CaseAssignmentRole) (w : World)
    → assert_case_access case_id user_id UserRole.client (some required) w
      ≡ assert_case_access case_id user_id UserRole.client none w
unfolding assert_case_access
assert_case_access-client case_id user_id required w = refl
