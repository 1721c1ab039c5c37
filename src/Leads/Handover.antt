-- ===== src/Leads/Handover.antt =====
-- The steps of `convert` in src/modules/crm/lead.service.ts.
use corporate_lawyers_backen.Prelude.{
  ℕ, Bool, true, false, is_some, ◌++◌, Option, none, some, [], ◌∷◌, ◌≡◌, refl, ◌⊎◌, inl, inr, ◌==◌,
  any, find, List, arith, Bool-cases,
}
use corporate_lawyers_backen.World.{
  User, Lead, LeadStatus, World, ok, err, HttpError, ◌>>=◌, ◌>>◌, final,
}
use corporate_lawyers_backen.Cases.Numbers.{generate_case_number, next_is_taken}
use corporate_lawyers_backen.Leads.Convert.{NewIds, first_case, open_case, notify_assignee}

-- With a lawyer and a title the next number was free, the lawyer known, and the case is the last row
-- under that number; without them the cases are as they were.
abbrev pub CaseOpened :
    (below : ℕ → ℕ → Bool) (year : ℕ)
    → NewIds
    → Option ℕ
    → Option ℕ
    → Option ℕ
    → Lead
    → (w w' : World) → Type 0
CaseOpened below year ids none title case_type lead w w' = w'.tx.cases ≡ w.tx.cases
CaseOpened below year ids (some lawyer) none case_type lead w w' = w'.tx.cases ≡ w.tx.cases
CaseOpened below year ids (some lawyer) (some title) case_type lead w w' =
    (next_is_taken below year w.tx.cases ≡ false)
    × (any (λ u. u.id == lawyer) w.tx.users ≡ true)
    × (w'.tx.cases
        ≡ w.tx.cases
          ++ first_case ids year (generate_case_number below year w.tx.cases) title case_type lead
            ∷ [])

-- The case of a new client is opened, or not asked for, or refused: with 409 when the next number is
-- taken, and with 400 when the lawyer is unknown. It leaves users, profiles and leads alone.
pub open_case-cases :
    (below : ℕ → ℕ → Bool) (year : ℕ) (ids : NewIds) (lawyer title case_type : Option ℕ)
    (lead : Lead) (w : World)
    → ((e : HttpError) × (w' : World) × (open_case below year ids lawyer title case_type lead w
          ≡ err e w')
        × (w'.db ≡ w.db)
        × (lawyer_id : ℕ) × (lawyer ≡ some lawyer_id)
        × (is_some title ≡ true)
        × (((next_is_taken below year w.tx.cases ≡ true) × (e ≡ HttpError.conflict))
            ⊎ (any (λ u. u.id == lawyer_id) w.tx.users ≡ false) × (e ≡ HttpError.bad_request)))
      ⊎ (w' : World) × (open_case below year ids lawyer title case_type lead w ≡ ok tt w')
        × (w'.tx.users ≡ w.tx.users)
        × (w'.tx.client_profiles ≡ w.tx.client_profiles)
        × (w'.tx.leads ≡ w.tx.leads)
        × CaseOpened below year ids lawyer title case_type lead w w'
open_case-cases below year ids none title case_type lead w = inr (w, refl, refl, refl, refl, refl)
open_case-cases below year ids (some lawyer) none case_type lead w =
    inr (w, refl, refl, refl, refl, refl)
open_case-cases below year ids (some lawyer) (some title) case_type lead w =
    elim (Bool-cases (next_is_taken below year w.tx.cases)) [
      | inl taken ↦ inl (
        HttpError.conflict,
        w,
        rw (taken, ◌>>=◌, ◌>>◌) refl,
        refl,
        lawyer,
        refl,
        refl,
        inl (taken, refl),
      )
      | inr free ↦ elim (Bool-cases (any (λ u. u.id == lawyer) w.tx.users)) [
        | inr unknown ↦ inl (
          HttpError.bad_request,
          final (open_case below year ids (some lawyer) (some title) case_type lead w),
          rw (free, unknown, ◌>>=◌, ◌>>◌, final),
          rw (free, unknown, ◌>>=◌, ◌>>◌, final),
          lawyer,
          refl,
          refl,
          inr (unknown, refl),
        )
        | inl known ↦ inr (
          final (open_case below year ids (some lawyer) (some title) case_type lead w),
          rw (free, known, ◌>>=◌, ◌>>◌, final),
          rw (free, known, ◌>>=◌, ◌>>◌, final),
          rw (free, known, ◌>>=◌, ◌>>◌, final),
          rw (free, known, ◌>>=◌, ◌>>◌, final),
          (free, known, rw (free, known, ◌>>=◌, ◌>>◌, final) refl),
        )
      ]
    ]

pub notify_assignee-same :
    (assignee : Option ℕ) (w : World)
    → (w' : World) × (notify_assignee assignee w ≡ ok tt w') × (w'.db ≡ w.db)
notify_assignee-same none w = (w, refl, refl)
notify_assignee-same (some assignee) w = (final (notify_assignee (some assignee) w), refl, refl)

pub any-find :
    (p : User → Bool) (rows : List User) (u : User) → find p rows ≡ some u → any p rows ≡ true
any-find p [] u h = ground arith
any-find p (r ∷ rows) u h = ground (arith, any-find p rows u)

abbrev pub converted : Lead → Lead
converted l = record l { status = LeadStatus.converted }
