-- ===== src/Cases/Opening.antt =====
-- What `create` of src/modules/case/case.service.ts leaves behind.
use corporate_lawyers_backen.Prelude.{
  ℕ, false, Bool, true, none, some, List, [], ◌∷◌, ◌++◌, ◌≡◌, refl, ◌∙◌, ◌⊎◌, inl, inr, not, ◌&&◌,
  ◌==◌, is_some, find, count_where-append, find-append, Bool-cases, Option-cases, ==_refl, arith,
}
use corporate_lawyers_backen.World.{
  Text, User, CaseAssignment, CaseAssignmentRole, ClientProfile, Case, CaseParty, World, ok, err,
  HttpError, ◌>>=◌, ◌>>◌, settle, final,
}
use corporate_lawyers_backen.Roles.{is_active_user}
use corporate_lawyers_backen.Cache.{lookup}
use corporate_lawyers_backen.Cache.Coherence.{fill-Agrees}
use corporate_lawyers_backen.Cases.Records.{find_case, is_live, find_one}
use corporate_lawyers_backen.Cases.Create.{
  CreateCaseDto, new_case, is_lawyer, name_of, create_in_tx, check_by_name, create,
}
use corporate_lawyers_backen.Cases.Numbers.{generate_case_number, next_is_taken}
use corporate_lawyers_backen.Cases.Lookup.{Coherent}
use corporate_lawyers_backen.Cases.Assignments.{leads}
use corporate_lawyers_backen.Cases.LeadAttorney.{lead_count}

find_case-kept :
    (id : ℕ) (rows : List Case) (c new : Case)
    → find_case id rows ≡ some c
    → find_case id (rows ++ new ∷ []) ≡ some c
find_case-kept id [] c new h = ground arith
find_case-kept id (r ∷ rows) c new h = ground (arith, find_case-kept id rows c new)

module _ (contains : Text → Text → Bool) (below : ℕ → ℕ → Bool) (year new_id assignment_id : ℕ)
    (dto : CreateCaseDto) (user_id : ℕ) (w : World) where
  -- The case that is asked for, under the next number of the year.
  abbrev pub opened_case : Case
  opened_case = new_case new_id year (generate_case_number below year w.db.cases) dto

  abbrev lead_row : CaseAssignment
  lead_row = record {
    id = assignment_id;
    case_id = new_id;
    user_id = dto.assigned_lawyer_id;
    role = CaseAssignmentRole.lead_attorney;
    removed_at = none;
  }

  -- The case comes back as it was asked for, in INTAKE, with the matches of its client's name, and
  -- with one lead attorney.
  abbrev pub Opens : List CaseParty → World → Type 0
  Opens matches w' =
      (create contains below year new_id assignment_id dto user_id w ≡ ok (opened_case, matches) w')
      × (find_case new_id w'.db.cases ≡ some opened_case)
      × (lead_count new_id w'.db.assignments ≡ 1)
      × Coherent w'

  module _ (h : Coherent w) (fresh : find_case new_id w.db.cases ≡ none)
      (unassigned : lead_count new_id w.db.assignments ≡ 0) where
    not_cached : lookup new_id w.cache ≡ none
    not_cached = elim (Option-cases (lookup new_id w.cache)) [
      | inl missing ↦ missing
      | inr (c, hit) ↦ absurd (clash c (h new_id c hit))
    ]
      where
        clash : (c : Case) → find_case new_id w.db.cases ≡ some c → ⊥
        clash c stored = cc

    create-Opens :
        (profile : ClientProfile) (client lawyer : User)
        → find (λ p. p.id == dto.client_profile_id) w.db.client_profiles ≡ some profile
        → find (λ u. u.id == profile.user_id) w.db.users ≡ some client
        → is_active_user client.status ≡ true
        → find
            (λ u. u.id == dto.assigned_lawyer_id && is_lawyer u.role && not (is_some u.deleted_at))
            w.db.users
          ≡ some lawyer
        → is_active_user lawyer.status ≡ true
        → next_is_taken below year w.db.cases ≡ false
        → Opens
            (check_by_name contains (name_of client) w.db)
            (final (create contains below year new_id assignment_id dto user_id w))
    unfolding create create_in_tx find_one
    create-Opens profile client lawyer known its_user active lawyer_known practising free =
        let row = opened_case in
        let stored : find_case new_id (w.db.cases ++ row ∷ []) ≡ some row =
          find-append (λ c. c.id == new_id && is_live c) w.db.cases row fresh
            (ground (arith, ==_refl new_id)) in
        let path = not_cached in
        let one_lead : lead_count new_id (w.db.assignments ++ lead_row ∷ []) ≡ 1 =
          count_where-append (leads new_id) w.db.assignments (lead_row ∷ [])
          ∙ ground (arith, ==_refl new_id, unassigned) in
        let agrees =
          fill-Agrees new_id row w.cache (λ j. find_case j (w.db.cases ++ row ∷ []))
            (λ j c hit. find_case-kept j w.db.cases c row (h j c hit)) stored in
        (
          rw (
            known, its_user, active, lawyer_known, practising, free, ◌>>=◌, ◌>>◌, settle, final,
            path, stored,
          ),
          rw
              (
                known, its_user, active, lawyer_known, practising, free, ◌>>=◌, ◌>>◌, settle, final,
                path, stored,
              )
              stored,
          rw
              (
                known, its_user, active, lawyer_known, practising, free, ◌>>=◌, ◌>>◌, settle, final,
                path, stored,
              )
              one_lead,
          rw
              (
                known, its_user, active, lawyer_known, practising, free, ◌>>=◌, ◌>>◌, settle, final,
                path, stored,
              )
              agrees,
        )

  -- There is no such client profile, or it has no user, or an inactive one, or the lawyer is none of
  -- the live ones, or is inactive.
  abbrev pub NotReady : Type 0
  NotReady =
      (find (λ p. p.id == dto.client_profile_id) w.db.client_profiles ≡ none)
      ⊎ ((profile : ClientProfile) × (find (λ p. p.id == dto.client_profile_id) w.db.client_profiles
            ≡ some profile)
          × ((find (λ u. u.id == profile.user_id) w.db.users ≡ none)
              ⊎ (client : User) × (find (λ u. u.id == profile.user_id) w.db.users ≡ some client)
                × (is_active_user client.status ≡ false)))
      ⊎ (find
            (λ u. u.id == dto.assigned_lawyer_id && is_lawyer u.role && not (is_some u.deleted_at))
            w.db.users
          ≡ none)
      ⊎ (lawyer : User) × (find
            (λ u. u.id == dto.assigned_lawyer_id && is_lawyer u.role && not (is_some u.deleted_at))
            w.db.users
          ≡ some lawyer)
        × (is_active_user lawyer.status ≡ false)

  -- From a coherent cache, and under an id that no live case and no current lead attorney has, the
  -- creation of a case ends in one of three ways. It is refused with 400, and nothing is written, when
  -- the client profile has no active user or the lawyer is no live, active one. It is refused with
  -- 409, with the tables as they were, when the next number of the year is that of a row already, as
  -- that of a deleted case is. Otherwise no row has the number and the case is opened under it: it is
  -- in INTAKE with one lead attorney, and the cache is coherent.
  pub create_case_lem :
      Coherent w
      → find_case new_id w.db.cases ≡ none
      → lead_count new_id w.db.assignments ≡ 0
      → ((create contains below year new_id assignment_id dto user_id w
            ≡ err HttpError.bad_request w)
          × NotReady)
        ⊎ ((w' : World) × (create contains below year new_id assignment_id dto user_id w
              ≡ err HttpError.conflict w')
            × (w'.db ≡ w.db)
            × (next_is_taken below year w.db.cases ≡ true))
        ⊎ (profile : ClientProfile) × (client : User) × (lawyer : User) × (w' : World) × (find
              (λ p. p.id == dto.client_profile_id)
              w.db.client_profiles
            ≡ some profile)
          × (find (λ u. u.id == profile.user_id) w.db.users ≡ some client)
          × (is_active_user client.status ≡ true)
          × (find
                (λ u.
                  u.id == dto.assigned_lawyer_id && is_lawyer u.role && not (is_some u.deleted_at))
                w.db.users
              ≡ some lawyer)
          × (is_active_user lawyer.status ≡ true)
          × (next_is_taken below year w.db.cases ≡ false)
          × Opens (check_by_name contains (name_of client) w.db) w'
  unfolding create create_in_tx
  create_case_lem h fresh unassigned =
      elim (Option-cases (find (λ p. p.id == dto.client_profile_id) w.db.client_profiles)) [
        | inl unknown ↦ inl (rw (unknown, ◌>>=◌), inl unknown)
        | inr (profile, known) ↦
            elim (Option-cases (find (λ u. u.id == profile.user_id) w.db.users)) [
              | inl nobody ↦ inl (rw (known, nobody, ◌>>=◌), inr (inl (profile, known, inl nobody)))
              | inr (client, its_user) ↦ elim (Bool-cases (is_active_user client.status)) [
                | inr idle ↦ inl (
                  rw (known, its_user, idle, ◌>>=◌),
                  inr (inl (profile, known, inr (client, its_user, idle))),
                )
                | inl active ↦
                    elim (Option-cases (
                      find
                        (λ u.
                          u.id == dto.assigned_lawyer_id
                          && is_lawyer u.role
                          && not (is_some u.deleted_at))
                        w.db.users)) [
                          | inl no_lawyer ↦ inl (
                            rw (known, its_user, active, no_lawyer, ◌>>=◌),
                            inr (inr (inl no_lawyer)),
                          )
                          | inr (lawyer, lawyer_known) ↦
                              elim (Bool-cases (is_active_user lawyer.status)) [
                                | inr away ↦ inl (
                                  rw (known, its_user, active, lawyer_known, away, ◌>>=◌),
                                  inr (inr (inr (lawyer, lawyer_known, away))),
                                )
                                | inl practising ↦
                                    elim (Bool-cases (next_is_taken below year w.db.cases)) [
                                      | inl taken ↦ inr (
                                          inl (
                                            record w { tx = w.db },
                                            rw
                                                (
                                                  known, its_user, active, lawyer_known, practising,
                                                  taken, ◌>>=◌, ◌>>◌, settle,
                                                )
                                                refl,
                                            refl,
                                            taken,
                                          ))
                                      | inr free ↦ inr (
                                          inr (
                                            profile,
                                            client,
                                            lawyer,
                                            final (
                                                create contains below year new_id assignment_id dto
                                                  user_id w),
                                            known,
                                            its_user,
                                            active,
                                            lawyer_known,
                                            practising,
                                            free,
                                            create-Opens h fresh unassigned profile client lawyer
                                                known its_user active lawyer_known practising free,
                                          ))
                                    ]
                              ]
                        ]
              ]
            ]
      ]
