-- ===== src/Billing/TimeEntries/Laws.antt =====
-- What src/modules/billing/time-entry.service.ts lets happen to a time entry.
use corporate_lawyers_backen.Prelude.{
  ℕ, ◌≤◌, true, false, none, some, List, [], ◌∷◌, ◌++◌, ◌≡◌, refl, ◌⊎◌, inl, inr, not, ◌==◌, ltb,
  update_where, Bool-cases, Option-cases, arith,
}
use corporate_lawyers_backen.World.{
  UserRole, Case, TimeEntry, World, ok, err, HttpError, ◌>>=◌, final,
}
use corporate_lawyers_backen.Roles.{is_admin}
use corporate_lawyers_backen.Cases.Records.{find_case}
use corporate_lawyers_backen.Cases.Status.{is_over}
use corporate_lawyers_backen.Cases.Lookup.{Coherent, find_one-cases}
use corporate_lawyers_backen.Cases.Access.{MayAccess, assert_case_access, assert_case_access_sound}
use corporate_lawyers_backen.Billing.TimeEntries.{
  CreateTimeEntryDto, UpdateTimeEntryDto, new_entry, create, find_entry, owns, in_future, edited,
  update, remove,
}

pub find_entry-update :
    (k : ℕ) (f : TimeEntry → TimeEntry) (rows : List TimeEntry) (e : TimeEntry)
    → ((e : TimeEntry) → (f e).id ≡ e.id)
    → ((e : TimeEntry) → (f e).deleted_at ≡ e.deleted_at)
    → find_entry k rows ≡ some e
    → find_entry k (update_where (λ e. e.id == k) f rows) ≡ some (f e)
find_entry-update k f [] e same live h = ground arith
find_entry-update k f (r ∷ rows) e same live h =
    ground (arith, same r, live r, find_entry-update k f rows e same live)

-- An entry may be touched when no invoice bills it and the user owns it or is an administrator.
abbrev pub MayTouch : ℕ → UserRole → TimeEntry → Type 0
MayTouch user_id role e = (e.is_billed ≡ false) × ((e.lawyer_id ≡ user_id) ⊎ (is_admin role ≡ true))

-- Why an update of an entry is refused: it is unknown, or billed, or another's, or moved into the
-- future.
abbrev pub UpdateReason :
    (now id : ℕ) → UpdateTimeEntryDto → ℕ → UserRole → World → HttpError → Type 0
UpdateReason now id dto user_id role w e =
    ((find_entry id w.db.time_entries ≡ none) × (e ≡ HttpError.not_found))
    ⊎ (entry : TimeEntry) × (find_entry id w.db.time_entries ≡ some entry)
      × (((entry.is_billed ≡ true) × (e ≡ HttpError.bad_request))
          ⊎ ((owns user_id role entry ≡ false) × (e ≡ HttpError.forbidden))
          ⊎ ((in_future now dto.date ≡ true) × (e ≡ HttpError.bad_request)))

module _ (now id user_id : ℕ) (role : UserRole) (w : World) where
  -- An update of a time entry ends in one of two ways. It is refused, and writes nothing: with 404
  -- for an unknown entry, 400 for one that an invoice bills or a date in the future, and 403 for a
  -- user who neither owns the entry nor is an administrator. Or no invoice bills the entry, the user
  -- owns or administers it, the request's date, if it has one, is not in the future, and its row is the entry as edited.
  pub update_entry_lem :
      (dto : UpdateTimeEntryDto)
      → ((e : HttpError) × (update now id dto user_id role w ≡ err e w)
          × UpdateReason now id dto user_id role w e)
        ⊎ (entry : TimeEntry) × (w' : World) × (find_entry id w.db.time_entries ≡ some entry)
          × MayTouch user_id role entry
          × (in_future now dto.date ≡ false)
          × (update now id dto user_id role w ≡ ok (edited dto entry) w')
          × (find_entry id w'.db.time_entries ≡ some (edited dto entry))
  unfolding update
  update_entry_lem dto = elim (Option-cases (find_entry id w.db.time_entries)) [
    | inl missing ↦ inl (HttpError.not_found, rw (missing, ◌>>=◌), inl (missing, refl))
    | inr (entry, found) ↦ elim (Bool-cases (not entry.is_billed)) [
      | inr billed ↦ inl (
        HttpError.bad_request,
        rw (found, billed, ◌>>=◌),
        inr (entry, found, inl (ground arith, refl)),
      )
      | inl unbilled ↦ elim (Bool-cases (owns user_id role entry)) [
        | inr stranger ↦ inl (
          HttpError.forbidden,
          rw (found, unbilled, stranger, ◌>>=◌),
          inr (entry, found, inr (inl (stranger, refl))),
        )
        | inl owner ↦ elim (Bool-cases (in_future now dto.date)) [
          | inl future ↦ inl (
            HttpError.bad_request,
            rw (found, unbilled, owner, future, ◌>>=◌),
            inr (entry, found, inr (inr (future, refl))),
          )
          | inr past ↦ inr (
            entry,
            final (update now id dto user_id role w),
            found,
            (ground arith, ground arith),
            past,
            rw (found, unbilled, owner, past, ◌>>=◌, final),
            rw (found, unbilled, owner, past, ◌>>=◌, final)
                (find_entry-update id (edited dto) w.db.time_entries entry (λ e. refl) (λ e. refl)
                  found),
          )
        ]
      ]
    ]
  ]

  -- A removal is refused and writes nothing, or it finds an entry that no invoice bills and that the
  -- user owns, or administers, which is not found any more afterwards.
  pub remove_entry_lem :
      ((e : HttpError) × (remove now id user_id role w ≡ err e w))
      ⊎ (entry : TimeEntry) × (w' : World) × (find_entry id w.db.time_entries ≡ some entry)
        × MayTouch user_id role entry
        × (remove now id user_id role w ≡ ok tt w')
        × (find_entry id w'.db.time_entries ≡ none)
  unfolding remove
  remove_entry_lem = elim (Option-cases (find_entry id w.db.time_entries)) [
    | inl missing ↦ inl (HttpError.not_found, rw (missing, ◌>>=◌))
    | inr (entry, found) ↦ elim (Bool-cases (not entry.is_billed)) [
      | inr billed ↦ inl (HttpError.bad_request, rw (found, billed, ◌>>=◌))
      | inl unbilled ↦ elim (Bool-cases (owns user_id role entry)) [
        | inr stranger ↦ inl (HttpError.forbidden, rw (found, unbilled, stranger, ◌>>=◌))
        | inl owner ↦ inr (
          entry,
          final (remove now id user_id role w),
          found,
          (ground arith, ground arith),
          rw (found, unbilled, owner, ◌>>=◌, final),
          rw (found, unbilled, owner, ◌>>=◌, final) (gone w.db.time_entries),
        )
      ]
    ]
  ]
    where
      gone :
          (rows : List TimeEntry)
          → find_entry id
              (update_where (λ e. e.id == id) (λ e. record e { deleted_at = some now }) rows)
            ≡ none
      gone [] = refl
      gone (e ∷ rows) = ground (arith, gone rows)

-- Why a time entry is not recorded: the user may not see the case, or the case is unknown, or closed
-- or archived, or the date is in the future.
abbrev pub CreateReason : (now : ℕ) → CreateTimeEntryDto → ℕ → UserRole → World → HttpError → Type 0
CreateReason now dto user_id role w e =
    (assert_case_access dto.case_id user_id role none w ≡ err e w)
    ⊎ ((find_case dto.case_id w.db.cases ≡ none) × (e ≡ HttpError.not_found))
    ⊎ ((ltb now dto.date ≡ true) × (e ≡ HttpError.bad_request))
    ⊎ (row : Case) × (find_case dto.case_id w.db.cases ≡ some row)
      × (is_over row.status ≡ true)
      × (e ≡ HttpError.bad_request)

-- On a coherent cache the creation of a time entry ends in one of two ways. It is refused, with the
-- tables as they were, when the user may not see the case, when the case is unknown, closed or
-- archived, or when the date is in the future. Otherwise the entry is the last row, with the rate
-- that the request gives or else the user's own, and no invoice bills it.
pub create_entry_lem :
    (now new_id : ℕ) (dto : CreateTimeEntryDto) (user_id : ℕ) (role : UserRole) (w : World)
    → Coherent w
    → ((e : HttpError) × (w' : World) × (create now new_id dto user_id role w ≡ err e w')
        × (w'.db ≡ w.db)
        × CreateReason now dto user_id role w e)
      ⊎ (row : Case) × (w' : World) × (find_case dto.case_id w.db.cases ≡ some row)
        × (is_over row.status ≡ false)
        × (dto.date ≤ now)
        × MayAccess w.db dto.case_id user_id role none
        × (create now new_id dto user_id role w ≡ ok (new_entry new_id dto user_id w.db) w')
        × (w'.db.time_entries ≡ w.db.time_entries ++ new_entry new_id dto user_id w.db ∷ [])
unfolding create
create_entry_lem now new_id dto user_id role w h =
    elim (assert_case_access_sound dto.case_id user_id role none w) [
      | inr refused ↦ inl (HttpError.forbidden, w, rw (refused, ◌>>=◌), refl, inl refused)
      | inl (passes, access) ↦ elim (find_one-cases dto.case_id w h) [
        | inl (missing, fails) ↦
            inl (HttpError.not_found, w, rw (passes, fails, ◌>>=◌), refl, inr (inl (missing, refl)))
        | inr found ↦ elim (Bool-cases (is_over found.row.status)) [
          | inl over ↦ inl (
            HttpError.bad_request,
            found.after,
            rw (passes, found.returns, over, ◌>>=◌),
            rw found.same_rest,
            inr (inr (inr (found.row, found.is_row, over, refl))),
          )
          | inr going_on ↦ elim (Bool-cases (ltb now dto.date)) [
            | inl future ↦ inl (
              HttpError.bad_request,
              found.after,
              rw (passes, found.returns, going_on, future, ◌>>=◌),
              rw found.same_rest,
              inr (inr (inl (future, refl))),
            )
            | inr past ↦ inr (
              found.row,
              final (create now new_id dto user_id role w),
              found.is_row,
              going_on,
              ground arith,
              access,
              rw (passes, found.returns, going_on, past, ◌>>=◌, final) (rw found.same_rest),
              rw (passes, found.returns, going_on, past, ◌>>=◌, final) (rw found.same_rest),
            )
          ]
        ]
      ]
    ]
