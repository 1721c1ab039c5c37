-- ===== src/Leads/Conversion.antt =====
-- How a lead becomes a client (src/modules/crm/lead.service.ts, convert).
use corporate_lawyers_backen.Prelude.{
  ℕ, Bool, true, false, Option, ap, ◌∙◌, none, some, List, [], ◌∷◌, ◌++◌, ◌≡◌, refl, ◌⊎◌, inl, inr,
  not, ◌==◌, is_some, any, find, update_where, Bool-cases, Option-cases,
}
use corporate_lawyers_backen.World.{
  Case, Lead, Tables, World, ok, err, HttpError, ◌>>=◌, ◌>>◌, settle, final, send, NotificationType,
}
use corporate_lawyers_backen.SoftDelete.{Model, is_soft_delete_model, find_unique}
use corporate_lawyers_backen.Leads.Status.{is_convertible}
use corporate_lawyers_backen.World.{text_eq}
use corporate_lawyers_backen.Cases.Numbers.{generate_case_number, next_is_taken}
use corporate_lawyers_backen.Leads.Records.{find_lead, find_one}
use corporate_lawyers_backen.Leads.Convert.{
  ConvertLeadDto, NewIds, client_user, first_case, open_case, convert_in_tx, convert,
}
use corporate_lawyers_backen.Leads.Handover.{
  CaseOpened, open_case-cases, notify_assignee-same, any-find, converted,
}
use corporate_lawyers_backen.Leads.Editing.{find_lead-update}

module _ (below : ℕ → ℕ → Bool) (year : ℕ) (ids : NewIds) (id : ℕ) (dto : ConvertLeadDto)
    (user_id : ℕ) (w : World) where
  -- What the transaction has written when it comes to the case.
  abbrev pub begun : Lead → World
  begun lead = record w {
    tx = record (w.db) {
      users = w.db.users ++ client_user ids.user lead ∷ [];
      client_profiles =
          w.db.client_profiles ++ record { id = ids.profile; user_id = ids.user } ∷ [];
      leads = update_where (λ l. l.id == id) converted w.db.leads;
    };
  }

  -- The case that is asked for, if there is a lawyer and a title, is the last row, under the next number
  -- of the year, which no row had, and the lawyer is a user; else the cases are as they were.
  abbrev pub OpensCase : Lead → Option ℕ → Option ℕ → List Case → Type 0
  OpensCase lead none title cases = cases ≡ w.db.cases
  OpensCase lead (some lawyer) none cases = cases ≡ w.db.cases
  OpensCase lead (some lawyer) (some title) cases =
      (next_is_taken below year w.db.cases ≡ false)
      × (any (λ u. u.id == lawyer) (begun lead).tx.users ≡ true)
      × (cases
          ≡ w.db.cases
            ++ first_case ids year (generate_case_number below year w.db.cases) title dto.case_type
                lead
              ∷ [])

  opens_case :
      (lead : Lead) (lawyer title : Option ℕ) (w' : World) (cases : List Case)
      → CaseOpened below year ids lawyer title dto.case_type lead (begun lead) w'
      → cases ≡ w'.tx.cases
      → OpensCase lead lawyer title cases
  opens_case lead none title w' cases opened same = same ∙ opened
  opens_case lead (some lawyer) none w' cases opened same = same ∙ opened
  opens_case lead (some lawyer) (some title) w' cases (free, known, last) same =
      (free, known, same ∙ last)

  -- The lead is CONVERTED, and there is one new user, a client with its address, and one new client
  -- profile.
  abbrev pub Converts : Lead → World → Type 0
  Converts lead w' =
      (convert below year ids id dto user_id w ≡ ok (converted lead) w')
      × (find_lead id w'.db.leads ≡ some (converted lead))
      × (w'.db.users ≡ w.db.users ++ client_user ids.user lead ∷ [])
      × (w'.db.client_profiles
          ≡ w.db.client_profiles ++ record { id = ids.profile; user_id = ids.user } ∷ [])
      × OpensCase lead dto.assigned_lawyer_id dto.case_title w'.db.cases

  -- Why a conversion fails: the lead is unknown, or not in one of the two statuses, or a user has its
  -- address, or a case is asked for and its number is taken or its lawyer unknown.
  abbrev pub Reason : HttpError → Type 0
  Reason e =
      ((find_lead id w.db.leads ≡ none) × (e ≡ HttpError.not_found))
      ⊎ (lead : Lead) × (find_lead id w.db.leads ≡ some lead)
        × (((is_convertible lead.status ≡ false) × (e ≡ HttpError.bad_request))
            ⊎ ((any (λ u. text_eq u.email lead.email) w.db.users ≡ true) × (e ≡ HttpError.conflict))
            ⊎ (lawyer : ℕ) × (dto.assigned_lawyer_id ≡ some lawyer)
              × (is_some dto.case_title ≡ true)
              × (((next_is_taken below year w.db.cases ≡ true) × (e ≡ HttpError.conflict))
                  ⊎ (any (λ u. u.id == lawyer) (begun lead).tx.users ≡ false)
                    × (e ≡ HttpError.bad_request)))

  abbrev pub Fails : Type 0
  Fails =
      (e : HttpError) × (w' : World) × (convert below year ids id dto user_id w ≡ err e w')
      × (w'.db ≡ w.db)
      × Reason e

  -- The query of `findUnique` for the lead's address.
  abbrev address_free : Lead → Bool
  address_free lead = not (
      is_some (
        find_unique (λ u. u.deleted_at) Model.user true (λ u. text_eq u.email lead.email)
          w.db.users))

  -- A user that `findUnique` returns has the address.
  find_unique-some :
      (lead : Lead)
      → address_free lead ≡ false
      → any (λ u. text_eq u.email lead.email) w.db.users ≡ true
  unfolding find_unique is_soft_delete_model
  find_unique-some lead seen =
      elim (Option-cases (find (λ u. text_eq u.email lead.email) w.db.users)) [
        | inr (u, found) ↦ any-find (λ u. text_eq u.email lead.email) w.db.users u found
        | inl nobody ↦ absurd (clash nobody)
      ]
    where
      clash : find (λ u. text_eq u.email lead.email) w.db.users ≡ none → ⊥
      clash nobody = let passes : address_free lead ≡ true = rw nobody in cc

  module _ (lead : Lead) (found : find_lead id w.db.leads ≡ some lead)
      (ready : is_convertible lead.status ≡ true) (unseen : address_free lead ≡ true)
      (free : any (λ u. text_eq u.email lead.email) w.db.users ≡ false) where
    -- The transaction is committed and the client has been mailed.
    abbrev mailed : World → World
    mailed w' = final (send ids.user NotificationType.email (record w' { db = w'.tx }))

    convert-opened :
        (w' : World)
        → open_case below year ids dto.assigned_lawyer_id dto.case_title dto.case_type lead
            (begun lead)
          ≡ ok tt w'
        → w'.tx.users ≡ (begun lead).tx.users
        → w'.tx.client_profiles ≡ (begun lead).tx.client_profiles
        → w'.tx.leads ≡ (begun lead).tx.leads
        → CaseOpened below year ids dto.assigned_lawyer_id dto.case_title dto.case_type lead
            (begun lead)
            w'
        → Converts lead (final (convert below year ids id dto user_id w))
    unfolding convert convert_in_tx find_one
    convert-opened w' opened users profiles leads cases =
        let stored : find_lead id w'.tx.leads ≡ some (converted lead) =
          rw leads (find_lead-update id converted w.db.leads lead (λ l. refl) found) in
        let (w'', told, same) = notify_assignee-same lead.assigned_to_id (mailed w') in
        let done : find_lead id w''.db.leads ≡ some (converted lead) = rw same stored in
        (
          rw (found, ready, unseen, free, opened, told, ◌>>=◌, ◌>>◌, settle, final, done),
          rw (found, ready, unseen, free, opened, told, ◌>>=◌, ◌>>◌, settle, final, done) done,
          rw (found, ready, unseen, free, opened, told, ◌>>=◌, ◌>>◌, settle, final, done)
              (rw same users),
          rw (found, ready, unseen, free, opened, told, ◌>>=◌, ◌>>◌, settle, final, done)
              (rw same profiles),
          rw (found, ready, unseen, free, opened, told, ◌>>=◌, ◌>>◌, settle, final, done)
              (opens_case lead dto.assigned_lawyer_id dto.case_title w' w''.db.cases cases
                (ap (λ (db : Tables). db.cases) same)),
        )

    convert-free : Fails ⊎ Converts lead (final (convert below year ids id dto user_id w))
    unfolding convert convert_in_tx find_one
    convert-free =
        elim (open_case-cases below year ids dto.assigned_lawyer_id dto.case_title dto.case_type
          lead (begun lead)) [
            | inl (e, w', refused, same, lawyer, asked, titled, why) ↦ inl (
              e,
              final (convert below year ids id dto user_id w),
              rw (found, ready, unseen, free, refused, ◌>>=◌, ◌>>◌, settle, final),
              rw (found, ready, unseen, free, refused, ◌>>=◌, ◌>>◌, settle, final) same,
              inr (lead, found, inr (inr (lawyer, asked, titled, why))),
            )
            | inr (w', opened, users, profiles, leads, cases) ↦
                inr (convert-opened w' opened users profiles leads cases)
          ]

  -- A conversion is all or nothing. It fails, with the tables as they were, when the lead is unknown,
  -- or not in one of the two statuses, or a user has its address, or a case is asked for and the next
  -- number of the year is that of a row already, a deleted one perhaps, or the lawyer is unknown.
  -- Otherwise the lead was QUALIFIED or CONSULTATION_SCHEDULED, no user, not even a deleted one, had
  -- its address, and it is CONVERTED now, with one new user, a client with that address, one new
  -- client profile, and the case, if one is asked for, under a number that no row had.
  pub convert_lem :
      Fails
      ⊎ (lead : Lead) × (w' : World) × (find_lead id w.db.leads ≡ some lead)
        × (is_convertible lead.status ≡ true)
        × (any (λ u. text_eq u.email lead.email) w.db.users ≡ false)
        × Converts lead w'
  unfolding convert convert_in_tx find_one
  convert_lem = elim (Option-cases (find_lead id w.db.leads)) [
    | inl missing ↦ inl (HttpError.not_found, w, rw (missing, ◌>>=◌), refl, inl (missing, refl))
    | inr (lead, found) ↦ elim (Bool-cases (is_convertible lead.status)) [
      | inr early ↦ inl (
        HttpError.bad_request,
        w,
        rw (found, early, ◌>>=◌),
        refl,
        inr (lead, found, inl (early, refl)),
      )
      | inl ready ↦ elim (Bool-cases (address_free lead)) [
        | inr seen ↦ inl (
          HttpError.conflict,
          w,
          rw (found, ready, seen, ◌>>=◌),
          refl,
          inr (lead, found, inr (inl (find_unique-some lead seen, refl))),
        )
        | inl unseen ↦ elim (Bool-cases (any (λ u. text_eq u.email lead.email) w.db.users)) [
          | inl taken ↦ inl (
            HttpError.conflict,
            final (convert below year ids id dto user_id w),
            rw (found, ready, unseen, taken, ◌>>=◌, ◌>>◌, settle, final),
            rw (found, ready, unseen, taken, ◌>>=◌, ◌>>◌, settle, final),
            inr (lead, found, inr (inl (taken, refl))),
          )
          | inr free ↦ elim (convert-free lead found ready unseen free) [
            | inl fails ↦ inl fails
            | inr converts ↦ inr (
              lead,
              final (convert below year ids id dto user_id w),
              found,
              ready,
              free,
              converts,
            )
          ]
        ]
      ]
    ]
  ]
