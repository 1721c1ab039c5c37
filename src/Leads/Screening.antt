-- ===== src/Leads/Screening.antt =====
-- What a conflict check of src/modules/crm/lead.service.ts records of a lead.
use corporate_lawyers_backen.Prelude.{
  ℕ, Bool, none, some, List, [], ◌∷◌, ◌++◌, ◌≡◌, refl, ◌⊎◌, inl, inr, not, ◌||◌, ◌&&◌, ◌==◌, ◌∙◌,
  any, Option-cases, ==_refl, arith,
}
use corporate_lawyers_backen.World.{
  Text, Lead, ConflictCheck, World, ok, err, HttpError, ◌>>=◌, ◌>>◌, final,
}
use corporate_lawyers_backen.Leads.Score.{calculate_score}
use corporate_lawyers_backen.Leads.Records.{
  find_lead, find_one, with_score, has_intake, has_clean_check,
}
use corporate_lawyers_backen.Leads.Conflicts.{has_conflict, conflict_check}
use corporate_lawyers_backen.Leads.Editing.{find_lead-update}

any-append :
    (p : ConflictCheck → Bool) (rows : List ConflictCheck) (c : ConflictCheck)
    → any p (rows ++ c ∷ []) ≡ (p c || any p rows)
any-append p [] c = ground arith
any-append p (r ∷ rows) c = ground (arith, any-append p rows c)

-- A conflict check of an unknown lead gives 404. Of any other it answers whether a party of a case
-- or a live client has the lead's name, and records it. The lead has had a clean check from then on
-- when this one was clean or an earlier one, and its score is the one for the checks that are
-- recorded.
pub conflict_check_lem :
    (contains : Text → Text → Bool) (new_id id checked_by_id : ℕ) (w : World)
    → ((find_lead id w.db.leads ≡ none)
        × (conflict_check contains new_id id checked_by_id w ≡ err HttpError.not_found w))
      ⊎ (lead : Lead) × (w' : World) × (find_lead id w.db.leads ≡ some lead)
        × (conflict_check contains new_id id checked_by_id w
            ≡ ok (has_conflict contains lead w.db) w')
        × (has_clean_check id w'.db
            ≡ (not (has_conflict contains lead w.db) || has_clean_check id w.db))
        × (find_lead id w'.db.leads
            ≡ some (
                with_score
                  (calculate_score w.db lead (has_intake id w.db) (has_clean_check id w'.db))
                  lead))
unfolding conflict_check find_one
conflict_check_lem contains new_id id checked_by_id w =
    elim (Option-cases (find_lead id w.db.leads)) [
      | inl missing ↦ inl (missing, rw (missing, ◌>>=◌))
      | inr (lead, found) ↦
          let w' = final (conflict_check contains new_id id checked_by_id w) in
          let check : ConflictCheck = record {
            id = new_id;
            lead_id = id;
            checked_by_id = checked_by_id;
            result = not (has_conflict contains lead w.db);
          } in
          let clean : has_clean_check id w'.db
              ≡ (not (has_conflict contains lead w.db) || has_clean_check id w.db) =
            rw (found, ◌>>=◌, ◌>>◌, final)
              (any-append (λ c. c.lead_id == id && c.result) w.db.conflict_checks check
                ∙ own (has_conflict contains lead w.db) (has_clean_check id w.db)) in
          inr (
            lead,
            w',
            found,
            rw (found, ◌>>=◌, ◌>>◌, final),
            clean,
            rw clean (
                rw (found, ◌>>=◌, ◌>>◌, final)
                  (find_lead-update id _ w.db.leads lead (λ l. refl) found)),
          )
    ]
  where
    own : (conflict old : Bool) → ((id == id && not conflict) || old) ≡ (not conflict || old)
    own conflict old = rw (==_refl id)
