-- ===== src/Leads/Editing.antt =====
-- How the operations of src/modules/crm/lead.service.ts on leads end.
use corporate_lawyers_backen.Prelude.{
  ℕ, true, false, Option, none, some, List, [], ◌∷◌, ◌++◌, ◌≡◌, refl, ◌∙◌, ◌⊎◌, inl, inr, ◌==◌,
  update_where, any, Bool-cases, Option-cases, find-append, count_where, count_where-append, Bool,
  ==_refl, arith,
}
use corporate_lawyers_backen.World.{Text, Lead, World, ok, err, HttpError, ◌>>=◌, ◌>>◌, final}
use corporate_lawyers_backen.Leads.Status.{permits}
use corporate_lawyers_backen.World.{text_eq, lower}
use corporate_lawyers_backen.Leads.Score.{calculate_score}
use corporate_lawyers_backen.Leads.Records.{
  CreateLeadDto, takes, new_lead, with_score, create, find_lead, has_intake, has_clean_check,
  UpdateLeadDto, edited, update,
}

pub find_lead-update :
    (id : ℕ) (f : Lead → Lead) (rows : List Lead) (lead : Lead)
    → ((l : Lead) → (f l).id ≡ l.id)
    → find_lead id rows ≡ some lead
    → find_lead id (update_where (λ l. l.id == id) f rows) ≡ some (f lead)
find_lead-update id f [] lead same h = ground arith
find_lead-update id f (l ∷ rows) lead same h =
    ground (arith, same l, find_lead-update id f rows lead same)

-- How an update of a lead ends. An unknown lead gives 404, a change of status that the table does
-- not list 400, each with nothing written. Otherwise the lead comes back as edited, with a new
-- score: a score that the request gives is never kept. No update makes a user.
pub update_lead_lem :
    (id : ℕ) (dto : UpdateLeadDto) (user_id : ℕ) (w : World)
    → ((find_lead id w.db.leads ≡ none) × (update id dto user_id w ≡ err HttpError.not_found w))
      ⊎ ((lead : Lead) × (find_lead id w.db.leads ≡ some lead)
          × (permits lead.status dto.status ≡ false)
          × (update id dto user_id w ≡ err HttpError.bad_request w))
      ⊎ (lead : Lead) × (w' : World) × (find_lead id w.db.leads ≡ some lead)
        × (permits lead.status dto.status ≡ true)
        × (update id dto user_id w
            ≡ ok
                (with_score
                  (calculate_score w.db
                    (edited dto lead)
                    (has_intake id w.db)
                    (has_clean_check id w.db))
                  (edited dto lead))
                w')
        × (find_lead id w'.db.leads
            ≡ some (
                with_score
                  (calculate_score w.db
                    (edited dto lead)
                    (has_intake id w.db)
                    (has_clean_check id w.db))
                  (edited dto lead)))
        × (w'.db.users ≡ w.db.users)
unfolding update calculate_score
update_lead_lem id dto user_id w = elim (Option-cases (find_lead id w.db.leads)) [
  | inl missing ↦ inl (missing, rw (missing, ◌>>=◌))
  | inr (lead, found) ↦ elim (Bool-cases (permits lead.status dto.status)) [
    | inr unlisted ↦ inr (inl (lead, found, unlisted, rw (found, unlisted, ◌>>=◌)))
    | inl listed ↦
        let score =
          calculate_score w.db (edited dto lead) (has_intake id w.db) (has_clean_check id w.db) in
        let twice =
          find_lead-update id (with_score score)
            (update_where (λ l. l.id == id) (edited dto) w.db.leads) (edited dto lead) (λ l. refl)
            (find_lead-update id (edited dto) w.db.leads lead (λ l. refl) found) in
        inr (
          inr (
            lead,
            final (update id dto user_id w),
            found,
            listed,
            rw (found, listed, ◌>>=◌, ◌>>◌, final, twice),
            rw (found, listed, ◌>>=◌, ◌>>◌, final, twice) twice,
            rw (found, listed, ◌>>=◌, ◌>>◌, final, twice),
          ))
  ]
]

text_eq_refl : (t : Text) → text_eq t t ≡ true
text_eq_refl [] = refl
text_eq_refl (c ∷ t) = ground (arith, text_eq_refl t)

count_where-none :
    (p : Lead → Bool) (rows : List Lead) → any p rows ≡ false → count_where p rows ≡ 0
count_where-none p [] h = refl
count_where-none p (l ∷ rows) h = ground (arith, count_where-none p rows)

-- A score changes nothing about the addresses that are taken.
count_where-scored :
    (email : Text) (id score : ℕ) (rows : List Lead)
    → count_where (takes email) (update_where (λ l. l.id == id) (with_score score) rows)
      ≡ count_where (takes email) rows
count_where-scored email id score [] = refl
count_where-scored email id score (l ∷ rows) =
    ground (arith, count_where-scored email id score rows)

-- A lead is refused with 409, and nothing is written, when an active lead has its address. Any other
-- one, under an id that no lead has, is found afterwards as NEW with its score, and it is then the
-- one active lead with its address.
pub create_lead_lem :
    (new_id : ℕ) (dto : CreateLeadDto) (user_id : Option ℕ) (w : World)
    → find_lead new_id w.db.leads ≡ none
    → ((any (takes (lower dto.email)) w.db.leads ≡ true)
        × (create new_id dto user_id w ≡ err HttpError.conflict w))
      ⊎ (w' : World) × (any (takes (lower dto.email)) w.db.leads ≡ false)
        × (create new_id dto user_id w
            ≡ ok
                (with_score
                  (calculate_score w.db (new_lead new_id dto) false false)
                  (new_lead new_id dto))
                w')
        × (find_lead new_id w'.db.leads
            ≡ some (
                with_score
                  (calculate_score w.db (new_lead new_id dto) false false)
                  (new_lead new_id dto)))
        × (count_where (takes (lower dto.email)) w'.db.leads ≡ 1)
unfolding create calculate_score
create_lead_lem new_id dto user_id w fresh =
    elim (Bool-cases (any (takes (lower dto.email)) w.db.leads)) [
      | inl taken ↦ inl (taken, rw (taken, ◌>>=◌))
      | inr free ↦
          let lead = new_lead new_id dto in
          let score = calculate_score w.db lead false false in
          let rows = w.db.leads ++ lead ∷ [] in
          let added = find-append (λ l. l.id == new_id) w.db.leads lead fresh (==_refl new_id) in
          let count =
            count_where-scored (lower dto.email) new_id score rows
            ∙ count_where-append (takes (lower dto.email)) w.db.leads (lead ∷ [])
            ∙ ground (
              arith,
              count_where-none (takes (lower dto.email)) w.db.leads free,
              text_eq_refl (lower dto.email),
            ) in
          elim (Option-cases user_id) [
            | inl nobody ↦ inr (
              final (create new_id dto user_id w),
              free,
              rw (free, nobody, ◌>>=◌, ◌>>◌, final),
              rw (free, nobody, ◌>>=◌, ◌>>◌, final)
                  (find_lead-update new_id (with_score score) rows lead (λ l. refl) added),
              rw (free, nobody, ◌>>=◌, ◌>>◌, final) count,
            )
            | inr (asker, known) ↦ inr (
              final (create new_id dto user_id w),
              free,
              rw (free, known, ◌>>=◌, ◌>>◌, final),
              rw (free, known, ◌>>=◌, ◌>>◌, final)
                  (find_lead-update new_id (with_score score) rows lead (λ l. refl) added),
              rw (free, known, ◌>>=◌, ◌>>◌, final) count,
            )
          ]
    ]
