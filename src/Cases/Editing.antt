-- ===== src/Cases/Editing.antt =====
-- `update` and `remove` of src/modules/case/case.service.ts against the cache.
use corporate_lawyers_backen.Prelude.{
  ℕ, true, false, none, some, List, [], ◌∷◌, ◌++◌, ◌≡◌, refl, ◌⊎◌, inl, inr, ◌==◌, Bool-cases,
  update_where, arith,
}
use corporate_lawyers_backen.World.{
  Case, Action, EntityType, World, ok, err, HttpError, ◌>>=◌, final,
}
use corporate_lawyers_backen.Cache.{lookup, without}
use corporate_lawyers_backen.Cache.Coherence.{Agrees, lookup-without, without-Agrees}
use corporate_lawyers_backen.Cases.Status.{is_over}
use corporate_lawyers_backen.Cases.Records.{
  edited, find_case, find_one, UpdateCaseDto, update, remove,
}
use corporate_lawyers_backen.Cases.Lookup.{
  Coherent, find_one-cases, find_one-absent, find_one-miss, filled, find_case-update,
  find_case-update_ne,
}

pub find_one-Coherent : (id : ℕ) (w : World) → Coherent w → Coherent (final (find_one id w))
find_one-Coherent id w h = elim (find_one-cases id w h) [
  | inl missing ↦ rw missing.1 h
  | inr found ↦ rw found.returns found.coherent
]

-- The write of `update` and `remove`: the row, and then the entry.
written-Agrees :
    (id : ℕ) (f : Case → Case) (cache : List (ℕ × Case)) (cases : List Case)
    → ((c : Case) → (f c).id ≡ c.id)
    → Agrees cache (λ j. find_case j cases)
    → Agrees (without id cache) (λ j. find_case j (update_where (λ c. c.id == id) f cases))
written-Agrees id f cache cases same h =
    without-Agrees id cache (λ j. find_case j cases)
      (λ j. find_case j (update_where (λ c. c.id == id) f cases)) h
      (λ j ne. find_case-update_ne id j f cases same ne)

-- From a cache that agrees with the rows, `update` leaves one that does, on every branch.
pub update-Coherent :
    (id : ℕ) (dto : UpdateCaseDto) (user_id : ℕ) (w : World)
    → Coherent w
    → Coherent (final (update id dto user_id w))
unfolding update
update-Coherent id dto user_id w h = elim (find_one-cases id w h) [
  | inl missing ↦ rw (missing.1, final) h
  | inr found ↦
      rw (found.returns, final)
        (elim (Bool-cases (is_over found.row.status)) [
          | inl over ↦ rw (over, final) found.coherent
          | inr open_case ↦
              rw (open_case, final)
                (find_one-Coherent id _
                  (written-Agrees id _ found.after.cache _ (λ c. refl) found.coherent))
        ])
]

pub without_self : (id : ℕ) (cache : List (ℕ × Case)) → lookup id (without id cache) ≡ none
without_self id cache = ground (arith, lookup-without id id cache)

-- The world between the writes of `update` and its last read.
abbrev saved : ℕ → UpdateCaseDto → ℕ → World → World
saved id dto user_id w = record w {
  db = record (w.db) { cases = update_where (λ c. c.id == id) (edited dto) w.db.cases };
  cache = without id w.cache;
  audit =
      w.audit
      ++ record {
        user_id = user_id;
        action = Action.update;
        entity_type = EntityType.case_entity;
        entity_id = id;
      }
        ∷ [];
}

-- On a coherent cache `update` follows the row: a missing case gives 404, a closed or archived one
-- 400, and any other case comes back as edited, which is then also its row.
pub update_lem :
    (id : ℕ) (dto : UpdateCaseDto) (user_id : ℕ) (w : World)
    → Coherent w
    → ((find_case id w.db.cases ≡ none) × (update id dto user_id w ≡ err HttpError.not_found w))
      ⊎ (row : Case) × (w' : World) × (find_case id w.db.cases ≡ some row)
        × (((is_over row.status ≡ true)
              × (update id dto user_id w ≡ err HttpError.bad_request w')
              × (w'.db ≡ w.db))
            ⊎ ((is_over row.status ≡ false)
                × (update id dto user_id w ≡ ok (edited dto row) w')
                × (find_case id w'.db.cases ≡ some (edited dto row))))
unfolding update
update_lem id dto user_id w h = elim (find_one-cases id w h) [
  | inl missing ↦ inl (missing.0, rw (missing.1, ◌>>=◌))
  | inr found ↦ elim (Bool-cases (is_over found.row.status)) [
    | inl over ↦ inr (
      found.row,
      found.after,
      found.is_row,
      inl (over, rw (found.returns, over, ◌>>=◌), rw found.same_rest),
    )
    | inr unfinished ↦
        let row' = edited dto found.row in
        let w' = saved id dto user_id found.after in
        let stored : find_case id w'.db.cases ≡ some row' =
          find_case-update id (edited dto) _ found.row (λ c. refl) (λ c. refl)
            (rw found.same_rest found.is_row) in
        inr (
          found.row,
          filled id row' w',
          found.is_row,
          inr (
            unfinished,
            rw (found.returns, unfinished, ◌>>=◌)
                (find_one-miss id w' row' (without_self id found.after.cache) stored),
            stored,
          ),
        )
  ]
]

find_case-deleted :
    (now id : ℕ) (rows : List Case)
    → find_case id (update_where (λ c. c.id == id) (λ c. record c { deleted_at = some now }) rows)
      ≡ none
find_case-deleted now id [] = refl
find_case-deleted now id (c ∷ rows) = ground (arith, find_case-deleted now id rows)

-- On a coherent cache `remove` gives 404 for a missing case. Any other case is gone afterwards, from
-- the rows and from the cache, which stays coherent, so the next read of it gives 404.
pub remove_lem :
    (now id user_id : ℕ) (w : World)
    → Coherent w
    → ((find_case id w.db.cases ≡ none) × (remove now id user_id w ≡ err HttpError.not_found w))
      ⊎ (w' : World) × (remove now id user_id w ≡ ok tt w')
        × (find_case id w'.db.cases ≡ none)
        × Coherent w'
        × (find_one id w' ≡ err HttpError.not_found w')
unfolding remove
remove_lem now id user_id w h = elim (find_one-cases id w h) [
  | inl missing ↦ inl (missing.0, rw (missing.1, ◌>>=◌))
  | inr found ↦
      let gone = find_case-deleted now id found.after.db.cases in
      let w' = final (remove now id user_id w) in
      inr (
        w',
        rw (found.returns, ◌>>=◌, final),
        rw (found.returns, ◌>>=◌, final) gone,
        rw (found.returns, ◌>>=◌, final)
            (written-Agrees id _ found.after.cache _ (λ c. refl) found.coherent),
        rw (found.returns, ◌>>=◌, final)
            (find_one-absent id _ (without_self id found.after.cache) gone),
      )
]
