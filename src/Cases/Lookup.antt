-- ===== src/Cases/Lookup.antt =====
-- What the cached `findOne` of src/modules/case/case.service.ts returns.
use corporate_lawyers_backen.Prelude.{
  ℕ, false, none, some, List, [], ◌∷◌, ◌≡◌, refl, ◌⊎◌, inl, inr, ◌==◌, Option-cases, update_where,
  arith,
}
use corporate_lawyers_backen.World.{Case, World, ok, err, HttpError}
use corporate_lawyers_backen.Cache.{lookup, without, get_or_set}
use corporate_lawyers_backen.Cache.Coherence.{Agrees, fill-Agrees}
use corporate_lawyers_backen.Cases.Records.{find_case, find_one}

abbrev pub Coherent : World → Type 0
Coherent w = Agrees w.cache (λ id. find_case id w.db.cases)

pub find_one-hit :
    (id : ℕ) (w : World) (c : Case) → lookup id w.cache ≡ some c → find_one id w ≡ ok c w
unfolding find_one
find_one-hit id w c h = rw (h, get_or_set)

-- The world after a miss: the row is filled in.
abbrev pub filled : ℕ → Case → World → World
filled id c w = record w { cache = (id, c) ∷ without id w.cache }

pub find_one-miss :
    (id : ℕ) (w : World) (c : Case)
    → lookup id w.cache ≡ none
    → find_case id w.db.cases ≡ some c
    → find_one id w ≡ ok c (filled id c w)
unfolding find_one
find_one-miss id w c h e = ground arith

pub find_one-absent :
    (id : ℕ) (w : World)
    → lookup id w.cache ≡ none
    → find_case id w.db.cases ≡ none
    → find_one id w ≡ err HttpError.not_found w
unfolding find_one
find_one-absent id w h e = ground arith

-- What a coherent `findOne` hands over: the live row, in a world that differs in its cache alone
-- and remembers the row.
pub record Found (id : ℕ) (w : World) : Type 0 where
  pub row : Case
  pub after : World
  pub is_row : find_case id w.db.cases ≡ some row
  pub returns : find_one id w ≡ ok row after
  pub same_rest : after ≡ record w { cache = after.cache }
  pub cached : lookup id after.cache ≡ some row
  pub coherent : Coherent after

pub find_one-cases :
    (id : ℕ) (w : World)
    → Coherent w
    → ((find_case id w.db.cases ≡ none) × (find_one id w ≡ err HttpError.not_found w)) ⊎ Found id w
find_one-cases id w h = elim (Option-cases (lookup id w.cache)) [
  | inr (c, hit) ↦ inr (record {
    row = c;
    after = w;
    is_row = h id c hit;
    returns = find_one-hit id w c hit;
    same_rest = refl;
    cached = hit;
    coherent = h;
  })
  | inl miss ↦ elim (Option-cases (find_case id w.db.cases)) [
    | inl e ↦ inl (e, find_one-absent id w miss e)
    | inr (c, e) ↦ inr (record {
      row = c;
      after = filled id c w;
      is_row = e;
      returns = find_one-miss id w c miss e;
      same_rest = refl;
      cached = ground arith;
      coherent = fill-Agrees id c w.cache (λ j. find_case j w.db.cases) h e;
    })
  ]
]

-- A write to one row leaves the others where they were found.
pub find_case-update_ne :
    (k j : ℕ) (f : Case → Case) (cs : List Case)
    → ((c : Case) → (f c).id ≡ c.id)
    → (k == j) ≡ false
    → find_case j (update_where (λ c. c.id == k) f cs) ≡ find_case j cs
find_case-update_ne k j f [] same ne = refl
find_case-update_ne k j f (c ∷ cs) same ne =
    ground (arith, same c, find_case-update_ne k j f cs same ne)

-- A write that keeps the id and the deletion mark is what the next query finds.
pub find_case-update :
    (k : ℕ) (f : Case → Case) (cs : List Case) (row : Case)
    → ((c : Case) → (f c).id ≡ c.id)
    → ((c : Case) → (f c).deleted_at ≡ c.deleted_at)
    → find_case k cs ≡ some row
    → find_case k (update_where (λ c. c.id == k) f cs) ≡ some (f row)
find_case-update k f [] row same live e = ground arith
find_case-update k f (c ∷ cs) row same live e =
    ground (arith, same c, live c, find_case-update k f cs row same live)

-- Whatever the cache holds, `findOne` changes nothing but the cache.
pub find_one-outcome :
    (id : ℕ) (w : World)
    → ((c : Case) × (cache' : List (ℕ × Case)) × (find_one id w
          ≡ ok c (record w { cache = cache' })))
      ⊎ (find_one id w ≡ err HttpError.not_found w)
find_one-outcome id w = elim (Option-cases (lookup id w.cache)) [
  | inr (c, hit) ↦ inl (c, w.cache, find_one-hit id w c hit)
  | inl miss ↦ elim (Option-cases (find_case id w.db.cases)) [
    | inl e ↦ inr (find_one-absent id w miss e)
    | inr (c, e) ↦ inl (c, (id, c) ∷ without id w.cache, find_one-miss id w c miss e)
  ]
]
