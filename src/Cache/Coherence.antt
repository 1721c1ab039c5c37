-- ===== src/Cache/Coherence.antt =====
-- When the cache of cache.service.ts agrees with the rows it stands for.
use corporate_lawyers_backen.Prelude.{
  ℕ, false, Option, none, some, List, [], ◌∷◌, ◌≡◌, ◌==◌, if◌then◌else◌, arith,
}
use corporate_lawyers_backen.World.{Case}
use corporate_lawyers_backen.Cache.{lookup, without}

-- Every entry is the row that a query would find.
abbrev pub Agrees : List (ℕ × Case) → (ℕ → Option Case) → Type 0
Agrees cache row = (id : ℕ) (c : Case) → lookup id cache ≡ some c → row id ≡ some c

pub lookup-without :
    (key j : ℕ) (cache : List (ℕ × Case))
    → lookup j (without key cache) ≡ (if key == j then none else lookup j cache)
lookup-without key j [] = ground arith
lookup-without key j ((k, v) ∷ cache) = ground (arith, lookup-without key j cache)

-- Deleting the entry of a row that changes keeps the others right.
pub without-Agrees :
    (key : ℕ) (cache : List (ℕ × Case)) (before after : ℕ → Option Case)
    → Agrees cache before
    → ((j : ℕ) → (key == j) ≡ false → after j ≡ before j)
    → Agrees (without key cache) after
without-Agrees key cache before after h same j c e =
    ground (arith, lookup-without key j cache, h j c, same j)

-- So does filling in the row that a query has found.
pub fill-Agrees :
    (key : ℕ) (found : Case) (cache : List (ℕ × Case)) (row : ℕ → Option Case)
    → Agrees cache row
    → row key ≡ some found
    → Agrees ((key, found) ∷ without key cache) row
fill-Agrees key found cache row h r j c e = ground (arith, lookup-without key j cache, h j c)
