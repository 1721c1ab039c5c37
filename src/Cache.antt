-- ===== src/Cache.antt =====
-- src/common/cache/cache.service.ts. The operations on a World are those at the key
-- CacheKeys.CASE_DETAIL; Users has its own cache at the key CacheKeys.USER_PROFILE. The time to live is the step `expire`, which may be taken at any moment.
pub mod Coherence
use corporate_lawyers_backen.Prelude.{
  ℕ, Option, none, some, List, [], ◌∷◌, not, ◌==◌, if◌then◌else◌, select,
}
use corporate_lawyers_backen.World.{Case, World, ok, M, pure, ◌>>=◌, ◌>>◌}

abbrev pub lookup {ℓ} : {A : Type ℓ} → ℕ → List (ℕ × A) → Option A
lookup key [] = none
lookup key ((k, v) ∷ entries) = if k == key then some v else lookup key entries

abbrev pub without {ℓ} : {A : Type ℓ} → ℕ → List (ℕ × A) → List (ℕ × A)
without key entries = select (λ e. not (e.0 == key)) entries

abbrev pub get : ℕ → M (Option Case)
get key w = ok (lookup key w.cache) w

abbrev pub set : ℕ → Case → M (Unit {0})
set key value w = ok tt (record w { cache = (key, value) ∷ without key w.cache })

abbrev pub del : ℕ → M (Unit {0})
del key w = ok tt (record w { cache = without key w.cache })

-- What the store does when an entry's time is over.
abbrev pub expire : ℕ → World → World
expire key w = record w { cache = without key w.cache }

abbrev pub fill : ℕ → M Case → Option Case → M Case
fill key factory none = do value ← factory; set key value; pure value
fill key factory (some cached) = pure cached

-- `getOrSet`
abbrev pub get_or_set : ℕ → M Case → M Case
get_or_set key factory = do cached ← get key; fill key factory cached
