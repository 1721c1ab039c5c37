-- ===== src/Documents/Numbered.antt =====
-- The version numbers of a document (document.service.ts, signature.service.ts) over every call.
use corporate_lawyers_backen.Prelude.{
  ℕ, ◌+◌, zero, suc, Bool, false, some, List, [], ◌∷◌, ◌++◌, ◌≡◌, refl, sym, ap, ◌∙◌, inl, inr,
  ◌==◌, if◌then◌else◌, find, select, any, All, All-find, append-nil, ◌≤◌, update_where, map, arith,
  Bool-cases, ==_refl, ==_eq, Keyed, update_where-Keyed, append-Keyed,
}
use corporate_lawyers_backen.World.{◌>>=◌, ◌>>◌, final}
use corporate_lawyers_backen.Documents.{Document, DocumentVersion, Store, has_id, new_version}
use corporate_lawyers_backen.Documents.Files.{is_version, at_version, add_version}

-- 2, 3, …, `n`
abbrev pub from_two : ℕ → List ℕ
from_two zero = []
from_two (suc zero) = []
from_two (suc (suc n)) = from_two (suc n) ++ suc (suc n) ∷ []

-- The numbers of a document's versions, in the order in which they were made.
abbrev pub numbers : ℕ → List DocumentVersion → List ℕ
numbers id vs = map (λ v. v.version_number) (select (λ v. v.document_id == id) vs)

-- The current version of a document, and 0 where there is none.
abbrev pub version_of : ℕ → List Document → ℕ
version_of id [] = 0
version_of id (d ∷ ds) = if d.id == id then d.current_version else version_of id ds

-- The ids of the documents are different, each has a current version, and the versions of each are
-- numbered from 2 to that, in the order in which they were made. So the first file has no version.
pub record Numbered (s : Store) : Type 0 where
  pub keyed : Keyed (λ (d : Document). d.id) s.documents
  pub positive : All (λ (d : Document). 1 ≤ d.current_version) s.documents
  pub numbered : (id : ℕ) → numbers id s.versions ≡ from_two (version_of id s.documents)

module _ (f : Document → Document) (q : Document → Bool) where
  version_of-update :
      (id : ℕ) (ds : List Document)
      → ((d : Document) → (f d).id ≡ d.id)
      → ((d : Document) → (f d).current_version ≡ d.current_version)
      → version_of id (update_where q f ds) ≡ version_of id ds
  version_of-update id [] same_id same_version = refl
  version_of-update id (d ∷ ds) same_id same_version =
      ground (arith, same_id d, same_version d, version_of-update id ds same_id same_version)

  update-positive :
      (ds : List Document)
      → ((d : Document) → 1 ≤ d.current_version → 1 ≤ (f d).current_version)
      → All (λ (d : Document). 1 ≤ d.current_version) ds
      → All (λ (d : Document). 1 ≤ d.current_version) (update_where q f ds)
  update-positive [] grows h = tt
  update-positive (d ∷ ds) grows (h, hs) = (ground (arith, grows d h), update-positive ds grows hs)

  -- A change of rows that leaves their ids and current versions alone.
  pub update-Numbered :
      (s : Store)
      → ((d : Document) → (f d).id ≡ d.id)
      → ((d : Document) → (f d).current_version ≡ d.current_version)
      → Numbered s
      → Numbered (record s { documents = update_where q f s.documents })
  update-Numbered s same_id same_version inv = record {
    keyed = update_where-Keyed (λ d. d.id) f q s.documents same_id inv.keyed;
    positive = update-positive s.documents (λ d h. omega (arith, same_version d)) inv.positive;
    numbered = λ id.
        inv.numbered id ∙ ap from_two (sym (version_of-update id s.documents same_id same_version));
  }

version_of-append :
    (id : ℕ) (d : Document) (ds : List Document)
    → d.current_version ≡ 1
    → from_two (version_of id (ds ++ d ∷ [])) ≡ from_two (version_of id ds)
version_of-append id d [] first = elim (Bool-cases (d.id == id)) [
  | inl here ↦ rw (here, first) refl
  | inr there ↦ rw there refl
]
version_of-append id d (e ∷ ds) first = elim (Bool-cases (e.id == id)) [
  | inl here ↦ rw here refl
  | inr there ↦ rw there (version_of-append id d ds first)
]

append-positive :
    (d : Document) (ds : List Document)
    → d.current_version ≡ 1
    → All (λ (d : Document). 1 ≤ d.current_version) ds
    → All (λ (d : Document). 1 ≤ d.current_version) (ds ++ d ∷ [])
append-positive d [] first h = (omega arith, tt)
append-positive d (e ∷ ds) first (h, hs) = (h, append-positive d ds first hs)

-- A new document, under an id that no document has.
pub append-Numbered :
    (d : Document) (s : Store)
    → any (has_id d.id) s.documents ≡ false
    → d.current_version ≡ 1
    → Numbered s
    → Numbered (record s { documents = s.documents ++ d ∷ [] })
append-Numbered d s fresh first inv = record {
  keyed = append-Keyed (λ d. d.id) s.documents d inv.keyed fresh;
  positive = append-positive d s.documents first inv.positive;
  numbered = λ id. inv.numbered id ∙ sym (version_of-append id d s.documents first);
}

numbers-append :
    (id : ℕ) (v : DocumentVersion) (vs : List DocumentVersion)
    → numbers id (vs ++ v ∷ [])
      ≡ numbers id vs ++ (if v.document_id == id then v.version_number ∷ [] else [])
numbers-append id v [] = ground arith
numbers-append id v (w ∷ vs) = ground (arith, numbers-append id v vs)

version_of-found :
    (d : Document) (ds : List Document)
    → find (has_id d.id) ds ≡ some d
    → version_of d.id ds ≡ d.current_version
version_of-found d [] e = ground arith
version_of-found d (c ∷ ds) e = ground (arith, version_of-found d ds)

module _ (n url size mime : ℕ) (d : Document) where
  version_of-other :
      (id : ℕ) (ds : List Document)
      → (d.id == id) ≡ false
      → version_of id (update_where (has_id d.id) (at_version n url size mime) ds)
        ≡ version_of id ds
  version_of-other id [] other = refl
  version_of-other id (c ∷ ds) other = elim (Bool-cases (c.id == d.id)) [
    | inl hit ↦ rw hit (ground (arith, ==_eq c.id d.id hit, version_of-other id ds other))
    | inr missed ↦ rw missed (ground (arith, version_of-other id ds other))
  ]

  version_of-raised :
      (ds : List Document)
      → find (has_id d.id) ds ≡ some d
      → version_of d.id (update_where (has_id d.id) (at_version n url size mime) ds) ≡ n
  version_of-raised [] e = ground arith
  version_of-raised (c ∷ ds) e = ground (arith, version_of-raised ds)

-- The numbers of a document's versions, when its current version goes up by one.
from_two-suc : (n : ℕ) → 1 ≤ n → from_two (n + 1) ≡ from_two n ++ (n + 1) ∷ []
from_two-suc zero h = absurd (omega arith)
from_two-suc (suc n) h = rw (one_more n) refl
  where
    one_more : (n : ℕ) → suc n + 1 ≡ suc (suc n)
    one_more n = omega arith

-- A new version of a document keeps the numbers in step, whether or not its number was free.
pub add_version-Numbered :
    (d : Document) (url size mime user_id : ℕ) (s : Store)
    → find (has_id d.id) s.documents ≡ some d
    → Numbered s
    → Numbered (final (add_version d url size mime user_id s))
unfolding add_version
add_version-Numbered d url size mime user_id s found inv =
    elim (Bool-cases (any (is_version d.id (d.current_version + 1)) s.versions)) [
      | inl used ↦ rw (used, ◌>>=◌, ◌>>◌, final) inv
      | inr free ↦
          let n = d.current_version + 1 in
          let v = new_version d n url size user_id in
          let raise = at_version n url size mime in
          rw (free, ◌>>=◌, ◌>>◌, final)
            (record {
              keyed =
                  update_where-Keyed (λ d. d.id) raise (has_id d.id) s.documents (λ d. refl)
                    inv.keyed;
              positive =
                  update-positive raise (has_id d.id) s.documents (λ c h. omega arith) inv.positive;
              numbered = λ id. elim (Bool-cases (d.id == id)) [
                | inl same ↦ rw (← ==_eq d.id id same) (own inv)
                | inr other ↦
                    numbers-append id v s.versions
                    ∙ rw (other, append-nil) (inv.numbered id)
                    ∙ ap from_two (sym (version_of-other n url size mime d id s.documents other))
              ];
            })
    ]
  where
    own :
        Numbered s
        → numbers d.id (s.versions ++ new_version d (d.current_version + 1) url size user_id ∷ [])
          ≡ from_two (
              version_of d.id (
                update_where
                  (has_id d.id)
                  (at_version (d.current_version + 1) url size mime)
                  s.documents))
    own inv =
        numbers-append d.id (new_version d (d.current_version + 1) url size user_id) s.versions
        ∙ rw (==_refl d.id, inv.numbered d.id, version_of-found d s.documents found)
            (sym (
              from_two-suc d.current_version (
                All-find (λ c. 1 ≤ c.current_version) (has_id d.id) s.documents d inv.positive
                  found)))
        ∙ ap from_two
            (sym (version_of-raised (d.current_version + 1) url size mime d s.documents found))
