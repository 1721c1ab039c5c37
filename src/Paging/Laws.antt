-- ===== src/Paging/Laws.antt =====
-- What the pages of a list have in common.
use corporate_lawyers_backen.Prelude.{
  ℕ, zero, suc, ◌+◌, ◌*◌, ◌-◌, ◌≤◌, some, List, [], ◌∷◌, ◌++◌, ◌≡◌, refl, sym, ap, ◌∙◌, inl, inr,
  append-nil, if◌then◌else◌, ltb, length, take, drop, Bool-cases, arith,
}
use corporate_lawyers_backen.Paging.{page}

suc-add : (k n : ℕ) → suc k + n ≡ suc (k + n)
suc-add k n = omega arith

module _ {ℓ} {A : Type ℓ} where
  drop_all : (n : ℕ) (xs : List A) → length xs ≤ n → drop n xs ≡ []
  drop_all zero [] h = refl
  drop_all zero (x ∷ xs) h = absurd (omega arith)
  drop_all (suc n) [] h = refl
  drop_all (suc n) (x ∷ xs) h = drop_all n xs (omega arith)

  drop-nil : (n : ℕ) → drop {A = A} n [] ≡ []
  drop-nil zero = refl
  drop-nil (suc n) = refl

  take-nil : (n : ℕ) → take {A = A} n [] ≡ []
  take-nil zero = refl
  take-nil (suc n) = refl

  drop-drop : (n k : ℕ) (xs : List A) → drop n (drop k xs) ≡ drop (k + n) xs
  drop-drop n zero xs = ap (λ m. drop m xs) (omega arith)
  drop-drop n (suc k) [] = drop-nil n ∙ sym (drop-nil (suc k + n))
  drop-drop n (suc k) (x ∷ xs) = rw (suc-add k n) (drop-drop n k xs)

  take-append-drop : (n : ℕ) (xs : List A) → take n xs ++ drop n xs ≡ xs
  take-append-drop zero xs = refl
  take-append-drop (suc n) [] = refl
  take-append-drop (suc n) (x ∷ xs) = ap (λ ys. x ∷ ys) (take-append-drop n xs)

  -- A page, and what comes behind it.
  take-append-drop_from :
      (n k : ℕ) (xs : List A) → take n (drop k xs) ++ drop (k + n) xs ≡ drop k xs
  take-append-drop_from n k xs = rw (sym (drop-drop n k xs)) (take-append-drop n (drop k xs))

  length-drop : (k : ℕ) (xs : List A) → length (drop k xs) ≡ length xs - k
  length-drop zero xs = omega arith
  length-drop (suc k) [] = omega arith
  length-drop (suc k) (x ∷ xs) = omega (arith, length-drop k xs)

  take_all : (n : ℕ) (xs : List A) → length xs ≤ n → take n xs ≡ xs
  take_all n xs h = sym (append-nil (take n xs)) ∙ rw (← drop_all n xs h) (take-append-drop n xs)

  -- The pages from `offset` on, one behind the other, as long as `hasNextPage` says so.
  unfoldable pub walk : (fuel limit offset : ℕ) → List A → List A
  unfolding page
  walk zero limit offset rows = []
  walk (suc fuel) limit offset rows =
      let (slice, meta) = page (some limit) (some offset) rows in
      let rest = walk fuel limit (offset + limit) rows in
      if meta.has_next_page then slice ++ rest else slice

  -- Starting at an offset and asking for the next page as long as `hasNextPage` says so, a client
  -- sees every matching row from that offset on, once and in order, when the rows do not change
  -- in between. It needs no more requests than there are pages from there on.
  pub walk-drop :
      (fuel limit offset : ℕ) (rows : List A)
      → length rows ≤ offset + fuel * limit
      → walk fuel limit offset rows ≡ drop offset rows
  unfolding walk page
  walk-drop zero limit offset rows enough = sym (drop_all offset rows (omega arith))
  walk-drop (suc fuel) limit offset rows enough =
      elim (Bool-cases (ltb (offset + limit) (length rows))) [
        | inl more ↦
            rw (more, walk-drop fuel limit (offset + limit) rows (omega arith))
              (take-append-drop_from limit offset rows)
        | inr last ↦
            rw last (take_all limit (drop offset rows) (ground (arith, length-drop offset rows)))
      ]
