-- ===== src/Prelude/Keys.antt =====
-- Tables whose rows have different keys: what is found before and after a write.
use Prim.Native.Nat.{ℕ}
use mathlib.Core.Path.{◌≡◌, refl, sym, subst}
use mathlib.Core.Logic.{◌≢◌}
use mathlib.Core.Bool.{Bool, true, false}
use mathlib.Core.List.{List, [], ◌∷◌, ◌++◌}
use mathlib.Core.Option.{none, some}
use mathlib.Core.Logic.{inl, inr}
use native.Mathlib.Omega.{arith}
use corporate_lawyers_backen.Prelude.Tests.{if◌then◌else◌, ◌==◌, leb, Bool-cases, ==_refl, ==_eq}
use corporate_lawyers_backen.Prelude.Lists.{find, any, update_where, All, Keyed}

module _ {ℓ} {A : Type ℓ} where
  -- `orderBy: { key: 'desc' }`
  abbrev pub insert_desc : (A → ℕ) → A → List A → List A
  insert_desc key x [] = x ∷ []
  insert_desc key x (y ∷ ys) =
      let rest = insert_desc key x ys in if leb (key y) (key x) then x ∷ y ∷ ys else y ∷ rest

  abbrev pub sort_desc : (A → ℕ) → List A → List A
  sort_desc key [] = []
  sort_desc key (x ∷ xs) = insert_desc key x (sort_desc key xs)

  -- `orderBy: { key: 'asc' }`
  abbrev pub insert_asc : (A → ℕ) → A → List A → List A
  insert_asc key x [] = x ∷ []
  insert_asc key x (y ∷ ys) =
      let rest = insert_asc key x ys in if leb (key x) (key y) then x ∷ y ∷ ys else y ∷ rest

  abbrev pub sort_asc : (A → ℕ) → List A → List A
  sort_asc key [] = []
  sort_asc key (x ∷ xs) = insert_asc key x (sort_asc key xs)

  pub find-update :
      (f : A → A) (p q : A → Bool) (xs : List A) (y : A)
      → ((x : A) → p (f x) ≡ p x)
      → find p xs ≡ some y
      → q y ≡ true
      → find p (update_where q f xs) ≡ some (f y)
  find-update f p q [] y same e hit = ground arith
  find-update f p q (x ∷ xs) y same e hit = ground (arith, same x, find-update f p q xs y same)

  pub find-update_missed :
      (f : A → A) (p q : A → Bool) (xs : List A) (y : A)
      → ((x : A) → p (f x) ≡ p x)
      → find p xs ≡ some y
      → q y ≡ false
      → find p (update_where q f xs) ≡ some y
  find-update_missed f p q [] y same e missed = ground arith
  find-update_missed f p q (x ∷ xs) y same e missed =
      ground (arith, same x, find-update_missed f p q xs y same)

  pub find-update_none :
      (f : A → A) (p q : A → Bool) (xs : List A)
      → ((x : A) → p (f x) ≡ p x)
      → find p xs ≡ none
      → find p (update_where q f xs) ≡ none
  find-update_none f p q [] same e = refl
  find-update_none f p q (x ∷ xs) same e = ground (arith, same x, find-update_none f p q xs same)

  pub any_unfound : (p : A → Bool) (xs : List A) → find p xs ≡ none → any p xs ≡ false
  any_unfound p [] e = refl
  any_unfound p (x ∷ xs) e = ground (arith, any_unfound p xs)

  pub find-append_kept :
      (p : A → Bool) (xs : List A) (x y : A) → find p xs ≡ some y → find p (xs ++ x ∷ []) ≡ some y
  find-append_kept p [] x y e = ground arith
  find-append_kept p (z ∷ xs) x y e = ground (arith, find-append_kept p xs x y)

  pub find-append_missed :
      (p : A → Bool) (xs : List A) (x : A) → p x ≡ false → find p (xs ++ x ∷ []) ≡ find p xs
  find-append_missed p [] x e = ground arith
  find-append_missed p (z ∷ xs) x e = ground (arith, find-append_missed p xs x e)

module _ {ℓ κ} {A : Type ℓ} (P : A → Type κ) where
  pub All-find : (p : A → Bool) (xs : List A) (y : A) → All P xs → find p xs ≡ some y → P y
  All-find p [] y h e = absurd (ground arith)
  All-find p (x ∷ xs) y (h, hs) e = elim (Bool-cases (p x)) [
    | inl here ↦ subst P (some_eq (rw here at e)) h
    | inr there ↦ All-find p xs y hs (rw there at e)
  ]
    where
      some_eq : {a b : A} → some a ≡ some b → a ≡ b
      some_eq h = cc

module _ {ℓ} {A : Type ℓ} (key : A → ℕ) where
  key-apart :
      (p : A → Bool) (n : ℕ) (xs : List A) (y : A)
      → All (λ x. n ≢ key x) xs
      → find p xs ≡ some y
      → (n == key y) ≡ false
  key-apart p n [] y h e = ground arith
  key-apart p n (x ∷ xs) y h e = ground (arith, key-apart p n xs y)

  -- What is found by any test is found by its key.
  pub find-key :
      (p : A → Bool) (xs : List A) (y : A)
      → Keyed key xs
      → find p xs ≡ some y
      → find (λ x. key x == key y) xs ≡ some y
  find-key p [] y keyed e = ground arith
  find-key p (x ∷ xs) y (apart, keyed) e = elim (Bool-cases (p x)) [
    | inl here ↦ ground (arith, ==_refl (key x))
    | inr there ↦ ground (arith, key-apart p (key x) xs y apart, find-key p xs y keyed)
  ]

  All-update_apart :
      (f : A → A) (q : A → Bool) (n : ℕ) (xs : List A)
      → ((x : A) → key (f x) ≡ key x)
      → All (λ x. n ≢ key x) xs
      → All (λ x. n ≢ key x) (update_where q f xs)
  All-update_apart f q n [] same h = tt
  All-update_apart f q n (x ∷ xs) same (h, hs) =
      (ground (arith, same x), All-update_apart f q n xs same hs)

  pub update_where-Keyed :
      (f : A → A) (q : A → Bool) (xs : List A)
      → ((x : A) → key (f x) ≡ key x)
      → Keyed key xs
      → Keyed key (update_where q f xs)
  update_where-Keyed f q [] same h = tt
  update_where-Keyed f q (x ∷ xs) same (h, hs) = (
    elim (Bool-cases (q x)) [
      | inl t ↦ rw (t, same x) (All-update_apart f q (key x) xs same h)
      | inr e ↦ rw e (All-update_apart f q (key x) xs same h)
    ],
    update_where-Keyed f q xs same hs,
  )

  All-append_apart :
      (n : ℕ) (xs : List A) (y : A)
      → All (λ x. n ≢ key x) xs
      → (n == key y) ≡ false
      → All (λ x. n ≢ key x) (xs ++ y ∷ [])
  All-append_apart n [] y h ne = (ground (arith, ==_refl n), tt)
  All-append_apart n (x ∷ xs) y (h, hs) ne = (h, All-append_apart n xs y hs ne)

  pub append-Keyed :
      (xs : List A) (y : A)
      → Keyed key xs
      → any (λ x. key x == key y) xs ≡ false
      → Keyed key (xs ++ y ∷ [])
  append-Keyed [] y h fresh = (tt, tt)
  append-Keyed (x ∷ xs) y (h, hs) fresh =
      (All-append_apart (key x) xs y h (ground arith), append-Keyed xs y hs (ground arith))

  update_where-apart :
      (f : A → A) (n : ℕ) (xs : List A)
      → All (λ x. n ≢ key x) xs
      → update_where (λ x. key x == n) f xs ≡ xs
  update_where-apart f n [] h = refl
  update_where-apart f n (x ∷ xs) (h, hs) = ground (arith, update_where-apart f n xs hs)

  -- A write to the row of a key changes that row alone.
  pub update_where-All {κ} :
      (P : A → Type κ) (f : A → A) (n : ℕ) (xs : List A) (y : A)
      → Keyed key xs
      → find (λ x. key x == n) xs ≡ some y
      → P (f y)
      → All P xs
      → All P (update_where (λ x. key x == n) f xs)
  update_where-All P f n [] y keyed e h all = tt
  update_where-All P f n (x ∷ xs) y (apart, keyed) e h (p, ps) = elim (Bool-cases (key x == n)) [
    | inl here ↦
        rw (here, update_where-apart f n xs (rw (← ==_eq (key x) n here) apart))
          (subst (λ z. P (f z)) (sym (some_eq (rw here at e))) h, ps)
    | inr there ↦ rw there (p, update_where-All P f n xs y keyed (rw there at e) h ps)
  ]
    where
      some_eq : {a b : A} → some a ≡ some b → a ≡ b
      some_eq h = cc
