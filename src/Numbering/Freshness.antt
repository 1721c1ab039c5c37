-- ===== src/Numbering/Freshness.antt =====
-- When the next number of generateCaseNumber and generateInvoiceNumber is a new one.
use corporate_lawyers_backen.Prelude.{
  ℕ, ◌+◌, ◌≤◌, ◌<◌, Bool, true, false, Option, none, some, List, [], ◌∷◌, ◌++◌, ◌≡◌, refl, ◌==◌,
  ltb, any, update_where, ==_refl, All, Bool-cases, inl, inr, arith,
}
use corporate_lawyers_backen.Numbering.{
  Numbered, is_live, later, last_number, successor, next_number, create_numbered,
}

-- Not deleted, and of five digits with room for one more.
abbrev pub IsCurrent : Numbered → Type 0
IsCurrent r = (is_live r ≡ true) × (r.number < 99999)

abbrev pub deleted : (now number : ℕ) → List Numbered → List Numbered
deleted now number =
    update_where (λ r. r.number == number) (λ r. record r { deleted_at = some now })

module _ (below : ℕ → ℕ → Bool)
    (five_digits : (a b : ℕ) → a < 100000 → b < 100000 → below a b ≡ ltb a b) where
  abbrev AllUpTo : List Numbered → Option ℕ → Type 0
  AllUpTo rows none = All (λ r. r.number ≤ 0) rows
  AllUpTo rows (some n) = All (λ r. r.number ≤ n) rows × (n < 99999)

  raise :
      (m n : ℕ) (rows : List Numbered)
      → m ≤ n
      → All (λ r. r.number ≤ m) rows
      → All (λ r. r.number ≤ n) rows
  raise m n [] h a = tt
  raise m n (r ∷ rows) h a = (omega (arith, a.0), raise m n rows h a.1)

  later-AllUpTo :
      (r : Numbered) (rows : List Numbered) (last : Option ℕ)
      → r.number < 99999
      → AllUpTo rows last
      → AllUpTo (r ∷ rows) (later below last r.number)
  later-AllUpTo r rows none h a = ((omega arith, raise 0 r.number rows (omega arith) a), h)
  later-AllUpTo r rows (some m) h a =
      let order = five_digits m r.number (omega (arith, a.1)) (omega arith) in
      elim (Bool-cases (ltb m r.number)) [
        | inl above ↦
            rw (order, above) ((omega arith, raise m r.number rows (ground (arith, above)) a.0), h)
        | inr below_it ↦ rw (order, below_it) ((ground (arith, below_it), a.0), a.1)
      ]

  last_number-AllUpTo :
      (rows : List Numbered) → All IsCurrent rows → AllUpTo rows (last_number below rows)
  unfolding last_number
  last_number-AllUpTo [] h = tt
  last_number-AllUpTo (r ∷ rows) h =
      rw h.0.0 (later-AllUpTo r rows (last_number below rows) h.0.1 (last_number-AllUpTo rows h.1))

  none_equal :
      (n : ℕ) (rows : List Numbered)
      → All (λ r. r.number ≤ n) rows
      → any (λ r. r.number == n + 1) rows ≡ false
  none_equal n [] a = refl
  none_equal n (r ∷ rows) a = ground (arith, none_equal n rows a.1)

  successor-free :
      (rows : List Numbered) (last : Option ℕ)
      → AllUpTo rows last
      → any (λ r. r.number == successor below last) rows ≡ false
  successor-free rows none a = none_equal 0 rows a
  successor-free rows (some n) a = none_equal n rows a.0

  -- While none of the year's rows is deleted and all of them have five digits, the next number is a
  -- new one, and a row is created under it.
  pub create_numbered_lem :
      (rows : List Numbered)
      → All IsCurrent rows
      → (any (λ r. r.number == next_number below rows) rows ≡ false)
        × (create_numbered below rows
            ≡ some (rows ++ record { number = next_number below rows; deleted_at = none } ∷ []))
  unfolding next_number create_numbered
  create_numbered_lem rows current =
      let free = successor-free rows (last_number below rows) (last_number-AllUpTo rows current) in
      (free, rw free)

  last_number-deleted :
      (now n : ℕ) (rows : List Numbered)
      → any (λ r. r.number == n) rows ≡ false
      → last_number below (deleted now n (rows ++ record { number = n; deleted_at = none } ∷ []))
        ≡ last_number below rows
  unfolding last_number
  last_number-deleted now n [] h = ground (arith, ==_refl n)
  last_number-deleted now n (r ∷ rows) h =
      let other : (r.number == n) ≡ false = ground (arith, h) in
      let rest : any (λ r. r.number == n) rows ≡ false = ground (arith, h) in
      rw (other, last_number-deleted now n rows rest)

  taken-deleted :
      (now n : ℕ) (rows : List Numbered)
      → any
          (λ r. r.number == n)
          (deleted now n (rows ++ record { number = n; deleted_at = none } ∷ []))
        ≡ true
  taken-deleted now n [] = ground (arith, ==_refl n)
  taken-deleted now n (r ∷ rows) = ground (arith, taken-deleted now n rows)

  -- Deleting the newest case or invoice of the year stops the creation of others: the next number
  -- is the deleted row's again, which is taken, and so the request is refused and the rows stay as
  -- they are. This is so when before that row none was deleted and all had five digits.
  pub create_numbered-deleted :
      (now : ℕ) (rows : List Numbered)
      → All IsCurrent rows
      → let n = next_number below rows in
        create_numbered below
          (deleted now n (rows ++ record { number = n; deleted_at = none } ∷ []))
        ≡ none
  unfolding next_number create_numbered
  create_numbered-deleted now rows current =
      let n = successor below (last_number below rows) in
      let free = successor-free rows (last_number below rows) (last_number-AllUpTo rows current) in
      rw (last_number-deleted now n rows free) (rw (taken-deleted now n rows))
