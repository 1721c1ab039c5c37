-- ===== src/Numbering.antt =====
-- The numbers of cases and invoices: generateCaseNumber in src/modules/case/case.service.ts and
-- generateInvoiceNumber in src/modules/billing/invoice.service.ts, the same code twice. A number
-- stands for the text of the year's prefix and its digits, filled up to five with zeros.
pub mod Freshness
use corporate_lawyers_backen.Prelude.{
  ℕ, ◌+◌, Bool, true, false, Option, none, some, List, [], ◌∷◌, ◌++◌, not, ◌==◌, if◌then◌else◌,
  is_some, any,
}

-- The rows of the year.
pub record Numbered : Type 0 where
  pub number : ℕ
  pub deleted_at : Option ℕ

abbrev pub is_live : Numbered → Bool
is_live r = not (is_some r.deleted_at)

-- `below m n` is the database's order on the texts of two numbers.
module _ (below : ℕ → ℕ → Bool) where
  abbrev pub later : Option ℕ → ℕ → Option ℕ
  later none n = some n
  later (some m) n = if below m n then some n else some m

  -- `findFirst` in descending order, which sees the rows that are not deleted.
  unfoldable pub last_number : List Numbered → Option ℕ
  last_number [] = none
  last_number (r ∷ rows) =
      let last = last_number rows in if is_live r then later last r.number else last

  abbrev pub successor : Option ℕ → ℕ
  successor none = 1
  successor (some n) = n + 1

  unfoldable pub next_number : List Numbered → ℕ
  next_number rows = successor (last_number rows)

  -- The creation of a row under the next number. The column is unique, over the deleted rows too, so
  -- a number that is taken is refused (Prisma's P2002) and nothing is written.
  unfoldable pub create_numbered : List Numbered → Option (List Numbered)
  create_numbered rows =
      let n = next_number rows in
      if any (λ r. r.number == n) rows
      then none
      else some (rows ++ record { number = n; deleted_at = none } ∷ [])
