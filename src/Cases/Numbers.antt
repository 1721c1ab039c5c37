-- ===== src/Cases/Numbers.antt =====
-- The numbers of the cases in their table: generateCaseNumber of src/modules/case/case.service.ts,
-- which src/modules/crm/lead.service.ts repeats, and the unique column.
use corporate_lawyers_backen.Prelude.{ℕ, Bool, List, ◌&&◌, ◌==◌, any, select, map}
use corporate_lawyers_backen.World.{Case}
use corporate_lawyers_backen.Numbering.{Numbered, next_number}

abbrev pub numbered : Case → Numbered
numbered c = record { number = c.number; deleted_at = c.deleted_at }

-- `where: { caseNumber: { startsWith: prefix } }`
abbrev pub of_year : ℕ → List Case → List Numbered
of_year year cases = map numbered (select (λ c. c.year == year) cases)

-- `below` is the database's order on the texts of two numbers.
abbrev pub generate_case_number : (below : ℕ → ℕ → Bool) (year : ℕ) → List Case → ℕ
generate_case_number below year cases = next_number below (of_year year cases)

-- Whether a row has the number, a deleted one or not.
abbrev pub is_taken : (year number : ℕ) → List Case → Bool
is_taken year number cases = any (λ c. c.year == year && c.number == number) cases

-- Whether the next number of the year is the number of a row.
abbrev pub next_is_taken : (below : ℕ → ℕ → Bool) (year : ℕ) → List Case → Bool
next_is_taken below year cases = is_taken year (generate_case_number below year cases) cases
