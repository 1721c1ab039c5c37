-- ===== src/Leads/Scoring.antt =====
-- What `calculateScore` of src/modules/crm/lead.service.ts can come to.
use corporate_lawyers_backen.Prelude.{ℕ, ◌+◌, ◌≤◌, Bool, true, false, ◌≡◌, is_some, arith}
use corporate_lawyers_backen.World.{Lead, LeadSource, Tables}
use corporate_lawyers_backen.World.{is_filled}
use corporate_lawyers_backen.Leads.Score.{
  points, source_points, is_long, has_specialist, min, calculate_score,
}

points-le : (b : Bool) (n : ℕ) → points b n ≤ n
points-le b n = ground arith

source_points-le : (s : LeadSource) → source_points s ≤ 15
source_points-le s = ground arith

min_small : (a : ℕ) → a ≤ 90 → min a 100 ≡ a
min_small a h = ground arith

-- The sum that `calculateScore` cuts off at 100.
abbrev pub raw_score : Tables → Lead → Bool → Bool → ℕ
raw_score db lead has_intake has_clean_check =
    points (is_filled lead.email) 10
    + points (is_some lead.phone) 5
    + points has_intake 20
    + source_points lead.source
    + points (is_long lead.message) 10
    + points has_clean_check 15
    + points (has_specialist lead.area_of_interest db.lawyer_profiles) 15

-- No lead scores more than 90, and so the cut at 100 is never made: the score is the sum of its
-- points. An intake form brings exactly 20 of them and a clean conflict check 15.
pub calculate_score_lem :
    (db : Tables) (lead : Lead) (has_intake has_clean_check : Bool)
    → (calculate_score db lead has_intake has_clean_check ≤ 90)
      × (calculate_score db lead has_intake has_clean_check
          ≡ raw_score db lead has_intake has_clean_check)
      × (calculate_score db lead true has_clean_check
          ≡ calculate_score db lead false has_clean_check + 20)
      × (calculate_score db lead has_intake true ≡ calculate_score db lead has_intake false + 15)
unfolding calculate_score
calculate_score_lem db lead has_intake has_clean_check = (
  rw (cut has_intake has_clean_check) (small has_intake has_clean_check),
  cut has_intake has_clean_check,
  rw (cut true has_clean_check, cut false has_clean_check) (omega arith),
  rw (cut has_intake true, cut has_intake false) (omega arith),
)
  where
    small : (i c : Bool) → raw_score db lead i c ≤ 90
    small i c = omega (
      arith,
      points-le (is_filled lead.email) 10,
      points-le (is_some lead.phone) 5,
      points-le i 20,
      source_points-le lead.source,
      points-le (is_long lead.message) 10,
      points-le c 15,
      points-le (has_specialist lead.area_of_interest db.lawyer_profiles) 15,
    )

    cut : (i c : Bool) → min (raw_score db lead i c) 100 ≡ raw_score db lead i c
    cut i c = min_small (raw_score db lead i c) (small i c)
