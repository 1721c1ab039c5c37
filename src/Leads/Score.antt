-- ===== src/Leads/Score.antt =====
-- `calculateScore` of src/modules/crm/lead.service.ts, and the texts that it looks at.
use corporate_lawyers_backen.Prelude.{
  ℕ, ◌+◌, Bool, false, Option, none, some, List, ltb, leb, if◌then◌else◌, is_some, length, any,
  includes,
}
use corporate_lawyers_backen.World.{Text, is_filled, Lead, LeadSource, LawyerProfile, Tables}

-- `if (test) score += n`
abbrev pub points : Bool → ℕ → ℕ
points test n = if test then n else 0

abbrev pub source_points : LeadSource → ℕ
source_points LeadSource.referral = 15
source_points LeadSource.website = 10
source_points LeadSource.social_media = 10
source_points LeadSource.walk_in = 5
source_points _ = 0

-- `lead.message && lead.message.length > 100`
abbrev pub is_long : Option Text → Bool
is_long none = false
is_long (some m) = ltb 100 (length m)

-- Some lawyer's specializations have the area.
abbrev pub has_specialist : Option ℕ → List LawyerProfile → Bool
has_specialist none lawyers = false
has_specialist (some area) lawyers = any (λ p. includes p.specializations area) lawyers

-- `Math.min`
abbrev pub min : ℕ → ℕ → ℕ
min a b = if leb a b then a else b

unfoldable pub calculate_score : Tables → Lead → (has_intake has_clean_check : Bool) → ℕ
calculate_score db lead has_intake has_clean_check =
    min
      (points (is_filled lead.email) 10
        + points (is_some lead.phone) 5
        + points has_intake 20
        + source_points lead.source
        + points (is_long lead.message) 10
        + points has_clean_check 15
        + points (has_specialist lead.area_of_interest db.lawyer_profiles) 15)
      100
