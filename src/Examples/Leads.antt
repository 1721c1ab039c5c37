-- ===== src/Examples/Leads.antt =====
-- The theorems on src/modules/crm/lead.service.ts at concrete rows.
use corporate_lawyers_backen.Prelude.{
  true, false, none, some, [], ◌∷◌, ◌≡◌, refl, ◌⊎◌, not, any, Bool, ltb, length,
}
use corporate_lawyers_backen.World.{Text, LeadStatus, LeadSource, Lead, World}
use corporate_lawyers_backen.Leads.Status.{is_convertible}
use corporate_lawyers_backen.World.{text_eq}
use corporate_lawyers_backen.Leads.Score.{calculate_score}
use corporate_lawyers_backen.Leads.Records.{
  CreateLeadDto, new_lead, with_score, find_lead, has_intake, has_clean_check, edited,
}
use corporate_lawyers_backen.Leads.Convert.{ConvertLeadDto, NewIds}
use corporate_lawyers_backen.Leads.Conversion.{Fails, Converts, convert_lem}
use corporate_lawyers_backen.Leads.Shortcut.{mark_converted}
use corporate_lawyers_backen.Samples.{world}

-- A referral with a scheduled consultation, assigned to the lawyer, whose field is the lead's.
abbrev scheduled_lead : Lead
scheduled_lead = record {
  id = 40;
  first_name = 74 ∷ [];
  last_name = 80 ∷ [];
  email = 106 ∷ 64 ∷ 112 ∷ [];
  phone = some 1;
  source = LeadSource.referral;
  area_of_interest = some 4;
  message = none;
  score = 0;
  status = LeadStatus.consultation_scheduled;
  assigned_to_id = some 2;
}

abbrev lead_world : World
lead_world = record world { db = record (world.db) { leads = scheduled_lead ∷ [] } }

-- 10 + 5 + 15 + 15
score_run : calculate_score world.db scheduled_lead false false ≡ 45
unfolding calculate_score
score_run = refl

-- The address has a capital letter.
abbrev visitor : CreateLeadDto
visitor = record {
  first_name = 65 ∷ [];
  last_name = 66 ∷ [];
  email = 65 ∷ 64 ∷ 98 ∷ [];
  phone = none;
  source = none;
  area_of_interest = none;
  message = none;
}

abbrev visiting_lead : Lead
visiting_lead =
    with_score (calculate_score lead_world.db (new_lead 41 visitor) false false)
      (new_lead 41 visitor)

abbrev rescored : Lead → Lead
rescored lead =
    with_score
      (calculate_score lead_world.db (edited mark_converted lead) (has_intake 40 lead_world.db)
        (has_clean_check 40 lead_world.db))
      (edited mark_converted lead)

abbrev new_ids : NewIds
new_ids = record { user = 4; profile = 31; case_file = 11; assignment = 21 }

-- With a first case for the lawyer.
abbrev with_case : ConvertLeadDto
with_case = record { assigned_lawyer_id = some 2; case_title = some 6; case_type = none }

convert_lem_example :
    Fails ltb 2025 new_ids 40 with_case 1 lead_world
    ⊎ (lead : Lead) × (w' : World) × (find_lead 40 lead_world.db.leads ≡ some lead)
      × (is_convertible lead.status ≡ true)
      × (any (λ u. text_eq u.email lead.email) lead_world.db.users ≡ false)
      × Converts ltb 2025 new_ids 40 with_case 1 lead_world lead w'
convert_lem_example = convert_lem ltb 2025 new_ids 40 with_case 1 lead_world

-- Every text contains the texts that are not longer.
abbrev fits : Text → Text → Bool
fits text part = not (ltb (length text) (length part))
