-- ===== src/Leads/Status.antt =====
-- The status machine of src/modules/crm/lead.service.ts.
use corporate_lawyers_backen.Prelude.{
  ℕ, Bool, true, false, Option, none, some, List, [], ◌∷◌, ◌||◌, ◌==◌,
}
use corporate_lawyers_backen.World.{LeadStatus}

abbrev pub ordinal : LeadStatus → ℕ
ordinal LeadStatus.new = 0
ordinal LeadStatus.contacted = 1
ordinal LeadStatus.qualified = 2
ordinal LeadStatus.consultation_scheduled = 3
ordinal LeadStatus.converted = 4
ordinal LeadStatus.discarded = 5

-- `===` on two statuses
abbrev pub same_status : LeadStatus → LeadStatus → Bool
same_status s t = ordinal s == ordinal t

-- `list.includes(status)`
abbrev pub lists : List LeadStatus → LeadStatus → Bool
lists [] t = false
lists (s ∷ ss) t = same_status s t || lists ss t

-- `STATUS_TRANSITIONS`
unfoldable pub status_transitions : LeadStatus → List LeadStatus
status_transitions LeadStatus.new = LeadStatus.contacted ∷ LeadStatus.discarded ∷ []
status_transitions LeadStatus.contacted = LeadStatus.qualified ∷ LeadStatus.discarded ∷ []
status_transitions LeadStatus.qualified =
    LeadStatus.consultation_scheduled ∷ LeadStatus.discarded ∷ []
status_transitions LeadStatus.consultation_scheduled =
    LeadStatus.converted ∷ LeadStatus.discarded ∷ []
status_transitions LeadStatus.converted = []
status_transitions LeadStatus.discarded = LeadStatus.new ∷ []

-- The check of `update` on the status that the request asks for, if any.
unfoldable pub permits : LeadStatus → Option LeadStatus → Bool
permits old none = true
permits old (some next) = same_status next old || lists (status_transitions old) next

-- `status === QUALIFIED || status === CONSULTATION_SCHEDULED`
abbrev pub is_convertible : LeadStatus → Bool
is_convertible LeadStatus.qualified = true
is_convertible LeadStatus.consultation_scheduled = true
is_convertible _ = false

-- `status: { notIn: [CONVERTED, DISCARDED] }`
abbrev pub is_active : LeadStatus → Bool
is_active LeadStatus.converted = false
is_active LeadStatus.discarded = false
is_active _ = true
