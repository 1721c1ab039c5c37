-- ===== src/Leads/Shortcut.antt =====
-- A lead that only seems to become a client (src/modules/crm/lead.service.ts, update and convert).
use corporate_lawyers_backen.Prelude.{ℕ, Bool, true, false, none, some, ◌≡◌, refl, inl, inr}
use corporate_lawyers_backen.World.{Lead, LeadStatus, World, err, HttpError, ◌>>=◌, final}
use corporate_lawyers_backen.Leads.Status.{is_convertible, permits, status_transitions}
use corporate_lawyers_backen.Leads.Records.{find_lead, UpdateLeadDto, find_one, update}
use corporate_lawyers_backen.Leads.Convert.{ConvertLeadDto, NewIds, convert}
use corporate_lawyers_backen.Leads.Editing.{update_lead_lem}

convert-early :
    (below : ℕ → ℕ → Bool) (year : ℕ) (ids : NewIds) (id : ℕ) (dto : ConvertLeadDto) (user_id : ℕ)
    (w : World) (lead : Lead)
    → find_lead id w.db.leads ≡ some lead
    → is_convertible lead.status ≡ false
    → convert below year ids id dto user_id w ≡ err HttpError.bad_request w
unfolding convert find_one
convert-early below year ids id dto user_id w lead found early = rw (found, early, ◌>>=◌)

-- The request that only sets the status.
abbrev pub mark_converted : UpdateLeadDto
mark_converted = record {
  first_name = none;
  last_name = none;
  email = none;
  phone = none;
  source = none;
  area_of_interest = none;
  message = none;
  status = some LeadStatus.converted;
  score = none;
}

-- A lead with a scheduled consultation can be set to CONVERTED by an update, and then there is no
-- user for it: the users are as they were, and every later conversion of the lead gets 400.
pub update-converts_nobody :
    (below : ℕ → ℕ → Bool) (year id user_id : ℕ) (w : World) (lead : Lead) (ids : NewIds)
    (dto : ConvertLeadDto)
    → find_lead id w.db.leads ≡ some lead
    → lead.status ≡ LeadStatus.consultation_scheduled
    → let w' = final (update id mark_converted user_id w) in
      (w'.db.users ≡ w.db.users)
      × (lead' : Lead) × (find_lead id w'.db.leads ≡ some lead')
      × (lead'.status ≡ LeadStatus.converted)
      × (convert below year ids id dto user_id w' ≡ err HttpError.bad_request w')
unfolding permits status_transitions
update-converts_nobody below year id user_id w lead ids dto found scheduled =
    elim (update_lead_lem id mark_converted user_id w) [
      | inl (missing, refused) ↦ absurd (cc)
      | inr (inl (row, is_row, unlisted, refused)) ↦ absurd (clash row is_row unlisted)
      | inr (inr (row, w', is_row, listed, returns, stored, users)) ↦
          rw (returns, final)
            (users, _, stored, refl, convert-early below year ids id dto user_id w' _ stored refl)
    ]
  where
    clash :
        (row : Lead)
        → find_lead id w.db.leads ≡ some row
        → permits row.status (some LeadStatus.converted) ≡ false
        → ⊥
    clash row is_row unlisted =
        let same : row ≡ lead = cc in
        let listed : permits lead.status (some LeadStatus.converted) ≡ true = rw scheduled in cc
