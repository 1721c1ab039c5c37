-- ===== src/Leads/Conflicts.antt =====
-- `conflictCheck` of src/modules/crm/lead.service.ts.
use corporate_lawyers_backen.Prelude.{ℕ, Bool, [], ◌∷◌, ◌++◌, not, ◌&&◌, ◌||◌, is_some, any}
use corporate_lawyers_backen.World.{
  Text, User, CaseParty, Lead, Action, EntityType, Tables, M, pure, ◌>>=◌, ◌>>◌, read_db, write_db,
  log,
}
use corporate_lawyers_backen.Roles.{is_client}
use corporate_lawyers_backen.Leads.Score.{calculate_score}
use corporate_lawyers_backen.Leads.Records.{
  find_one, update_lead, with_score, has_intake, has_clean_check,
}

-- The first name, a space, and the last name.
abbrev pub full_name : Lead → Text
full_name lead = lead.first_name ++ 32 ∷ lead.last_name

-- `contains haystack needle` is the database's `contains` in mode `insensitive`.
module _ (contains : Text → Text → Bool) where
  abbrev pub names_party : Lead → CaseParty → Bool
  names_party lead p = contains p.name (full_name lead)

  abbrev pub names_client : Lead → User → Bool
  names_client lead u =
      not (is_some u.deleted_at)
      && is_client u.role
      && contains u.first_name lead.first_name
      && contains u.last_name lead.last_name

  -- `partyMatches.length > 0 || clientMatches.length > 0`
  abbrev pub has_conflict : Lead → Tables → Bool
  has_conflict lead db = any (names_party lead) db.parties || any (names_client lead) db.users

  -- The answer is `hasConflict`; the matches are left out.
  unfoldable pub conflict_check : (new_id : ℕ) → ℕ → ℕ → M Bool
  conflict_check new_id id checked_by_id = do
    lead ← find_one id
    db ← read_db
    let conflict = has_conflict lead db
    write_db λ db. record db {
      conflict_checks =
          db.conflict_checks
          ++ record {
            id = new_id;
            lead_id = id;
            checked_by_id = checked_by_id;
            result = not conflict;
          }
            ∷ [];
    }
    let score = calculate_score db lead (has_intake id db) (not conflict || has_clean_check id db)
    update_lead id (with_score score)
    log checked_by_id Action.conflict_check EntityType.lead_entity id
    pure conflict
