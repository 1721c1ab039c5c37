-- ===== src/Examples/Opening.antt =====
-- The theorem on the creation of cases (src/modules/case/case.service.ts) at concrete rows.
use corporate_lawyers_backen.Prelude.{
  true, false, none, some, [], ◌∷◌, ◌++◌, ◌≡◌, refl, ◌⊎◌, not, ◌&&◌, ◌==◌, is_some, find, ltb,
  length, Bool,
}
use corporate_lawyers_backen.World.{
  Text, UserRole, UserStatus, User, ClientProfile, World, err, HttpError,
}
use corporate_lawyers_backen.Roles.{is_active_user}
use corporate_lawyers_backen.Cases.Lookup.{Coherent}
use corporate_lawyers_backen.Cases.Create.{
  CreateCaseDto, is_lawyer, trim, name_of, check_by_name, create,
}
use corporate_lawyers_backen.Cases.Numbers.{next_is_taken}
use corporate_lawyers_backen.Cases.Opening.{NotReady, Opens, create_case_lem}
use corporate_lawyers_backen.Samples.{world}

abbrev client_account : User
client_account = record {
  id = 3;
  email = 99 ∷ [];
  first_name = 65 ∷ [];
  last_name = 66 ∷ [];
  role = UserRole.client;
  status = UserStatus.active;
  deleted_at = none;
}

abbrev client_world : World
client_world = record world {
  db = record (world.db) { users = world.db.users ++ client_account ∷ [] };
}

client_world-Coherent : Coherent client_world
client_world-Coherent id c h = absurd (cc)

abbrev lawsuit : CreateCaseDto
lawsuit = record {
  title = 1;
  description = none;
  case_type = 0;
  priority = none;
  legal_area = none;
  court = none;
  court_file_number = none;
  client_profile_id = 30;
  assigned_lawyer_id = 2;
}

-- Every text contains the texts that are not longer.
abbrev fits : Text → Text → Bool
fits text part = not (ltb (length text) (length part))

create_case_lem_example :
    ((create fits ltb 2025 12 22 lawsuit 1 client_world ≡ err HttpError.bad_request client_world)
      × NotReady fits ltb 2025 12 22 lawsuit 1 client_world)
    ⊎ ((w' : World) × (create fits ltb 2025 12 22 lawsuit 1 client_world
          ≡ err HttpError.conflict w')
        × (w'.db ≡ client_world.db)
        × (next_is_taken ltb 2025 client_world.db.cases ≡ true))
    ⊎ (profile : ClientProfile) × (client : User) × (lawyer : User) × (w' : World) × (find
          (λ p. p.id == 30)
          client_world.db.client_profiles
        ≡ some profile)
      × (find (λ u. u.id == profile.user_id) client_world.db.users ≡ some client)
      × (is_active_user client.status ≡ true)
      × (find
            (λ u. u.id == 2 && is_lawyer u.role && not (is_some u.deleted_at))
            client_world.db.users
          ≡ some lawyer)
      × (is_active_user lawyer.status ≡ true)
      × (next_is_taken ltb 2025 client_world.db.cases ≡ false)
      × Opens fits ltb 2025 12 22 lawsuit 1 client_world
          (check_by_name fits (name_of client) client_world.db)
          w'
create_case_lem_example =
    create_case_lem fits ltb 2025 12 22 lawsuit 1 client_world client_world-Coherent refl refl

-- Blanks at both ends go, one in between stays.
trim_run : trim (32 ∷ 65 ∷ 32 ∷ 66 ∷ 9 ∷ 32 ∷ []) ≡ 65 ∷ 32 ∷ 66 ∷ []
trim_run = refl
