-- ===== src/Users/Profiles.antt =====
-- The profiles of lawyers and clients in src/modules/user/user.service.ts.
use corporate_lawyers_backen.Prelude.{
  ℕ, Bool, true, false, Option, List, [], ◌∷◌, ◌++◌, not, ◌||◌, ◌==◌, or_else, set_if, find, any,
  update_where,
}
use corporate_lawyers_backen.World.{
  UserRole, HttpError, Ended, ◌>>=◌, ◌>>◌, pure, guard, need, get, modify,
}
use corporate_lawyers_backen.Roles.{is_admin, is_client}
use corporate_lawyers_backen.Users.{LawyerProfile, ClientProfile, Store, find_one, forget}

pub record LawyerProfileDto : Type 0 where
  pub license_number : ℕ
  pub specializations : Option (List ℕ)
  pub hourly_rate : Option ℕ
  pub is_partner : Option Bool

pub record UpdateLawyerProfileDto : Type 0 where
  pub license_number : Option ℕ
  pub specializations : Option (List ℕ)
  pub hourly_rate : Option ℕ
  pub is_partner : Option Bool

pub record ClientProfileDto : Type 0 where
  pub client_type : ℕ
  pub rfc : Option ℕ

pub record UpdateClientProfileDto : Type 0 where
  pub client_type : Option ℕ
  pub rfc : Option ℕ

abbrev pub is_lawyer : UserRole → Bool
is_lawyer UserRole.lawyer = true
is_lawyer _ = false

abbrev pub lawyer_profile_of : ℕ → LawyerProfileDto → LawyerProfile
lawyer_profile_of user_id dto = record {
  user_id = user_id;
  license_number = dto.license_number;
  specializations = or_else dto.specializations [];
  hourly_rate = or_else dto.hourly_rate 0;
  is_partner = or_else dto.is_partner false;
}

-- A user has one profile of each kind at most: `userId` is unique in both tables.
unfoldable pub create_lawyer_profile : ℕ → LawyerProfileDto → Store → Ended Store LawyerProfile
create_lawyer_profile user_id dto = do
  user ← find_one user_id
  guard (is_lawyer user.role || is_admin user.role) HttpError.forbidden
  s ← get
  guard (not (any (λ p. p.user_id == user_id) s.lawyer_profiles)) HttpError.conflict
  let profile = lawyer_profile_of user_id dto
  modify λ s. record s { lawyer_profiles = s.lawyer_profiles ++ profile ∷ [] }
  forget user_id
  pure profile

abbrev pub edited_lawyer : UpdateLawyerProfileDto → LawyerProfile → LawyerProfile
edited_lawyer dto p = record p {
  license_number = or_else dto.license_number p.license_number;
  specializations = or_else dto.specializations p.specializations;
  hourly_rate = or_else dto.hourly_rate p.hourly_rate;
  is_partner = or_else dto.is_partner p.is_partner;
}

unfoldable pub update_lawyer_profile :
    ℕ → UpdateLawyerProfileDto → Store → Ended Store LawyerProfile
update_lawyer_profile user_id dto = do
  s ← get
  profile ← need (find (λ p. p.user_id == user_id) s.lawyer_profiles) HttpError.not_found
  modify λ s. record s {
    lawyer_profiles =
        update_where (λ p. p.user_id == user_id) (edited_lawyer dto) s.lawyer_profiles;
  }
  forget user_id
  pure (edited_lawyer dto profile)

abbrev pub client_profile_of : ℕ → ClientProfileDto → ClientProfile
client_profile_of user_id dto = record {
  user_id = user_id;
  client_type = dto.client_type;
  rfc = dto.rfc;
}

-- Neither of these two deletes the cached profile.
unfoldable pub create_client_profile : ℕ → ClientProfileDto → Store → Ended Store ClientProfile
create_client_profile user_id dto = do
  user ← find_one user_id
  guard (is_client user.role) HttpError.forbidden
  s ← get
  guard (not (any (λ p. p.user_id == user_id) s.client_profiles)) HttpError.conflict
  let profile = client_profile_of user_id dto
  modify λ s. record s { client_profiles = s.client_profiles ++ profile ∷ [] }
  pure profile

abbrev pub edited_client : UpdateClientProfileDto → ClientProfile → ClientProfile
edited_client dto p = record p {
  client_type = or_else dto.client_type p.client_type;
  rfc = set_if dto.rfc p.rfc;
}

unfoldable pub update_client_profile :
    ℕ → UpdateClientProfileDto → Store → Ended Store ClientProfile
update_client_profile user_id dto = do
  s ← get
  profile ← need (find (λ p. p.user_id == user_id) s.client_profiles) HttpError.not_found
  modify λ s. record s {
    client_profiles =
        update_where (λ p. p.user_id == user_id) (edited_client dto) s.client_profiles;
  }
  pure (edited_client dto profile)
