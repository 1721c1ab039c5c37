-- ===== src/Users/Staleness.antt =====
-- What `findOne` of user.service.ts answers after a client profile is created.
use corporate_lawyers_backen.Prelude.{
  ℕ, true, none, some, [], ◌∷◌, ◌++◌, ◌≡◌, refl, ◌==◌, find, find-append, ==_refl, any_unfound,
}
use corporate_lawyers_backen.World.{ok, ◌>>=◌, ◌>>◌}
use corporate_lawyers_backen.Roles.{is_client}
use corporate_lawyers_backen.Cache.{lookup, without}
use corporate_lawyers_backen.Auth.{Account}
use corporate_lawyers_backen.Users.{UserProfile, Store, is_live_at, profile_of, find_one}
use corporate_lawyers_backen.Users.Profiles.{
  ClientProfileDto, client_profile_of, create_client_profile,
}

-- The new profile of a client is not shown. For a live client without a profile, whose data are not
-- cached, the profile is stored, and from then on, until the cache entry expires, `findOne` answers that
-- the user has none.
pub create_client_profile-stale :
    (user_id : ℕ) (dto : ClientProfileDto) (s : Store) (u : Account)
    → find (is_live_at user_id) s.auth.users ≡ some u
    → u.id ≡ user_id
    → is_client u.role ≡ true
    → find (λ p. p.user_id == user_id) s.client_profiles ≡ none
    → lookup user_id s.cache ≡ none
    → (s' : Store) × (shown : UserProfile) × (create_client_profile user_id dto s
        ≡ ok (client_profile_of user_id dto) s')
      × (find (λ p. p.user_id == user_id) s'.client_profiles ≡ some (client_profile_of user_id dto))
      × (find_one user_id s' ≡ ok shown s')
      × (shown.client_profile ≡ none)
unfolding create_client_profile find_one
create_client_profile-stale user_id dto s u found same client none_yet uncached =
    let row = client_profile_of user_id dto in
    let fresh = any_unfound (λ p. p.user_id == user_id) s.client_profiles none_yet in
    (
      record s {
        cache = (user_id, profile_of u s) ∷ without user_id s.cache;
        client_profiles = s.client_profiles ++ row ∷ [];
      },
      profile_of u s,
      rw (uncached, found, client, fresh, ◌>>=◌, ◌>>◌) refl,
      find-append (λ p. p.user_id == user_id) s.client_profiles row none_yet (==_refl user_id),
      rw (==_refl user_id, ◌>>=◌, ◌>>◌) refl,
      rw same none_yet,
    )
