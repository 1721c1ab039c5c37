-- ===== src/Examples/Users.antt =====
-- The theorems on src/modules/user/user.service.ts at concrete rows.
use corporate_lawyers_backen.Prelude.{true, false, none, some, List, [], ◌≡◌, refl, ◌⊎◌, ◌==◌, find}
use corporate_lawyers_backen.World.{HttpError, ok, err, Text}
use corporate_lawyers_backen.Auth
use corporate_lawyers_backen.Auth.{Account, Session}
use corporate_lawyers_backen.Auth.Sessions.{
  Tokens, find_session, get_sessions, refresh_tokens, generate_tokens, hash_token,
}
use corporate_lawyers_backen.Auth.Calls.{Call, run}
use corporate_lawyers_backen.Auth.Endings.{Refused}
use corporate_lawyers_backen.Users.{Store, is_live_at, find_one, remove, admin_reset_password}
use corporate_lawyers_backen.Users.Removal.{remove-keeps_tokens, admin_reset_password_lem}
use corporate_lawyers_backen.Examples.Accounts.{
  toy, config, ann, ann_token, ann_session, auth_store, auth_store-IsKeyed,
}

abbrev user_store : Store
user_store = record {
  auth = auth_store;
  lawyer_profiles = [];
  client_profiles = [];
  cache = [];
  audit = [];
}

remove-keeps_tokens_example :
    (s' : Store) × (remove 2000 1 2 user_store ≡ ok tt s')
    × (find_one 1 s' ≡ err HttpError.not_found s')
    × (tokens : Tokens) × (t : Auth.Store) × (refresh_tokens toy config 3000 9 ann_token s'.auth
        ≡ ok tokens t)
unfolding hash_token generate_tokens
remove-keeps_tokens_example =
    remove-keeps_tokens toy config 2000 3000 9 1 2 ann_token user_store ann ann_session
      auth_store-IsKeyed refl refl refl refl refl refl refl

admin_reset_password_lem_example :
    (((1 == 2) ≡ true)
      × (s' : Store) × (admin_reset_password toy 3 77 1 2 user_store ≡ err HttpError.forbidden s')
      × (s'.auth ≡ user_store.auth))
    ⊎ ((1 == 2) ≡ false)
      × (s' : Store) × (u' : Account) × (admin_reset_password toy 3 77 1 2 user_store ≡ ok 77 s')
      × (find (is_live_at 1) s'.auth.users ≡ some u')
      × (toy.compare 77 u'.password_hash ≡ true)
      × (u'.locked_until ≡ none)
      × (get_sessions 2000 1 s'.auth ≡ [])
      × ((token : Text) (row : Session)
          → find_session toy config token user_store.auth ≡ some row
          → row.user_id ≡ 1
          → (cs : List Call) → Refused toy config token (run toy config cs s'.auth))
admin_reset_password_lem_example =
    admin_reset_password_lem toy config 2000 3 77 1 2 user_store ann auth_store-IsKeyed refl refl
