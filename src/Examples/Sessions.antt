-- ===== src/Examples/Sessions.antt =====
-- The theorems on src/modules/auth/auth.service.ts at concrete rows.
use corporate_lawyers_backen.Prelude.{
  ℕ, ◌+◌, ◌*◌, ◌<◌, true, false, Option, none, some, List, [], ◌∷◌, ◌≡◌, refl, ◌⊎◌, ◌==◌, find, any,
  count_where, length, arith,
}
use corporate_lawyers_backen.World.{Text, HttpError, ok, err}
use corporate_lawyers_backen.SoftDelete.{find_unique, is_soft_delete_model}
use corporate_lawyers_backen.Auth.{
  TwoFactorSecret, json, Account, Session, PasswordResetToken, Store,
}
use corporate_lawyers_backen.Auth.Sessions.{
  is_live, generate_tokens, hash_token, find_session, refresh_tokens, get_sessions,
}
use corporate_lawyers_backen.Auth.Login.{
  LoginDto, Welcome, is_locked, is_suspended, welcome_back, login,
}
use corporate_lawyers_backen.Auth.TwoFactor.{Recovered, stored_codes, code_hash, recover_two_factor}
use corporate_lawyers_backen.Auth.Passwords.{is_usable, reset_password}
use corporate_lawyers_backen.Auth.Calls.{Call, logs_out_all, step, run}
use corporate_lawyers_backen.Auth.Accounts.{account_of, has_id}
use corporate_lawyers_backen.Auth.Failures.{failed}
use corporate_lawyers_backen.Auth.Entry.{Refusal, SecondFactor, Entered, in_use, login_lem}
use corporate_lawyers_backen.Auth.Lockout.{attempt, attempts, lockout, lock_ends}
use corporate_lawyers_backen.Auth.Codes.{NoRecovery, recover_two_factor_lem}
use corporate_lawyers_backen.Auth.Rotation.{unissued, open_token, revoked, view}
use corporate_lawyers_backen.Auth.Endings.{Refused, refresh_once}
use corporate_lawyers_backen.Auth.Withdrawal.{Ends, step-Ends}
use corporate_lawyers_backen.Auth.Resets.{reset_password_lem}
use corporate_lawyers_backen.Examples.Accounts.{
  toy, config, ann_mail, bob_mail, ann, ann_token, auth_store, auth_store-IsKeyed,
}

-- The password of Ann, in a mail address with a capital letter.
abbrev ann_dto : LoginDto
ann_dto = record { email = 65 ∷ []; password = 7; two_factor_code = none }

login_lem_example :
    let ended = login toy config 2000 9 ann_dto none none auth_store in
    (Refusal toy config 2000 ann_dto auth_store × (ended ≡ err HttpError.unauthorized auth_store))
    ⊎ (u : Account) × (account_of ann_dto.email auth_store ≡ some u)
      × (is_locked 2000 u ≡ false)
      × (is_suspended u.status ≡ false)
      × (((toy.compare ann_dto.password u.password_hash ≡ false)
            × (s' : Store) × (ended ≡ err HttpError.unauthorized s')
            × (account_of ann_dto.email s' ≡ some (failed 2000 u))
            × (s'.sessions ≡ auth_store.sessions))
          ⊎ (toy.compare ann_dto.password u.password_hash ≡ true)
            × (((u.two_factor_secret ≡ none)
                  × (u.two_factor_enabled ≡ true)
                  × (ended ≡ err HttpError.internal_error auth_store))
                ⊎ SecondFactor toy config 2000 u ann_dto.two_factor_code
                  × Entered toy config 2000 ann_dto 9 none none u auth_store ended))
login_lem_example = login_lem toy config 2000 9 ann_dto none none auth_store auth_store-IsKeyed

-- Four wrong passwords, and a fifth at the time 5000.
abbrev wrong_four : List (ℕ × ℕ)
wrong_four = (1000, 1) ∷ (2000, 2) ∷ (3000, 3) ∷ (4000, 4) ∷ []

ann-account_of : account_of ann_mail auth_store ≡ some ann
unfolding find_unique is_soft_delete_model
ann-account_of = refl

lockout_example :
    let s' =
      attempt toy config ann_mail 5000 6 (attempts toy config ann_mail wrong_four auth_store) in
    (s'.sessions ≡ auth_store.sessions)
    × ((later session_id : ℕ) (dto : LoginDto) (ip_address user_agent : Option ℕ)
        → dto.email ≡ ann_mail
        → later < 5000 + 5 * 60 * 1000
        → login toy config later session_id dto ip_address user_agent s'
          ≡ err HttpError.unauthorized s')
lockout_example =
    lockout toy config ann_mail wrong_four 5000 6 auth_store ann auth_store-IsKeyed ann-account_of
      refl refl refl refl (refl, (refl, (refl, (refl, tt)))) refl

in_use_run : in_use toy config 400000 ann auth_store ≡ false
unfolding generate_tokens hash_token
in_use_run = refl

abbrev ann_again : LoginDto
ann_again = record ann_dto { email = ann_mail }

lock_ends_example :
    let s' =
      attempt toy config ann_mail 5000 6 (attempts toy config ann_mail wrong_four auth_store) in
    (s'' : Store) × (welcome : Welcome) × (login toy config 400000 9 ann_again none none s'
      ≡ ok welcome s'')
    × (account_of ann_mail s'' ≡ some (welcome_back 400000 ann))
    × (length s''.sessions ≡ length auth_store.sessions + 1)
lock_ends_example =
    lock_ends toy config ann_mail wrong_four 5000 6 auth_store ann auth_store-IsKeyed ann-account_of
      refl refl refl refl (refl, (refl, (refl, (refl, tt)))) refl 400000 9 ann_again none none refl
      (omega arith) refl refl in_use_run

refresh_once_example :
    (refresh_tokens toy config 2000 9 ann_token auth_store ≡ err HttpError.unauthorized auth_store)
    ⊎ (row : Session) × (user : Account) × (s' : Store) × (find_session toy config ann_token
          auth_store
        ≡ some row)
      × (is_live 2000 row ≡ true)
      × (find (λ u. u.id == row.user_id) auth_store.users ≡ some user)
      × ((cs : List Call) → Refused toy config ann_token (run toy config cs s'))
      × let tokens = generate_tokens toy config 2000 user.id user.email user.role in
        let h = hash_token toy config tokens.refresh_token in
        (((view auth_store h ≡ unissued)
            × (view s' h ≡ open_token)
            × (refresh_tokens toy config 2000 9 ann_token auth_store ≡ ok tokens s'))
          ⊎ ((any (λ r. r.refresh_token == h) auth_store.sessions ≡ true)
              × (refresh_tokens toy config 2000 9 ann_token auth_store
                  ≡ err HttpError.conflict s')))
refresh_once_example = refresh_once toy config 2000 9 ann_token auth_store

-- The hash of Ann's token.
abbrev ann_hash : ℕ
ann_hash = hash_token toy config ann_token

ann_hash_open : view auth_store ann_hash ≡ open_token
unfolding hash_token
ann_hash_open = refl

step-Ends_example :
    let s' = step toy config (logs_out_all 1) auth_store in
    (Ends toy config (logs_out_all 1) auth_store ann_hash
      × (view s' ann_hash ≡ revoked)
      × ((cs : List Call) → view (run toy config cs s') ann_hash ≡ revoked))
    ⊎ ((Ends toy config (logs_out_all 1) auth_store ann_hash → ⊥) × (view s' ann_hash ≡ open_token))
step-Ends_example = step-Ends toy config (logs_out_all 1) auth_store ann_hash ann_hash_open

reset_password_lem_example :
    let ended = reset_password toy 2000 3 42 99 auth_store in
    (((find (λ r. r.token == 42) auth_store.reset_tokens ≡ none)
        ⊎ (row : PasswordResetToken) × (find (λ r. r.token == 42) auth_store.reset_tokens
            ≡ some row)
          × (is_usable 2000 row ≡ false))
      × (ended ≡ err HttpError.bad_request auth_store))
    ⊎ (row : PasswordResetToken) × (find (λ r. r.token == 42) auth_store.reset_tokens ≡ some row)
      × (is_usable 2000 row ≡ true)
      × (((find (has_id row.user_id) auth_store.users ≡ none)
            × (ended ≡ err HttpError.not_found auth_store))
          ⊎ (u : Account) × (u' : Account) × (s' : Store) × (find
                (has_id row.user_id)
                auth_store.users
              ≡ some u)
            × (find (has_id row.user_id) s'.users ≡ some u')
            × (ended ≡ ok tt s')
            × (toy.compare 99 u'.password_hash ≡ true)
            × (u'.failed_login_attempts ≡ 0)
            × (u'.locked_until ≡ none)
            × (get_sessions 2000 row.user_id s' ≡ [])
            × ((t : Text) (session : Session)
                → find_session toy config t auth_store ≡ some session
                → session.user_id ≡ row.user_id
                → (cs : List Call) → Refused toy config t (run toy config cs s'))
            × ((cs : List Call) (now' salt' password' : ℕ)
                → reset_password toy now' salt' 42 password' (run toy config cs s')
                  ≡ err HttpError.bad_request (run toy config cs s')))
reset_password_lem_example = reset_password_lem toy config 2000 3 42 99 auth_store

-- The recovery code in small letters.
abbrev bob_code : Text
bob_code = 120 ∷ []

recover_two_factor_lem_example :
    let ended = recover_two_factor toy config 2000 9 bob_mail bob_code auth_store in
    let h = code_hash toy config bob_code in
    ((e : HttpError) × NoRecovery toy config 2000 bob_mail bob_code auth_store e
      × (ended ≡ err e auth_store))
    ⊎ (u : Account) × (secret : TwoFactorSecret) × (totp : ℕ) × (codes : List ℕ) × (rest : List ℕ)
      × (s' : Store) × (account_of bob_mail auth_store ≡ some u)
      × (u.two_factor_enabled ≡ true)
      × (u.two_factor_secret ≡ some secret)
      × (stored_codes secret ≡ some (totp, codes))
      × (length rest + 1 ≡ length codes)
      × (count_where (λ c. c == h) rest + 1 ≡ count_where (λ c. c == h) codes)
      × (account_of bob_mail s'
          ≡ some (record u {
            two_factor_secret = some (json totp rest);
            failed_login_attempts = 0;
            locked_until = none;
            last_login_at = some 2000;
          }))
      × (((in_use toy config 2000 u auth_store ≡ true) × (ended ≡ err HttpError.conflict s'))
          ⊎ (in_use toy config 2000 u auth_store ≡ false)
            × (result : Recovered) × (ended ≡ ok result s')
            × (result.user_id ≡ u.id)
            × (result.remaining_recovery_codes ≡ length rest))
recover_two_factor_lem_example =
    recover_two_factor_lem toy config 2000 9 bob_mail bob_code auth_store auth_store-IsKeyed
