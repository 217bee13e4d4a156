-- ===== src/Auth/Tests.antt =====
-- Concrete logins and updates.
use sfpg_go.Base.{◌-◌, ◌^◌, ◌≡◌, ◌&&◌, true, false, refl, List, [], ◌∷◌, none, some, arith}
use sfpg_go.Base.Int.{pos, ltb_ℤ, leb_ℤ, ◌+ℤ◌, ◌≤ℤ◌}
use sfpg_go.Security.{is_locked}
use sfpg_go.Base.Text.{Str, same, trim_space, byte_len}
use sfpg_go.Auth.State.{Db, Env, account_locked, ok, err}
use sfpg_go.Auth.Service.{authenticate}
use sfpg_go.Auth.Login.{locks, check_time}
use sfpg_go.Auth.Granted.{authenticate-ok, authenticate_locked}
use sfpg_go.Auth.Guesses.{Guess, guesses, AllWrong, guesses_lock}
use sfpg_go.Auth.Validation.{
  any, all, invalid, validate_password, validate_username, password_missing, number,
}
use sfpg_go.Auth.Credentials.{CredentialUpdateOptions, update_credentials}
use sfpg_go.Auth.Unlock.{Unlocks, unlock_account_from_task-Unlocks}
use sfpg_go.Auth.Store.{unlock_account_from_task}
use sfpg_go.Auth.Update.{Outcome, update_credentials-Outcome}

-- The hash of a password is the password behind a mark.
abbrev env : Env
env = record {
  works = λ t. true;
  clock = λ t. pos 1000;
  schedules = λ t. true;
  verify = λ h p. same h (1 ∷ p);
  generate = λ p. some (1 ∷ p);
  lockout_duration = pos 600;
  lockout_threshold = pos 2;
}

abbrev ada : Str
ada = 97 ∷ 100 ∷ 97 ∷ []

abbrev secret : Str
secret = 115 ∷ 51 ∷ []

abbrev db : Db
db = record {
  user = some ada;
  password = some (1 ∷ secret);
  attempts = λ u. none;
  unlocks = [];
  turn = 0;
}

granted : (authenticate env ada secret db).0 ≡ ok (record { username = ada; password = 1 ∷ secret })
unfolding authenticate same
granted = refl

authenticate-ok_example : locks none (pos 1000) ≡ false
authenticate-ok_example =
    (authenticate-ok env ada secret db (record { username = ada; password = 1 ∷ secret }) granted).4

-- Locked until 1600.
abbrev locked_db : Db
locked_db = record db {
  attempts = λ u. some (record {
    failed_attempts = pos 2;
    last_attempt_at = pos 1000;
    locked_until = record { int64 = pos 1600; valid = true };
  });
}

locked_now : locks (locked_db.attempts ada) (check_time env locked_db) ≡ true
unfolding is_locked
locked_now = refl

authenticate_locked_example : (authenticate env ada secret locked_db).0 ≡ err account_locked
authenticate_locked_example = (authenticate_locked env ada secret locked_db locked_now).1

-- The second wrong password reaches the threshold: locked at 1599 and free at 1600.
abbrev tried : List Guess
tried = (ada, pos 1000) ∷ (98 ∷ [], pos 900) ∷ []

tried-AllWrong : AllWrong env (1 ∷ secret) tried
unfolding AllWrong same
tried-AllWrong = (refl, (refl, tt))

in_low : pos 0 ≤ℤ (pos 1000 +ℤ pos 600)
unfolding ◌+ℤ◌
in_low = omega arith

in_high : (pos 1000 +ℤ pos 600) ≤ℤ pos (2 ^ 63 - 1)
unfolding ◌+ℤ◌
in_high = omega arith

guesses_lock_example :
    locks ((guesses env ada tried db).attempts ada) (pos 1599)
    ≡ (leb_ℤ (pos 2) (pos 2) && ltb_ℤ (pos 1599) (pos 1000 +ℤ pos 600))
guesses_lock_example =
    (guesses_lock env ada (1 ∷ secret) ada db (pos 1000) ((98 ∷ [], pos 900) ∷ []) (pos 1599) refl
      refl refl tried-AllWrong (omega arith) (omega arith) in_low in_high).1

abbrev digitless : Str
digitless = 65 ∷ 98 ∷ 99 ∷ 100 ∷ 101 ∷ 102 ∷ 103 ∷ 33 ∷ []

refused : validate_password digitless ≡ invalid (password_missing (number ∷ []))
unfolding validate_password byte_len any
refused = refl

abbrev request : CredentialUpdateOptions
request = record {
  current_username = ada;
  new_username = 108 ∷ 111 ∷ 118 ∷ 101 ∷ 108 ∷ 97 ∷ 99 ∷ 101 ∷ [];
  current_password = 32 ∷ secret;
  new_password = [];
  confirm_password = [];
}

update_credentials-Outcome_example : Outcome env request db (update_credentials env request db).1
update_credentials-Outcome_example = update_credentials-Outcome env request db

-- The new name is stored.
renamed : (update_credentials env request db).1.user ≡ some request.new_username
unfolding update_credentials same trim_space byte_len validate_username all
renamed = refl

unlock_account_from_task-Unlocks_example :
    Unlocks ada locked_db (unlock_account_from_task env ada locked_db)
unlock_account_from_task-Unlocks_example = unlock_account_from_task-Unlocks env ada locked_db

-- The lockout is gone.
unlocked_now : (unlock_account_from_task env ada locked_db).0 ≡ ok tt
unfolding unlock_account_from_task
unlocked_now = refl
