-- ===== src/Auth/Store.antt =====
-- internal/server/auth_service.go, as the methods of the store that internal/server/server.go passes
-- to the service. The first access of each is the connection pool.
use sfpg_go.Base.{◌+◌, Bool, false, ◌∷◌, Option, none, some, if◌then◌else◌, not}
use sfpg_go.Base.Int.{ℤ, pos, ◌+ℤ◌}
use sfpg_go.Security.{
  NullInt64, calculate_lockout, is_locked, should_clear_lockout, increment_failed_attempts,
}
use sfpg_go.Base.Text.{Str, same}
use sfpg_go.Auth.State.{
  Attempt, Db, Env, no_rows, M, ◌>>=◌, ◌>>◌, return, throw, attempt, access, gets, modify, put,
}

pub record User : Type 0 where
  pub username : Str
  pub password : Str

-- A query that returns one row, or ErrNoRows.
abbrev pub row : Option Str → M Str
row none = throw no_rows
row (some v) = return v

unfoldable pub get_config_value : Env → (Db → Option Str) → M Str
unfolding access
get_config_value env column = do access env; o ← gets column; row o

unfoldable pub get_user : Env → Str → M User
unfolding get_config_value
get_user env name = do
  access env
  stored_username ← get_config_value env (λ s. s.user)
  stored_password ← get_config_value env (λ s. s.password)
  if not (same stored_username name)
      then throw no_rows
      else return (record { username = stored_username; password = stored_password })

unfoldable pub get_login_attempt : Env → Str → M (Option Attempt)
unfolding access
get_login_attempt env name = do access env; gets (λ s. s.attempts name)

-- The query that deletes the row.
unfoldable pub clear_row : Env → Str → M (Unit {0})
unfolding access
clear_row env name = do access env; modify (λ s. record s { attempts = put name none s.attempts })

-- An expired lockout is cleared on the way; a failure of that is only logged.
unfoldable pub check_lockout_row : Env → Str → Option Attempt → M Bool
unfolding clear_row
check_lockout_row env name none = return false
check_lockout_row env name (some a) = do
  now ← gets (λ s. env.clock s.turn)
  if not a.locked_until.valid
      then return false
      else if should_clear_lockout a.locked_until now
      then attempt (clear_row env name) >> return false
      else return (is_locked a.locked_until now)

unfoldable pub check_account_lockout : Env → Str → M Bool
unfolding get_login_attempt check_lockout_row
check_account_lockout env name = do
  access env
  a ← get_login_attempt env name
  check_lockout_row env name a

abbrev pub next_failed_attempts : Option Attempt → ℤ
next_failed_attempts none = pos 1
next_failed_attempts (some a) = increment_failed_attempts a.failed_attempts

-- The row that the next failed attempt at `now` writes.
unfoldable pub failed_row : Env → ℤ → Option Attempt → Attempt
failed_row env now old = record {
  failed_attempts = next_failed_attempts old;
  last_attempt_at = now;
  locked_until =
      calculate_lockout (next_failed_attempts old) now env.lockout_duration env.lockout_threshold;
}

-- A set lockout schedules the unlock a second after its end; a scheduler that refuses is only logged.
abbrev pub schedule_unlock : Env → Str → NullInt64 → Db → Db
schedule_unlock env name l s =
    if l.valid
    then if env.schedules s.turn
      then record s { unlocks = (name, l.int64 +ℤ pos 1) ∷ s.unlocks; turn = s.turn + 1 }
      else record s { turn = s.turn + 1 }
    else s

unfoldable pub record_failed_login_attempt : Env → Str → M (Unit {0})
unfolding get_login_attempt failed_row access
record_failed_login_attempt env name = do
  access env
  now ← gets (λ s. env.clock s.turn)
  old ← get_login_attempt env name
  access env
  modify (λ s. record s { attempts = put name (some (failed_row env now old)) s.attempts })
  modify (schedule_unlock env name (failed_row env now old).locked_until)

unfoldable pub clear_login_attempts : Env → Str → M (Unit {0})
unfolding clear_row access
clear_login_attempts env name = do access env; clear_row env name

-- The row that UnlockAccount leaves.
abbrev pub unlocked : Option Attempt → Option Attempt
unlocked none = none
unlocked (some a) =
    some
      (record a { failed_attempts = pos 0; locked_until = record { int64 = pos 0; valid = false } })

unfoldable pub unlock_account_from_task : Env → Str → M (Unit {0})
unfolding access
unlock_account_from_task env name = do
  access env
  access env
  modify (λ s. record s { attempts = put name (unlocked (s.attempts name)) s.attempts })

unfoldable pub update_username : Env → Str → M (Unit {0})
unfolding access
update_username env name = do access env; access env; modify (λ s. record s { user = some name })

unfoldable pub update_password : Env → Str → M (Unit {0})
unfolding access
update_password env hash = do
  access env
  access env
  modify (λ s. record s { password = some hash })
