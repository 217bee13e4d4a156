-- ===== src/Auth/Service.antt =====
-- internal/server/auth/service.go.
use sfpg_go.Base.{Bool, true, false, if◌then◌else◌, not}
use sfpg_go.Base.Text.{Str}
use sfpg_go.Auth.State.{
  Env, Error, invalid_credentials, account_locked, no_rows, not_recorded, Result, ok, err, M, ◌>>=◌,
  ◌>>◌, return, throw, attempt,
}
use sfpg_go.Auth.Store.{
  User, get_user, check_account_lockout, record_failed_login_attempt, clear_login_attempts,
}

abbrev pub is_no_rows : Error → Bool
is_no_rows no_rows = true
is_no_rows _ = false

-- The error of `GetUser`, as the caller sees it.
abbrev pub user_or_invalid : Result User → M User
user_or_invalid (ok u) = return u
user_or_invalid (err e) = if is_no_rows e then throw invalid_credentials else throw e

abbrev pub recorded : Result (Unit {0}) → M User
recorded (ok _) = throw invalid_credentials
recorded (err e) = throw not_recorded

unfoldable pub check_password : Env → Str → Str → User → M User
unfolding record_failed_login_attempt clear_login_attempts
check_password env name password user =
    if not (env.verify user.password password)
    then (do r ← attempt (record_failed_login_attempt env name); recorded r)
    else (do clear_login_attempts env name; return user)

unfoldable pub authenticate : Env → Str → Str → M User
unfolding check_account_lockout get_user check_password
authenticate env name password = do
  locked ← check_account_lockout env name
  if locked then throw account_locked else (do
    found ← attempt (get_user env name)
    user ← user_or_invalid found
    check_password env name password user)
