-- ===== src/Auth/Granted.antt =====
-- When `Authenticate` grants a login, and when a lock refuses it.
use sfpg_go.Base.{
  ◌+◌, ◌≡◌, ◌≢◌, sym, ap, ◌∙◌, subst, Bool, true, false, ◌&&◌, none, some, if◌then◌else◌, if_split,
  not, arith,
}
use sfpg_go.Base.Text.{Str, same_refl}
use sfpg_go.Auth.State.{
  Db, Env, account_locked, db_failed, Result, ok, err, M, ◌>>=◌, tick, bound_rule, then_access_rule,
  Quiet,
}
use sfpg_go.Auth.Store.{
  User, get_user, clear_row, check_account_lockout, record_failed_login_attempt,
  clear_login_attempts,
}
use sfpg_go.Auth.Service.{is_no_rows, user_or_invalid, recorded, check_password, authenticate}
use sfpg_go.Auth.Login.{locks, check_time, check_account_lockout-Checked, get_user-Reads}

-- A granted login: the row of the account is gone.
cleared :
    (env : Env) (name : Str) (s : Db)
    → (clear_login_attempts env name s).0 ≡ ok tt
    → (clear_login_attempts env name s).1.attempts name ≡ none
unfolding clear_login_attempts clear_row
cleared env name s =
    then_access_rule (λ r. r.0 ≡ ok tt → r.1.attempts name ≡ none) env s _
      (λ e.
        then_access_rule (λ r. r.0 ≡ ok tt → r.1.attempts name ≡ none) env (tick s) _
          (λ e' h. ap (λ c. if c then none else s.attempts name) (same_refl name))
          (λ e' h. ground arith))
      (λ e h. ground arith)

password_granted :
    (env : Env) (name password : Str) (user : User) (s : Db) (u : User)
    → (check_password env name password user s).0 ≡ ok u
    → (u ≡ user)
      × (env.verify user.password password ≡ true)
      × ((check_password env name password user s).1.attempts name ≡ none)
unfolding check_password
password_granted env name password user s u =
    let Q = λ (r : Result User × Db).
      r.0 ≡ ok u
      → (u ≡ user) × (env.verify user.password password ≡ true) × (r.1.attempts name ≡ none) in
    if_split (λ (m : M User). Q (m s)) (not (env.verify user.password password))
      (λ e.
        go (record_failed_login_attempt env name s).0 (record_failed_login_attempt env name s).1)
      (λ e.
        bound_rule Q (clear_login_attempts env name s) _
          (λ t et h. (ground arith, ground arith, cleared env name s et)) (λ e' ee h. ground arith))
  where
    go :
        (r : Result (Unit {0})) (t : Db)
        → (recorded r t).0 ≡ ok u
        → (u ≡ user)
          × (env.verify user.password password ≡ true)
          × ((recorded r t).1.attempts name ≡ none)
    go (ok x) t h = ground arith
    go (err e) t h = ground arith

found_granted :
    (env : Env) (name password : Str) (found : Result User) (t : Db) (u : User)
    → let r = ◌>>=◌ (user_or_invalid found) (check_password env name password) t in
      r.0 ≡ ok u
      → (found ≡ ok u) × (env.verify u.password password ≡ true) × (r.1.attempts name ≡ none)
found_granted env name password (ok user) t u = λ h.
    let (same_user, good, gone) = password_granted env name password user t u h in
    (
      ap ok (sym same_user),
      subst (λ (v : User). env.verify v.password password ≡ true) (sym same_user) good,
      gone,
    )
found_granted env name password (err e) t u =
    if_split
      (λ (m : M User).
        let r = ◌>>=◌ m (check_password env name password) t in
        r.0 ≡ ok u
        → (err e ≡ ok u) × (env.verify u.password password ≡ true) × (r.1.attempts name ≡ none))
      (is_no_rows e) (λ x h. ground arith) (λ x h. ground arith)

-- A login is granted only on the stored name and a password that its stored hash verifies, while the
-- account is not locked; the user returned is the stored one, and its failed attempts are cleared.
pub authenticate-ok :
    (env : Env) (name password : Str) (s : Db) (u : User)
    → (authenticate env name password s).0 ≡ ok u
    → (s.user ≡ some name)
      × (s.password ≡ some u.password)
      × (u.username ≡ name)
      × (env.verify u.password password ≡ true)
      × (locks (s.attempts name) (check_time env s) ≡ false)
      × ((authenticate env name password s).1.attempts name ≡ none)
unfolding authenticate
authenticate-ok env name password s u =
    let Q = λ (r : Result User × Db).
      r.0 ≡ ok u
      → (s.user ≡ some name)
        × (s.password ≡ some u.password)
        × (u.username ≡ name)
        × (env.verify u.password password ≡ true)
        × (locks (s.attempts name) (check_time env s) ≡ false)
        × (r.1.attempts name ≡ none) in
    let (same_user, same_password, verdict, kept) = check_account_lockout-Checked env name s in
    bound_rule Q (check_account_lockout env name s) _
      (λ b eb.
        if_split (λ (m : M User). Q (m (check_account_lockout env name s).1)) b
          (λ e h. ground arith)
          (λ e h.
            let t = (check_account_lockout env name s).1 in
            let (found, good, gone) =
              found_granted env name password (get_user env name t).0 (get_user env name t).1 u h in
            let (hu, hp, hn) = (get_user-Reads env name t).1 u found in
            (sym same_user ∙ hu, sym same_password ∙ hp, hn, good, sym (verdict b eb) ∙ e, gone)))
      (λ e ee h. ground arith)

-- While the row of the account locks it, no password is looked at: nothing is written, and the reply
-- is ErrAccountLocked, or the error of the database if one of its first two accesses fails.
pub authenticate_locked :
    (env : Env) (name password : Str) (s : Db)
    → locks (s.attempts name) (check_time env s) ≡ true
    → Quiet s (authenticate env name password s).1
      × ((authenticate env name password s).0 ≡ (
          if env.works s.turn && env.works (s.turn + 1) then err account_locked else err db_failed))
unfolding authenticate
authenticate_locked env name password s h =
    let (q, e) = (check_account_lockout-Checked env name s).3 h in
    let w = env.works s.turn && env.works (s.turn + 1) in
    let Q = λ (r : Result User × Db).
      Quiet s r.1 × (r.0 ≡ (if w then err account_locked else err db_failed)) in
    bound_rule Q (check_account_lockout env name s) _
      (λ b eb.
        if_split (λ (m : M User). Q (m (check_account_lockout env name s).1)) b
          (λ eb'. (q, ground arith)) (λ eb'. absurd (contrary w b eb' (sym eb ∙ e))))
      (λ x ex. (q, ground arith))
  where
    contrary : (w b : Bool) → b ≡ false → ok b ≢ (if w then ok true else err db_failed)
    contrary w b e e' = ground arith
