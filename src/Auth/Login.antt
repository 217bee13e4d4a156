-- ===== src/Auth/Login.antt =====
-- What a login is granted or refused on.
use sfpg_go.Base.{
  ◌+◌, ◌≡◌, refl, sym, ap, ◌∙◌, Bool, true, false, ◌&&◌, Option, none, some, if◌then◌else◌,
  if_split, not, arith,
}
use sfpg_go.Base.Int.{ℤ}
use sfpg_go.Security.{NullInt64, is_locked, should_clear_lockout}
use sfpg_go.Security.Lockout.{locked_or_clear}
use sfpg_go.Base.Text.{Str, same, same_eq}
use sfpg_go.Auth.State.{
  Attempt, Db, Env, Error, no_rows, db_failed, Result, ok, err, M, bound, return, throw, tick,
  bound_rule, then_access_rule, Quiet, Quiet-trans, Quiet-tick,
}
use sfpg_go.Auth.Store.{
  User, row, get_config_value, get_user, get_login_attempt, clear_row, check_lockout_row,
  check_account_lockout,
}

-- The row locks the account at the time.
abbrev pub locks : Option Attempt → ℤ → Bool
locks none now = false
locks (some a) now = is_locked a.locked_until now

get_config_value_lem :
    (env : Env) (column : Db → Option Str) (s : Db)
    → let r = get_config_value env column s in
      (r.1 ≡ tick s) × ((v : Str) → r.0 ≡ ok v → column (tick s) ≡ some v)
unfolding get_config_value
get_config_value_lem env column s =
    then_access_rule (λ r. (r.1 ≡ tick s) × ((v : Str) → r.0 ≡ ok v → column (tick s) ≡ some v)) env
      s _ (λ e. from_row (column (tick s))) (λ e. (refl, λ v h. ground arith))
  where
    from_row :
        (o : Option Str)
        → ((row o (tick s)).1 ≡ tick s) × ((v : Str) → (row o (tick s)).0 ≡ ok v → o ≡ some v)
    from_row none = (refl, λ v h. ground arith)
    from_row (some w) = (refl, λ v h. ground arith)

-- A reply of `GetUser` from the state `s`: no statement writes, and a user is the one stored.
abbrev pub Reads : Str → Db → Result User × Db → Type 0
Reads name s r =
    Quiet s r.1
    × ((u : User)
        → r.0 ≡ ok u
        → (s.user ≡ some name) × (s.password ≡ some u.password) × (u.username ≡ name))

Reads-error : (name : Str) (s : Db) (e : Error) {t : Db} → Quiet s t → Reads name s (err e, t)
Reads-error name s e q = (q, λ u h. ground arith)

Reads-row :
    (name v h : Str) (s t : Db)
    → Quiet s t
    → s.user ≡ some v
    → s.password ≡ some h
    → Reads name s (
        (if not (same v name)
            then throw no_rows
            else return (record { username = v; password = h }))
          t)
Reads-row name v h s t q eu ep =
    if_split (λ (m : M User). Reads name s (m t)) (not (same v name))
      (λ e. Reads-error name s no_rows q)
      (λ e. (q, λ u eq. let same_name = same_eq v name (ground arith) in ground arith))

pub get_user-Reads : (env : Env) (name : Str) (s : Db) → Reads name s (get_user env name s)
unfolding get_user
get_user-Reads env name s =
    then_access_rule (Reads name s) env s _
      (λ e.
        bound_rule (Reads name s) (get_config_value env (λ t. t.user) (tick s)) _
          (λ v ev.
            let a = get_config_value_lem env (λ t. t.user) (tick s) in
            let q = Quiet-trans s (tick s) _ refl (Quiet-tick (tick s) a.0) in
            with_name v ((a.1 v ev)) (get_config_value env (λ t. t.user) (tick s)).1 q)
          (λ e' ee. Reads-error name s e' (
            Quiet-trans s (tick s) _ refl
              (Quiet-tick (tick s) (get_config_value_lem env (λ t. t.user) (tick s)).0))))
      (λ e. Reads-error name s db_failed refl)
  where
    with_name :
        (v : Str) (ev : s.user ≡ some v) (t : Db)
        → Quiet s t
        → Reads name s (
            bound (get_config_value env (λ (x : Db). x.password) t) (λ h.
              if not (same v name)
              then throw no_rows
              else return (record { username = v; password = h })))
    with_name v ev t q =
        let b = get_config_value_lem env (λ x. x.password) t in
        bound_rule (Reads name s) (get_config_value env (λ x. x.password) t) _
          (λ h eh.
            Reads-row name v h s _ (Quiet-trans s t _ q (Quiet-tick t b.0)) ev
              (sym (ap (λ (x : Db). x.password) q) ∙ b.1 h eh))
          (λ e' ee. Reads-error name s e' (Quiet-trans s t _ q (Quiet-tick t b.0)))

-- The time at which `CheckAccountLockout` looks at the row.
abbrev pub check_time : Env → Db → ℤ
check_time env s = env.clock (tick (tick s)).turn

-- A reply of `CheckAccountLockout` for the row `o`: the verdict is that of the row, and a lock is
-- left as it is.
abbrev pub Checked : Env → Option Attempt → Db → Result Bool × Db → Type 0
Checked env o s r =
    (r.1.user ≡ s.user)
    × (r.1.password ≡ s.password)
    × ((b : Bool) → r.0 ≡ ok b → b ≡ locks o (check_time env s))
    × (locks o (check_time env s) ≡ true
        → Quiet s r.1
          × (r.0 ≡ (if env.works s.turn && env.works (s.turn + 1) then ok true else err db_failed)))

unset-free : (l : NullInt64) (now : ℤ) → not l.valid ≡ true → is_locked l now ≡ false
unfolding is_locked
unset-free l now e = ground arith

clear-free : (l : NullInt64) (now : ℤ) → should_clear_lockout l now ≡ true → is_locked l now ≡ false
clear-free l now e = let c = locked_or_clear l now in ground arith

clear_row_lem :
    (env : Env) (name : Str) (s : Db)
    → ((clear_row env name s).1.user ≡ s.user) × ((clear_row env name s).1.password ≡ s.password)
unfolding clear_row
clear_row_lem env name s =
    then_access_rule (λ r. (r.1.user ≡ s.user) × (r.1.password ≡ s.password)) env s _
      (λ e. (refl, refl)) (λ e. (refl, refl))

check_lockout_row-Checked :
    (env : Env) (name : Str) (s : Db) (o : Option Attempt)
    → env.works s.turn ≡ true
    → env.works (s.turn + 1) ≡ true
    → Checked env o s (check_lockout_row env name o (tick (tick s)))
unfolding check_lockout_row
check_lockout_row-Checked env name s none w w' =
    (refl, refl, (λ b h. ground arith), (λ h. ground arith))
check_lockout_row-Checked env name s (some a) w w' =
    if_split (λ (m : M Bool). Checked env (some a) s (m (tick (tick s)))) (not a.locked_until.valid)
      (λ e.
        let free = unset-free a.locked_until (check_time env s) e in
        (refl, refl, (λ b h. ground arith), (λ h. ground arith)))
      (λ e.
        if_split (λ (m : M Bool). Checked env (some a) s (m (tick (tick s))))
          (should_clear_lockout a.locked_until (check_time env s))
          (λ e'.
            let free = clear-free a.locked_until (check_time env s) e' in
            let c = clear_row_lem env name (tick (tick s)) in
            (c.0, c.1, (λ b h. ground arith), (λ h. ground arith)))
          (λ e'. (refl, refl, (λ b h. ground arith), (λ h. (refl, ground arith)))))

pub check_account_lockout-Checked :
    (env : Env) (name : Str) (s : Db)
    → Checked env (s.attempts name) s (check_account_lockout env name s)
unfolding check_account_lockout get_login_attempt
check_account_lockout-Checked env name s =
    then_access_rule (Checked env (s.attempts name) s) env s _
      (λ w.
        then_access_rule
          (λ (r : Result (Option Attempt) × Db).
            Checked env (s.attempts name) s (bound r (check_lockout_row env name)))
          env (tick s) _ (λ w'. check_lockout_row-Checked env name s (s.attempts name) w w')
          (λ w'. (refl, refl, (λ b h. ground arith), (λ h. ground arith))))
      (λ w. (refl, refl, (λ b h. ground arith), (λ h. ground arith)))
