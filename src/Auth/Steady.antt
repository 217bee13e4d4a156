-- ===== src/Auth/Steady.antt =====
-- The store's methods when the database answers every statement.
use sfpg_go.Base.{ℕ, ◌+◌, ◌≡◌, ◌≢◌, refl, ap, Bool, true, false, Option, some, arith}
use sfpg_go.Base.Int.{ℤ}
use sfpg_go.Base.Text.{Str, same_refl}
use sfpg_go.Auth.State.{Attempt, Db, Env, Result, ok, M, bound, access, put, tick, then_access_rule}
use sfpg_go.Auth.Store.{
  row, get_user, get_config_value, get_login_attempt, failed_row, schedule_unlock,
  record_failed_login_attempt,
}

-- The database answers, and the clock stands at `now`.
pub record Steady (env : Env) (now : ℤ) : Type 0 where
  pub answers : (t : ℕ) → env.works t ≡ true
  pub stands : (t : ℕ) → env.clock t ≡ now

-- The tables, but for one row.
abbrev pub Wrote : Str → Option Attempt → Db → Db → Type 0
Wrote name v s t =
    ((who : Str) → t.attempts who ≡ put name v s.attempts who)
    × (t.user ≡ s.user)
    × (t.password ≡ s.password)

module _ (env : Env) (now : ℤ) (steady : Steady env now) where
  pub steady_rule :
      {A : Type 0} (Q : Result A × Db → Type 0) (s : Db) (f : Unit {0} → M A)
      → Q (f tt (tick s))
      → Q (bound (access env s) f)
  steady_rule Q s f h =
      then_access_rule Q env s f (λ e. h) (λ e. absurd (contrary (steady.answers s.turn) e))
    where
      contrary : {b : Bool} → b ≡ true → b ≢ false
      contrary e e' = ground arith

  get_config_steady :
      (column : Db → Option Str) (s : Db) (v : Str)
      → column (tick s) ≡ some v
      → get_config_value env column s ≡ (ok v, tick s)
  unfolding get_config_value
  get_config_steady column s v e =
      steady_rule (λ r. r ≡ (ok v, tick s)) s _ (ap (λ o. row o (tick s)) e)

  pub get_user_steady :
      (name hash : Str) (s : Db)
      → s.user ≡ some name
      → s.password ≡ some hash
      → get_user env name s
        ≡ (ok (record { username = name; password = hash }), tick (tick (tick s)))
  unfolding get_user
  get_user_steady name hash s eu ep =
      steady_rule
        (λ r. r ≡ (ok (record { username = name; password = hash }), tick (tick (tick s)))) s _
        (rw (
          get_config_steady (λ t. t.user) (tick s) name eu,
          get_config_steady (λ t. t.password) (tick (tick s)) hash ep,
          same_refl name,
        ))

  pub get_login_attempt_steady :
      (name : Str) (s : Db) → get_login_attempt env name s ≡ (ok (s.attempts name), tick s)
  unfolding get_login_attempt
  get_login_attempt_steady name s = steady_rule (λ r. r ≡ (ok (s.attempts name), tick s)) s _ refl

  schedule_unlock_lem :
      (name : Str) (a : Attempt) (s : Db)
      → let t = schedule_unlock env name a.locked_until s in
        (t.attempts ≡ s.attempts) × (t.user ≡ s.user) × (t.password ≡ s.password)
  schedule_unlock_lem name a s = ground arith

  kept :
      (name : Str) (a : Attempt) (s : Db)
      → let t = schedule_unlock env name a.locked_until s in
        ((who : Str) → t.attempts who ≡ s.attempts who)
        × (t.user ≡ s.user)
        × (t.password ≡ s.password)
  kept name a s =
      let k = schedule_unlock_lem name a s in
      ((λ who. ap (λ (m : Str → Option Attempt). m who) k.0), k.1, k.2)

  pub record_steady :
      (name : Str) (s : Db)
      → let r = record_failed_login_attempt env name s in
        (r.0 ≡ ok tt) × Wrote name (some (failed_row env now (s.attempts name))) s r.1
  unfolding record_failed_login_attempt
  record_steady name s =
      let row = failed_row env now (s.attempts name) in
      steady_rule (λ r. (r.0 ≡ ok tt) × Wrote name (some row) s r.1) s _
        (rw (steady.stands (tick s).turn, get_login_attempt_steady name (tick s))
          (steady_rule (λ r. (r.0 ≡ ok tt) × Wrote name (some row) s r.1) (tick (tick s)) _
            (
              refl,
              kept name row (record s {
                attempts = put name (some row) s.attempts;
                turn = s.turn + 1 + 1 + 1;
              }),
            )))
