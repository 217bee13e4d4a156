-- ===== src/Auth/Unlock.antt =====
-- The scheduled unlock.
use sfpg_go.Base.{◌≡◌, ◌⊎◌, inl, inr, refl, ap, ◌∙◌, false, Option, none, some, if◌then◌else◌}
use sfpg_go.Base.Int.{ℤ}
use sfpg_go.Base.Text.{Str, same, same_refl}
use sfpg_go.Security.{is_locked}
use sfpg_go.Auth.State.{Attempt, Db, Env, Result, tick, then_access_rule, Quiet, ok, err, db_failed}
use sfpg_go.Auth.Store.{unlocked, unlock_account_from_task}
use sfpg_go.Auth.Login.{locks}

unlocked_free : (o : Option Attempt) (now : ℤ) → locks (unlocked o) now ≡ false
unfolding is_locked
unlocked_free none now = refl
unlocked_free (some a) now = refl

-- An error and no write, or an unlocked account.
abbrev pub Unlocks : Str → Db → Result (Unit {0}) × Db → Type 0
Unlocks name s r =
    (r.0 ≡ err db_failed) × Quiet s r.1
    ⊎ (r.0 ≡ ok tt)
      × ((now : ℤ) → locks (r.1.attempts name) now ≡ false)
      × ((who : Str) → same who name ≡ false → r.1.attempts who ≡ s.attempts who)
      × (r.1.user ≡ s.user)
      × (r.1.password ≡ s.password)

-- The scheduled unlock either returns the error of the database and writes nothing; or it succeeds, and
-- then the account is not locked at any time, and the rows of the other accounts and the stored credentials
-- are as before.
pub unlock_account_from_task-Unlocks :
    (env : Env) (name : Str) (s : Db) → Unlocks name s (unlock_account_from_task env name s)
unfolding unlock_account_from_task
unlock_account_from_task-Unlocks env name s =
    then_access_rule (Unlocks name s) env s _
      (λ e.
        then_access_rule (Unlocks name s) env (tick s) _
          (λ e'. inr (
            refl,
            (λ now.
                ap (λ c. locks (if c then unlocked (s.attempts name) else s.attempts name) now)
                  (same_refl name)
                ∙ unlocked_free (s.attempts name) now),
            (λ who d. ap (λ c. if c then unlocked (s.attempts name) else s.attempts who) d),
            refl,
            refl,
          ))
          (λ e'. inl (refl, refl)))
      (λ e. inl (refl, refl))
