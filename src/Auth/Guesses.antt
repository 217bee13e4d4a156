-- ===== src/Auth/Guesses.antt =====
-- A series of wrong passwords for one account.
use sfpg_go.Base.{
  ℕ, suc, ◌+◌, ◌-◌, ◌^◌, ◌≡◌, ◌<◌, refl, ap, ◌∙◌, true, false, ◌&&◌, List, [], ◌∷◌, Option, none,
  some, if◌then◌else◌, arith, length,
}
use sfpg_go.Base.Int.{ℤ, pos, ◌+ℤ◌, ◌≤ℤ◌, leb_ℤ, ltb_ℤ}
use sfpg_go.Security.{
  effective_duration, effective_threshold, calculate_lockout, increment_failed_attempts, is_locked,
  should_clear_lockout,
}
use sfpg_go.Security.Lockout.{lockout_window, add64_in_range}
use sfpg_go.Base.Text.{Str}
use sfpg_go.Auth.State.{Attempt, Db, Env, invalid_credentials, err}
use sfpg_go.Auth.Store.{failed_row}
use sfpg_go.Auth.Service.{authenticate}
use sfpg_go.Auth.Login.{locks}
use sfpg_go.Auth.Steady.{Steady}
use sfpg_go.Auth.Wrong.{unexpired, wrong_steady}

-- The database answers, and the clock stands.
abbrev pub at : Env → ℤ → Env
at env t = record env { works = λ n. true; clock = λ n. t }

at-Steady : (env : Env) (t : ℤ) → Steady (at env t) t
at-Steady env t = record { answers = λ n. refl; stands = λ n. refl }

-- A password and the time at which it is tried.
abbrev pub Guess : Type 0
Guess = Str × ℤ

-- The attempts of the list, the last one first in it.
unfoldable pub guesses : Env → Str → List Guess → Db → Db
unfolding authenticate
guesses env name [] s = s
guesses env name ((password, t) ∷ gs) s =
    (authenticate (at env t) name password (guesses env name gs s)).1

-- None of the passwords is the one that was hashed.
unfoldable pub AllWrong : Env → Str → List Guess → Type 0
AllWrong env hash [] = Unit
AllWrong env hash ((password, t) ∷ gs) = (env.verify hash password ≡ false) × AllWrong env hash gs

-- The row after some attempts, of which the last was at `t`.
abbrev pub counted : Env → ℤ → ℕ → Attempt
counted env t n = record {
  failed_attempts = pos n;
  last_attempt_at = t;
  locked_until = calculate_lockout (pos n) t env.lockout_duration env.lockout_threshold;
}

-- Below the threshold nothing is locked, and no lockout runs out.
below :
    (env : Env) (t now : ℤ) (n : ℕ)
    → leb_ℤ (effective_threshold env.lockout_threshold) (pos n) ≡ false
    → (is_locked (counted env t n).locked_until now ≡ false)
      × (should_clear_lockout (counted env t n).locked_until now ≡ false)
unfolding calculate_lockout is_locked should_clear_lockout
below env t now n h = rw (h) (refl, refl)

next_count : (n : ℕ) → n + 1 < 2 ^ 63 → increment_failed_attempts (pos n) ≡ pos (suc n)
unfolding increment_failed_attempts ◌+ℤ◌
next_count n h = add64_in_range (pos n) (pos 1) (ground arith) (ground arith) ∙ (ground arith)

abbrev pub row_after : Env → List Guess → Option Attempt
row_after env [] = none
row_after env ((password, t) ∷ gs) = some (counted env t (suc (length gs)))

-- The attempts of the list that come before the threshold is reached.
abbrev pub IsWithin : Env → ℕ → Type 0
IsWithin env n =
    (pos n ≤ℤ effective_threshold env.lockout_threshold)
    × (effective_threshold env.lockout_threshold ≤ℤ pos (2 ^ 63 - 1))

not_reached : (thr : ℤ) (n : ℕ) → pos (suc n) ≤ℤ thr → leb_ℤ thr (pos n) ≡ false
not_reached thr n h = ground arith

still_free :
    (env : Env) (gs : List Guess) (now : ℤ)
    → IsWithin env (suc (length gs))
    → (locks (row_after env gs) now ≡ false) × (unexpired now (row_after env gs) ≡ row_after env gs)
still_free env [] now w = (refl, refl)
still_free env ((p, t) ∷ gs) now w =
    let (free, kept) =
      below env t now (suc (length gs))
        (not_reached (effective_threshold env.lockout_threshold) (suc (length gs)) w.0) in
    (free, ap (λ c. if c then none else some (counted env t (suc (length gs)))) kept)

one_more :
    (env : Env) (gs : List Guess) (now : ℤ)
    → IsWithin env (suc (length gs))
    → failed_row (at env now) now (row_after env gs) ≡ counted env now (suc (length gs))
unfolding failed_row
one_more env [] now w = refl
one_more env ((p, t) ∷ gs) now w =
    ap
      (λ c. record {
        failed_attempts = c;
        last_attempt_at = now;
        locked_until = calculate_lockout c now env.lockout_duration env.lockout_threshold;
      })
      (next_count (suc (length gs)) (fits w))
  where
    fits : IsWithin env (suc (suc (length gs))) → suc (length gs) + 1 < 2 ^ 63
    fits v = ground arith

module _ (env : Env) (name hash : Str) where
  record Series (gs : List Guess) (s : Db) : Type 0 where
    user_kept : s.user ≡ some name
    password_kept : s.password ≡ some hash
    row_is : s.attempts name ≡ row_after env gs

  step-Series :
      (password : Str) (t : ℤ) (gs : List Guess) (s : Db)
      → env.verify hash password ≡ false
      → IsWithin env (suc (length gs))
      → Series gs s
      → ((authenticate (at env t) name password s).0 ≡ err invalid_credentials)
        × Series ((password, t) ∷ gs) (authenticate (at env t) name password s).1
  step-Series password t gs s bad w v =
      let (free, kept) = still_free env gs t w in
      let (r, row, u, p) =
        wrong_steady (at env t) t (at-Steady env t) name hash password s v.user_kept v.password_kept
          bad (ap (λ o. locks o t) v.row_is ∙ free) in
      (
        r,
        record {
          user_kept = u;
          password_kept = p;
          row_is =
              row
              ∙ ap (λ o. some (failed_row (at env t) t (unexpired t o))) v.row_is
              ∙ ap (λ o. some (failed_row (at env t) t o)) kept
              ∙ ap some (one_more env gs t w);
        },
      )

  guesses-Series :
      (gs : List Guess) (s : Db)
      → AllWrong env hash gs
      → Series [] s
      → IsWithin env (length gs)
      → Series gs (guesses env name gs s)
  unfolding guesses AllWrong
  guesses-Series [] s bad v w = v
  guesses-Series ((password, t) ∷ gs) s bad v w =
      (step-Series password t gs (guesses env name gs s) bad.0 w
        (guesses-Series gs s bad.1 v (earlier w))).1
    where
      earlier : IsWithin env (suc (length gs)) → IsWithin env (length gs)
      earlier x = (omega arith, x.1)

-- For an account without a row, wrong passwords, not always the same, at whatever times, with a database
-- that answers and a clock that stands during an attempt: while there are no more of them than the
-- threshold, the last is refused as invalid, and after it the account is locked exactly if the threshold is
-- reached, until the lockout duration after that attempt, unless this end overflows or is negative.
pub guesses_lock :
    (env : Env) (name hash password : Str) (s : Db) (last : ℤ) (gs : List Guess) (t : ℤ)
    → s.user ≡ some name
    → s.password ≡ some hash
    → s.attempts name ≡ none
    → AllWrong env hash ((password, last) ∷ gs)
    → pos (suc (length gs)) ≤ℤ effective_threshold env.lockout_threshold
    → effective_threshold env.lockout_threshold ≤ℤ pos (2 ^ 63 - 1)
    → pos 0 ≤ℤ (last +ℤ effective_duration env.lockout_duration)
    → (last +ℤ effective_duration env.lockout_duration) ≤ℤ pos (2 ^ 63 - 1)
    → ((authenticate (at env last) name password (guesses env name gs s)).0
        ≡ err invalid_credentials)
      × (locks ((guesses env name ((password, last) ∷ gs) s).attempts name) t ≡ (
          leb_ℤ (effective_threshold env.lockout_threshold) (pos (suc (length gs)))
          && ltb_ℤ t (last +ℤ effective_duration env.lockout_duration)))
unfolding guesses AllWrong
guesses_lock env name hash password s last gs t eu ep fresh bad low high in_low in_high =
    let start : Series env name hash [] s = record {
      user_kept = eu;
      password_kept = ep;
      row_is = fresh;
    } in
    let before = guesses-Series env name hash gs s bad.1 start (omega arith, high) in
    let (r, v) =
      step-Series env name hash password last gs (guesses env name gs s) bad.0 (low, high) before in
    (
      r,
      ap (λ o. locks o t) v.row_is
          ∙ lockout_window (pos (suc (length gs))) last env.lockout_duration env.lockout_threshold t
              in_low in_high,
    )
