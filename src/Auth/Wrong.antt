-- ===== src/Auth/Wrong.antt =====
-- Wrong passwords: the count, and the lock at the threshold. The database answers every statement.
use sfpg_go.Base.{
  ◌≡◌, inl, inr, refl, sym, ap, ◌∙◌, subst, Bool, true, false, Option, none, some, if◌then◌else◌,
  if_split, not, arith, Bool-cases,
}
use sfpg_go.Base.Int.{ℤ}
use sfpg_go.Security.{should_clear_lockout}
use sfpg_go.Base.Text.{Str, same, same_eq, same_refl}
use sfpg_go.Auth.State.{
  Attempt, Db, Env, invalid_credentials, account_locked, Result, ok, err, M, ◌>>=◌, ◌>>◌, return,
  throw, attempt, put, tick, bound_ok,
}
use sfpg_go.Auth.Store.{
  User, get_user, failed_row, clear_row, check_lockout_row, check_account_lockout,
  record_failed_login_attempt, clear_login_attempts,
}
use sfpg_go.Auth.Service.{user_or_invalid, recorded, check_password, authenticate}
use sfpg_go.Auth.Login.{locks}
use sfpg_go.Auth.Steady.{
  Steady, Wrote, steady_rule, get_user_steady, get_login_attempt_steady, record_steady,
}

-- What is left of a row when its lockout is over.
abbrev pub unexpired : ℤ → Option Attempt → Option Attempt
unexpired now none = none
unexpired now (some a) = if should_clear_lockout a.locked_until now then none else some a

module _ (env : Env) (now : ℤ) (steady : Steady env now) where
  put_self : (name : Str) (v : Option Attempt) (m : Str → Option Attempt) → put name v m name ≡ v
  put_self name v m = ap (λ c. if c then v else m name) (same_refl name)

  put_same :
      (name : Str) (v : Option Attempt) (m : Str → Option Attempt)
      → m name ≡ v
      → (who : Str) → m who ≡ put name v m who
  put_same name v m e who = elim (Bool-cases (same who name)) [
    | inl h ↦ ap m (same_eq who name h) ∙ e ∙ ap (λ c. if c then v else m who) (sym h)
    | inr h ↦ ap (λ c. if c then v else m who) (sym h)
  ]

  clear_steady :
      (name : Str) (s : Db)
      → clear_row env name s ≡ (ok tt, record (tick s) { attempts = put name none s.attempts })
  unfolding clear_row
  clear_steady name s =
      steady_rule env now steady
        (λ r. r ≡ (ok tt, record (tick s) { attempts = put name none s.attempts })) s _ refl

  unset-unexpired :
      (a : Attempt) → not a.locked_until.valid ≡ true → some a ≡ unexpired now (some a)
  unfolding should_clear_lockout
  unset-unexpired a x = ground arith

  expired :
      (a : Attempt) → should_clear_lockout a.locked_until now ≡ true → unexpired now (some a) ≡ none
  expired a y = ap (λ c. if c then none else some a) y

  unexpired-kept :
      (a : Attempt)
      → should_clear_lockout a.locked_until now ≡ false
      → unexpired now (some a) ≡ some a
  unexpired-kept a y = ap (λ c. if c then none else some a) y

  check_row_steady :
      (name : Str) (o : Option Attempt) (s : Db)
      → s.attempts name ≡ o
      → locks o now ≡ false
      → let r = check_lockout_row env name o s in
        (r.0 ≡ ok false) × Wrote name (unexpired now o) s r.1
  unfolding check_lockout_row
  check_row_steady name none s e h = (refl, (put_same name none s.attempts e, refl, refl))
  check_row_steady name (some a) s e h =
      let l = a.locked_until in
      rw (steady.stands s.turn) (
        if_split
          (λ (m : M Bool). ((m s).0 ≡ ok false) × Wrote name (unexpired now (some a)) s (m s).1)
          (not l.valid)
          (λ x. (refl, (put_same name _ s.attempts (e ∙ unset-unexpired a x), refl, refl)))
          (λ x.
            if_split
              (λ (m : M Bool). ((m s).0 ≡ ok false) × Wrote name (unexpired now (some a)) s (m s).1)
              (should_clear_lockout l now)
              (λ y. rw (clear_steady name s) (
                refl,
                (λ who. ap (λ v. put name v s.attempts who) (sym (expired a y)), refl, refl),
              ))
              (λ y. (
                ap ok h,
                (put_same name _ s.attempts (e ∙ sym (unexpired-kept a y)), refl, refl),
              ))))

  check_steady :
      (name : Str) (s : Db)
      → locks (s.attempts name) now ≡ false
      → let r = check_account_lockout env name s in
        (r.0 ≡ ok false) × Wrote name (unexpired now (s.attempts name)) s r.1
  unfolding check_account_lockout
  check_steady name s h =
      let Q = λ (r : Result Bool × Db).
        (r.0 ≡ ok false) × Wrote name (unexpired now (s.attempts name)) s r.1 in
      steady_rule env now steady Q s _ (
        rw (get_login_attempt_steady env now steady name (tick s))
          (check_row_steady name (s.attempts name) (tick (tick s)) refl h))

  -- A wrong password for the stored account, while no lock is in force, counts as one more.
  pub wrong_steady :
      (name hash password : Str) (s : Db)
      → s.user ≡ some name
      → s.password ≡ some hash
      → env.verify hash password ≡ false
      → locks (s.attempts name) now ≡ false
      → let r = authenticate env name password s in
        (r.0 ≡ err invalid_credentials)
        × (r.1.attempts name ≡ some (failed_row env now (unexpired now (s.attempts name))))
        × (r.1.user ≡ some name)
        × (r.1.password ≡ some hash)
  unfolding authenticate check_password
  wrong_steady name hash password s eu ep bad h =
      let (er, (rows, su, sp)) = check_steady name s h in
      let t = (check_account_lockout env name s).1 in
      let found = get_user_steady env now steady name hash t (su ∙ eu) (sp ∙ ep) in
      let t' = tick (tick (tick t)) in
      let (done, (written, wu, wp)) = record_steady env now steady name t' in
      let row = failed_row env now (unexpired now (s.attempts name)) in
      let own =
        ap (λ (o : Option Attempt). some (failed_row env now o))
          (rows name ∙ put_self name (unexpired now (s.attempts name)) s.attempts) in
      let path =
        bound_ok (check_account_lockout env name s)
          (λ locked. if locked then throw account_locked else (do
            f ← attempt (get_user env name)
            user ← user_or_invalid f
            check_password env name password user))
          false er
        ∙ ap
            (λ (r : Result User × Db).
              ◌>>=◌ (user_or_invalid r.0) (check_password env name password) r.1)
            found
        ∙ ap
            (λ b.
              (if not b
                  then (do r ← attempt (record_failed_login_attempt env name); recorded r)
                  else (do
                    clear_login_attempts env name
                    return (record { username = name; password = hash })))
                t')
            bad
        ∙ ap (λ r. recorded r (record_failed_login_attempt env name t').1) done in
      subst
        (λ (r : Result User × Db).
          (r.0 ≡ err invalid_credentials)
          × (r.1.attempts name ≡ some row)
          × (r.1.user ≡ some name)
          × (r.1.password ≡ some hash))
        (sym path)
        (refl, written name ∙ put_self name _ t'.attempts ∙ own, wu ∙ su ∙ eu, wp ∙ sp ∙ ep)
