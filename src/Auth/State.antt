-- ===== src/Auth/State.antt =====
-- The tables `config` and `login_attempts` that the login reads and writes, and what the database
-- answers. A statement is run by `access`, which takes one answer of the environment.
use sfpg_go.Base.{
  ℕ, ◌+◌, ◌≡◌, refl, sym, ap, ◌∙◌, subst, if_split, Bool, true, false, List, Option, if◌then◌else◌,
  arith,
}
use sfpg_go.Base.Int.{ℤ}
use sfpg_go.Security.{NullInt64}
use sfpg_go.Base.Text.{Str, same}

pub record Attempt : Type 0 where
  pub failed_attempts : ℤ
  pub last_attempt_at : ℤ
  pub locked_until : NullInt64

-- `attempts` is the table by user name, `unlocks` the scheduled unlock tasks, newest first, and
-- `turn` counts the answers that were used up.
pub record Db : Type 0 where
  pub user : Option Str
  pub password : Option Str
  pub attempts : Str → Option Attempt
  pub unlocks : List (Str × ℤ)
  pub turn : ℕ

-- `verify` is bcrypt's comparison of a hash with a password and `generate` its hash of a password.
pub record Env : Type 0 where
  pub works : ℕ → Bool
  pub clock : ℕ → ℤ
  pub schedules : ℕ → Bool
  pub verify : Str → Str → Bool
  pub generate : Str → Option Str
  pub lockout_duration : ℤ
  pub lockout_threshold : ℤ

-- `not_recorded` joins ErrInvalidCredentials with the error of the store.
pub data Error : Type 0 where
  invalid_credentials account_locked no_rows db_failed not_recorded hash_failed : Error

pub data Result (A : Type 0) : Type 0 where
  ok : A → Result A
  err : Error → Result A

abbrev pub M : Type 0 → Type 0
M A = Db → Result A × Db

abbrev pub bound : {A B : Type 0} → Result A × Db → (A → M B) → Result B × Db
bound (ok a, s) f = f a s
bound (err e, s) f = (err e, s)

infixl 5 ◌>>=◌ ◌>>◌
abbrev pub ◌>>=◌ : {A B : Type 0} → M A → (A → M B) → M B
◌>>=◌ m f s = bound (m s) f

abbrev pub ◌>>◌ : {A B : Type 0} → M A → M B → M B
m >> k = m >>= λ _. k

abbrev pub return : {A : Type 0} → A → M A
return a s = (ok a, s)

abbrev pub throw : {A : Type 0} → Error → M A
throw e s = (err e, s)

-- A call whose error the code looks at.
abbrev pub attempt : {A : Type 0} → M A → M (Result A)
attempt m s = (ok (m s).0, (m s).1)

abbrev pub tick : Db → Db
tick s = record s { turn = s.turn + 1 }

unfoldable pub access : Env → M (Unit {0})
access env s = if env.works s.turn then (ok tt, tick s) else (err db_failed, tick s)

abbrev pub gets : {A : Type 0} → (Db → A) → M A
gets f s = (ok (f s), s)

abbrev pub modify : (Db → Db) → M (Unit {0})
modify f s = (ok tt, f s)

abbrev pub put : Str → Option Attempt → (Str → Option Attempt) → Str → Option Attempt
put u v m w = if same w u then v else m w

-- What holds of a result after a step, from what holds of the rest after each of its outcomes.
pub bound_rule :
    {A B : Type 0} (Q : Result B × Db → Type 0) (r : Result A × Db) (f : A → M B)
    → ((a : A) → r.0 ≡ ok a → Q (f a r.1))
    → ((e : Error) → r.0 ≡ err e → Q (err e, r.1))
    → Q (bound r f)
bound_rule Q (ok a, s) f p q = p a refl
bound_rule Q (err e, s) f p q = q e refl

pub access_rule :
    (Q : Result (Unit {0}) × Db → Type 0) (env : Env) (s : Db)
    → (env.works s.turn ≡ true → Q (ok tt, tick s))
    → (env.works s.turn ≡ false → Q (err db_failed, tick s))
    → Q (access env s)
unfolding access
access_rule Q env s p q = if_split Q (env.works s.turn) p q

pub then_access_rule :
    {A : Type 0} (Q : Result A × Db → Type 0) (env : Env) (s : Db) (f : Unit {0} → M A)
    → (env.works s.turn ≡ true → Q (f tt (tick s)))
    → (env.works s.turn ≡ false → Q (err db_failed, tick s))
    → Q (bound (access env s) f)
then_access_rule Q env s f p q = access_rule (λ r. Q (bound r f)) env s p q

-- The tables are as before.
abbrev pub Quiet : Db → Db → Type 0
Quiet s s' = s' ≡ record s { turn = s'.turn }

pub Quiet-trans : (a b c : Db) → Quiet a b → Quiet b c → Quiet a c
Quiet-trans a b c p q = q ∙ ap (λ (x : Db). record x { turn = c.turn }) p

pub Quiet-tick : (s : Db) {t : Db} → t ≡ tick s → Quiet s t
Quiet-tick s e = subst (Quiet s) (sym e) refl

pub bound_ok :
    {A B : Type 0} (r : Result A × Db) (f : A → M B) (a : A) → r.0 ≡ ok a → bound r f ≡ f a r.1
bound_ok (ok a', s) f a e = ap (λ x. bound (x, s) f) e
bound_ok (err x, s) f a e = ground arith
