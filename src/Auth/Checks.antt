-- ===== src/Auth/Checks.antt =====
-- What the validation accepts, and what the absence of a problem means.
use sfpg_go.Base.{
  ℕ, ◌≤◌, ◌<◌, ◌≡◌, ◌≢◌, ◌⊎◌, ◌↔◌, refl, Bool, true, false, ◌||◌, List, [], ◌∷◌, Option, none, some,
  arith,
}
use sfpg_go.Base.Text.{Str, same, byte_len}
use sfpg_go.Auth.Validation.{
  Invalid, Verdict, valid, invalid, validate_username, validate_password, password_missing,
  password_short, Missing, lowercase_letter, uppercase_letter, number, special_character, is_lower,
  is_upper, is_digit, is_special,
}
use sfpg_go.Auth.State.{Env, Result, ok, err}
use sfpg_go.Auth.Store.{User}
use sfpg_go.Auth.Credentials.{
  Problem, verified, refusal, username_problem, password_problem, bad_username, bad_password,
}

-- The kinds of characters that a password has to have, as ranges of code points.
abbrev pub IsOf : Missing → ℕ → Type 0
IsOf lowercase_letter c = (97 ≤ c) × (c ≤ 122)
IsOf uppercase_letter c = (65 ≤ c) × (c ≤ 90)
IsOf number c = (48 ≤ c) × (c ≤ 57)
IsOf special_character c =
    ((33 ≤ c) × (c ≤ 47)) ⊎ ((58 ≤ c) × (c ≤ 64)) ⊎ ((91 ≤ c) × (c ≤ 95)) ⊎ ((123 ≤ c) × (c ≤ 125))

unfoldable pub Has : Missing → Str → Type 0
Has m [] = ⊥
Has m (c ∷ cs) = IsOf m c ⊎ Has m cs

abbrev test : Missing → ℕ → Bool
test lowercase_letter = is_lower
test uppercase_letter = is_upper
test number = is_digit
test special_character = is_special

abbrev pub is_kind : Missing → Missing → Bool
is_kind lowercase_letter lowercase_letter = true
is_kind uppercase_letter uppercase_letter = true
is_kind number number = true
is_kind special_character special_character = true
is_kind _ _ = false

unfoldable pub lists : Missing → List Missing → Bool
lists k [] = false
lists k (m ∷ ms) = is_kind k m || lists k ms

-- The three verdicts on a password.
abbrev pub Judged : Str → Verdict → Type 0
Judged s v =
    ((v ≡ valid) × (8 ≤ byte_len s) × ((k : Missing) → Has k s))
    ⊎ ((v ≡ invalid password_short) × (byte_len s < 8))
    ⊎ (m : List Missing) × (v ≡ invalid (password_missing m))
      × (8 ≤ byte_len s)
      × (m ≢ [])
      × ((k : Missing) → (lists k m ≡ false) ↔ Has k s)

pub verified-none :
    (env : Env) (old : Str) (r : Result User)
    → verified env old r ≡ none
    → (user : User) × (r ≡ ok user) × (env.verify user.password old ≡ true)
verified-none env old (ok user) h = (user, refl, ground arith)
verified-none env old (err e) h = ground arith

refusal-none : (f : Invalid → Problem) (v : Verdict) → refusal f v ≡ none → v ≡ valid
refusal-none f valid h = refl
refusal-none f (invalid i) h = ground arith

pub username_problem-none :
    (u : Bool) (name : Str) (x : Option Problem)
    → username_problem u name x ≡ none
    → (x ≡ none) × (u ≡ true → validate_username name ≡ valid)
unfolding username_problem
username_problem-none u name (some p) h = ground arith
username_problem-none true name none h =
    (refl, λ e. refusal-none bad_username (validate_username name) h)
username_problem-none false name none h = (refl, λ e. ground arith)

pub password_problem-none :
    (p : Bool) (new confirm : Str) (x : Option Problem)
    → password_problem p new confirm x ≡ none
    → (x ≡ none) × (p ≡ true → (same new confirm ≡ true) × (validate_password new ≡ valid))
unfolding password_problem
password_problem-none p new confirm (some q) h = ground arith
password_problem-none p new confirm none h =
    (refl, λ e. let r = refusal-none bad_password (validate_password new) in ground arith)
