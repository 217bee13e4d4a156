-- ===== src/Security/RateLimit.antt =====
-- internal/server/security/ratelimit.go: calls of a limiter, and what they promise: a log of the
-- accepted attempts of all addresses, from which nothing is ever pruned.
pub mod Prune
pub mod Agree
pub mod Refine
pub mod Bound
use sfpg_go.Base.{
  ℕ, ◌+◌, ◌≤◌, Bool, true, false, ◌&&◌, List, [], ◌∷◌, ◌++◌, String, str_eq, ltb, leb,
  if◌then◌else◌, count,
}
use sfpg_go.Base.Int.{ℤ, pos, leb_ℤ}
use sfpg_go.Security.{IpRateLimiter, allow, set_max, clear}

pub data Op : Type 0 where
  allows : String → ℕ → Op
  sets_max : ℤ → Op
  clears : Op

unfoldable pub step : Op → IpRateLimiter → Bool × IpRateLimiter
unfolding allow
step (allows ip now) rl = allow ip now rl
step (sets_max m) rl = (true, set_max m rl)
step clears rl = (true, clear rl)

unfoldable pub run : List Op → IpRateLimiter → List Bool
unfolding step
run [] rl = []
run (o ∷ os) rl = let (r, rl') = step o rl in r ∷ run os rl'

-- The clock never goes back.
unfoldable pub IsOrdered : ℕ → List Op → Type 0
IsOrdered start [] = Unit
IsOrdered start (allows ip now ∷ os) = (start ≤ now) × IsOrdered now os
IsOrdered start (sets_max m ∷ os) = IsOrdered start os
IsOrdered start (clears ∷ os) = IsOrdered start os

abbrev pub Attempt : Type 0
Attempt = String × ℕ

pub record Gate : Type 0 where
  pub limit : ℤ
  pub log : List Attempt

-- An attempt of the address that is still in the window that ends now.
abbrev pub is_recent : String → ℕ → ℕ → Attempt → Bool
is_recent ip now window (who, t) = str_eq ip who && ltb now (t + window)

unfoldable pub recent : String → ℕ → ℕ → List Attempt → ℕ
recent ip now window log = count (is_recent ip now window) log

unfoldable pub spec_step : ℕ → Op → Gate → Bool × Gate
spec_step window (allows ip now) g =
    if leb_ℤ g.limit (pos 0)
    then (true, g)
    else if leb_ℤ g.limit (pos (recent ip now window g.log))
    then (false, g)
    else (true, record g { log = g.log ++ (ip, now) ∷ [] })
spec_step window (sets_max m) g = (true, record g { limit = m })
spec_step window clears g = (true, record g { log = [] })

unfoldable pub spec_run : ℕ → List Op → Gate → List Bool
unfolding spec_step
spec_run window [] g = []
spec_run window (o ∷ os) g = let (r, g') = spec_step window o g in r ∷ spec_run window os g'

-- The attempts that passed, from the calls and their answers.
unfoldable pub accepted : List Attempt → List Bool → List Attempt
accepted [] rs = []
accepted (a ∷ xs) [] = []
accepted (a ∷ xs) (true ∷ rs) = a ∷ accepted xs rs
accepted (a ∷ xs) (false ∷ rs) = accepted xs rs

unfoldable pub calls : List Attempt → List Op
calls [] = []
calls ((ip, now) ∷ xs) = allows ip now ∷ calls xs

-- An attempt of the address that is in the window which ends at `t`, whenever that is.
abbrev pub is_within : String → ℕ → ℕ → Attempt → Bool
is_within ip t window (who, s) = str_eq ip who && (leb s t && ltb t (s + window))
