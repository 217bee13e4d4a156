-- ===== src/Security/RateLimit/Prune.antt =====
-- Pruning attempts, and the garbage collection of idle addresses.
use sfpg_go.Base.{
  ℕ, ◌+◌, ◌≤◌, ◌≡◌, refl, List, [], ◌∷◌, ◌++◌, Option, none, some, ltb, ◌==◌, if_split, length,
  arith, hit,
}
use sfpg_go.Security.{prune_attempts, stored, sweep}

unfoldable pub live : ℕ → ℕ → List ℕ → ℕ
live now window ts = length (prune_attempts now window ts)

pub live-nil : (now window : ℕ) → live now window [] ≡ 0
unfolding live prune_attempts
live-nil now window = refl

pub live-cons :
    (now window t : ℕ) (ts : List ℕ)
    → live now window (t ∷ ts) ≡ hit (ltb now (t + window)) + live now window ts
unfolding live prune_attempts
live-cons now window t ts = ground arith

pub live-snoc :
    (now window : ℕ) (ts : List ℕ) (t : ℕ)
    → live now window (ts ++ t ∷ []) ≡ live now window ts + hit (ltb now (t + window))
live-snoc now window [] t = omega (arith, live-cons now window t [], live-nil now window)
live-snoc now window (s ∷ ts) t = omega (
  arith,
  live-cons now window s ts,
  live-cons now window s (ts ++ t ∷ []),
  live-snoc now window ts t,
)

-- A later window holds no attempt that an earlier one has not.
pub live_later :
    (now later window : ℕ) (ts : List ℕ) → now ≤ later → live later window ts ≤ live now window ts
live_later now later window [] h = omega (arith, live-nil now window, live-nil later window)
live_later now later window (t ∷ ts) h =
    let ih = live_later now later window ts h in
    ground (arith, live-cons now window t ts, live-cons later window t ts)

-- What was pruned for an earlier window is not missed later.
pub live-prune_attempts :
    (now later window : ℕ) (ts : List ℕ)
    → now ≤ later
    → live later window (prune_attempts now window ts) ≡ live later window ts
unfolding prune_attempts
live-prune_attempts now later window [] h = refl
live-prune_attempts now later window (t ∷ ts) h =
    let ih = live-prune_attempts now later window ts h in
    if_split (λ xs. live later window xs ≡ live later window (t ∷ ts)) (ltb now (t + window))
      (λ e. omega (
        arith,
        live-cons later window t (prune_attempts now window ts),
        live-cons later window t ts,
      ))
      (λ e. ground (arith, live-cons later window t ts))

-- The collection drops no attempt that counts now or later.
pub live-sweep :
    (now later window : ℕ) (o : Option (List ℕ))
    → now ≤ later
    → live later window (stored (sweep now window o)) ≡ live later window (stored o)
unfolding sweep live
live-sweep now later window none h = refl
live-sweep now later window (some ts) h =
    if_split (λ r. live later window (stored r) ≡ live later window ts)
      (length (prune_attempts now window ts) == 0)
      (λ e. let m = live_later now later window ts h in ground (arith, live-nil later window))
      (λ e. refl)
