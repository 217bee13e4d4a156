-- ===== src/Security.antt =====
-- internal/server/security: lockout.go and ratelimit.go.
-- An int64 that may be negative is a ℤ. The limiter's clock counts Unix seconds from 1970 in ℕ, so
-- `t > now - window` is written `now < t + window`; a map is a function to an Option.
pub mod Lockout
pub mod RateLimit
pub mod Tests
use sfpg_go.Base.{
  ℕ, ◌+◌, ◌-◌, ◌%◌, ◌^◌, Bool, true, false, ◌&&◌, ◌||◌, not, List, [], ◌∷◌, ◌++◌, Option, none,
  some, String, str_eq, ltb, leb, ◌==◌, if◌then◌else◌, length,
}
use sfpg_go.Base.Int.{ℤ, pos, negsuc, ◌+ℤ◌, ◌-ℤ◌, leb_ℤ, ltb_ℤ, pos_part}

-- int64 addition, which wraps.
unfoldable pub add64 : ℤ → ℤ → ℤ
add64 a b =
    let s = a +ℤ b in
    if ltb_ℤ s (pos (2 ^ 63))
    then if leb_ℤ (negsuc (2 ^ 63 - 1)) s then s else s +ℤ pos (2 ^ 64)
    else s -ℤ pos (2 ^ 64)

pub record NullInt64 : Type 0 where
  pub int64 : ℤ
  pub valid : Bool

abbrev pub lockout_threshold : ℤ
lockout_threshold = pos 3

-- The fallbacks at the head of `CalculateLockout`.
abbrev pub effective_duration : ℤ → ℤ
effective_duration d = if leb_ℤ d (pos 0) then pos 3600 else d

abbrev pub effective_threshold : ℤ → ℤ
effective_threshold t = if leb_ℤ t (pos 0) then lockout_threshold else t

unfoldable pub calculate_lockout : ℤ → ℤ → ℤ → ℤ → NullInt64
unfolding add64
calculate_lockout failed_attempts now duration threshold =
    if leb_ℤ (effective_threshold threshold) failed_attempts
    then record { int64 = add64 now (effective_duration duration); valid = true }
    else record { int64 = pos 0; valid = false }

unfoldable pub is_locked : NullInt64 → ℤ → Bool
is_locked l now = if not l.valid then false else ltb_ℤ now l.int64

unfoldable pub should_clear_lockout : NullInt64 → ℤ → Bool
should_clear_lockout l now = if not l.valid then false else leb_ℤ l.int64 now

unfoldable pub increment_failed_attempts : ℤ → ℤ
unfolding add64
increment_failed_attempts current = add64 current (pos 1)

pub record IpRateLimiter : Type 0 where
  pub attempts : String → Option (List ℕ)
  pub max : ℤ
  pub window : ℕ
  pub allow_count : ℕ
  pub gc_interval : ℕ

pub effective_login_rate_limit_per_ip : ℤ → ℤ
effective_login_rate_limit_per_ip cfg_max = if ltb_ℤ (pos 0) cfg_max then cfg_max else pos 0

unfoldable pub new_ip_rate_limiter : ℤ → ℤ → IpRateLimiter
new_ip_rate_limiter max window_sec = record {
  attempts = λ ip. none;
  max = max;
  window = if leb_ℤ window_sec (pos 0) then 60 else pos_part window_sec;
  allow_count = 0;
  gc_interval = 64;
}

-- The attempts that are still in the window that ends now.
unfoldable pub prune_attempts : ℕ → ℕ → List ℕ → List ℕ
prune_attempts now window [] = []
prune_attempts now window (t ∷ ts) =
    let rest = prune_attempts now window ts in if ltb now (t + window) then t ∷ rest else rest

-- A missing key reads as no attempts.
abbrev pub stored : Option (List ℕ) → List ℕ
stored none = []
stored (some ts) = ts

abbrev pub update : String → Option (List ℕ) → (String → Option (List ℕ)) → String → Option (List ℕ)
update ip v m j = if str_eq j ip then v else m j

unfoldable pub sweep : ℕ → ℕ → Option (List ℕ) → Option (List ℕ)
unfolding prune_attempts
sweep now window none = none
sweep now window (some ts) = if length (prune_attempts now window ts) == 0 then none else some ts

unfoldable pub maybe_gc_stale_locked : ℕ → IpRateLimiter → IpRateLimiter
unfolding sweep
maybe_gc_stale_locked now rl =
    let count = (rl.allow_count + 1) % 2 ^ 64 in
    if rl.gc_interval == 0 || not (count % rl.gc_interval == 0)
    then record rl { allow_count = count }
    else record rl { allow_count = count; attempts = λ ip. sweep now rl.window (rl.attempts ip) }

unfoldable pub allow : String → ℕ → IpRateLimiter → Bool × IpRateLimiter
unfolding maybe_gc_stale_locked prune_attempts
allow ip now rl =
    let valid = prune_attempts now rl.window (stored (rl.attempts ip)) in
    if leb_ℤ rl.max (pos 0)
    then (true, rl)
    else if leb_ℤ rl.max (pos (length valid))
    then (
      false,
      maybe_gc_stale_locked now (record rl {
        attempts = update ip (if length valid == 0 then none else some valid) rl.attempts;
      }),
    )
    else (
      true,
      maybe_gc_stale_locked now
          (record rl { attempts = update ip (some (valid ++ now ∷ [])) rl.attempts }),
    )

unfoldable pub set_max : ℤ → IpRateLimiter → IpRateLimiter
set_max max rl = record rl { max = max }

unfoldable pub clear : IpRateLimiter → IpRateLimiter
clear rl = record rl { attempts = λ ip. none; allow_count = 0 }
