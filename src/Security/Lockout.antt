-- ===== src/Security/Lockout.antt =====
-- The lockout window.
use sfpg_go.Base.{◌-◌, ◌^◌, ◌≡◌, ◌&&◌, Bool, true, false, arith, not, if◌then◌else◌, ap, refl}
use sfpg_go.Base.Int.{ℤ, pos, ◌+ℤ◌, ◌≤ℤ◌, leb_ℤ, ltb_ℤ}
use sfpg_go.Security.{
  NullInt64, calculate_lockout, is_locked, should_clear_lockout, effective_duration,
  effective_threshold, add64,
}

-- A set lockout is either in force or due to be cleared, never both; an unset one is neither.
pub locked_or_clear :
    (l : NullInt64) (now : ℤ) → should_clear_lockout l now ≡ (l.valid && not (is_locked l now))
unfolding should_clear_lockout is_locked
locked_or_clear l now = ground arith

pub add64_in_range :
    (a b : ℤ) → pos 0 ≤ℤ (a +ℤ b) → (a +ℤ b) ≤ℤ pos (2 ^ 63 - 1) → add64 a b ≡ a +ℤ b
unfolding add64
add64_in_range a b low high = ground arith

-- Unless the end of the lockout overflows or is negative, the account is locked exactly when the
-- failed attempts have reached the threshold and the duration since then is not over.
pub lockout_window :
    (failed now duration threshold t : ℤ)
    → pos 0 ≤ℤ (now +ℤ effective_duration duration)
    → (now +ℤ effective_duration duration) ≤ℤ pos (2 ^ 63 - 1)
    → is_locked (calculate_lockout failed now duration threshold) t ≡ (
        leb_ℤ (effective_threshold threshold) failed
        && ltb_ℤ t (now +ℤ effective_duration duration))
unfolding is_locked calculate_lockout
lockout_window failed now duration threshold t low high =
    window_step (leb_ℤ (effective_threshold threshold) failed)
      (add64_in_range now (effective_duration duration) low high)
  where
    window_step :
        (b : Bool) {s w : ℤ}
        → s ≡ w
        → is_locked
            (if b
              then record { int64 = s; valid = true }
              else record { int64 = pos 0; valid = false })
            t
          ≡ (b && ltb_ℤ t w)
    window_step true e = ap (ltb_ℤ t) e
    window_step false e = refl
