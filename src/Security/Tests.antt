-- ===== src/Security/Tests.antt =====
-- Concrete limiters and lockouts.
use sfpg_go.Base.{◌-◌, ◌^◌, ◌≡◌, ◌≤◌, ◌&&◌, true, false, refl, List, [], ◌∷◌, arith, count}
use sfpg_go.Base.Int.{pos, ltb_ℤ, leb_ℤ, ◌+ℤ◌, ◌≤ℤ◌}
use sfpg_go.Security.{new_ip_rate_limiter, calculate_lockout, is_locked, effective_duration}
use sfpg_go.Security.Lockout.{lockout_window}
use sfpg_go.Security.RateLimit.{
  Op, allows, sets_max, clears, run, spec_run, IsOrdered, Attempt, accepted, calls, is_within,
}
use sfpg_go.Security.RateLimit.Agree.{gate}
use sfpg_go.Security.RateLimit.Refine.{run-new_ip_rate_limiter}
use sfpg_go.Security.RateLimit.Bound.{accepted_bound}

-- Two a minute: the third attempt fails, another address passes, and after a minute the first does.
abbrev a_minute : List Op
a_minute =
    allows "a" 100
    ∷ allows "a" 101
    ∷ allows "a" 102
    ∷ allows "b" 102
    ∷ allows "a" 160
    ∷ allows "a" 160
    ∷ []

replies :
    run a_minute (new_ip_rate_limiter (pos 2) (pos 60))
    ≡ true ∷ true ∷ false ∷ true ∷ true ∷ false ∷ []
unfolding run new_ip_rate_limiter
replies = refl

abbrev raised : List Op
raised = allows "a" 1 ∷ allows "a" 2 ∷ sets_max (pos 2) ∷ allows "a" 2 ∷ clears ∷ allows "a" 3 ∷ []

raised-IsOrdered : IsOrdered 0 raised
unfolding IsOrdered
raised-IsOrdered = (omega arith, (omega arith, (omega arith, (omega arith, tt))))

run-new_ip_rate_limiter_example :
    run raised (new_ip_rate_limiter (pos 1) (pos 0)) ≡ spec_run 60 raised (gate (pos 1) [])
run-new_ip_rate_limiter_example = run-new_ip_rate_limiter (pos 1) (pos 0) raised raised-IsOrdered

abbrev burst : List Attempt
burst = ("a", 1) ∷ ("a", 2) ∷ ("a", 5) ∷ []

burst-IsOrdered : IsOrdered 0 (calls burst)
unfolding IsOrdered calls
burst-IsOrdered = (omega arith, (omega arith, (omega arith, tt)))

accepted_bound_example :
    count
      (is_within "a" 5 10)
      (accepted burst (run (calls burst) (new_ip_rate_limiter (pos 2) (pos 10))))
    ≤ 2
accepted_bound_example = accepted_bound 2 (pos 10) burst "a" 5 (omega arith) burst-IsOrdered

in_low : pos 0 ≤ℤ (pos 1000 +ℤ effective_duration (pos 0))
unfolding ◌+ℤ◌
in_low = omega arith

in_high : (pos 1000 +ℤ effective_duration (pos 0)) ≤ℤ pos (2 ^ 63 - 1)
unfolding ◌+ℤ◌
in_high = omega arith

lockout_window_example :
    is_locked (calculate_lockout (pos 3) (pos 1000) (pos 0) (pos 0)) (pos 4599)
    ≡ (leb_ℤ (pos 3) (pos 3) && ltb_ℤ (pos 4599) (pos 1000 +ℤ pos 3600))
lockout_window_example = lockout_window (pos 3) (pos 1000) (pos 0) (pos 0) (pos 4599) in_low in_high
