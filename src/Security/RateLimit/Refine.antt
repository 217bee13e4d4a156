-- ===== src/Security/RateLimit/Refine.antt =====
-- All calls of a limiter.
use sfpg_go.Base.{ℕ, ◌≡◌, refl, sym, ap, ◌∙◌, subst, Bool, List, [], ◌∷◌, if◌then◌else◌}
use sfpg_go.Base.Int.{ℤ, pos, leb_ℤ, pos_part}
use sfpg_go.Security.{IpRateLimiter, new_ip_rate_limiter, set_max, clear}
use sfpg_go.Security.RateLimit.{
  Op, allows, sets_max, clears, step, run, IsOrdered, Attempt, Gate, spec_step, spec_run,
}
use sfpg_go.Security.RateLimit.Prune.{live-nil}
use sfpg_go.Security.RateLimit.Agree.{Follows, Agrees, gate, allow-Agrees, recent-nil}

step-Agrees :
    (o : Op) (os : List Op) (start : ℕ) (log : List Attempt) (rl : IpRateLimiter)
    → IsOrdered start (o ∷ os)
    → Follows start log rl
    → (now : ℕ) × Agrees rl.window now (step o rl) (spec_step rl.window o (gate rl.max log))
      × IsOrdered now os
unfolding step spec_step IsOrdered Follows set_max clear
step-Agrees (allows ip now) os start log rl (h, r) v =
    (now, allow-Agrees ip start now log rl h v, r)
step-Agrees (sets_max m) os start log rl r v =
    (start, record { same_answer = refl; same_limit = refl; same_window = refl; follows = v }, r)
step-Agrees clears os start log rl r v = (
  start,
  record {
    same_answer = refl;
    same_limit = refl;
    same_window = refl;
    follows = λ ip now h. live-nil now rl.window ∙ sym (recent-nil ip now rl.window);
  },
  r,
)

cons_both : {a b : Bool} {xs ys : List Bool} → a ≡ b → xs ≡ ys → a ∷ xs ≡ b ∷ ys
cons_both e es = rw (e, es)

pub run-Follows :
    (os : List Op) (start : ℕ) (rl : IpRateLimiter) (g : Gate)
    → IsOrdered start os
    → Follows start g.log rl
    → rl.max ≡ g.limit
    → run os rl ≡ spec_run rl.window os g
unfolding run spec_run
run-Follows [] start rl g r v m = refl
run-Follows (o ∷ os) start rl g r v m =
    let (now, a, r') = step-Agrees o os start g.log rl r v in
    let b =
      subst (λ g'. Agrees rl.window now (step o rl) (spec_step rl.window o g'))
        (ap (λ l. gate l g.log) m) a in
    cons_both b.same_answer (
      run-Follows os now (step o rl).1 (spec_step rl.window o g).1 r' b.follows b.same_limit
      ∙ ap (λ w. spec_run w os (spec_step rl.window o g).1) b.same_window)

new-Follows : (max window_sec : ℤ) → Follows 0 [] (new_ip_rate_limiter max window_sec)
unfolding Follows new_ip_rate_limiter
new-Follows max window_sec ip now h =
    let w = (new_ip_rate_limiter max window_sec).window in
    live-nil now w ∙ sym (recent-nil ip now w)

-- Whatever calls of Allow, SetMax and Clear a new limiter gets, at times that do not go back, its
-- replies are those of the log: an attempt passes exactly when the limit is not positive or fewer
-- accepted attempts than the limit, of its address and since the last Clear, are in its window.
pub run-new_ip_rate_limiter :
    (max window_sec : ℤ) (os : List Op)
    → IsOrdered 0 os
    → run os (new_ip_rate_limiter max window_sec)
      ≡ spec_run (if leb_ℤ window_sec (pos 0) then 60 else pos_part window_sec) os (gate max [])
unfolding new_ip_rate_limiter
run-new_ip_rate_limiter max window_sec os r =
    run-Follows os 0 (new_ip_rate_limiter max window_sec) (gate max []) r
      (new-Follows max window_sec) refl
