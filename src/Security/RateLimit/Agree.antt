-- ===== src/Security/RateLimit/Agree.antt =====
-- One attempt at the limiter, beside the log.
use sfpg_go.Base.{
  ℕ, suc, ◌+◌, ◌≤◌, ◌≡◌, ◌≢◌, refl, sym, ap, ◌∙◌, subst, Bool, true, false, ◌&&◌, inl, inr, List,
  [], ◌∷◌, ◌++◌, Option, none, some, String, str_eq, eq_iff, ltb, ◌==◌, if◌then◌else◌, ◌||◌, not,
  ◌%◌, ◌^◌, if_split, if_both, length, arith, Bool-cases, hit, count-append, count-cons, count-nil,
}
use sfpg_go.Base.Int.{ℤ, pos, leb_ℤ}
use sfpg_go.Security.{
  IpRateLimiter, prune_attempts, stored, update, sweep, maybe_gc_stale_locked, allow,
}
use sfpg_go.Security.RateLimit.{allows, Attempt, Gate, is_recent, recent, spec_step}
use sfpg_go.Security.RateLimit.Prune.{live, live-snoc, live-prune_attempts, live-sweep}

-- From `start` on, the limiter counts the attempts of every address as the log does.
unfoldable pub Follows : ℕ → List Attempt → IpRateLimiter → Type 0
Follows start log rl =
    (ip : String) (now : ℕ)
    → start ≤ now
    → live now rl.window (stored (rl.attempts ip)) ≡ recent ip now rl.window log

pub recent-snoc :
    (ip who : String) (now t window : ℕ) (log : List Attempt)
    → recent ip now window (log ++ (who, t) ∷ [])
      ≡ recent ip now window log + hit (str_eq ip who && ltb now (t + window))
unfolding recent
recent-snoc ip who now t window log = omega (
  arith,
  count-append (is_recent ip now window) log ((who, t) ∷ []),
  count-cons (is_recent ip now window) (who, t) [],
  count-nil (is_recent ip now window),
)

pub recent-nil : (ip : String) (now window : ℕ) → recent ip now window [] ≡ 0
unfolding recent
recent-nil ip now window = count-nil (is_recent ip now window)

gc-Follows :
    (now : ℕ) (log : List Attempt) (rl : IpRateLimiter)
    → Follows now log rl
    → Follows now log (maybe_gc_stale_locked now rl)
unfolding maybe_gc_stale_locked Follows
gc-Follows now log rl v =
    if_split (Follows now log)
      (rl.gc_interval == 0 || not ((rl.allow_count + 1) % 2 ^ 64 % rl.gc_interval == 0))
      {x = record rl { allow_count = (rl.allow_count + 1) % 2 ^ 64 }}
      {y = record rl {
        allow_count = (rl.allow_count + 1) % 2 ^ 64;
        attempts = λ ip. sweep now rl.window (rl.attempts ip);
      }}
      (λ e. v) (λ e ip t b. live-sweep now t rl.window (rl.attempts ip) b ∙ v ip t b)

gc-window : (now : ℕ) (rl : IpRateLimiter) → (maybe_gc_stale_locked now rl).window ≡ rl.window
unfolding maybe_gc_stale_locked
gc-window now rl = ground arith

gc-max : (now : ℕ) (rl : IpRateLimiter) → (maybe_gc_stale_locked now rl).max ≡ rl.max
unfolding maybe_gc_stale_locked
gc-max now rl = ground arith

abbrev pub gate : ℤ → List Attempt → Gate
gate m log = record { limit = m; log = log }

-- Equal answers, and states that go on to agree.
pub record Agrees (window now : ℕ) (a : Bool × IpRateLimiter) (b : Bool × Gate) : Type 0 where
  pub same_answer : a.0 ≡ b.0
  pub same_limit : a.1.max ≡ b.1.limit
  pub same_window : a.1.window ≡ window
  pub follows : Follows now b.1.log a.1

gc-Agrees :
    (now : ℕ) (log : List Attempt) (r : Bool) (rl : IpRateLimiter)
    → Follows now log rl
    → Agrees rl.window now (r, maybe_gc_stale_locked now rl) (r, gate rl.max log)
gc-Agrees now log r rl v = record {
  same_answer = refl;
  same_limit = gc-max now rl;
  same_window = gc-window now rl;
  follows = gc-Follows now log rl v;
}

zero_right : (n : ℕ) → n ≡ n + 0
zero_right n = omega arith

positive : (n : ℕ) → (suc n == 0) ≢ true
positive n e = ground arith

live-kept :
    (now window : ℕ) (ts : List ℕ)
    → live now window (stored (if length ts == 0 then none else some ts)) ≡ live now window ts
live-kept now window [] = refl
live-kept now window (t ∷ ts) =
    if_split (λ o. live now window (stored o) ≡ live now window (t ∷ ts)) (length (t ∷ ts) == 0)
      (λ e. absurd (positive (length ts) e)) (λ e. refl)

update_hit :
    (ip who : String) (v : Option (List ℕ)) (m : String → Option (List ℕ))
    → str_eq who ip ≡ true
    → update ip v m who ≡ v
update_hit ip who v m e = ap (λ c. if c then v else m who) e

update_miss :
    (ip who : String) (v : Option (List ℕ)) (m : String → Option (List ℕ))
    → str_eq who ip ≡ false
    → update ip v m who ≡ m who
update_miss ip who v m e = ap (λ c. if c then v else m who) e

later-Follows :
    (start now : ℕ) (log : List Attempt) (rl : IpRateLimiter)
    → start ≤ now
    → Follows start log rl
    → Follows now log rl
unfolding Follows
later-Follows start now log rl h v ip t b = v ip t (omega arith)

counted :
    (ip : String) (start now : ℕ) (log : List Attempt) (rl : IpRateLimiter)
    → start ≤ now
    → Follows start log rl
    → length (prune_attempts now rl.window (stored (rl.attempts ip))) ≡ recent ip now rl.window log
unfolding Follows live
counted ip start now log rl h v = v ip now h

-- Storing what was pruned for the address.
refused-Follows :
    (ip : String) (start now : ℕ) (log : List Attempt) (rl : IpRateLimiter)
    → start ≤ now
    → Follows start log rl
    → let valid = prune_attempts now rl.window (stored (rl.attempts ip)) in
      Follows now log (record rl {
        attempts = update ip (if length valid == 0 then none else some valid) rl.attempts;
      })
unfolding Follows
refused-Follows ip start now log rl h v who t b =
    let valid = prune_attempts now rl.window (stored (rl.attempts ip)) in
    if_split (λ o. live t rl.window (stored o) ≡ recent who t rl.window log) (str_eq who ip)
      (λ e.
        live-kept t rl.window valid
        ∙ live-prune_attempts now t rl.window (stored (rl.attempts ip)) b
        ∙ v ip t (omega arith)
        ∙ ap (λ i. recent i t rl.window log) (sym ((eq_iff who ip).0 e)))
      (λ e. v who t (omega arith))

granted-Follows :
    (ip : String) (start now : ℕ) (log : List Attempt) (rl : IpRateLimiter)
    → start ≤ now
    → Follows start log rl
    → let valid = prune_attempts now rl.window (stored (rl.attempts ip)) in
      Follows now
        (log ++ (ip, now) ∷ [])
        (record rl { attempts = update ip (some (valid ++ now ∷ [])) rl.attempts })
unfolding Follows
granted-Follows ip start now log rl h v who t b =
    let old = stored (rl.attempts ip) in
    let valid = prune_attempts now rl.window old in
    elim (Bool-cases (str_eq who ip)) [
      | inl e ↦
          ap (λ o. live t rl.window (stored o))
            (update_hit ip who (some (valid ++ now ∷ [])) rl.attempts e)
          ∙ live-snoc t rl.window valid now
          ∙ ap (λ n. n + hit (ltb t (now + rl.window)))
              (live-prune_attempts now t rl.window old b
                ∙ v ip t (omega arith)
                ∙ ap (λ i. recent i t rl.window log) (sym ((eq_iff who ip).0 e)))
          ∙ ap (λ c. recent who t rl.window log + hit (c && ltb t (now + rl.window))) (sym e)
          ∙ sym (recent-snoc who ip t now rl.window log)
      | inr e ↦
          ap (λ o. live t rl.window (stored o))
            (update_miss ip who (some (valid ++ now ∷ [])) rl.attempts e)
          ∙ v who t (omega arith)
          ∙ zero_right (recent who t rl.window log)
          ∙ ap (λ c. recent who t rl.window log + hit (c && ltb t (now + rl.window))) (sym e)
          ∙ sym (recent-snoc who ip t now rl.window log)
    ]

pub allow-Agrees :
    (ip : String) (start now : ℕ) (log : List Attempt) (rl : IpRateLimiter)
    → start ≤ now
    → Follows start log rl
    → Agrees rl.window now (allow ip now rl) (spec_step rl.window (allows ip now) (gate rl.max log))
unfolding allow spec_step
allow-Agrees ip start now log rl h v =
    subst
      (λ n. Agrees rl.window now (allow ip now rl) (
        if leb_ℤ rl.max (pos 0)
        then (true, gate rl.max log)
        else if leb_ℤ rl.max (pos n)
        then (false, gate rl.max log)
        else (true, gate rl.max (log ++ (ip, now) ∷ []))))
      (counted ip start now log rl h v)
      (if_both (Agrees rl.window now) (leb_ℤ rl.max (pos 0))
        (λ e. record {
          same_answer = refl;
          same_limit = refl;
          same_window = refl;
          follows = later-Follows start now log rl h v;
        })
        (λ e.
          if_both (Agrees rl.window now)
            (leb_ℤ rl.max (pos (length (prune_attempts now rl.window (stored (rl.attempts ip))))))
            (λ e'. gc-Agrees now log false _ (refused-Follows ip start now log rl h v))
            (λ e'. gc-Agrees now _ true _ (granted-Follows ip start now log rl h v))))
