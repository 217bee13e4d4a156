-- ===== src/Security/RateLimit/Bound.antt =====
-- The accepted attempts of one window.
use sfpg_go.Base.{
  ℕ, ◌+◌, ◌≤◌, ◌<◌, ◌≡◌, ◌≢◌, ◌⊎◌, refl, sym, ap, subst, Bool, true, false, ◌&&◌, List, [], ◌∷◌,
  ◌++◌, String, eq_iff, inl, inr, leb→le, if◌then◌else◌, if_split, arith, Bool-cases, hit, count,
  count-append, count-cons, count-nil,
}
use sfpg_go.Base.Int.{ℤ, pos, leb_ℤ, pos_part}
use sfpg_go.Security.{new_ip_rate_limiter}
use sfpg_go.Security.RateLimit.{
  allows, run, IsOrdered, Attempt, Gate, is_recent, recent, spec_step, spec_run, accepted, calls,
  is_within,
}
use sfpg_go.Security.RateLimit.Agree.{gate}
use sfpg_go.Security.RateLimit.Refine.{run-new_ip_rate_limiter}

count_le :
    (p q : Attempt → Bool) (xs : List Attempt)
    → ((a : Attempt) → hit (p a) ≤ hit (q a))
    → count p xs ≤ count q xs
count_le p q [] h = omega (arith, count-nil p, count-nil q)
count_le p q (a ∷ xs) h =
    omega (arith, count-cons p a xs, count-cons q a xs, h a, count_le p q xs h)

-- An attempt of a window that ends later is in that which ends now.
still_recent :
    (ip : String) (now t window : ℕ) (a : Attempt)
    → now ≤ t
    → hit (is_within ip t window a) ≤ hit (is_recent ip now window a)
still_recent ip now t window (who, s) h = ground arith

both_true : {a b : Bool} → (a && b) ≡ true → (a ≡ true) × (b ≡ true)
both_true e = ground arith

-- Counting one more, given that it passed.
one_more :
    (who ip : String) (t now window m : ℕ) (log : List Attempt)
    → recent ip now window log < m
    → count (is_within who t window) log ≤ m
    → count (is_within who t window) log + hit (is_within who t window (ip, now)) ≤ m
unfolding recent
one_more who ip t now window m log room b = elim (Bool-cases (is_within who t window (ip, now))) [
  | inl e ↦
      let (same, inside) = both_true e in
      let now_in = both_true inside in
      let le =
        count_le (is_within who t window) (is_recent who now window) log
          (λ a. still_recent who now t window a (leb→le now t now_in.0)) in
      let room' =
        subst (λ i. count (is_recent i now window) log < m) (sym ((eq_iff who ip).0 same)) room in
      omega (arith, ap hit e, le, room')
  | inr e ↦ omega (arith, ap hit e)
]

spec_allow_cases :
    (ip : String) (now window m : ℕ) (log : List Attempt)
    → 0 < m
    → (spec_step window (allows ip now) (gate (pos m) log) ≡ (false, gate (pos m) log))
      ⊎ ((recent ip now window log < m)
          × (spec_step window (allows ip now) (gate (pos m) log)
              ≡ (true, gate (pos m) (log ++ (ip, now) ∷ []))))
unfolding spec_step
spec_allow_cases ip now window m log h =
    if_split
      (λ r.
        (r ≡ (false, gate (pos m) log))
        ⊎ ((recent ip now window log < m) × (r ≡ (true, gate (pos m) (log ++ (ip, now) ∷ [])))))
      (leb_ℤ (pos m) (pos 0)) (λ e. absurd (positive e))
      (λ e.
        if_split
          (λ r.
            (r ≡ (false, gate (pos m) log))
            ⊎ ((recent ip now window log < m) × (r ≡ (true, gate (pos m) (log ++ (ip, now) ∷ [])))))
          (leb_ℤ (pos m) (pos (recent ip now window log))) (λ e'. inl refl)
          (λ e'. inr (below e', refl)))
  where
    positive : leb_ℤ (pos m) (pos 0) ≢ true
    positive e = ground arith

    below : leb_ℤ (pos m) (pos (recent ip now window log)) ≡ false → recent ip now window log < m
    below e = ground arith

spec_bound :
    (who : String) (t window m : ℕ) (xs : List Attempt) (log : List Attempt)
    → 0 < m
    → count (is_within who t window) log ≤ m
    → count (is_within who t window) log
        + count
            (is_within who t window)
            (accepted xs (spec_run window (calls xs) (gate (pos m) log)))
      ≤ m
unfolding spec_run calls accepted
spec_bound who t window m [] log h b = omega (arith, count-nil (is_within who t window))
spec_bound who t window m ((ip, now) ∷ xs) log h b =
    let p = is_within who t window in
    let holds = λ (r : Bool × Gate).
      count p log + count p (accepted ((ip, now) ∷ xs) (r.0 ∷ spec_run window (calls xs) r.1))
      ≤ m in
    elim (spec_allow_cases ip now window m log h) [
      | inl e ↦ subst holds (sym e) (spec_bound who t window m xs log h b)
      | inr (room, e) ↦ subst holds (sym e) (
          omega (
            arith,
            spec_bound who t window m xs (log ++ (ip, now) ∷ []) h (grown room),
            count-append p log ((ip, now) ∷ []),
            count-cons p (ip, now) [],
            count-nil p,
            count-cons p (ip, now)
                (accepted xs (spec_run window (calls xs) (gate (pos m) (log ++ (ip, now) ∷ [])))),
          ))
    ]
  where
    grown :
        recent ip now window log < m → count (is_within who t window) (log ++ (ip, now) ∷ []) ≤ m
    grown room = omega (
      arith,
      one_more who ip t now window m log room b,
      count-append (is_within who t window) log ((ip, now) ∷ []),
      count-cons (is_within who t window) (ip, now) [],
      count-nil (is_within who t window),
    )

-- From a new limiter with a positive limit, at times that do not go back, at most that many attempts
-- of one address pass in any window, whenever it ends.
pub accepted_bound :
    (m : ℕ) (window_sec : ℤ) (xs : List Attempt) (who : String) (t : ℕ)
    → 0 < m
    → IsOrdered 0 (calls xs)
    → count
        (is_within who t (if leb_ℤ window_sec (pos 0) then 60 else pos_part window_sec))
        (accepted xs (run (calls xs) (new_ip_rate_limiter (pos m) window_sec)))
      ≤ m
accepted_bound m window_sec xs who t h r =
    let w = if leb_ℤ window_sec (pos 0) then 60 else pos_part window_sec in
    let p = is_within who t w in
    subst (λ rs. count p (accepted xs rs) ≤ m)
      (sym (run-new_ip_rate_limiter (pos m) window_sec (calls xs) r))
      (omega (arith, spec_bound who t w m xs [] h (omega (arith, count-nil p)), count-nil p))
