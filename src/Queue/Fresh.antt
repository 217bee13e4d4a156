-- ===== src/Queue/Fresh.antt =====
-- A new queue: the capacity that `newQueue` chooses, and whole histories of calls on it.
use sfpg_go.Base.{
  ℕ, zero, suc, ◌+◌, ◌*◌, ◌≤◌, ◌<◌, refl, sym, subst, arith, ltb, length-replicate, if_split,
}
use sfpg_go.Base.Int.{ℤ, pos_part}
use sfpg_go.Base.Bits.{IsPow2, twice, IsPow2-sixteen}
use sfpg_go.Queue.{new_queue, grow_cap, clamp_initial, min_capacity}
use sfpg_go.Queue.Inv.{Inv}
use native.Mathlib.Nat.{mod-eq_of_lt}

grow_cap-IsPow2 : (f cap initial : ℕ) → IsPow2 cap → IsPow2 (grow_cap f cap initial)
unfolding grow_cap
grow_cap-IsPow2 zero cap initial p = p
grow_cap-IsPow2 (suc f) cap initial p =
    if_split IsPow2 (ltb cap initial) (λ _. grow_cap-IsPow2 f (cap * 2) initial (twice cap p refl))
      (λ _. p)

le-grow_cap : (f cap initial : ℕ) → cap ≤ grow_cap f cap initial
unfolding grow_cap
le-grow_cap zero cap initial = omega arith
le-grow_cap (suc f) cap initial = ground (arith, le-grow_cap f (cap * 2) initial)

-- The fuel of `grow_cap` is enough: the loop ends by its test.
pub grow_cap_reaches :
    (f cap initial : ℕ) → 0 < cap → initial ≤ cap + f → initial ≤ grow_cap f cap initial
unfolding grow_cap
grow_cap_reaches zero cap initial p q = omega arith
grow_cap_reaches (suc f) cap initial p q = ground (arith, grow_cap_reaches f (cap * 2) initial)

module _ {ℓ} {A : Type ℓ} (z : A) (initial max_cap : ℤ) where
  pub new_queue-Inv : Inv (new_queue z initial max_cap)
  unfolding new_queue
  new_queue-Inv =
      let want = pos_part (clamp_initial initial max_cap) in
      let m = length-replicate (grow_cap want min_capacity want) z in
      record {
        pow = subst IsPow2 (sym m) (grow_cap-IsPow2 want min_capacity want IsPow2-sixteen);
        roomy = omega (arith, m, le-grow_cap want min_capacity want);
        head_in = omega (arith, m, le-grow_cap want min_capacity want);
        size_in = omega arith;
        tail_at = sym (mod-eq_of_lt (omega (arith, m, le-grow_cap want min_capacity want)));
        counted = omega arith;
      }
