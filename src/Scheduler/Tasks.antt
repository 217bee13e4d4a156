-- ===== src/Scheduler/Tasks.antt =====
-- What the loops over the tasks keep.
use sfpg_go.Base.{
  ℕ, zero, suc, ◌-◌, ◌≡◌, true, false, ◌||◌, not, List, [], ◌∷◌, ◌==◌, if_split, arith, length, ◌≤◌,
}
use sfpg_go.Scheduler.{
  ScheduledTask, change, unmarked, ready, reschedule, after_run, is_one_time, swap_at, drop_one,
  runs,
}

unfoldable pub All : (ScheduledTask → Type 0) → List ScheduledTask → Type 0
All P [] = Unit
All P (t ∷ ts) = P t × All P ts

module _ (P : ScheduledTask → Type 0) where
  pub All-nil : All P []
  unfolding All
  All-nil = tt

  pub All-cons : (t : ScheduledTask) (ts : List ScheduledTask) → P t → All P ts → All P (t ∷ ts)
  unfolding All
  All-cons t ts p ps = (p, ps)

  pub All-unmarked : (ts : List ScheduledTask) → All P ts → All P (unmarked ts)
  unfolding All
  All-unmarked [] a = tt
  All-unmarked (t ∷ ts) (p, ps) =
      if_split (All P) t.marked_for_deletion (λ e. All-unmarked ts ps)
        (λ e. (p, All-unmarked ts ps))

  pub All-ready : (now : ℕ) (ts : List ScheduledTask) → All P ts → All P (ready now ts)
  unfolding All
  All-ready now [] a = tt
  All-ready now (t ∷ ts) (p, ps) =
      if_split (All P) _ {x = t ∷ ready now ts} {y = ready now ts} (λ e. (p, All-ready now ts ps))
        (λ e. All-ready now ts ps)

  pub All-change :
      (id : ℕ) (f : ScheduledTask → ScheduledTask) (ts : List ScheduledTask)
      → ((t : ScheduledTask) → P t → P (f t))
      → All P ts
      → All P (change id f ts)
  unfolding All
  All-change id f [] h a = tt
  All-change id f (t ∷ ts) h (p, ps) =
      (if_split P (t.id == id) (λ e. h t p) (λ e. p), All-change id f ts h ps)

  pub All-after_run :
      (add_date : ℕ → ℕ → ℕ → ℕ) (now id : ℕ) (ts : List ScheduledTask)
      → ((t : ScheduledTask) → is_one_time t.mode ≡ false → P t → P (reschedule add_date now t))
      → All P ts
      → All P (after_run add_date now id ts)
  unfolding All after_run
  All-after_run add_date now id [] h a = tt
  All-after_run add_date now id (t ∷ ts) h (p, ps) =
      let rest = All-after_run add_date now id ts h ps in
      if_split (All P) (not (t.id == id)) (λ e. (p, rest))
        (λ e.
          if_split (All P) (is_one_time t.mode || t.marked_for_deletion) (λ e'. rest)
            (λ e'. (h t (ground arith) p, rest)))

  pub All-swap_at : (n : ℕ) (ts : List ScheduledTask) → All P ts → All P (swap_at n ts)
  unfolding All
  All-swap_at n [] a = a
  All-swap_at zero (t ∷ []) a = a
  All-swap_at (suc n) (t ∷ []) a = a
  All-swap_at zero (t ∷ u ∷ ts) (p, (q, r)) = (q, (p, r))
  All-swap_at (suc n) (t ∷ u ∷ ts) (p, r) = (p, All-swap_at n (u ∷ ts) r)

runs-length : (id : ℕ) (ns : List ℕ) → runs id ns ≡ true → 1 ≤ length ns
runs-length id [] h = ground arith
runs-length id (n ∷ ns) h = omega arith

-- A run that ends was active.
pub length-drop_one :
    (id : ℕ) (ns : List ℕ) → runs id ns ≡ true → length (drop_one id ns) ≡ length ns - 1
length-drop_one id [] h = ground arith
length-drop_one id (n ∷ ns) h =
    let ih = length-drop_one id ns in let some_left = runs-length id ns in ground arith
