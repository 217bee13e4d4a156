-- ===== src/WorkerPool/Limits.antt =====
-- How many workers run.
use sfpg_go.Base.{
  ℕ, zero, suc, ◌+◌, ◌-◌, ◌≡◌, ◌≢◌, ◌≤◌, ◌<◌, refl, sym, ap, ◌++◌, ◌∙◌, subst, true, false, not,
  List, [], ◌∷◌, ◌==◌, if◌then◌else◌, if_split, arith,
}
use sfpg_go.Base.Int.{ℤ, pos, negsuc, ◌+ℤ◌, ◌-ℤ◌, ◌≤ℤ◌, leb_ℤ, pos_part, neg_part, int_laws}
use sfpg_go.WorkerPool.{
  Pool, add_submitted, add_completed, add_failed, add_successful, new_pool, should_scale_up,
  add_running, monitor_pool, should_i_stop, time_since_last_completion, get_min_max_pool_workers,
  worker_asks, worker_leaves, add_workers, start_worker_pool, Event, monitors, asks, leaves, fails,
  succeeds, submits, completes, step, run,
}

-- The largest size is fixed, and no more workers run.
pub record IsLimited (top : ℤ) (p : Pool) : Type 0 where
  pub max_is : p.max_workers ≡ top
  pub at_most : p.stats.running_workers ≤ℤ top

below_max :
    (q r m : ℤ)
    → not (should_scale_up q r m) ≡ false
    → pos_part r + neg_part m < pos_part m + neg_part r
unfolding should_scale_up
below_max q r m h = ground arith

room : (q r m : ℤ) → not (should_scale_up q r m) ≡ false → (r +ℤ pos 1) ≤ℤ m
room q r m h = omega (int_laws, below_max q r m h)

step-IsLimited : (top : ℤ) (e : Event) (p : Pool) → IsLimited top p → IsLimited top (step e p)
unfolding step monitor_pool worker_asks worker_leaves add_failed add_successful add_submitted
    add_completed
step-IsLimited top (monitors q) p v =
    if_split (IsLimited top) (not (should_scale_up q p.stats.running_workers p.max_workers))
      (λ e. v)
      (λ e. record {
        max_is = v.max_is;
        at_most =
            subst (λ m. (p.stats.running_workers +ℤ pos 1) ≤ℤ m) v.max_is
              (room q p.stats.running_workers p.max_workers e);
      })
step-IsLimited top (asks q now) p v =
    if_split (IsLimited top) (should_i_stop q now p)
      (λ e. record { max_is = v.max_is; at_most = v.at_most }) (λ e. v)
step-IsLimited top leaves p v =
    if_split (IsLimited top) (p.leaving == 0) (λ e. v)
      (λ e. record { max_is = v.max_is; at_most = omega (int_laws, v.at_most) })
step-IsLimited top fails p v = record { max_is = v.max_is; at_most = v.at_most }
step-IsLimited top succeeds p v = record { max_is = v.max_is; at_most = v.at_most }
step-IsLimited top (submits now) p v = record { max_is = v.max_is; at_most = v.at_most }
step-IsLimited top (completes now) p v = record { max_is = v.max_is; at_most = v.at_most }

run-IsLimited : (top : ℤ) (es : List Event) (p : Pool) → IsLimited top p → IsLimited top (run es p)
unfolding run
run-IsLimited top [] p v = v
run-IsLimited top (e ∷ es) p v = run-IsLimited top es (step e p) (step-IsLimited top e p v)

one_more : (r : ℤ) (n : ℕ) → (r +ℤ pos 1) +ℤ pos n ≡ r +ℤ pos (suc n)
one_more r n = omega int_laws

add_workers_lem :
    (n : ℕ) (p : Pool)
    → ((add_workers n p).stats.running_workers ≡ p.stats.running_workers +ℤ pos n)
      × ((add_workers n p).max_workers ≡ p.max_workers)
add_workers_lem zero p = (omega int_laws, refl)
add_workers_lem (suc n) p =
    let ih = add_workers_lem n (add_running (pos 1) p) in
    (ih.0 ∙ one_more p.stats.running_workers n, ih.1)

new_pool-running :
    (num_cpu : ℕ) (max_w min_w : ℤ) (max_idle now : ℕ)
    → (new_pool num_cpu max_w min_w max_idle now).stats.running_workers ≡ pos 0
unfolding new_pool
new_pool-running num_cpu max_w min_w max_idle now = refl

new_pool-min :
    (num_cpu : ℕ) (max_w min_w : ℤ) (max_idle now : ℕ)
    → (new_pool num_cpu max_w min_w max_idle now).min_workers ≡ min_w
unfolding new_pool get_min_max_pool_workers
new_pool-min num_cpu max_w min_w max_idle now =
    if_split (λ (x : ℤ × ℤ). x.0 ≡ min_w) (leb_ℤ max_w (pos 0)) (λ e. refl) (λ e. refl)

from_zero : (n : ℕ) (m : ℤ) → pos n ≤ℤ m → (pos 0 +ℤ pos n) ≤ℤ m
from_zero n m h = omega int_laws

some_left : (k n : ℕ) → suc n ≤ k → (k == 0) ≢ true
some_left k n h e = ground arith

one_less : (r : ℤ) (n : ℕ) → (r +ℤ negsuc 0) -ℤ pos n ≡ r -ℤ pos (suc n)
one_less r n = omega int_laws

-- Of a started pool whose smallest size is not above its largest there never run more workers than
-- the largest size, whatever happens.
pub run-start_worker_pool :
    (num_cpu : ℕ) (max_w min_w : ℤ) (max_idle now : ℕ) (es : List Event)
    → let p = new_pool num_cpu max_w min_w max_idle now in
      pos (pos_part min_w) ≤ℤ p.max_workers
      → (run es (start_worker_pool p)).stats.running_workers ≤ℤ p.max_workers
unfolding start_worker_pool
run-start_worker_pool num_cpu max_w min_w max_idle now es h =
    let p = new_pool num_cpu max_w min_w max_idle now in
    let n = pos_part p.min_workers in
    let (r, m) = add_workers_lem n p in
    (run-IsLimited p.max_workers es (add_workers n p) (record {
      max_is = m;
      at_most =
          subst (λ x. x ≤ℤ p.max_workers)
            (sym (r ∙ ap (λ x. x +ℤ pos n) (new_pool-running num_cpu max_w min_w max_idle now)))
            (from_zero n p.max_workers (
              subst (λ x. pos (pos_part x) ≤ℤ p.max_workers)
                (sym (new_pool-min num_cpu max_w min_w max_idle now)) h));
    })).at_most

-- Workers that ask before any of them has left.
abbrev pub all_ask : ℕ → ℤ → ℕ → List Event
all_ask zero q now = []
all_ask (suc n) q now = asks q now ∷ all_ask n q now

abbrev pub all_leave : ℕ → List Event
all_leave zero = []
all_leave (suc n) = leaves ∷ all_leave n

run-all_ask :
    (n : ℕ) (q : ℤ) (now : ℕ) (p : Pool)
    → should_i_stop q now p ≡ true
    → run (all_ask n q now) p ≡ record p { leaving = p.leaving + n }
unfolding run step worker_asks should_i_stop time_since_last_completion
run-all_ask zero q now p h = ap (λ l. record p { leaving = l }) (omega arith)
run-all_ask (suc n) q now p h =
    ap (λ c. run (all_ask n q now) (if c then record p { leaving = p.leaving + 1 } else p)) h
    ∙ run-all_ask n q now (record p { leaving = p.leaving + 1 }) h
    ∙ ap (λ l. record p { leaving = l }) (omega arith)

run-all_leave :
    (n : ℕ) (p : Pool)
    → n ≤ p.leaving
    → (run (all_leave n) p).stats.running_workers ≡ p.stats.running_workers -ℤ pos n
unfolding run step worker_leaves
run-all_leave zero p h = omega int_laws
run-all_leave (suc n) p h =
    if_split
      (λ (x : Pool).
        (run (all_leave n) x).stats.running_workers ≡ p.stats.running_workers -ℤ pos (suc n))
      (p.leaving == 0) (λ e. absurd (some_left p.leaving n h e))
      (λ e.
        run-all_leave n (record (add_running (negsuc 0) p) { leaving = p.leaving - 1 })
          (omega arith)
        ∙ one_less p.stats.running_workers n)

run-append : (xs ys : List Event) (p : Pool) → run (xs ++ ys) p ≡ run ys (run xs p)
unfolding run
run-append [] ys p = refl
run-append (x ∷ xs) ys p = run-append xs ys (step x p)

above_min :
    (q : ℤ) (now : ℕ) (p : Pool)
    → should_i_stop q now p ≡ true
    → pos_part p.min_workers + neg_part p.stats.running_workers
      < pos_part p.stats.running_workers + neg_part p.min_workers
unfolding should_i_stop
above_min q now p h = ground arith

keeps_min :
    (p : Pool)
    → pos_part p.min_workers + neg_part p.stats.running_workers
      < pos_part p.stats.running_workers + neg_part p.min_workers
    → p.min_workers ≤ℤ (p.stats.running_workers -ℤ pos 1)
keeps_min p h = omega int_laws

-- A lone worker that asks and leaves never takes the pool below its smallest size; but when a worker
-- may leave, any number of workers that ask before the first has left all leave.
pub should_i_stop_lem :
    (n : ℕ) (q : ℤ) (now : ℕ) (p : Pool)
    → should_i_stop q now p ≡ true
    → (p.min_workers ≤ℤ (run (all_ask 1 q now ++ all_leave 1) p).stats.running_workers)
      × ((run (all_ask n q now ++ all_leave n) p).stats.running_workers
          ≡ p.stats.running_workers -ℤ pos n)
should_i_stop_lem n q now p h =
    (subst (λ r. p.min_workers ≤ℤ r) (sym (both 1)) (keeps_min p (above_min q now p h)), both n)
  where
    both :
        (k : ℕ)
        → (run (all_ask k q now ++ all_leave k) p).stats.running_workers
          ≡ p.stats.running_workers -ℤ pos k
    both k =
        ap (λ (x : Pool). x.stats.running_workers)
          (run-append (all_ask k q now) (all_leave k) p
            ∙ ap (run (all_leave k)) (run-all_ask k q now p h))
        ∙ run-all_leave k (record p { leaving = p.leaving + k }) (omega arith)
