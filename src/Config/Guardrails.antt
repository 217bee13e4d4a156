-- ===== src/Config/Guardrails.antt =====
-- A validated configuration: its warnings, and the worker pool under it.
use sfpg_go.Base.{
  ℕ, ◌≡◌, ◌≢◌, subst, refl, sym, ap, ◌∙◌, true, false, ◌&&◌, List, ◌++◌, none, if_split, arith,
}
use sfpg_go.Base.Int.{ℤ, pos, ltb_ℤ, leb_ℤ, ◌≤ℤ◌, pos_part}
use sfpg_go.Config.{
  Config, validate_pools, validate, is_min_over_max, warn_if, session_warning, cache_warnings,
  validate_guardrails, worker_pool_min_idle_gt_worker_pool_max, db_min_idle_gt_db_max_pool,
}
use sfpg_go.WorkerPool.{new_pool, start_worker_pool, Event, run}
use sfpg_go.WorkerPool.Limits.{run-start_worker_pool}

validate-pools : (c : Config) → validate c ≡ none → validate_pools c ≡ none
unfolding validate
validate-pools c h = ground arith

pools_ordered :
    (c : Config)
    → validate_pools c ≡ none
    → (ltb_ℤ c.db_max_pool_size c.db_min_idle_connections ≡ false) × (is_min_over_max c ≡ false)
unfolding validate_pools
pools_ordered c h = (ground arith, ground arith)

-- A configuration that passes the validation gets no warning but those on the session cookie and on
-- the sizes of the cache.
validate_guardrails_validated :
    (c : Config) → validate c ≡ none → validate_guardrails c ≡ session_warning c ++ cache_warnings c
unfolding validate_guardrails
validate_guardrails_validated c h =
    let (db, pool) = pools_ordered c (validate-pools c h) in
    ap
      (λ b.
        warn_if b db_min_idle_gt_db_max_pool
        ++ (warn_if (is_min_over_max c) worker_pool_min_idle_gt_worker_pool_max
            ++ (session_warning c ++ cache_warnings c)))
      db
    ∙ ap
        (λ b.
          warn_if b worker_pool_min_idle_gt_worker_pool_max
          ++ (session_warning c ++ cache_warnings c))
        pool

fits :
    (lo hi : ℤ)
    → (ltb_ℤ (pos 0) hi && ltb_ℤ (pos 0) lo && ltb_ℤ hi lo) ≡ false
    → pos 1 ≤ℤ hi
    → pos (pos_part lo) ≤ℤ hi
fits lo hi h p = ground arith

explicit_size :
    (num_cpu : ℕ) (hi lo : ℤ) (max_idle now : ℕ)
    → pos 1 ≤ℤ hi
    → (new_pool num_cpu hi lo max_idle now).max_workers ≡ hi
unfolding new_pool
explicit_size num_cpu hi lo max_idle now p =
    if_split (λ (x : ℤ × ℤ). x.1 ≡ hi) (leb_ℤ hi (pos 0)) (λ e. absurd (above hi p e)) (λ e. refl)
  where
    above : (n : ℤ) → pos 1 ≤ℤ n → leb_ℤ n (pos 0) ≢ true
    above n q e = ground arith

-- Under a validated configuration with an explicit maximum, the worker pool never runs more workers
-- than that maximum.
pub validate_bounds_pool :
    (c : Config) (num_cpu max_idle now : ℕ) (es : List Event)
    → validate c ≡ none
    → pos 1 ≤ℤ c.worker_pool_max
    → (run es (
        start_worker_pool (
          new_pool num_cpu c.worker_pool_max c.worker_pool_min_idle max_idle
            now))).stats.running_workers
      ≤ℤ c.worker_pool_max
validate_bounds_pool c num_cpu max_idle now es h p =
    let p_max = explicit_size num_cpu c.worker_pool_max c.worker_pool_min_idle max_idle now p in
    let order =
      fits c.worker_pool_min_idle c.worker_pool_max (pools_ordered c (validate-pools c h)).1 p in
    subst
      (λ m.
        (run es (
          start_worker_pool (
            new_pool num_cpu c.worker_pool_max c.worker_pool_min_idle max_idle
              now))).stats.running_workers
        ≤ℤ m)
      p_max
      (run-start_worker_pool num_cpu c.worker_pool_max c.worker_pool_min_idle max_idle now es
        (subst (λ m. pos (pos_part c.worker_pool_min_idle) ≤ℤ m) (sym p_max) order))
