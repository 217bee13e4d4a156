-- ===== src/WorkerPool/Tests.antt =====
-- A pool of one to four workers.
use sfpg_go.Base.{◌≡◌, true, refl, [], ◌∷◌, ◌++◌, arith}
use sfpg_go.Base.Int.{pos, ◌+ℤ◌, ◌-ℤ◌, ◌≤ℤ◌}
use sfpg_go.WorkerPool.{Pool, new_pool, start_worker_pool, should_i_stop, monitors, run}
use sfpg_go.WorkerPool.Limits.{run-start_worker_pool, should_i_stop_lem, all_ask, all_leave}

sizes : pos 1 ≤ℤ (new_pool 8 (pos 2) (pos 1) 10 0).max_workers
unfolding new_pool
sizes = omega arith

run-start_worker_pool_example :
    (run
      (monitors (pos 9) ∷ monitors (pos 9) ∷ [])
      (start_worker_pool (new_pool 8 (pos 2) (pos 1) 10 0))).stats.running_workers
    ≤ℤ (new_pool 8 (pos 2) (pos 1) 10 0).max_workers
run-start_worker_pool_example =
    run-start_worker_pool 8 (pos 2) (pos 1) 10 0 (monitors (pos 9) ∷ monitors (pos 9) ∷ []) sizes

-- Two workers, and one is the smallest size: both leave.
abbrev two : Pool
two = run (monitors (pos 9) ∷ []) (start_worker_pool (new_pool 8 (pos 2) (pos 1) 10 5))

may_stop : should_i_stop (pos 0) 100 two ≡ true
unfolding should_i_stop run start_worker_pool new_pool ◌+ℤ◌
may_stop = refl

should_i_stop_lem_example :
    (run (all_ask 2 (pos 0) 100 ++ all_leave 2) two).stats.running_workers
    ≡ two.stats.running_workers -ℤ pos 2
should_i_stop_lem_example = (should_i_stop_lem 2 (pos 0) 100 two may_stop).1
