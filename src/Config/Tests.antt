-- ===== src/Config/Tests.antt =====
-- Concrete configurations.
use sfpg_go.Base.{◌≡◌, true, false, refl, [], ◌∷◌, none, arith}
use sfpg_go.Base.Int.{pos, ◌≤ℤ◌}
use sfpg_go.Base.Text.{same}
use sfpg_go.Config.{
  Config, validate, validate_guardrails, same_site_none, session_samesite_none_without_secure,
}
use sfpg_go.Config.Guardrails.{validate_bounds_pool}
use sfpg_go.WorkerPool.{new_pool, start_worker_pool, monitors, run}

-- The levels in capitals, a cookie for all sites without https, and two to four workers.
abbrev config : Config
config = record {
  listener_port = pos 8081;
  log_level = 73 ∷ 78 ∷ 70 ∷ 79 ∷ [];
  log_rollover = 68 ∷ 97 ∷ 105 ∷ 108 ∷ 121 ∷ [];
  log_retention_count = pos 7;
  session_same_site = same_site_none;
  session_secure = false;
  enable_http_cache = true;
  cache_max_size = pos 1000;
  cache_max_entry_size = pos 10;
  db_max_pool_size = pos 8;
  db_min_idle_connections = pos 2;
  db_pool_monitor_interval = pos 0;
  worker_pool_max = pos 4;
  worker_pool_min_idle = pos 2;
  queue_size = pos 100;
}

passes : validate config ≡ none
unfolding validate same
passes = refl

one_warning : validate_guardrails config ≡ session_samesite_none_without_secure ∷ []
unfolding validate_guardrails same
one_warning = refl

validate_bounds_pool_example :
    (run
      (monitors (pos 50) ∷ monitors (pos 50) ∷ monitors (pos 50) ∷ [])
      (start_worker_pool (new_pool 8 (pos 4) (pos 2) 10 0))).stats.running_workers
    ≤ℤ pos 4
validate_bounds_pool_example =
    validate_bounds_pool config 8 10 0
      (monitors (pos 50) ∷ monitors (pos 50) ∷ monitors (pos 50) ∷ []) passes (omega arith)
