-- ===== src/CacheBatch/State.antt =====
-- internal/server/cachebatch/manager.go and metrics.go: the state of the manager and its counters.
use sfpg_go.Base.{ℕ, ◌+◌, Bool, false, ltb, if◌then◌else◌}
use sfpg_go.Base.Int.{ℤ, pos, ◌-ℤ◌}
use sfpg_go.Base.Text.{Str}

pub data Error : Type 0 where
  discovery_active already_running nil_queries nil_handler failed : Error

pub record Target : Type 0 where
  pub path : Str
  pub variant : Str

-- The counters that only grow, by additions, are numbers.
pub record Metrics : Type 0 where
  pub targets_total : ℕ
  pub targets_scheduled : ℤ
  pub targets_completed : ℕ
  pub targets_failed : ℕ
  pub targets_skipped : ℕ
  pub throttles_skipped : ℕ
  pub backpressure_skipped : ℕ
  pub in_flight : ℤ
  pub is_running : Bool
  pub last_started_at : ℤ
  pub last_finished_at : ℤ

abbrev pub no_metrics : Metrics
no_metrics = record {
  targets_total = 0;
  targets_scheduled = pos 0;
  targets_completed = 0;
  targets_failed = 0;
  targets_skipped = 0;
  throttles_skipped = 0;
  backpressure_skipped = 0;
  in_flight = pos 0;
  is_running = false;
  last_started_at = pos 0;
  last_finished_at = pos 0;
}

-- `guarded` says whether there is a ModuleStateService.
pub record Manager : Type 0 where
  pub running : Bool
  pub guarded : Bool
  pub num_cpu : ℕ
  pub metrics : Metrics
  pub is_throttled : Bool

unfoldable pub new_manager : Bool → ℕ → Manager
new_manager guarded num_cpu = record {
  running = false;
  guarded = guarded;
  num_cpu = num_cpu;
  metrics = no_metrics;
  is_throttled = false;
}

abbrev pub default_max_workers : ℕ
default_max_workers = 8

abbrev pub default_queue_size : ℕ
default_queue_size = 1000

unfoldable pub max_workers : Manager → ℕ
max_workers m = if ltb m.num_cpu default_max_workers then m.num_cpu else default_max_workers

-- The two atomic additions of a finished target are one step, as are the two of a scheduled one: the
-- counters are read between such pairs, not inside them.
unfoldable pub record_completed : Metrics → Metrics
record_completed s = record s {
  targets_completed = s.targets_completed + 1;
  in_flight = s.in_flight -ℤ pos 1;
}

unfoldable pub record_failed : Metrics → Metrics
record_failed s = record s {
  targets_failed = s.targets_failed + 1;
  in_flight = s.in_flight -ℤ pos 1;
}

unfoldable pub record_skipped : Metrics → Metrics
record_skipped s = record s { targets_skipped = s.targets_skipped + 1 }

unfoldable pub record_throttled : Metrics → Metrics
record_throttled s = record s { throttles_skipped = s.throttles_skipped + 1 }

unfoldable pub record_backpressure_skipped : Metrics → Metrics
record_backpressure_skipped s = record s { backpressure_skipped = s.backpressure_skipped + 1 }
