-- ===== src/WorkerPool.antt =====
-- internal/workerpool/workerpool.go. Times are nanoseconds; `time.Since` of a time that is not past
-- counts as 0. A worker reads the state in ShouldIStop and is subtracted when it has returned: these
-- are two steps, and `leaving` counts the workers between them.
pub mod Limits
pub mod Tests
use sfpg_go.Base.{
  ℕ, zero, suc, ◌+◌, ◌-◌, Bool, true, false, ◌&&◌, not, List, [], ◌∷◌, ltb, ◌==◌, if◌then◌else◌,
}
use sfpg_go.Base.Int.{ℤ, pos, negsuc, ◌+ℤ◌, ltb_ℤ, leb_ℤ, pos_part}

pub record PoolStats : Type 0 where
  pub running_workers : ℤ
  pub submitted_tasks : ℕ
  pub successful_tasks : ℕ
  pub failed_tasks : ℕ
  pub completed_tasks : ℕ
  pub time_last_submit : ℕ
  pub time_last_complete : ℕ

pub record Pool : Type 0 where
  pub max_workers : ℤ
  pub min_workers : ℤ
  pub max_idle_time : ℕ
  pub stats : PoolStats
  pub leaving : ℕ

unfoldable pub add_submitted : ℕ → Pool → Pool
add_submitted now p = record p {
  stats = record p.stats { submitted_tasks = p.stats.submitted_tasks + 1; time_last_submit = now };
}

unfoldable pub add_completed : ℕ → Pool → Pool
add_completed now p = record p {
  stats = record p.stats {
    completed_tasks = p.stats.completed_tasks + 1;
    time_last_complete = now;
  };
}

unfoldable pub add_failed : Pool → Pool
add_failed p = record p { stats = record p.stats { failed_tasks = p.stats.failed_tasks + 1 } }

unfoldable pub add_successful : Pool → Pool
add_successful p = record p {
  stats = record p.stats { successful_tasks = p.stats.successful_tasks + 1 };
}

abbrev pub default_workers : ℕ → ℕ
default_workers num_cpu = if ltb 4 num_cpu then num_cpu - 2 else if ltb 2 num_cpu then 2 else 1

abbrev pub is_zero : ℤ → Bool
is_zero n = leb_ℤ n (pos 0) && leb_ℤ (pos 0) n

unfoldable pub get_min_max_pool_workers : ℕ → ℤ → ℤ → ℤ × ℤ
get_min_max_pool_workers num_cpu min_pool max_pool =
    (min_pool, if is_zero max_pool then pos (default_workers num_cpu) else max_pool)

unfoldable pub new_pool : ℕ → ℤ → ℤ → ℕ → ℕ → Pool
unfolding get_min_max_pool_workers add_submitted add_completed
new_pool num_cpu max_w min_w max_idle now =
    let sizes =
      if leb_ℤ max_w (pos 0)
      then get_min_max_pool_workers num_cpu min_w max_w
      else (min_w, max_w) in
    add_completed now (
      add_submitted now (record {
        max_workers = sizes.1;
        min_workers = sizes.0;
        max_idle_time = max_idle;
        stats = record {
          running_workers = pos 0;
          submitted_tasks = 0;
          successful_tasks = 0;
          failed_tasks = 0;
          completed_tasks = 0;
          time_last_submit = 0;
          time_last_complete = 0;
        };
        leaving = 0;
      }))

unfoldable pub should_scale_up : ℤ → ℤ → ℤ → Bool
should_scale_up queue_length running max_w = ltb_ℤ running queue_length && ltb_ℤ running max_w

abbrev pub add_running : ℤ → Pool → Pool
add_running n p = record p {
  stats = record p.stats { running_workers = p.stats.running_workers +ℤ n };
}

-- One tick of the monitor.
unfoldable pub monitor_pool : ℤ → Pool → Pool
unfolding should_scale_up
monitor_pool queue_length p =
    if not (should_scale_up queue_length p.stats.running_workers p.max_workers)
    then p
    else add_running (pos 1) p

unfoldable pub time_since_last_completion : ℕ → Pool → ℕ
time_since_last_completion now p =
    if p.stats.time_last_complete == 0 then 0 else now - p.stats.time_last_complete

unfoldable pub should_i_stop : ℤ → ℕ → Pool → Bool
unfolding time_since_last_completion
should_i_stop queue_length now p =
    if leb_ℤ p.stats.running_workers p.min_workers
    then false
    else if ltb_ℤ p.stats.running_workers queue_length
    then false
    else if ltb (time_since_last_completion now p) p.max_idle_time
    then false
    else true

-- A worker asks, and is going to leave if the answer is yes.
unfoldable pub worker_asks : ℤ → ℕ → Pool → Pool
unfolding should_i_stop
worker_asks queue_length now p =
    if should_i_stop queue_length now p then record p { leaving = p.leaving + 1 } else p

-- A worker that was told to leave has returned.
unfoldable pub worker_leaves : Pool → Pool
worker_leaves p =
    if p.leaving == 0 then p else record (add_running (negsuc 0) p) { leaving = p.leaving - 1 }

-- The workers that `StartWorkerPool` starts before the monitor.
abbrev pub add_workers : ℕ → Pool → Pool
add_workers zero p = p
add_workers (suc n) p = add_workers n (add_running (pos 1) p)

unfoldable pub start_worker_pool : Pool → Pool
start_worker_pool p = add_workers (pos_part p.min_workers) p

pub data Event : Type 0 where
  monitors : ℤ → Event
  asks : ℤ → ℕ → Event
  leaves fails succeeds : Event
  submits completes : ℕ → Event

unfoldable pub step : Event → Pool → Pool
unfolding monitor_pool worker_asks worker_leaves add_submitted add_completed add_failed
    add_successful
step (monitors q) p = monitor_pool q p
step (asks q now) p = worker_asks q now p
step leaves p = worker_leaves p
step fails p = add_failed p
step succeeds p = add_successful p
step (submits now) p = add_submitted now p
step (completes now) p = add_completed now p

unfoldable pub run : List Event → Pool → Pool
unfolding step
run [] p = p
run (e ∷ es) p = run es (step e p)
