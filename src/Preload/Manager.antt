-- ===== src/Preload/Manager.antt =====
-- internal/server/cachepreload: the manager, its switch, and the tasks that its scheduler runs. What the
-- scheduler runs next, and what the database and the internal requests answer, are the environment's choice.
-- A task begins, takes its steps (a folder's task its query and then one path at a time) and ends while others
-- run; the call that stops the scheduler holds the manager's lock until none runs.
use sfpg_go.Base.{
  ℕ, zero, suc, ◌+◌, ◌*◌, Bool, true, false, ◌&&◌, ◌||◌, get_elem?, set, not, List, [], ◌∷◌, ◌++◌,
  Option, none, some, ◌==◌, if◌then◌else◌,
}
use sfpg_go.Base.Int.{ℤ, pos}
use sfpg_go.Base.Text.{Str, codes, has_prefix}
use sfpg_go.Scheduler as Sched
use sfpg_go.Scheduler.{Scheduler, new_scheduler, add_task, remove_task, one_time}
use sfpg_go.HttpCache.Key.{
  is_empty, new_cache_key, new_cache_key_for_preload, preload_variant_for_path,
}
use sfpg_go.Preload.Tracker.{
  TaskTracker, unregister_task, cancel_session_tasks, try_claim_task, SessionTracker,
  on_folder_open, cleanup,
}

pub data Task : Type 0 where
  folder_preload : ℤ → Str → List Str → Str → Task
  preload : Str → Str → Str → Task

-- A task that runs: a folder's task before and after its query, with the paths that are left, and a preload,
-- which releases its key at the end.
pub data Work : Type 0 where
  querying : List Str → Str → Work
  claiming : Str → List Str → List Str → Work
  requesting : Str → Work

pub record PreloadMetrics : Type 0 where
  pub tasks_scheduled : ℕ
  pub tasks_completed : ℕ
  pub tasks_failed : ℕ
  pub tasks_skipped : ℕ

-- `queued` has what the tasks of the scheduler will do, by identifier, and `running` the tasks that run;
-- `stopping` while SetEnabled or Shutdown waits for these.
pub record PreloadManager : Type 0 where
  pub enabled : Bool
  pub scheduler : Option Scheduler
  pub queued : List (ℕ × Task)
  pub running : List Work
  pub stopping : Bool
  pub cacheable_routes : List Str
  pub task_tracker : TaskTracker
  pub session_tracker : SessionTracker
  pub metrics : PreloadMetrics

abbrev pub no_metrics : PreloadMetrics
no_metrics = record {
  tasks_scheduled = 0;
  tasks_completed = 0;
  tasks_failed = 0;
  tasks_skipped = 0;
}

unfoldable pub start_scheduler : ℕ → PreloadManager → PreloadManager
start_scheduler num_cpu m = record m {
  scheduler = some (new_scheduler (pos (4 * num_cpu)) num_cpu);
}

abbrev pub is_nil : Option Scheduler → Bool
is_nil none = true
is_nil (some s) = false

abbrev pub is_idle : List Work → Bool
is_idle [] = true
is_idle (w ∷ ws) = false

-- The end of the wait for the running tasks: what the scheduler had queued is gone with it.
unfoldable pub stop_scheduler : PreloadManager → PreloadManager
stop_scheduler m =
    if m.stopping && is_idle m.running
    then record m { scheduler = none; queued = []; stopping = false }
    else m

-- The beginning of stopScheduler; without a scheduler there is nothing to wait for.
abbrev pub begin_stop : PreloadManager → PreloadManager
begin_stop m = record m { enabled = false; stopping = not (is_nil m.scheduler) }

-- NewPreloadManager and Configure.
unfoldable pub new_preload_manager : ℕ → List Str → Bool → PreloadManager
unfolding start_scheduler
new_preload_manager num_cpu routes initial =
    let m : PreloadManager = record {
      enabled = initial;
      scheduler = none;
      queued = [];
      running = [];
      stopping = false;
      cacheable_routes = routes;
      task_tracker = [];
      session_tracker = [];
      metrics = no_metrics;
    } in
    if initial then start_scheduler num_cpu m else m

unfoldable pub set_enabled : ℕ → Bool → PreloadManager → PreloadManager
unfolding start_scheduler
set_enabled num_cpu true m =
    if m.enabled then m else start_scheduler num_cpu (record m { enabled = true })
set_enabled num_cpu false m = if m.enabled then begin_stop m else m

unfoldable pub shutdown : PreloadManager → PreloadManager
shutdown m = begin_stop m

-- AddTask at the time `now`, with what the task will do.
abbrev pub with_task :
    Task → PreloadManager → Option Sched.SchedulerError × Scheduler → Bool × PreloadManager
with_task task m (some e, s) = (false, m)
with_task task m (none, s) =
    (true, record m { scheduler = some s; queued = (s.next_id, task) ∷ m.queued })

unfoldable pub add : ℕ → Task → PreloadManager → Bool × PreloadManager
add now task m = elim m.scheduler as (λ _. Bool × PreloadManager) [
  | none ↦ (false, m)
  | some s ↦ with_task task m (add_task true one_time now s)
]

abbrev pub without : ℕ → List (ℕ × Task) → List (ℕ × Task)
without id [] = []
without id ((n, t) ∷ q) = let rest = without id q in if n == id then rest else (n, t) ∷ rest

unfoldable pub remove_all : List ℕ → PreloadManager → PreloadManager
remove_all [] m = m
remove_all (id ∷ ids) m = remove_all ids (record m {
  scheduler = elim m.scheduler [ none ↦ none | some s ↦ some (remove_task id s).1 ];
  queued = without id m.queued;
})

abbrev pub is_zero_folder : ℤ → Bool
is_zero_folder (pos n) = n == 0
is_zero_folder _ = false

abbrev pub cancelled : List ℕ × TaskTracker → PreloadManager → PreloadManager
cancelled (ids, t) m = remove_all ids (record m { task_tracker = t })

abbrev pub after_open : Str → ℤ × SessionTracker → PreloadManager → PreloadManager
after_open session (previous, sessions) m =
    let m' = record m { session_tracker = sessions } in
    if is_zero_folder previous
    then m'
    else cancelled (cancel_session_tasks session m.task_tracker) m'

-- `configured` is false while a dependency is missing.
unfoldable pub schedule_folder_preload :
    Bool → ℤ → ℕ → Str → ℤ → Str → PreloadManager → PreloadManager
unfolding on_folder_open cancel_session_tasks remove_all add
schedule_folder_preload configured clock now etag folder session m =
    if not m.enabled || is_nil m.scheduler || not configured
    then m
    else (let m' = after_open session (on_folder_open clock session folder m.session_tracker) m in
        (add now (folder_preload folder session m.cacheable_routes etag) m').1)

unfoldable pub is_cacheable_path : Str → List Str → Bool
is_cacheable_path path [] = false
is_cacheable_path path (route ∷ routes) = has_prefix path route || is_cacheable_path path routes

abbrev pub record_skipped : PreloadManager → PreloadManager
record_skipped m = record m {
  metrics = record m.metrics { tasks_skipped = m.metrics.tasks_skipped + 1 };
}

abbrev pub record_scheduled : PreloadManager → PreloadManager
record_scheduled m = record m {
  metrics = record m.metrics { tasks_scheduled = m.metrics.tasks_scheduled + 1 };
}

abbrev pub added : Str → Bool × PreloadManager → PreloadManager
added key (true, m) = m
added key (false, m) = record m { task_tracker = unregister_task key m.task_tracker }

abbrev pub claimed : ℕ → Str → Str → Str → Bool × TaskTracker → PreloadManager → PreloadManager
claimed now key path target (false, t) m = record_skipped m
claimed now key path target (true, t) m =
    added key (add now (preload key path target) (record_scheduled (record m { task_tracker = t })))

abbrev pub says_exists : Option Bool → Bool
says_exists (some true) = true
says_exists _ = false

abbrev pub preload_key : Str → Str → Str
preload_key path query =
    new_cache_key (new_cache_key_for_preload path query (preload_variant_for_path path))

-- `exists` is what the database answers for a key.
unfoldable pub schedule_preload :
    (Str → Option Bool) → ℕ → Str → Str → PreloadManager → PreloadManager
unfolding try_claim_task unregister_task add
schedule_preload exists now path query m =
    if says_exists (exists (preload_key path query))
    then record_skipped m
    else claimed now (preload_key path query) path (preload_variant_for_path path)
        (try_claim_task (preload_key path query) m.task_tracker) m

-- One path of a folder.
unfoldable pub schedule_path :
    (Str → Option Bool) → ℕ → Str → List Str → Str → PreloadManager → PreloadManager
unfolding is_cacheable_path schedule_preload
schedule_path exists now query routes path m =
    if is_empty path || not (is_cacheable_path path routes)
    then m
    else schedule_preload exists now path query m

-- What the environment answers to a task that runs: the routes of a folder, `none` for an error of the
-- connection or the query, the keys that exist, and whether the internal request succeeds.
pub record Answers : Type 0 where
  pub routes : Option (List Str)
  pub exists : Str → Option Bool
  pub succeeds : Bool

abbrev pub count_result : Bool → PreloadMetrics → PreloadMetrics
count_result true c = record c { tasks_completed = c.tasks_completed + 1 }
count_result false c = record c { tasks_failed = c.tasks_failed + 1 }

abbrev pub work_of : Task → Work
work_of (folder_preload folder session routes etag) = querying routes etag
work_of (preload key path target) = requesting key

abbrev pub end_at : ℕ → List Work → List Work
end_at n [] = []
end_at zero (w ∷ ws) = ws
end_at (suc n) (w ∷ ws) = w ∷ end_at n ws

-- The next step of a task that runs, the one at `n`.
unfoldable pub run_task : ℕ → ℕ → Answers → Work → PreloadManager → PreloadManager
unfolding schedule_path unregister_task
run_task n now a (querying routes etag) m = elim a.routes as (λ _. PreloadManager) [
  | none ↦ record m { running = end_at n m.running }
  | some paths ↦ record m { running = set m.running n (claiming (codes "v=" ++ etag) routes paths) }
]
run_task n now a (claiming query routes []) m = record m { running = end_at n m.running }
run_task n now a (claiming query routes (path ∷ paths)) m =
    schedule_path a.exists now query routes path
      (record m { running = set m.running n (claiming query routes paths) })
run_task n now a (requesting key) m = record m {
  running = end_at n m.running;
  task_tracker = unregister_task key m.task_tracker;
  metrics = count_result a.succeeds m.metrics;
}

abbrev pub find_task : ℕ → List (ℕ × Task) → Option Task
find_task id [] = none
find_task id ((n, t) ∷ q) = if n == id then some t else find_task id q

-- `begins` is the launch of a task by the scheduler, `runs` a step of the task at a place among the running.
pub data Event : Type 0 where
  opens : Bool → ℤ → ℕ → Str → ℤ → Str → Event
  begins : ℕ → Event
  runs : ℕ → ℕ → Answers → Event
  toggles : ℕ → Bool → Event
  shuts_down stops : Event
  cleans_up : ℤ → ℤ → Event

-- Calls that want the lock wait while the scheduler is being stopped.
unfoldable pub step : Event → PreloadManager → PreloadManager
unfolding schedule_folder_preload run_task set_enabled shutdown stop_scheduler cleanup
step (opens configured clock now etag folder session) m =
    if m.stopping then m else schedule_folder_preload configured clock now etag folder session m
step (begins id) m = elim (find_task id m.queued) as (λ _. PreloadManager) [
  | none ↦ m
  | some t ↦ record m { queued = without id m.queued; running = work_of t ∷ m.running }
]
step (runs n now a) m = elim (get_elem? m.running n) as (λ _. PreloadManager) [
  | none ↦ m
  | some w ↦ run_task n now a w m
]
step (toggles num_cpu on) m = if m.stopping then m else set_enabled num_cpu on m
step shuts_down m = if m.stopping then m else shutdown m
step stops m = stop_scheduler m
step (cleans_up now max_age) m = record m {
  session_tracker = cleanup now max_age m.session_tracker;
}

unfoldable pub run : List Event → PreloadManager → PreloadManager
unfolding step
run [] m = m
run (e ∷ es) m = run es (step e m)
