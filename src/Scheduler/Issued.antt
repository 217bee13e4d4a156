-- ===== src/Scheduler/Issued.antt =====
-- The identifiers in the map, and those that were given out.
use sfpg_go.Base.{
  ℕ, ◌+◌, ◌≤◌, Bool, true, false, ◌&&◌, ◌||◌, not, List, [], ◌∷◌, ◌==◌, ltb, if_split, arith,
  length, Option,
}
use sfpg_go.Base.Int.{ℤ}
use sfpg_go.Scheduler.{
  ScheduledTask, Scheduler, SchedulerError, has_task, unmarked, ready, reschedule, is_one_time,
  not_again, new_task, runs, new_scheduler, add_task, remove_task, launch_one, launch, Turn,
  resting, launching, checked, is_resting, collect, check, check_turn, launch_checked, launch_turn,
  collects, checks, launches, execute_ready_tasks, execute_task, start, stop, shutdown, Event, adds,
  removes, ticks, wakes, finishes, swaps, starts, stops, shuts_down, step, run, ExecutionMode,
}
use sfpg_go.Scheduler.Tasks.{
  All, All-nil, All-cons, All-unmarked, All-change, All-after_run, All-swap_at,
}

abbrev pub Issued : ℕ → ScheduledTask → Type 0
Issued n t = t.id ≤ n

abbrev pub AreIssued : Scheduler → Type 0
AreIssued s = All (Issued s.next_id) s.tasks

later-Issued : (n : ℕ) (ts : List ScheduledTask) → All (Issued n) ts → All (Issued (n + 1)) ts
unfolding All
later-Issued n [] a = tt
later-Issued n (t ∷ ts) (p, ps) = (omega arith, later-Issued n ts ps)

not_again-Issued : (n now : ℕ) (t : ScheduledTask) → Issued n t → Issued n (not_again now t)
not_again-Issued n now t h = if_split (Issued n) (is_one_time t.mode) (λ e. h) (λ e. h)

launch_one-AreIssued :
    (now : ℕ) (t : ScheduledTask) (s : Scheduler) → AreIssued s → AreIssued (launch_one now t s)
unfolding launch_one
launch_one-AreIssued now t s v =
    if_split AreIssued (s.shut || t.marked_for_deletion) (λ e. v)
      (λ e.
        if_split AreIssued (ltb s.semaphore s.max_concurrent_tasks)
          (λ e'.
            All-change (Issued s.next_id) t.id (not_again now) s.tasks
              (not_again-Issued s.next_id now) v)
          (λ e'. v))

launch-AreIssued :
    (now : ℕ) (ts : List ScheduledTask) (s : Scheduler) → AreIssued s → AreIssued (launch now ts s)
unfolding launch
launch-AreIssued now [] s v = v
launch-AreIssued now (t ∷ ts) s v =
    launch-AreIssued now ts (launch_one now t s) (launch_one-AreIssued now t s v)

execute_ready_tasks-AreIssued :
    (now later : ℕ) (s : Scheduler) → AreIssued s → AreIssued (execute_ready_tasks now later s).1
unfolding execute_ready_tasks
execute_ready_tasks-AreIssued now later s v =
    if_split (λ (r : ℕ × Scheduler). AreIssued r.1) s.shut (λ e. v)
      (λ e.
        launch-AreIssued now (ready now (unmarked s.tasks)) (record s { tasks = unmarked s.tasks })
          (All-unmarked (Issued s.next_id) s.tasks v))

add_task-AreIssued :
    (given : Bool) (mode : ExecutionMode) (t : ℕ) (s : Scheduler)
    → AreIssued s
    → AreIssued (add_task given mode t s).1
unfolding add_task
add_task-AreIssued given mode t s v =
    if_split (λ (r : Option SchedulerError × Scheduler). AreIssued r.1) (not given) (λ e. v)
      (λ e.
        if_split (λ (r : Option SchedulerError × Scheduler). AreIssued r.1) s.shut (λ e'. v)
          (λ e'.
            All-cons (Issued (s.next_id + 1)) (new_task (s.next_id + 1) mode t) s.tasks
              (omega arith) (later-Issued s.next_id s.tasks v)))

remove_task-AreIssued : (id : ℕ) (s : Scheduler) → AreIssued s → AreIssued (remove_task id s).1
unfolding remove_task
remove_task-AreIssued id s v =
    if_split (λ (r : Option SchedulerError × Scheduler). AreIssued r.1) (not (has_task id s.tasks))
      (λ e. v) (λ e. All-change (Issued s.next_id) id _ s.tasks (λ t h. h) v)

collect-AreIssued : (now : ℕ) (s : Scheduler) → AreIssued s → AreIssued (collect now s)
unfolding collect
collect-AreIssued now s v =
    if_split AreIssued s.shut (λ e. v) (λ e. All-unmarked (Issued s.next_id) s.tasks v)

check-AreIssued : (u : Turn) (s : Scheduler) → AreIssued s → AreIssued (check_turn u s)
check-AreIssued resting s v = v
check-AreIssued (launching []) s v = v
check-AreIssued (launching (t ∷ ts)) s v =
    if_split AreIssued s.shut (λ e. v)
      (λ e. if_split AreIssued t.marked_for_deletion (λ e'. v) (λ e'. v))
check-AreIssued (checked t ts) s v = v

launch_checked-AreIssued :
    (now : ℕ) (u : Turn) (s : Scheduler) → AreIssued s → AreIssued (launch_turn now u s)
launch_checked-AreIssued now resting s v = v
launch_checked-AreIssued now (launching ts) s v = v
launch_checked-AreIssued now (checked t ts) s v =
    if_split AreIssued (ltb s.semaphore s.max_concurrent_tasks)
      (λ e.
        All-change (Issued s.next_id) t.id (not_again now) s.tasks (not_again-Issued s.next_id now)
          v)
      (λ e. v)

module _ (add_date : ℕ → ℕ → ℕ → ℕ) where
  execute_task-AreIssued :
      (now id : ℕ) (s : Scheduler) → AreIssued s → AreIssued (execute_task add_date now id s)
  unfolding execute_task reschedule
  execute_task-AreIssued now id s v =
      if_split AreIssued (runs id s.active)
        (λ e. All-after_run (Issued s.next_id) add_date now id s.tasks (λ t o h. h) v) (λ e. v)

  step-AreIssued : (e : Event) (s : Scheduler) → AreIssued s → AreIssued (step add_date e s)
  unfolding step start stop shutdown check launch_checked
  step-AreIssued (adds given mode t) s v = add_task-AreIssued given mode t s v
  step-AreIssued (removes id) s v = remove_task-AreIssued id s v
  step-AreIssued (ticks now later) s v =
      if_split AreIssued (s.running && is_resting s.turn)
        (λ e. execute_ready_tasks-AreIssued now later s v) (λ e. v)
  step-AreIssued (wakes now later) s v =
      if_split AreIssued (s.running && is_resting s.turn && s.woken)
        (λ e. execute_ready_tasks-AreIssued now later (record s { woken = false }) v) (λ e. v)
  step-AreIssued (collects true now) s v =
      if_split AreIssued (s.running && is_resting s.turn && s.woken)
        (λ e. collect-AreIssued now (record s { woken = false }) v) (λ e. v)
  step-AreIssued (collects false now) s v =
      if_split AreIssued (s.running && is_resting s.turn) (λ e. collect-AreIssued now s v) (λ e. v)
  step-AreIssued checks s v = check-AreIssued s.turn s v
  step-AreIssued (launches now) s v = launch_checked-AreIssued now s.turn s v
  step-AreIssued (finishes now id) s v = execute_task-AreIssued now id s v
  step-AreIssued (swaps n) s v = All-swap_at (Issued s.next_id) n s.tasks v
  step-AreIssued starts s v =
      if_split (λ (r : Option SchedulerError × Scheduler). AreIssued r.1) s.running (λ e. v)
        (λ e.
          if_split (λ (r : Option SchedulerError × Scheduler). AreIssued r.1) s.shut (λ e'. v)
            (λ e'. v))
  step-AreIssued stops s v =
      if_split AreIssued (is_resting s.turn && (length s.active == 0)) (λ e. v) (λ e. v)
  step-AreIssued shuts_down s v =
      if_split (λ (r : Option SchedulerError × Scheduler). AreIssued r.1) s.running (λ e. v)
        (λ e. v)

  run-AreIssued : (es : List Event) (s : Scheduler) → AreIssued s → AreIssued (run add_date es s)
  unfolding run
  run-AreIssued [] s v = v
  run-AreIssued (e ∷ es) s v = run-AreIssued es (step add_date e s) (step-AreIssued e s v)

-- After any history of a new scheduler the identifiers in the map are ones that were given out.
pub run-new_scheduler-AreIssued :
    (add_date : ℕ → ℕ → ℕ → ℕ) (wanted : ℤ) (num_cpu : ℕ) (es : List Event)
    → AreIssued (run add_date es (new_scheduler wanted num_cpu))
unfolding new_scheduler
run-new_scheduler-AreIssued add_date wanted num_cpu es =
    run-AreIssued add_date es (new_scheduler wanted num_cpu) (All-nil (Issued 0))
