-- ===== src/Scheduler.antt =====
-- internal/scheduler/scheduler.go. A time is a number of nanoseconds; the counters stay below 2^63, and
-- with them the product of a run count and an hour. The map of tasks is a list whose order `swaps`
-- changes at will, as Go may visit a map in any order. The methods are atomic steps: the second test
-- of `shutdown` under the lock has the value of the first. A turn of the loop is one only under the lock:
-- `collects` is what it does there, `checks` its tests of one due task and `launches` the launch, and calls
-- and ends of runs may come between these; `ticks` and `wakes` are turns that nothing comes between.
pub mod Tasks
pub mod Bounds
pub mod Issued
pub mod Removed
pub mod Overlap
pub mod Delay
pub mod Tests
use sfpg_go.Base.{
  ℕ, zero, suc, ◌+◌, ◌-◌, ◌*◌, ◌≡◌, Bool, true, false, ◌&&◌, ◌||◌, not, List, [], ◌∷◌, ◌++◌, Option,
  none, some, ltb, leb, ◌==◌, if◌then◌else◌, length,
}
use sfpg_go.Base.Int.{ℤ, pos, ltb_ℤ, pos_part}

pub data ExecutionMode : Type 0 where
  one_time hourly daily weekly monthly : ExecutionMode

pub data SchedulerError : Type 0 where
  nil_task already_running scheduler_shutdown scheduler_running task_not_found : SchedulerError

pub record ScheduledTask : Type 0 where
  pub id : ℕ
  pub mode : ExecutionMode
  pub start_time : ℕ
  pub next_run : ℕ
  pub run_count : ℕ
  pub marked_for_deletion : Bool

-- Where the loop stands: between turns, with the due tasks that are left, or with one that has passed the
-- tests. The map and the due tasks share their objects, so what marks the one marks the other.
pub data Turn : Type 0 where
  resting : Turn
  launching : List ScheduledTask → Turn
  checked : ScheduledTask → List ScheduledTask → Turn

abbrev pub is_resting : Turn → Bool
is_resting resting = true
is_resting _ = false

-- `semaphore` counts the slots in use, `active` has the goroutines that run a task, and `launched`
-- every launch so far, the last one first.
pub record Scheduler : Type 0 where
  pub max_concurrent_tasks : ℕ
  pub tasks : List ScheduledTask
  pub semaphore : ℕ
  pub active : List ℕ
  pub launched : List ℕ
  pub running : Bool
  pub shut : Bool
  pub next_id : ℕ
  pub woken : Bool
  pub turn : Turn

abbrev pub millisecond : ℕ
millisecond = 1000000

abbrev pub hour : ℕ
hour = 3600000000000

abbrev pub scheduler_min_delay : ℕ
scheduler_min_delay = 10 * millisecond

abbrev pub scheduler_idle_delay : ℕ
scheduler_idle_delay = 250 * millisecond

abbrev pub scheduler_max_delay : ℕ
scheduler_max_delay = 1000 * millisecond

abbrev pub a_year : ℕ
a_year = 365 * 24 * hour

abbrev pub is_one_time : ExecutionMode → Bool
is_one_time one_time = true
is_one_time _ = false

unfoldable pub new_scheduler : ℤ → ℕ → Scheduler
new_scheduler wanted num_cpu = record {
  max_concurrent_tasks = at_least_one (if is_zero wanted then pos num_cpu else wanted);
  tasks = [];
  semaphore = 0;
  active = [];
  launched = [];
  running = false;
  shut = false;
  next_id = 0;
  woken = false;
  turn = resting;
}
  where
    is_zero : ℤ → Bool
    is_zero (pos zero) = true
    is_zero _ = false

    at_least_one : ℤ → ℕ
    at_least_one n = if ltb_ℤ n (pos 1) then 1 else pos_part n

abbrev pub signal_wake : Scheduler → Scheduler
signal_wake s = record s { woken = true }

abbrev pub new_task : ℕ → ExecutionMode → ℕ → ScheduledTask
new_task id mode start = record {
  id = id;
  mode = mode;
  start_time = start;
  next_run = start;
  run_count = 0;
  marked_for_deletion = false;
}

-- `given` is false for a nil task.
unfoldable pub add_task : Bool → ExecutionMode → ℕ → Scheduler → Option SchedulerError × Scheduler
add_task given mode start s =
    if not given then (some nil_task, s) else if s.shut then (some scheduler_shutdown, s) else (
      none,
      signal_wake (record s {
        next_id = s.next_id + 1;
        tasks = new_task (s.next_id + 1) mode start ∷ s.tasks;
      }),
    )

abbrev pub change : ℕ → (ScheduledTask → ScheduledTask) → List ScheduledTask → List ScheduledTask
change id f [] = []
change id f (t ∷ ts) = (if t.id == id then f t else t) ∷ change id f ts

abbrev pub delete : ℕ → List ScheduledTask → List ScheduledTask
delete id [] = []
delete id (t ∷ ts) = let rest = delete id ts in if t.id == id then rest else t ∷ rest

abbrev pub has_task : ℕ → List ScheduledTask → Bool
has_task id [] = false
has_task id (t ∷ ts) = (t.id == id) || has_task id ts

abbrev pub mark : ScheduledTask → ScheduledTask
mark t = record t { marked_for_deletion = true }

abbrev pub mark_due : ℕ → Turn → Turn
mark_due id resting = resting
mark_due id (launching ts) = launching (change id mark ts)
mark_due id (checked t ts) = checked (if t.id == id then mark t else t) (change id mark ts)

unfoldable pub remove_task : ℕ → Scheduler → Option SchedulerError × Scheduler
remove_task id s = if not (has_task id s.tasks) then (some task_not_found, s) else (
  none,
  signal_wake (record s { tasks = change id mark s.tasks; turn = mark_due id s.turn }),
)

-- The loop over the map: it deletes the marked tasks and collects those that are due.
abbrev pub unmarked : List ScheduledTask → List ScheduledTask
unmarked [] = []
unmarked (t ∷ ts) = let rest = unmarked ts in if t.marked_for_deletion then rest else t ∷ rest

abbrev pub ready : ℕ → List ScheduledTask → List ScheduledTask
ready now [] = []
ready now (t ∷ ts) = let rest = ready now ts in if leb t.next_run now then t ∷ rest else rest

abbrev pub sooner : ℕ → Option ℕ → Option ℕ
sooner n none = some n
sooner n (some m) = if ltb n m then some n else some m

abbrev pub earliest : ℕ → List ScheduledTask → Option ℕ
earliest now [] = none
earliest now (t ∷ ts) =
    let rest = earliest now ts in if leb t.next_run now then rest else sooner t.next_run rest

abbrev pub not_again : ℕ → ScheduledTask → ScheduledTask
not_again now t = if is_one_time t.mode then record t { next_run = now + a_year } else t

-- A slot, a goroutine, and for a one-time task the mark that it is not due again.
abbrev pub acquire : ℕ → ScheduledTask → Scheduler → Scheduler
acquire now t s = record s {
  semaphore = s.semaphore + 1;
  active = t.id ∷ s.active;
  launched = t.id ∷ s.launched;
  tasks = change t.id (not_again now) s.tasks;
}

unfoldable pub launch_one : ℕ → ScheduledTask → Scheduler → Scheduler
launch_one now t s =
    if s.shut || t.marked_for_deletion
    then s
    else if ltb s.semaphore s.max_concurrent_tasks
    then acquire now t s
    else s

unfoldable pub launch : ℕ → List ScheduledTask → Scheduler → Scheduler
unfolding launch_one
launch now [] s = s
launch now (t ∷ ts) s = launch now ts (launch_one now t s)

abbrev pub is_empty : List ScheduledTask → Bool
is_empty [] = true
is_empty (t ∷ ts) = false

-- The wait before the next look, from the due tasks, the earliest other one and the time by then.
unfoldable pub next_delay : List ScheduledTask → Option ℕ → ℕ → ℕ
next_delay (t ∷ ts) first later = scheduler_min_delay
next_delay [] none later = scheduler_idle_delay
next_delay [] (some first) later =
    if not (ltb later first)
    then scheduler_min_delay
    else if ltb (first - later) scheduler_min_delay
    then scheduler_min_delay
    else if ltb scheduler_max_delay (first - later)
    then scheduler_max_delay
    else first - later

unfoldable pub execute_ready_tasks : ℕ → ℕ → Scheduler → ℕ × Scheduler
unfolding launch next_delay
execute_ready_tasks now later s =
    let kept = unmarked s.tasks in
    if s.shut then (scheduler_idle_delay, s) else (
      next_delay (ready now kept) (earliest now kept) later,
      launch now (ready now kept) (record s { tasks = kept }),
    )

-- The part of a turn under the lock.
unfoldable pub collect : ℕ → Scheduler → Scheduler
collect now s =
    if s.shut
    then s
    else record s { tasks = unmarked s.tasks; turn = launching (ready now (unmarked s.tasks)) }

abbrev pub check_turn : Turn → Scheduler → Scheduler
check_turn (launching []) s = record s { turn = resting }
check_turn (launching (t ∷ ts)) s =
    if s.shut
    then record s { turn = resting }
    else if t.marked_for_deletion
    then record s { turn = launching ts }
    else record s { turn = checked t ts }
check_turn _ s = s

-- The tests of the next due task, or the end of the turn.
unfoldable pub check : Scheduler → Scheduler
check s = check_turn s.turn s

abbrev pub launch_turn : ℕ → Turn → Scheduler → Scheduler
launch_turn now (checked t ts) s =
    if ltb s.semaphore s.max_concurrent_tasks
    then acquire now t (record s { turn = launching ts })
    else record s { turn = launching ts }
launch_turn now _ s = s

-- The launch of the task that has passed the tests.
unfoldable pub launch_checked : ℕ → Scheduler → Scheduler
launch_checked now s = launch_turn now s.turn s

-- `add_date t months days` is the calendar of the time package.
unfoldable pub calculate_next_run : (ℕ → ℕ → ℕ → ℕ) → ℕ → ExecutionMode → ℕ → ℕ → ℕ
calculate_next_run add_date start hourly run_count now = start + run_count * hour
calculate_next_run add_date start daily run_count now = add_date start 0 run_count
calculate_next_run add_date start weekly run_count now = add_date start 0 (7 * run_count)
calculate_next_run add_date start monthly run_count now = add_date start run_count 0
calculate_next_run add_date start one_time run_count now = now + a_year

-- What the end of a run makes of its task, if the map still has it: none deletes it.
unfoldable pub reschedule : (ℕ → ℕ → ℕ → ℕ) → ℕ → ScheduledTask → ScheduledTask
unfolding calculate_next_run
reschedule add_date now t = record t {
  run_count = t.run_count + 1;
  next_run = calculate_next_run add_date t.start_time t.mode (t.run_count + 1) now;
}

unfoldable pub after_run : (ℕ → ℕ → ℕ → ℕ) → ℕ → ℕ → List ScheduledTask → List ScheduledTask
unfolding reschedule
after_run add_date now id [] = []
after_run add_date now id (t ∷ ts) =
    let rest = after_run add_date now id ts in
    if not (t.id == id)
    then t ∷ rest
    else if is_one_time t.mode || t.marked_for_deletion
    then rest
    else reschedule add_date now t ∷ rest

abbrev pub drop_one : ℕ → List ℕ → List ℕ
drop_one id [] = []
drop_one id (n ∷ ns) = let rest = drop_one id ns in if n == id then ns else n ∷ rest

abbrev pub runs : ℕ → List ℕ → Bool
runs id [] = false
runs id (n ∷ ns) = (n == id) || runs id ns

-- The end of `executeTask`: the task, then the slot and the wait group.
unfoldable pub execute_task : (ℕ → ℕ → ℕ → ℕ) → ℕ → ℕ → Scheduler → Scheduler
unfolding after_run
execute_task add_date now id s =
    if runs id s.active
    then record s {
      tasks = after_run add_date now id s.tasks;
      semaphore = s.semaphore - 1;
      active = drop_one id s.active;
    }
    else s

unfoldable pub start : Scheduler → Option SchedulerError × Scheduler
start s =
    if s.running
    then (some already_running, s)
    else if s.shut
    then (some scheduler_shutdown, s)
    else (none, record s { running = true })

-- The loop of `Start` returns between turns, after its context ended and no task runs.
unfoldable pub stop : Scheduler → Scheduler
stop s = if is_resting s.turn && (length s.active == 0) then record s { running = false } else s

unfoldable pub shutdown : Scheduler → Option SchedulerError × Scheduler
shutdown s = if s.running then (some scheduler_running, s) else (none, record s { shut = true })

abbrev pub swap_at : ℕ → List ScheduledTask → List ScheduledTask
swap_at n [] = []
swap_at n (t ∷ []) = t ∷ []
swap_at zero (t ∷ u ∷ ts) = u ∷ t ∷ ts
swap_at (suc n) (t ∷ u ∷ ts) = t ∷ swap_at n (u ∷ ts)

-- `ticks` is a turn of the loop of `Start` by its timer, `wakes` one by the wake channel; `collects` begins a
-- turn by the wake channel or by the timer.
pub data Event : Type 0 where
  adds : Bool → ExecutionMode → ℕ → Event
  removes swaps : ℕ → Event
  ticks wakes finishes : ℕ → ℕ → Event
  collects : Bool → ℕ → Event
  launches : ℕ → Event
  checks starts stops shuts_down : Event

unfoldable pub step : (ℕ → ℕ → ℕ → ℕ) → Event → Scheduler → Scheduler
unfolding add_task remove_task execute_ready_tasks execute_task start stop shutdown collect check
    launch_checked
step add_date (adds given mode t) s = (add_task given mode t s).1
step add_date (removes id) s = (remove_task id s).1
step add_date (ticks now later) s =
    if s.running && is_resting s.turn then (execute_ready_tasks now later s).1 else s
step add_date (wakes now later) s =
    if s.running && is_resting s.turn && s.woken
    then (execute_ready_tasks now later (record s { woken = false })).1
    else s
step add_date (collects true now) s =
    if s.running && is_resting s.turn && s.woken
    then collect now (record s { woken = false })
    else s
step add_date (collects false now) s = if s.running && is_resting s.turn then collect now s else s
step add_date checks s = check s
step add_date (launches now) s = launch_checked now s
step add_date (finishes now id) s = execute_task add_date now id s
step add_date (swaps n) s = record s { tasks = swap_at n s.tasks }
step add_date starts s = (start s).1
step add_date stops s = stop s
step add_date shuts_down s = (shutdown s).1

unfoldable pub run : (ℕ → ℕ → ℕ → ℕ) → List Event → Scheduler → Scheduler
unfolding step
run add_date [] s = s
run add_date (e ∷ es) s = run add_date es (step add_date e s)
