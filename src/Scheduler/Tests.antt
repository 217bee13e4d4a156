-- ===== src/Scheduler/Tests.antt =====
-- Concrete schedules.
use sfpg_go.Base.{ℕ, ◌+◌, ◌*◌, ◌≡◌, ◌≤◌, ◌⊎◌, true, false, refl, List, [], ◌∷◌, arith}
use sfpg_go.Base.Int.{pos}
use sfpg_go.Scheduler.{
  Scheduler, resting, hourly, one_time, Event, adds, ticks, finishes, collects, launches, checks,
  starts, new_scheduler, remove_task, execute_ready_tasks, run, new_task, hour,
}
use sfpg_go.Scheduler.Bounds.{run-new_scheduler}
use sfpg_go.Scheduler.Removed.{launch_count, pending, remove_task_lem}
use sfpg_go.Scheduler.Delay.{IsBackFor, execute_ready_tasks-delay}
use sfpg_go.Scheduler.Tasks.{All}
use sfpg_go.Scheduler.Overlap.{only, ticks-ticks}

abbrev calendar : ℕ → ℕ → ℕ → ℕ
calendar t months days = t + (30 * months + days) * (24 * hour)

-- An hourly and a one-time task with one slot: the newer one goes first.
abbrev events : List Event
events =
    adds true hourly 5
    ∷ adds true one_time 7
    ∷ starts
    ∷ ticks 10 10
    ∷ finishes 11 2
    ∷ ticks 12 12
    ∷ finishes 13 1
    ∷ []

abbrev one_slot : Scheduler
one_slot = new_scheduler (pos 1) 8

launched_in_turn : (run calendar events one_slot).launched ≡ 1 ∷ 2 ∷ []
unfolding run new_scheduler
launched_in_turn = refl

next_hour :
    (run calendar events one_slot).tasks
    ≡ record (new_task 1 hourly 5) { next_run = 5 + 1 * hour; run_count = 1 } ∷ []
unfolding run new_scheduler
next_hour = refl

run-new_scheduler_example :
    (run calendar events one_slot).semaphore ≤ (run calendar events one_slot).max_concurrent_tasks
run-new_scheduler_example = (run-new_scheduler calendar (pos 1) 8 events).bounded

abbrev loaded : Scheduler
loaded = record {
  max_concurrent_tasks = 4;
  tasks = new_task 1 hourly 5 ∷ [];
  semaphore = 0;
  active = [];
  launched = [];
  running = true;
  shut = false;
  next_id = 1;
  woken = false;
  turn = resting;
}

-- The loop has found the hourly task unmarked, in the second hour.
abbrev caught : List Event
caught =
    adds true hourly 5
    ∷ adds true one_time 7
    ∷ starts
    ∷ ticks 10 10
    ∷ finishes 11 2
    ∷ collects false 12
    ∷ checks
    ∷ []

remove_task_lem_example :
    launch_count 1 (
      run calendar
        (launches 13 ∷ checks ∷ ticks 14 14 ∷ [])
        (remove_task 1 (run calendar caught one_slot)).1)
    ≤ launch_count 1 (run calendar caught one_slot) + pending 1 (run calendar caught one_slot).turn
unfolding remove_task run new_scheduler
remove_task_lem_example =
    remove_task_lem calendar (pos 1) 8 caught (launches 13 ∷ checks ∷ ticks 14 14 ∷ []) 1 refl

-- RemoveTask has accepted the task, and it is launched.
launched_though_removed :
    (run calendar (launches 13 ∷ []) (remove_task 1 (run calendar caught one_slot)).1).launched
    ≡ 1 ∷ 2 ∷ []
unfolding remove_task run new_scheduler
launched_though_removed = refl

-- The second look comes ten milliseconds later, and the hourly task is launched beside itself.
ticks-ticks_example :
    (run calendar
      (ticks 10 10 ∷ ticks 10000010 10000010 ∷ [])
      (only (new_task 1 hourly 5) loaded)).active
    ≡ 1 ∷ 1 ∷ []
ticks-ticks_example =
    ticks-ticks calendar (new_task 1 hourly 5) 10 10 10000010 10000010 loaded refl (omega arith)
      (omega arith) (omega arith) (omega arith)

execute_ready_tasks-delay_example :
    (10000000 ≤ (execute_ready_tasks 1 1 loaded).0)
    × ((execute_ready_tasks 1 1 loaded).0 ≤ 1000000000)
    × ((false ≡ true) ⊎ All (IsBackFor 1 1 (execute_ready_tasks 1 1 loaded).0) loaded.tasks)
execute_ready_tasks-delay_example = execute_ready_tasks-delay 1 1 loaded
