-- ===== src/Scheduler/Bounds.antt =====
-- The slots in use, and the times of the recurring tasks.
use sfpg_go.Base.{
  ℕ, ◌+◌, ◌*◌, ◌-◌, ◌≡◌, ◌≢◌, ◌≤◌, ◌<◌, refl, sym, ap, ◌∙◌, Bool, true, false, ◌&&◌, ◌||◌, not,
  List, [], ◌∷◌, ◌==◌, ltb, ltb→lt, if◌then◌else◌, if_split, arith, length, Option,
}
use sfpg_go.Base.Int.{ℤ}
use sfpg_go.Scheduler.{
  ScheduledTask, Scheduler, SchedulerError, has_task, unmarked, ready, reschedule, is_one_time,
  one_time, hourly, daily, weekly, monthly, not_again, new_task, runs, new_scheduler, add_task,
  remove_task, acquire, launch_one, launch, execute_ready_tasks, calculate_next_run, execute_task,
  Turn, resting, launching, checked, is_resting, collect, check, check_turn, launch_checked,
  launch_turn, collects, checks, launches, start, stop, shutdown, Event, adds, removes, ticks,
  wakes, finishes, swaps, starts, stops, shuts_down, step, run, ExecutionMode,
}
use sfpg_go.Scheduler.Tasks.{
  All, All-nil, All-cons, All-unmarked, All-change, All-after_run, All-swap_at, length-drop_one,
}

module _ (add_date : ℕ → ℕ → ℕ → ℕ) where
  -- The time of run `n` of a task, counted from 0: hours are of fixed length, days and months are the
  -- calendar's, and a task that runs once has its start alone.
  abbrev pub due : ExecutionMode → ℕ → ℕ → ℕ
  due hourly n begin = begin + n * 3600000000000
  due daily n begin = add_date begin 0 n
  due weekly n begin = add_date begin 0 (7 * n)
  due monthly n begin = add_date begin n 0
  due one_time n begin = begin

  calculate_next_run-due :
      (mode : ExecutionMode) (begin now n : ℕ)
      → is_one_time mode ≡ false
      → calculate_next_run add_date begin mode n now ≡ due mode n begin
  unfolding calculate_next_run
  calculate_next_run-due one_time begin now n h = ground arith
  calculate_next_run-due hourly begin now n h = refl
  calculate_next_run-due daily begin now n h = refl
  calculate_next_run-due weekly begin now n h = refl
  calculate_next_run-due monthly begin now n h = refl

  -- A recurring task is due at its start, or as many periods later as it has run.
  abbrev pub OnTime : ScheduledTask → Type 0
  OnTime t =
      is_one_time t.mode ≡ false
      → t.next_run
        ≡ (if t.run_count == 0 then t.start_time else due t.mode t.run_count t.start_time)

  pub record IsSound (s : Scheduler) : Type 0 where
    pub counted : s.semaphore ≡ length s.active
    pub bounded : s.semaphore ≤ s.max_concurrent_tasks
    pub on_time : All OnTime s.tasks

  positive : (n : ℕ) → (n + 1 == 0) ≢ true
  positive n e = ground arith

  not_again-OnTime : (now : ℕ) (t : ScheduledTask) → OnTime t → OnTime (not_again now t)
  not_again-OnTime now t h =
      if_split OnTime (is_one_time t.mode) (λ e m. absurd (both e m)) (λ e. h)
    where
      both : {b : Bool} → b ≡ true → b ≢ false
      both e m = ground arith

  reschedule-OnTime :
      (now : ℕ) (t : ScheduledTask)
      → is_one_time t.mode ≡ false
      → OnTime t
      → OnTime (reschedule add_date now t)
  unfolding reschedule
  reschedule-OnTime now t r h m =
      if_split (λ n. calculate_next_run add_date t.start_time t.mode (t.run_count + 1) now ≡ n)
        (t.run_count + 1 == 0) (λ e. absurd (positive t.run_count e))
        (λ e. calculate_next_run-due t.mode t.start_time now (t.run_count + 1) m)

  acquire-IsSound :
      (now : ℕ) (t : ScheduledTask) (s : Scheduler)
      → s.semaphore < s.max_concurrent_tasks
      → IsSound s
      → IsSound (acquire now t s)
  acquire-IsSound now t s room v = record {
    counted = omega (arith, v.counted);
    bounded = omega arith;
    on_time = All-change OnTime t.id (not_again now) s.tasks (not_again-OnTime now) v.on_time;
  }

  launch_one-IsSound :
      (now : ℕ) (t : ScheduledTask) (s : Scheduler) → IsSound s → IsSound (launch_one now t s)
  unfolding launch_one
  launch_one-IsSound now t s v =
      if_split IsSound (s.shut || t.marked_for_deletion) (λ e. v)
        (λ e.
          if_split IsSound (ltb s.semaphore s.max_concurrent_tasks)
            (λ e'. acquire-IsSound now t s (ltb→lt _ _ e') v) (λ e'. v))

  launch-IsSound :
      (now : ℕ) (ts : List ScheduledTask) (s : Scheduler) → IsSound s → IsSound (launch now ts s)
  unfolding launch
  launch-IsSound now [] s v = v
  launch-IsSound now (t ∷ ts) s v =
      launch-IsSound now ts (launch_one now t s) (launch_one-IsSound now t s v)

  execute_ready_tasks-IsSound :
      (now later : ℕ) (s : Scheduler) → IsSound s → IsSound (execute_ready_tasks now later s).1
  unfolding execute_ready_tasks
  execute_ready_tasks-IsSound now later s v =
      if_split (λ (r : ℕ × Scheduler). IsSound r.1) s.shut (λ e. v)
        (λ e.
          launch-IsSound now (ready now (unmarked s.tasks)) (record s { tasks = unmarked s.tasks })
            (record {
              counted = v.counted;
              bounded = v.bounded;
              on_time = All-unmarked OnTime s.tasks v.on_time;
            }))

  execute_task-IsSound :
      (now id : ℕ) (s : Scheduler) → IsSound s → IsSound (execute_task add_date now id s)
  unfolding execute_task
  execute_task-IsSound now id s v =
      if_split IsSound (runs id s.active)
        (λ e. record {
          counted = ap (λ n. n - 1) v.counted ∙ sym (length-drop_one id s.active e);
          bounded = omega (arith, v.bounded);
          on_time = All-after_run OnTime add_date now id s.tasks (reschedule-OnTime now) v.on_time;
        })
        (λ e. v)

  -- The same counts and tasks.
  same-IsSound :
      (s t : Scheduler)
      → t.semaphore ≡ s.semaphore
      → t.active ≡ s.active
      → t.max_concurrent_tasks ≡ s.max_concurrent_tasks
      → All OnTime t.tasks
      → IsSound s
      → IsSound t
  same-IsSound s t a b c h v = record {
    counted = a ∙ v.counted ∙ ap length (sym b);
    bounded = omega (arith, v.bounded);
    on_time = h;
  }

  add_task-IsSound :
      (given : Bool) (mode : ExecutionMode) (t : ℕ) (s : Scheduler)
      → IsSound s
      → IsSound (add_task given mode t s).1
  unfolding add_task
  add_task-IsSound given mode t s v =
      if_split (λ (r : Option SchedulerError × Scheduler). IsSound r.1) (not given) (λ e. v)
        (λ e.
          if_split (λ (r : Option SchedulerError × Scheduler). IsSound r.1) s.shut (λ e'. v)
            (λ e'. record {
              counted = v.counted;
              bounded = v.bounded;
              on_time =
                  All-cons OnTime (new_task (s.next_id + 1) mode t) s.tasks (λ m. refl) v.on_time;
            }))

  remove_task-IsSound : (id : ℕ) (s : Scheduler) → IsSound s → IsSound (remove_task id s).1
  unfolding remove_task
  remove_task-IsSound id s v =
      if_split (λ (r : Option SchedulerError × Scheduler). IsSound r.1) (not (has_task id s.tasks))
        (λ e. v)
        (λ e. record {
          counted = v.counted;
          bounded = v.bounded;
          on_time = All-change OnTime id _ s.tasks (λ t h. h) v.on_time;
        })

  collect-IsSound : (now : ℕ) (s : Scheduler) → IsSound s → IsSound (collect now s)
  unfolding collect
  collect-IsSound now s v =
      if_split IsSound s.shut (λ e. v)
        (λ e. record {
          counted = v.counted;
          bounded = v.bounded;
          on_time = All-unmarked OnTime s.tasks v.on_time;
        })

  -- Only the turn is another one.
  turned : (s : Scheduler) (u : Turn) → IsSound s → IsSound (record s { turn = u })
  turned s u v = record { counted = v.counted; bounded = v.bounded; on_time = v.on_time }

  check-IsSound : (u : Turn) (s : Scheduler) → IsSound s → IsSound (check_turn u s)
  check-IsSound resting s v = v
  check-IsSound (launching []) s v = turned s resting v
  check-IsSound (launching (t ∷ ts)) s v =
      if_split IsSound s.shut (λ e. turned s resting v)
        (λ e.
          if_split IsSound t.marked_for_deletion (λ e'. turned s (launching ts) v)
            (λ e'. turned s (checked t ts) v))
  check-IsSound (checked t ts) s v = v

  launch_checked-IsSound :
      (now : ℕ) (u : Turn) (s : Scheduler) → IsSound s → IsSound (launch_turn now u s)
  launch_checked-IsSound now resting s v = v
  launch_checked-IsSound now (launching ts) s v = v
  launch_checked-IsSound now (checked t ts) s v =
      if_split IsSound (ltb s.semaphore s.max_concurrent_tasks)
        (λ e.
          acquire-IsSound now t (record s { turn = launching ts })
            (ltb→lt s.semaphore s.max_concurrent_tasks e) (turned s (launching ts) v))
        (λ e. turned s (launching ts) v)

  pub step-IsSound : (e : Event) (s : Scheduler) → IsSound s → IsSound (step add_date e s)
  unfolding step start stop shutdown check launch_checked
  step-IsSound (adds given mode t) s v = add_task-IsSound given mode t s v
  step-IsSound (removes id) s v = remove_task-IsSound id s v
  step-IsSound (ticks now later) s v =
      if_split IsSound (s.running && is_resting s.turn)
        (λ e. execute_ready_tasks-IsSound now later s v) (λ e. v)
  step-IsSound (wakes now later) s v =
      if_split IsSound (s.running && is_resting s.turn && s.woken)
        (λ e.
          execute_ready_tasks-IsSound now later (record s { woken = false })
            (record { counted = v.counted; bounded = v.bounded; on_time = v.on_time }))
        (λ e. v)
  step-IsSound (collects true now) s v =
      if_split IsSound (s.running && is_resting s.turn && s.woken)
        (λ e.
          collect-IsSound now (record s { woken = false })
            (record { counted = v.counted; bounded = v.bounded; on_time = v.on_time }))
        (λ e. v)
  step-IsSound (collects false now) s v =
      if_split IsSound (s.running && is_resting s.turn) (λ e. collect-IsSound now s v) (λ e. v)
  step-IsSound checks s v = check-IsSound s.turn s v
  step-IsSound (launches now) s v = launch_checked-IsSound now s.turn s v
  step-IsSound (finishes now id) s v = execute_task-IsSound now id s v
  step-IsSound (swaps n) s v = record {
    counted = v.counted;
    bounded = v.bounded;
    on_time = All-swap_at OnTime n s.tasks v.on_time;
  }
  step-IsSound starts s v =
      if_split (λ (r : Option SchedulerError × Scheduler). IsSound r.1) s.running (λ e. v)
        (λ e.
          if_split (λ (r : Option SchedulerError × Scheduler). IsSound r.1) s.shut (λ e'. v)
            (λ e'. record { counted = v.counted; bounded = v.bounded; on_time = v.on_time }))
  step-IsSound stops s v =
      if_split IsSound (is_resting s.turn && (length s.active == 0))
        (λ e. record { counted = v.counted; bounded = v.bounded; on_time = v.on_time }) (λ e. v)
  step-IsSound shuts_down s v =
      if_split (λ (r : Option SchedulerError × Scheduler). IsSound r.1) s.running (λ e. v)
        (λ e. record { counted = v.counted; bounded = v.bounded; on_time = v.on_time })

  run-IsSound : (es : List Event) (s : Scheduler) → IsSound s → IsSound (run add_date es s)
  unfolding run
  run-IsSound [] s v = v
  run-IsSound (e ∷ es) s v = run-IsSound es (step add_date e s) (step-IsSound e s v)

-- Whatever happens to a new scheduler, the slots in use are the runs in progress, no more than its
-- maximum, and every recurring task that the map holds is due at its start time, or exactly as many
-- periods after it as it has run.
pub run-new_scheduler :
    (add_date : ℕ → ℕ → ℕ → ℕ) (wanted : ℤ) (num_cpu : ℕ) (es : List Event)
    → IsSound add_date (run add_date es (new_scheduler wanted num_cpu))
unfolding new_scheduler
run-new_scheduler add_date wanted num_cpu es =
    run-IsSound add_date es (new_scheduler wanted num_cpu)
      (record { counted = refl; bounded = omega arith; on_time = All-nil (OnTime add_date) })
