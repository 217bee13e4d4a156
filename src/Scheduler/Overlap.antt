-- ===== src/Scheduler/Overlap.antt =====
-- A task that is due while its last run is not over.
use sfpg_go.Base.{
  ℕ, ◌+◌, ◌≡◌, ◌≤◌, ◌<◌, ap, ◌∙◌, true, false, List, [], ◌∷◌, ◌==◌, le→leb, lt→leb, lt→ltb,
  if◌then◌else◌, if_both, arith,
}
use sfpg_go.Scheduler.{
  ScheduledTask, Scheduler, is_one_time, not_again, acquire, launch_one, launch,
  execute_ready_tasks, resting, ticks, step, run, a_year,
}

-- A started scheduler with one task, between turns.
abbrev pub only : ScheduledTask → Scheduler → Scheduler
only t s = record s { tasks = t ∷ []; running = true; shut = false; turn = resting }

-- The state that a tick leaves when the only task is due and a slot is free.
tick_launches :
    (add_date : ℕ → ℕ → ℕ → ℕ) (t : ScheduledTask) (now later : ℕ) (s : Scheduler)
    → t.marked_for_deletion ≡ false
    → t.next_run ≤ now
    → s.semaphore < s.max_concurrent_tasks
    → step add_date (ticks now later) (only t s) ≡ acquire now t (only t s)
unfolding step execute_ready_tasks launch launch_one
tick_launches add_date t now later s m due room =
    rw (m, le→leb t.next_run now due, lt→ltb s.semaphore s.max_concurrent_tasks room)

tick_passes :
    (add_date : ℕ → ℕ → ℕ → ℕ) (t : ScheduledTask) (now later : ℕ) (s : Scheduler)
    → t.marked_for_deletion ≡ false
    → now < t.next_run
    → (step add_date (ticks now later) (only t s)).active ≡ s.active
unfolding step execute_ready_tasks launch launch_one
tick_passes add_date t now later s m due = rw (m, lt→leb t.next_run now due)

acquired :
    (now : ℕ) (t : ScheduledTask) (s : Scheduler)
    → acquire now t (only t s)
      ≡ only (not_again now t) (record s {
        semaphore = s.semaphore + 1;
        active = t.id ∷ s.active;
        launched = t.id ∷ s.launched;
      })
acquired now t s =
    ap
      (λ b. record s {
        tasks = (if b then not_again now t else t) ∷ [];
        running = true;
        shut = false;
        turn = resting;
        semaphore = s.semaphore + 1;
        active = t.id ∷ s.active;
        launched = t.id ∷ s.launched;
      })
      (same t.id)
  where
    same : (n : ℕ) → (n == n) ≡ true
    same n = ground arith

-- Two ticks while the only task is due, unmarked and not ended, with slots free: a one-time task runs
-- once, if the second tick is less than a year later, but a recurring task runs twice at the same time.
pub ticks-ticks :
    (add_date : ℕ → ℕ → ℕ → ℕ) (t : ScheduledTask) (now later now' later' : ℕ) (s : Scheduler)
    → t.marked_for_deletion ≡ false
    → t.next_run ≤ now
    → now ≤ now'
    → now' < now + a_year
    → s.semaphore + 1 < s.max_concurrent_tasks
    → (run add_date (ticks now later ∷ ticks now' later' ∷ []) (only t s)).active
      ≡ (if is_one_time t.mode then t.id ∷ s.active else t.id ∷ t.id ∷ s.active)
unfolding run
ticks-ticks add_date t now later now' later' s m due order soon room =
    let s1 = record s {
      semaphore = s.semaphore + 1;
      active = t.id ∷ s.active;
      launched = t.id ∷ s.launched;
    } in
    ap (λ (x : Scheduler). (step add_date (ticks now' later') x).active)
      (tick_launches add_date t now later s m due (omega arith) ∙ acquired now t s)
    ∙ if_both
        (λ (u : ScheduledTask) (l : List ℕ).
          (step add_date (ticks now' later') (only u s1)).active ≡ l)
        (is_one_time t.mode)
        (λ e. tick_passes add_date (record t { next_run = now + a_year }) now' later' s1 m soon)
        (λ e.
          ap (λ (x : Scheduler). x.active)
            (tick_launches add_date t now' later' s1 m (omega arith) room))
