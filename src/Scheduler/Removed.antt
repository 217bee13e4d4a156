-- ===== src/Scheduler/Removed.antt =====
-- What happens to a removed task.
use sfpg_go.Base.{
  ℕ, ◌+◌, ◌≡◌, ◌≢◌, ◌≤◌, refl, ap, ◌∙◌, Bool, true, false, ◌&&◌, ◌||◌, not, List, [], ◌∷◌, ◌==◌,
  ltb, if_split, arith, length, subst, Bool-cases, inl, inr, Option, none, hit, count, count-cons,
}
use sfpg_go.Base.Int.{ℤ}
use sfpg_go.Scheduler.{
  Turn, resting, launching, checked, is_resting, mark, mark_due, signal_wake, collect, check,
  check_turn, launch_checked, launch_turn, collects, checks, launches, new_scheduler, ScheduledTask,
  Scheduler, SchedulerError, change, has_task, unmarked, ready, reschedule, is_one_time, not_again,
  new_task, runs, add_task, remove_task, launch_one, launch, execute_ready_tasks, execute_task,
  start, stop, shutdown, Event, adds, removes, ticks, wakes, finishes, swaps, starts, stops,
  shuts_down, step, run, ExecutionMode,
}
use sfpg_go.Scheduler.Issued.{Issued, run-new_scheduler-AreIssued}
use sfpg_go.Scheduler.Tasks.{
  All, All-cons, All-unmarked, All-ready, All-change, All-after_run, All-swap_at,
}

abbrev pub Marked : ℕ → ScheduledTask → Type 0
Marked id t = (t.id == id) ≡ true → t.marked_for_deletion ≡ true

-- The due tasks that the loop has yet to test.
abbrev pub due : Turn → List ScheduledTask
due resting = []
due (launching ts) = ts
due (checked t ts) = ts

-- The launches of the task that have passed their tests: one or none.
abbrev pub pending : ℕ → Turn → ℕ
pending id (checked t ts) = hit (t.id == id)
pending id _ = 0

-- The identifier is not to be used again, and its task is marked or gone.
pub record IsGone (id : ℕ) (s : Scheduler) : Type 0 where
  pub issued : id ≤ s.next_id
  pub marked : All (Marked id) s.tasks
  pub due_marked : All (Marked id) (due s.turn)

abbrev pub launch_count : ℕ → Scheduler → ℕ
launch_count id s = count (λ n. n == id) s.launched

-- What a step does that launches no such task and does not touch the turn.
abbrev Quiet : ℕ → Scheduler → Scheduler → Type 0
Quiet id s t = IsGone id t × (launch_count id t ≡ launch_count id s) × (t.turn ≡ s.turn)

-- No launch but one that has passed its tests.
abbrev Stays : ℕ → Scheduler → Scheduler → Type 0
Stays id s t =
    IsGone id t × (launch_count id t + pending id t.turn ≤ launch_count id s + pending id s.turn)

module _ (id : ℕ) where
  not_again-Marked : (now : ℕ) (t : ScheduledTask) → Marked id t → Marked id (not_again now t)
  not_again-Marked now t h = if_split (Marked id) (is_one_time t.mode) (λ e. h) (λ e. h)

  other :
      (t : ScheduledTask) (s : Scheduler)
      → Marked id t
      → (s.shut || t.marked_for_deletion) ≡ false
      → count (λ n. n == id) (t.id ∷ s.launched) ≡ launch_count id s
  other t s m e = elim (Bool-cases (t.id == id)) [
    | inl x ↦ absurd (contrary s.shut t.marked_for_deletion (m x) e)
    | inr x ↦ omega (arith, count-cons (λ n. n == id) t.id s.launched, ap hit x)
  ]
    where
      contrary : (a b : Bool) → b ≡ true → (a || b) ≢ false
      contrary a b x y = ground arith

  launch_one-Quiet :
      (now : ℕ) (t : ScheduledTask) (s : Scheduler)
      → Marked id t
      → IsGone id s
      → Quiet id s (launch_one now t s)
  unfolding launch_one
  launch_one-Quiet now t s m v =
      if_split (Quiet id s) (s.shut || t.marked_for_deletion) (λ e. (v, refl, refl))
        (λ e.
          if_split (Quiet id s) (ltb s.semaphore s.max_concurrent_tasks)
            (λ e'. (
              record {
                issued = v.issued;
                marked =
                    All-change (Marked id) t.id (not_again now) s.tasks (not_again-Marked now)
                      v.marked;
                due_marked = v.due_marked;
              },
              other t s m e,
              refl,
            ))
            (λ e'. (v, refl, refl)))

  launch-Quiet :
      (now : ℕ) (ts : List ScheduledTask) (s : Scheduler)
      → All (Marked id) ts
      → IsGone id s
      → Quiet id s (launch now ts s)
  unfolding launch All
  launch-Quiet now [] s a v = (v, refl, refl)
  launch-Quiet now (t ∷ ts) s (p, ps) v =
      let (w, e, u) = launch_one-Quiet now t s p v in
      let (w', e', u') = launch-Quiet now ts (launch_one now t s) ps w in (w', e' ∙ e, u' ∙ u)

  execute_ready_tasks-Quiet :
      (now later : ℕ) (s : Scheduler) → IsGone id s → Quiet id s (execute_ready_tasks now later s).1
  unfolding execute_ready_tasks
  execute_ready_tasks-Quiet now later s v =
      let kept = All-unmarked (Marked id) s.tasks v.marked in
      if_split (λ (r : ℕ × Scheduler). Quiet id s r.1) s.shut (λ e. (v, refl, refl))
        (λ e.
          launch-Quiet now (ready now (unmarked s.tasks)) (record s { tasks = unmarked s.tasks })
            (All-ready (Marked id) now (unmarked s.tasks) kept)
            (record { issued = v.issued; marked = kept; due_marked = v.due_marked }))

  add_task-Quiet :
      (given : Bool) (mode : ExecutionMode) (t : ℕ) (s : Scheduler)
      → IsGone id s
      → Quiet id s (add_task given mode t s).1
  unfolding add_task
  add_task-Quiet given mode t s v =
      if_split (λ (r : Option SchedulerError × Scheduler). Quiet id s r.1) (not given)
        (λ e. (v, refl, refl))
        (λ e.
          if_split (λ (r : Option SchedulerError × Scheduler). Quiet id s r.1) s.shut
            (λ e'. (v, refl, refl))
            (λ e'. (
              record {
                issued = omega (arith, v.issued);
                marked =
                    All-cons (Marked id) (new_task (s.next_id + 1) mode t) s.tasks
                      (λ m. absurd (apart s.next_id v.issued m)) v.marked;
                due_marked = v.due_marked;
              },
              refl,
              refl,
            )))
    where
      apart : (n : ℕ) → id ≤ n → (n + 1 == id) ≢ true
      apart n h m = ground arith

  mark_due-due :
      (other_id : ℕ) (u : Turn)
      → All (Marked id) (due u)
      → All (Marked id) (due (mark_due other_id u))
  mark_due-due other_id resting a = a
  mark_due-due other_id (launching ts) a = All-change (Marked id) other_id mark ts (λ t h m. refl) a
  mark_due-due other_id (checked t ts) a = All-change (Marked id) other_id mark ts (λ t h m. refl) a

  mark_due-pending : (other_id : ℕ) (u : Turn) → pending id (mark_due other_id u) ≡ pending id u
  mark_due-pending other_id resting = refl
  mark_due-pending other_id (launching ts) = refl
  mark_due-pending other_id (checked t ts) =
      if_split (λ (x : ScheduledTask). hit (x.id == id) ≡ hit (t.id == id)) (t.id == other_id)
        (λ e. refl) (λ e. refl)

  remove_task-Stays :
      (other_id : ℕ) (s : Scheduler) → IsGone id s → Stays id s (remove_task other_id s).1
  unfolding remove_task
  remove_task-Stays other_id s v =
      if_split (λ (r : Option SchedulerError × Scheduler). Stays id s r.1)
        (not (has_task other_id s.tasks)) (λ e. (v, omega arith))
        (λ e. (
          record {
            issued = v.issued;
            marked = All-change (Marked id) other_id mark s.tasks (λ t h m. refl) v.marked;
            due_marked = mark_due-due other_id s.turn v.due_marked;
          },
          omega (arith, mark_due-pending other_id s.turn),
        ))

  quiet-Stays : (s t : Scheduler) → Quiet id s t → Stays id s t
  quiet-Stays s t (g, e, u) = (g, omega (arith, e, ap (pending id) u))

  collect-Stays : (now : ℕ) (s : Scheduler) → IsGone id s → Stays id s (collect now s)
  unfolding collect
  collect-Stays now s v =
      let kept = All-unmarked (Marked id) s.tasks v.marked in
      if_split (Stays id s) s.shut (λ e. (v, omega arith))
        (λ e. (
          record {
            issued = v.issued;
            marked = kept;
            due_marked = All-ready (Marked id) now (unmarked s.tasks) kept;
          },
          omega arith,
        ))

  -- A task that passes the test of its mark is another one.
  passed : (t : ScheduledTask) → Marked id t → t.marked_for_deletion ≡ false → hit (t.id == id) ≡ 0
  passed t m e = elim (Bool-cases (t.id == id)) [
    | inl x ↦ absurd (contrary t.marked_for_deletion (m x) e)
    | inr x ↦ ap hit x
  ]
    where
      contrary : (b : Bool) → b ≡ true → b ≢ false
      contrary b x y = ground arith

  check-Stays : (u : Turn) (s : Scheduler) → s.turn ≡ u → IsGone id s → Stays id s (check_turn u s)
  unfolding All
  check-Stays resting s eq v = (v, omega arith)
  check-Stays (launching []) s eq v =
      (record { issued = v.issued; marked = v.marked; due_marked = tt }, omega arith)
  check-Stays (launching (t ∷ ts)) s eq v =
      let all : All (Marked id) (t ∷ ts) = subst (λ u. All (Marked id) (due u)) eq v.due_marked in
      if_split (Stays id s) s.shut
        (λ e. (record { issued = v.issued; marked = v.marked; due_marked = tt }, omega arith))
        (λ e.
          if_split (Stays id s) t.marked_for_deletion
            (λ e'.
              (record { issued = v.issued; marked = v.marked; due_marked = all.1 }, omega arith))
            (λ e'. (
              record { issued = v.issued; marked = v.marked; due_marked = all.1 },
              omega (arith, passed t all.0 e'),
            )))
  check-Stays (checked t ts) s eq v = (v, omega arith)

  launch_checked-Stays :
      (now : ℕ) (u : Turn) (s : Scheduler)
      → s.turn ≡ u
      → IsGone id s
      → Stays id s (launch_turn now u s)
  launch_checked-Stays now resting s eq v = (v, omega arith)
  launch_checked-Stays now (launching ts) s eq v = (v, omega arith)
  launch_checked-Stays now (checked t ts) s eq v =
      let all : All (Marked id) ts = subst (λ u. All (Marked id) (due u)) eq v.due_marked in
      if_split (Stays id s) (ltb s.semaphore s.max_concurrent_tasks)
        (λ e. (
          record {
            issued = v.issued;
            marked =
                All-change (Marked id) t.id (not_again now) s.tasks (not_again-Marked now) v.marked;
            due_marked = all;
          },
          omega (arith, count-cons (λ n. n == id) t.id s.launched, ap (pending id) eq),
        ))
        (λ e. (record { issued = v.issued; marked = v.marked; due_marked = all }, omega arith))

  module _ (add_date : ℕ → ℕ → ℕ → ℕ) where
    execute_task-Quiet :
        (now other_id : ℕ) (s : Scheduler)
        → IsGone id s
        → Quiet id s (execute_task add_date now other_id s)
    unfolding execute_task reschedule
    execute_task-Quiet now other_id s v =
        if_split (Quiet id s) (runs other_id s.active)
          (λ e. (
            record {
              issued = v.issued;
              marked =
                  All-after_run (Marked id) add_date now other_id s.tasks (λ t o h. h) v.marked;
              due_marked = v.due_marked;
            },
            refl,
            refl,
          ))
          (λ e. (v, refl, refl))

    execute_task-Stays :
        (now other_id : ℕ) (s : Scheduler)
        → IsGone id s
        → Stays id s (execute_task add_date now other_id s)
    execute_task-Stays now other_id s v =
        quiet-Stays s (execute_task add_date now other_id s) (execute_task-Quiet now other_id s v)

    turn-Stays :
        (now later : ℕ) (s : Scheduler)
        → IsGone id s
        → Stays id s (execute_ready_tasks now later s).1
    turn-Stays now later s v =
        quiet-Stays s (execute_ready_tasks now later s).1 (execute_ready_tasks-Quiet now later s v)

    -- The flags of the scheduler do not matter.
    flagged :
        (s : Scheduler) (a b c : Bool)
        → IsGone id s
        → Stays id s (record s { running = a; shut = b; woken = c })
    flagged s a b c v =
        (record { issued = v.issued; marked = v.marked; due_marked = v.due_marked }, omega arith)

    step-Stays : (e : Event) (s : Scheduler) → IsGone id s → Stays id s (step add_date e s)
    unfolding step start stop shutdown check launch_checked
    step-Stays (adds given mode t) s v =
        quiet-Stays s (add_task given mode t s).1 (add_task-Quiet given mode t s v)
    step-Stays (removes other_id) s v = remove_task-Stays other_id s v
    step-Stays (ticks now later) s v =
        if_split (Stays id s) (s.running && is_resting s.turn) (λ e. turn-Stays now later s v)
          (λ e. (v, omega arith))
    step-Stays (wakes now later) s v =
        if_split (Stays id s) (s.running && is_resting s.turn && s.woken)
          (λ e.
            turn-Stays now later (record s { woken = false })
              (flagged s s.running s.shut false v).0)
          (λ e. (v, omega arith))
    step-Stays (collects true now) s v =
        if_split (Stays id s) (s.running && is_resting s.turn && s.woken)
          (λ e.
            collect-Stays now (record s { woken = false }) (flagged s s.running s.shut false v).0)
          (λ e. (v, omega arith))
    step-Stays (collects false now) s v =
        if_split (Stays id s) (s.running && is_resting s.turn) (λ e. collect-Stays now s v)
          (λ e. (v, omega arith))
    step-Stays checks s v = check-Stays s.turn s refl v
    step-Stays (launches now) s v = launch_checked-Stays now s.turn s refl v
    step-Stays (finishes now other_id) s v = execute_task-Stays now other_id s v
    step-Stays (swaps n) s v = (
      record {
        issued = v.issued;
        marked = All-swap_at (Marked id) n s.tasks v.marked;
        due_marked = v.due_marked;
      },
      omega arith,
    )
    step-Stays starts s v =
        if_split (λ (r : Option SchedulerError × Scheduler). Stays id s r.1) s.running
          (λ e. (v, omega arith))
          (λ e.
            if_split (λ (r : Option SchedulerError × Scheduler). Stays id s r.1) s.shut
              (λ e'. (v, omega arith)) (λ e'. flagged s true s.shut s.woken v))
    step-Stays stops s v =
        if_split (Stays id s) (is_resting s.turn && (length s.active == 0))
          (λ e. flagged s false s.shut s.woken v) (λ e. (v, omega arith))
    step-Stays shuts_down s v =
        if_split (λ (r : Option SchedulerError × Scheduler). Stays id s r.1) s.running
          (λ e. (v, omega arith)) (λ e. flagged s s.running true s.woken v)

    run-Stays : (es : List Event) (s : Scheduler) → IsGone id s → Stays id s (run add_date es s)
    unfolding run
    run-Stays [] s v = (v, omega arith)
    run-Stays (e ∷ es) s v =
        let (w, x) = step-Stays e s v in
        let (w', x') = run-Stays es (step add_date e s) w in (w', omega (arith, x, x'))

  change-Marked : (ts : List ScheduledTask) → All (Marked id) (change id mark ts)
  unfolding All
  change-Marked [] = tt
  change-Marked (t ∷ ts) =
      (if_split (Marked id) (t.id == id) (λ e m. refl) (λ e m. absurd (both m e)), change-Marked ts)
    where
      both : {b : Bool} → b ≡ true → b ≢ false
      both x y = ground arith

  due-Marked : (u : Turn) → All (Marked id) (due (mark_due id u))
  unfolding All
  due-Marked resting = tt
  due-Marked (launching ts) = change-Marked ts
  due-Marked (checked t ts) = change-Marked ts

  has_task-Issued :
      (n : ℕ) (ts : List ScheduledTask) → has_task id ts ≡ true → All (Issued n) ts → id ≤ n
  unfolding All
  has_task-Issued n [] h a = ground arith
  has_task-Issued n (t ∷ ts) h (p, ps) = let ih = has_task-Issued n ts in ground (arith, ps)

removed_stays :
    (add_date : ℕ → ℕ → ℕ → ℕ) (id : ℕ) (s : Scheduler) (es : List Event)
    → All (Issued s.next_id) s.tasks
    → (remove_task id s).0 ≡ none
    → launch_count id (run add_date es (remove_task id s).1) ≤ launch_count id s + pending id s.turn
unfolding remove_task
removed_stays add_date id s es a =
    if_split
      (λ (r : Option SchedulerError × Scheduler).
        r.0 ≡ none → launch_count id (run add_date es r.1) ≤ launch_count id s + pending id s.turn)
      (not (has_task id s.tasks)) (λ e h. ground arith)
      (λ e h.
        let marked =
          signal_wake (record s { tasks = change id mark s.tasks; turn = mark_due id s.turn }) in
        let (v, x) = run-Stays id add_date es marked (record {
          issued = has_task-Issued id s.next_id s.tasks (ground arith) a;
          marked = change-Marked id s.tasks;
          due_marked = due-Marked id s.turn;
        }) in
        omega (arith, x, mark_due-pending id id s.turn))

-- After any history of a new scheduler: once RemoveTask has accepted the identifier of a task, nothing that
-- happens later launches it again, with one exception: if the loop had then just found the task unmarked and
-- not yet launched it, this one launch may follow.
pub remove_task_lem :
    (add_date : ℕ → ℕ → ℕ → ℕ) (wanted : ℤ) (num_cpu : ℕ) (before after : List Event) (id : ℕ)
    → let s = run add_date before (new_scheduler wanted num_cpu) in
      (remove_task id s).0 ≡ none
      → launch_count id (run add_date after (remove_task id s).1)
        ≤ launch_count id s + pending id s.turn
remove_task_lem add_date wanted num_cpu before after id h =
    removed_stays add_date id (run add_date before (new_scheduler wanted num_cpu)) after
      (run-new_scheduler-AreIssued add_date wanted num_cpu before) h
