-- ===== src/Scheduler/Delay.antt =====
-- How long the loop waits for its next look.
use sfpg_go.Base.{
  ℕ, ◌+◌, ◌≡◌, ◌≤◌, ◌<◌, ◌⊎◌, inl, inr, true, List, [], ◌∷◌, if_split, ltb, leb, Bool-cases, arith,
  Option, none, some,
}
use sfpg_go.Scheduler.{
  sooner, ScheduledTask, Scheduler, unmarked, ready, earliest, next_delay, execute_ready_tasks,
  scheduler_min_delay, scheduler_max_delay,
}
use sfpg_go.Scheduler.Tasks.{All}

next_delay-IsBounded :
    (due : List ScheduledTask) (first : Option ℕ) (later : ℕ)
    → (scheduler_min_delay ≤ next_delay due first later)
      × (next_delay due first later ≤ scheduler_max_delay)
unfolding next_delay
next_delay-IsBounded (t ∷ ts) first later = (omega arith, omega arith)
next_delay-IsBounded [] none later = (omega arith, omega arith)
next_delay-IsBounded [] (some first) later = (ground arith, ground arith)

-- A time that is not before the earliest.
abbrev NotBefore : Option ℕ → ℕ → Type 0
NotBefore none n = ⊥
NotBefore (some first) n = first ≤ n

sooner-NotBefore :
    (m : ℕ) (first : Option ℕ) (n : ℕ) → NotBefore first n → NotBefore (sooner m first) n
sooner-NotBefore m none n h = absurd h
sooner-NotBefore m (some first) n h =
    if_split (λ o. NotBefore o n) (ltb m first) (λ e. ground arith) (λ e. h)

sooner_itself : (m : ℕ) (first : Option ℕ) → NotBefore (sooner m first) m
sooner_itself m none = omega arith
sooner_itself m (some first) =
    if_split (λ o. NotBefore o m) (ltb m first) (λ e. omega arith) (λ e. ground arith)

All-map :
    (P Q : ScheduledTask → Type 0) (ts : List ScheduledTask)
    → ((t : ScheduledTask) → P t → Q t)
    → All P ts
    → All Q ts
unfolding All
All-map P Q [] f a = tt
All-map P Q (t ∷ ts) f (p, ps) = (f t p, All-map P Q ts f ps)

-- A task is due, or not before the earliest that is not.
abbrev Waits : ℕ → Option ℕ → ScheduledTask → Type 0
Waits now first t = (t.next_run ≤ now) ⊎ NotBefore first t.next_run

earliest-Waits : (now : ℕ) (ts : List ScheduledTask) → All (Waits now (earliest now ts)) ts
unfolding All
earliest-Waits now [] = tt
earliest-Waits now (t ∷ ts) =
    let rest = earliest-Waits now ts in
    if_split (λ o. All (Waits now o) (t ∷ ts)) (leb t.next_run now)
      (λ due. (inl (ground arith), rest))
      (λ waits. (
        inr (sooner_itself t.next_run (earliest now ts)),
        All-map (Waits now (earliest now ts)) (Waits now (sooner t.next_run (earliest now ts))) ts
            (λ u w. elim w [
              | inl due ↦ inl due
              | inr later ↦ inr (sooner-NotBefore t.next_run (earliest now ts) u.next_run later)
            ])
            rest,
      ))

next_delay_in_time :
    (due : List ScheduledTask) (first : Option ℕ) (later n : ℕ)
    → NotBefore first n
    → later + scheduler_min_delay ≤ n
    → later + next_delay due first later ≤ n
unfolding next_delay
next_delay_in_time (t ∷ ts) first later n b h = h
next_delay_in_time [] none later n b h = absurd b
next_delay_in_time [] (some first) later n b h = ground arith

-- The loop is back for the task: it is marked, it was due, it is due in less than ten milliseconds, or the
-- wait is over by its time.
abbrev pub IsBackFor : ℕ → ℕ → ℕ → ScheduledTask → Type 0
IsBackFor now later delay t =
    (t.marked_for_deletion ≡ true)
    ⊎ (t.next_run ≤ now)
    ⊎ (t.next_run < later + scheduler_min_delay)
    ⊎ (later + delay ≤ t.next_run)

back_for :
    (now later : ℕ) (due : List ScheduledTask) (first : Option ℕ) (t : ScheduledTask)
    → Waits now first t
    → IsBackFor now later (next_delay due first later) t
back_for now later due first t (inl d) = inr (inl d)
back_for now later due first t (inr b) =
    elim (Bool-cases (ltb t.next_run (later + scheduler_min_delay))) [
      | inl soon ↦ inr (inr (inl (ground arith)))
      | inr far ↦ inr (inr (inr (next_delay_in_time due first later t.next_run b (ground arith))))
    ]

All-kept :
    (now later delay : ℕ) (ts : List ScheduledTask)
    → All (IsBackFor now later delay) (unmarked ts)
    → All (IsBackFor now later delay) ts
unfolding All
All-kept now later delay [] a = tt
All-kept now later delay (t ∷ ts) a =
    if_split (λ l. All (IsBackFor now later delay) l → All (IsBackFor now later delay) (t ∷ ts))
      t.marked_for_deletion (λ m b. (inl m, All-kept now later delay ts b))
      (λ m b. (b.0, All-kept now later delay ts b.1)) a

-- The wait is between ten milliseconds and a second; and unless the scheduler is shut down it is over, for
-- each task that is not marked and was not due, by the time of that task, if this is ten milliseconds away or
-- more.
pub execute_ready_tasks-delay :
    (now later : ℕ) (s : Scheduler)
    → let delay = (execute_ready_tasks now later s).0 in
      (scheduler_min_delay ≤ delay)
      × (delay ≤ scheduler_max_delay)
      × ((s.shut ≡ true) ⊎ All (IsBackFor now later delay) s.tasks)
unfolding execute_ready_tasks
execute_ready_tasks-delay now later s =
    let kept = unmarked s.tasks in
    let b = next_delay-IsBounded (ready now kept) (earliest now kept) later in
    if_split
      (λ (r : ℕ × Scheduler).
        (scheduler_min_delay ≤ r.0)
        × (r.0 ≤ scheduler_max_delay)
        × ((s.shut ≡ true) ⊎ All (IsBackFor now later r.0) s.tasks))
      s.shut (λ e. (omega arith, omega arith, inl e))
      (λ e. (
        b.0,
        b.1,
        inr (
            All-kept now later (next_delay (ready now kept) (earliest now kept) later) s.tasks (
              All-map (Waits now (earliest now kept)) _ kept
                (back_for now later (ready now kept) (earliest now kept))
                (earliest-Waits now kept))),
      ))
