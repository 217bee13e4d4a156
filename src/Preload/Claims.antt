-- ===== src/Preload/Claims.antt =====
-- internal/server/cachepreload: what becomes of the claims of the task tracker.
use sfpg_go.Base.{
  ℕ, zero, suc, get_elem?, set, ◌≡◌, refl, sym, ap, subst, Bool, true, false, ◌||◌, List, [], ◌∷◌,
  Option, none, some, if_split, Bool-cases, inl, inr, arith,
}
use sfpg_go.Base.Int.{ℤ}
use sfpg_go.Base.Text.{Str, same, same_eq}
use sfpg_go.Scheduler as Sched
use sfpg_go.Scheduler.{Scheduler, add_task, remove_task, one_time}
use sfpg_go.HttpCache.Key.{is_empty}
use sfpg_go.Preload.Manager.{
  Task, PreloadManager, with_task, add, without, remove_all, is_zero_folder, cancelled, after_open,
  Work, requesting, end_at, Event, folder_preload, preload, opens,
}
use sfpg_go.Preload.Tracker.{
  TaskTracker, is_task_pending, unregister_task, cancel_session_tasks, SessionTracker,
}

-- The claims of a tracker have no session, and no task that waits is for the key.
unfoldable pub NoSession : TaskTracker → Type 0
NoSession [] = Unit
NoSession ((k, i) ∷ t) = (i.session_id ≡ []) × NoSession t

abbrev pub is_for : Str → Task → Bool
is_for key (folder_preload folder session routes etag) = false
is_for key (preload k path target) = same k key

unfoldable pub has_waiting : Str → List (ℕ × Task) → Bool
has_waiting key [] = false
has_waiting key ((n, t) ∷ q) = is_for key t || has_waiting key q

abbrev pub is_request : Str → Work → Bool
is_request key (requesting k) = same k key
is_request key _ = false

-- A preload of the key runs.
unfoldable pub has_running : Str → List Work → Bool
has_running key [] = false
has_running key (w ∷ ws) = is_request key w || has_running key ws

-- A key that is claimed though no task will release it.
pub record IsStuck (key : Str) (t : TaskTracker) (q : List (ℕ × Task)) (r : List Work)
    : Type 0 where
  pub pending : is_task_pending key t ≡ true
  pub nothing_waits : has_waiting key q ≡ false
  pub nothing_runs : has_running key r ≡ false
  pub no_session : NoSession t

abbrev pub Stuck : Str → PreloadManager → Type 0
Stuck key m = IsStuck key m.task_tracker m.queued m.running

-- The event's session, if any, has an identifier.
abbrev pub IsNamed : Event → Type 0
IsNamed (opens configured clock now etag folder session) = is_empty session ≡ false
IsNamed _ = Unit

unfoldable pub AllNamed : List Event → Type 0
AllNamed [] = Unit
AllNamed (e ∷ es) = IsNamed e × AllNamed es

same_nil : (session : Str) → is_empty session ≡ false → same [] session ≡ false
unfolding same
same_nil [] h = cc
same_nil (c ∷ cs) h = refl

cancels_nothing :
    (session : Str) (t : TaskTracker)
    → is_empty session ≡ false
    → NoSession t
    → cancel_session_tasks session t ≡ ([], t)
unfolding cancel_session_tasks NoSession
cancels_nothing session [] h n = refl
cancels_nothing session ((k, i) ∷ t) h n =
    let other : same i.session_id session ≡ false =
      subst (λ x. same x session ≡ false) (sym n.0) (same_nil session h) in
    rw (other, cancels_nothing session t h n.1)

pub after_open-eq :
    (session : Str) (p : ℤ × SessionTracker) (m : PreloadManager)
    → is_empty session ≡ false
    → NoSession m.task_tracker
    → after_open session p m ≡ record m { session_tracker = p.1 }
unfolding remove_all
after_open-eq session p m h n =
    if_split (λ x. x ≡ record m { session_tracker = p.1 }) (is_zero_folder p.0) (λ _. refl)
      (λ _.
        ap (λ c. cancelled c (record m { session_tracker = p.1 }))
          (cancels_nothing session m.task_tracker h n))

-- The two outcomes of AddTask.
pub add_lem {ℓ} :
    (P : Bool × PreloadManager → Type ℓ) (now : ℕ) (task : Task) (m : PreloadManager)
    → P (false, m)
    → ((s : Scheduler)
        → P (true, record m { scheduler = some s; queued = (s.next_id, task) ∷ m.queued }))
    → P (add now task m)
unfolding add
add_lem P now task m refused accepted = by_scheduler m.scheduler
  where
    by_result : (r : Option Sched.SchedulerError × Scheduler) → P (with_task task m r)
    by_result (none, s) = accepted s
    by_result (some e, s) = refused

    by_scheduler :
        (o : Option Scheduler)
        → P (elim o as (λ _. Bool × PreloadManager) [
          | none ↦ (false, m)
          | some s ↦ with_task task m (add_task true one_time now s)
        ])
    by_scheduler none = refused
    by_scheduler (some s) = by_result (add_task true one_time now s)

pub pending-unregister :
    (key k : Str) (t : TaskTracker)
    → same k key ≡ false
    → is_task_pending key (unregister_task k t) ≡ is_task_pending key t
unfolding is_task_pending unregister_task
pending-unregister key k [] h = refl
pending-unregister key k ((j, i) ∷ t) h = elim (Bool-cases (same j k)) [
  | inl is ↦
      let other : same j key ≡ false = subst (λ x. same x key ≡ false) (sym (same_eq j k is)) h in
      rw (is, other) (pending-unregister key k t h)
  | inr isnt ↦ rw isnt (ap (λ b. same j key || b) (pending-unregister key k t h))
]

pub unregister-NoSession :
    (k : Str) (t : TaskTracker) → NoSession t → NoSession (unregister_task k t)
unfolding NoSession unregister_task
unregister-NoSession k [] n = tt
unregister-NoSession k ((j, i) ∷ t) n =
    if_split NoSession (same j k) (λ _. unregister-NoSession k t n.1)
      (λ _. (n.0, unregister-NoSession k t n.1))

pub has_running-end_at :
    (key : Str) (n : ℕ) (ws : List Work)
    → has_running key ws ≡ false
    → has_running key (end_at n ws) ≡ false
unfolding has_running
has_running-end_at key n [] h = refl
has_running-end_at key zero (w ∷ ws) h = ground arith
has_running-end_at key (suc n) (w ∷ ws) h = ground (arith, has_running-end_at key n ws)

pub has_running-set :
    (key : Str) (n : ℕ) (w : Work) (ws : List Work)
    → is_request key w ≡ false
    → has_running key ws ≡ false
    → has_running key (set ws n w) ≡ false
unfolding has_running
has_running-set key n w [] e h = refl
has_running-set key zero w (u ∷ ws) e h = rw e (second (is_request key u) (has_running key ws) h)
  where
    second : (a b : Bool) → (a || b) ≡ false → b ≡ false
    second a b g = ground arith
has_running-set key (suc n) w (u ∷ ws) e h =
    both (is_request key u) (has_running key ws) h (has_running-set key n w ws e)
  where
    both : (a b : Bool) {c : Bool} → (a || b) ≡ false → (b ≡ false → c ≡ false) → (a || c) ≡ false
    both false b {c} g f = f g
    both true b {c} g f = g

pub has_running-get :
    (key : Str) (n : ℕ) (w : Work) (ws : List Work)
    → has_running key ws ≡ false
    → get_elem? ws n ≡ some w
    → is_request key w ≡ false
unfolding has_running
has_running-get key n w [] h e = cc
has_running-get key zero w (u ∷ ws) h e =
    subst (λ x. is_request key x ≡ false) (some_eq e)
      (first (is_request key u) (has_running key ws) h)
  where
    first : (a b : Bool) → (a || b) ≡ false → a ≡ false
    first a b g = ground arith

    some_eq : some u ≡ some w → u ≡ w
    some_eq x = cc
has_running-get key (suc n) w (u ∷ ws) h e =
    has_running-get key n w ws (second (is_request key u) (has_running key ws) h) e
  where
    second : (a b : Bool) → (a || b) ≡ false → b ≡ false
    second a b g = ground arith

pub has_waiting-without :
    (key : Str) (id : ℕ) (q : List (ℕ × Task))
    → has_waiting key q ≡ false
    → has_waiting key (without id q) ≡ false
unfolding has_waiting
has_waiting-without key id [] h = refl
has_waiting-without key id ((n, t) ∷ q) h = ground (arith, has_waiting-without key id q)

-- A key that is not claimed is another one.
pub unclaimed-ne :
    (key k : Str) (t : TaskTracker)
    → is_task_pending key t ≡ true
    → is_task_pending k t ≡ false
    → same k key ≡ false
unclaimed-ne key k t h g = elim (Bool-cases (same k key)) [
  | inl is ↦ absurd (
      both (is_task_pending key t) h
        (subst (λ x. is_task_pending x t ≡ false) (same_eq k key is) g))
  | inr isnt ↦ isnt
]
  where
    both : (b : Bool) → b ≡ true → b ≡ false → ⊥
    both b x y = ground arith
