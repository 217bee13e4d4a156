-- ===== src/Preload/Stuck.antt =====
-- internal/server/cachepreload: the claims of tasks that were dropped.
use sfpg_go.Base.{
  ℕ, ap, ◌&&◌, get_elem?, set, ◌≡◌, refl, sym, subst, Bool, true, false, ◌||◌, not, List, [], ◌∷◌,
  ◌++◌, Option, none, some, if_split, Bool-cases, inl, inr,
}
use sfpg_go.Base.Int.{ℤ}
use sfpg_go.Base.Text.{Str, same, codes}
use sfpg_go.HttpCache.Key.{is_empty, preload_variant_for_path}
use sfpg_go.Preload.Manager.{
  Task, PreloadManager, start_scheduler, stop_scheduler, new_preload_manager, set_enabled, shutdown,
  without, remove_all, is_zero_folder, after_open, is_nil, schedule_folder_preload,
  is_cacheable_path, added, claimed, says_exists, preload_key, schedule_preload, schedule_path,
  Work, querying, claiming, requesting, end_at, work_of, is_idle, begins, stops, Answers, run_task,
  find_task, Event, step, run, folder_preload, preload, opens, runs, toggles, shuts_down, cleans_up,
}
use sfpg_go.Preload.Tracker.{
  TaskTracker, is_task_pending, and_id, cancel_session_tasks, try_claim_task, SessionTracker,
  on_folder_open,
}
use sfpg_go.Preload.Claims.{
  NoSession, has_waiting, has_running, Stuck, AllNamed, add_lem, unregister-NoSession,
}
use sfpg_go.Preload.Lasting.{run-Stuck}

abbrev Unowned : PreloadManager → Type 0
Unowned m = NoSession m.task_tracker

cancel-NoSession :
    (session : Str) (t : TaskTracker) → NoSession t → NoSession (cancel_session_tasks session t).1
unfolding cancel_session_tasks NoSession
cancel-NoSession session [] n = tt
cancel-NoSession session ((k, i) ∷ t) n =
    if_split (λ (x : List ℕ × TaskTracker). NoSession x.1) (same i.session_id session)
      (λ _. with_id i.task_id (cancel_session_tasks session t) (cancel-NoSession session t n.1))
      (λ _. (n.0, cancel-NoSession session t n.1))
  where
    with_id : (o : Option ℕ) (x : List ℕ × TaskTracker) → NoSession x.1 → NoSession (and_id o x).1
    with_id none x h = h
    with_id (some id) x h = h

remove_all-claims :
    (ids : List ℕ) (m : PreloadManager) → (remove_all ids m).task_tracker ≡ m.task_tracker
unfolding remove_all
remove_all-claims [] m = refl
remove_all-claims (id ∷ ids) m = remove_all-claims ids _

after_open-Unowned :
    (session : Str) (p : ℤ × SessionTracker) (m : PreloadManager)
    → Unowned m
    → Unowned (after_open session p m)
after_open-Unowned session p m n =
    if_split Unowned (is_zero_folder p.0) (λ _. n)
      (λ _.
        subst NoSession
          (sym (
            remove_all-claims (cancel_session_tasks session m.task_tracker).0 (record m {
              session_tracker = p.1;
              task_tracker = (cancel_session_tasks session m.task_tracker).1;
            })))
          (cancel-NoSession session m.task_tracker n))

claimed-Unowned :
    (now : ℕ) (k path target : Str) (m : PreloadManager)
    → Unowned m
    → Unowned (claimed now k path target (try_claim_task k m.task_tracker) m)
unfolding try_claim_task NoSession
claimed-Unowned now k path target m n = elim (Bool-cases (is_task_pending k m.task_tracker)) [
  | inl old ↦ rw old n
  | inr new ↦ rw new (
      add_lem (λ r. Unowned (added k r)) now (preload k path target) _
        (unregister-NoSession k _ (refl, n)) (λ u. (refl, n)))
]

schedule_path-Unowned :
    (exists : Str → Option Bool) (now : ℕ) (query : Str) (routes : List Str) (path : Str)
    (m : PreloadManager)
    → Unowned m
    → Unowned (schedule_path exists now query routes path m)
unfolding schedule_path schedule_preload
schedule_path-Unowned exists now query routes path m n =
    if_split Unowned (is_empty path || not (is_cacheable_path path routes)) (λ _. n)
      (λ _.
        if_split Unowned (says_exists (exists (preload_key path query))) (λ _. n)
          (λ _.
            claimed-Unowned now (preload_key path query) path (preload_variant_for_path path) m n))

run_task-Unowned :
    (i now : ℕ) (a : Answers) (w : Work) (m : PreloadManager)
    → Unowned m
    → Unowned (run_task i now a w m)
unfolding run_task
run_task-Unowned i now a (querying routes etag) m n = by_routes a.routes
  where
    by_routes :
        (o : Option (List Str))
        → Unowned (elim o as (λ _. PreloadManager) [
          | none ↦ record m { running = end_at i m.running }
          | some paths ↦ record m {
            running = set m.running i (claiming (codes "v=" ++ etag) routes paths);
          }
        ])
    by_routes none = n
    by_routes (some paths) = n
run_task-Unowned i now a (claiming query routes []) m n = n
run_task-Unowned i now a (claiming query routes (path ∷ paths)) m n =
    schedule_path-Unowned a.exists now query routes path
      (record m { running = set m.running i (claiming query routes paths) }) n
run_task-Unowned i now a (requesting k) m n = unregister-NoSession k m.task_tracker n

schedule_folder_preload-Unowned :
    (configured : Bool) (clock : ℤ) (now : ℕ) (etag : Str) (folder : ℤ) (session : Str)
    (m : PreloadManager)
    → Unowned m
    → Unowned (schedule_folder_preload configured clock now etag folder session m)
unfolding schedule_folder_preload
schedule_folder_preload-Unowned configured clock now etag folder session m n =
    let previous = on_folder_open clock session folder m.session_tracker in
    if_split Unowned (not m.enabled || is_nil m.scheduler || not configured) (λ _. n)
      (λ _.
        add_lem (λ r. Unowned r.1) now (folder_preload folder session m.cacheable_routes etag)
          (after_open session previous m) (after_open-Unowned session previous m n)
          (λ u. after_open-Unowned session previous m n))

step-Unowned : (e : Event) (m : PreloadManager) → Unowned m → Unowned (step e m)
unfolding step set_enabled start_scheduler stop_scheduler shutdown
step-Unowned (opens configured clock now etag folder session) m n =
    if_split Unowned m.stopping (λ _. n)
      (λ _. schedule_folder_preload-Unowned configured clock now etag folder session m n)
step-Unowned (begins id) m n = by_task (find_task id m.queued)
  where
    by_task :
        (o : Option Task)
        → Unowned (elim o as (λ _. PreloadManager) [
          | none ↦ m
          | some t ↦ record m { queued = without id m.queued; running = work_of t ∷ m.running }
        ])
    by_task none = n
    by_task (some t) = n
step-Unowned (runs i now a) m n = by_work (get_elem? m.running i)
  where
    by_work :
        (o : Option Work)
        → Unowned (elim o as (λ _. PreloadManager) [ none ↦ m | some w ↦ run_task i now a w m ])
    by_work none = n
    by_work (some w) = run_task-Unowned i now a w m n
step-Unowned (toggles num_cpu true) m n =
    if_split Unowned m.stopping (λ _. n) (λ _. if_split Unowned m.enabled (λ _. n) (λ _. n))
step-Unowned (toggles num_cpu false) m n =
    if_split Unowned m.stopping (λ _. n) (λ _. if_split Unowned m.enabled (λ _. n) (λ _. n))
step-Unowned shuts_down m n = if_split Unowned m.stopping (λ _. n) (λ _. n)
step-Unowned stops m n = if_split Unowned (m.stopping && is_idle m.running) (λ _. n) (λ _. n)
step-Unowned (cleans_up now max_age) m n = n

run-Unowned : (es : List Event) (m : PreloadManager) → Unowned m → Unowned (run es m)
unfolding run
run-Unowned [] m n = n
run-Unowned (e ∷ es) m n = run-Unowned es (step e m) (step-Unowned e m n)

new-Unowned :
    (num_cpu : ℕ) (routes : List Str) (initial : Bool)
    → Unowned (new_preload_manager num_cpu routes initial)
unfolding new_preload_manager start_scheduler NoSession
new-Unowned num_cpu routes true = tt
new-Unowned num_cpu routes false = tt

-- The scheduler is stopped and drops what it had queued; no task runs by then.
stopped-Stuck :
    (key : Str) (m : PreloadManager)
    → m.stopping ≡ true
    → m.running ≡ []
    → is_task_pending key m.task_tracker ≡ true
    → Unowned m
    → Stuck key (stop_scheduler m)
unfolding stop_scheduler has_waiting has_running
stopped-Stuck key m stopping idle pending n =
    let ends : (m.stopping && is_idle m.running) ≡ true = rw (stopping, idle) refl in
    rw ends (record {
      pending = pending;
      nothing_waits = refl;
      nothing_runs = ap (has_running key) idle;
      no_session = n;
    })

-- Along every run of a new preload manager: when SetEnabled(false) or Shutdown has waited for the running tasks
-- and then drops the scheduler, a key that is still claimed stays claimed in every later run in which each
-- session that opens a folder has an identifier, and no preload of that key ever waits or runs again.
pub claims_outlive_tasks :
    (num_cpu : ℕ) (routes : List Str) (initial : Bool) (es later : List Event) (m : PreloadManager)
    (key : Str)
    → run es (new_preload_manager num_cpu routes initial) ≡ m
    → m.stopping ≡ true
    → m.running ≡ []
    → is_task_pending key m.task_tracker ≡ true
    → AllNamed later
    → (is_task_pending key (run later (stop_scheduler m)).task_tracker ≡ true)
      × (has_waiting key (run later (stop_scheduler m)).queued ≡ false)
      × (has_running key (run later (stop_scheduler m)).running ≡ false)
claims_outlive_tasks num_cpu routes initial es later m key r stopping idle pending named =
    let n : Unowned m = subst Unowned r (run-Unowned es _ (new-Unowned num_cpu routes initial)) in
    let t =
      run-Stuck key later (stop_scheduler m) named (stopped-Stuck key m stopping idle pending n) in
    (t.pending, t.nothing_waits, t.nothing_runs)
