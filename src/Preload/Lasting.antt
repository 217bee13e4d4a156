-- ===== src/Preload/Lasting.antt =====
-- internal/server/cachepreload: a claim without a task lasts through every step.
use sfpg_go.Base.{
  ℕ, ◌*◌, ◌&&◌, get_elem?, set, ◌≡◌, refl, sym, ◌∙◌, subst, Bool, true, false, ◌||◌, not, List, [],
  ◌∷◌, ◌++◌, Option, none, some, ◌==◌, if_split, Bool-cases, inl, inr, arith,
}
use sfpg_go.Base.Int.{ℤ, pos}
use sfpg_go.Scheduler.{Scheduler, new_scheduler}
use sfpg_go.Base.Text.{Str, same, codes}
use sfpg_go.HttpCache.Key.{is_empty, preload_variant_for_path}
use sfpg_go.Preload.Manager.{
  Task, PreloadManager, start_scheduler, stop_scheduler, set_enabled, shutdown, add, without,
  is_nil, schedule_folder_preload, is_cacheable_path, record_scheduled, added, claimed, says_exists,
  preload_key, schedule_preload, schedule_path, Answers, run_task, find_task, Event, step, run,
  Work, querying, claiming, requesting, end_at, work_of, is_idle, begins, stops, folder_preload,
  preload, opens, runs, toggles, shuts_down, cleans_up,
}
use sfpg_go.Preload.Tracker.{TaskTracker, is_task_pending, try_claim_task, on_folder_open}
use sfpg_go.Preload.Claims.{
  is_request, has_running, has_running-end_at, has_running-set, has_running-get, NoSession, is_for,
  has_waiting, IsStuck, Stuck, IsNamed, AllNamed, after_open-eq, add_lem, pending-unregister,
  unregister-NoSession, has_waiting-without, unclaimed-ne,
}

module _ (key : Str) where
  schedule_folder_preload-Stuck :
      (configured : Bool) (clock : ℤ) (now : ℕ) (etag : Str) (folder : ℤ) (session : Str)
      (m : PreloadManager)
      → is_empty session ≡ false
      → Stuck key m
      → Stuck key (schedule_folder_preload configured clock now etag folder session m)
  unfolding schedule_folder_preload has_waiting
  schedule_folder_preload-Stuck configured clock now etag folder session m h s =
      if_split (Stuck key) (not m.enabled || is_nil m.scheduler || not configured) (λ _. s)
        (λ _.
          subst
            (λ x. Stuck key (add now (folder_preload folder session m.cacheable_routes etag) x).1)
            (sym (
              after_open-eq session (on_folder_open clock session folder m.session_tracker) m h
                s.no_session))
            (add_lem (λ r. Stuck key r.1) now
              (folder_preload folder session m.cacheable_routes etag)
              (record m {
                session_tracker = (on_folder_open clock session folder m.session_tracker).1;
              })
              (record {
                pending = s.pending;
                nothing_waits = s.nothing_waits;
                nothing_runs = s.nothing_runs;
                no_session = s.no_session;
              })
              (λ u. record {
                pending = s.pending;
                nothing_waits = s.nothing_waits;
                nothing_runs = s.nothing_runs;
                no_session = s.no_session;
              })))

  -- A claim of another key, and its task.
  claims-Stuck :
      (now : ℕ) (k path target : Str) (m : PreloadManager) (t : TaskTracker)
      → same k key ≡ false
      → IsStuck key t m.queued m.running
      → Stuck key (
          added k
            (add now (preload k path target) (record_scheduled (record m { task_tracker = t }))))
  unfolding has_waiting
  claims-Stuck now k path target m t other s =
      add_lem (λ r. Stuck key (added k r)) now (preload k path target)
        (record_scheduled (record m { task_tracker = t }))
        (record {
          pending = pending-unregister key k t other ∙ s.pending;
          nothing_waits = s.nothing_waits;
          nothing_runs = s.nothing_runs;
          no_session = unregister-NoSession k t s.no_session;
        })
        (λ u. record {
          pending = s.pending;
          nothing_waits = rw other s.nothing_waits;
          nothing_runs = s.nothing_runs;
          no_session = s.no_session;
        })

  claimed-Stuck :
      (now : ℕ) (k path target : Str) (m : PreloadManager)
      → Stuck key m
      → Stuck key (claimed now k path target (try_claim_task k m.task_tracker) m)
  unfolding try_claim_task is_task_pending NoSession
  claimed-Stuck now k path target m s = elim (Bool-cases (is_task_pending k m.task_tracker)) [
    | inl old ↦ rw old (record {
      pending = s.pending;
      nothing_waits = s.nothing_waits;
      nothing_runs = s.nothing_runs;
      no_session = s.no_session;
    })
    | inr new ↦
        let other : same k key ≡ false = unclaimed-ne key k m.task_tracker s.pending new in
        rw new (
          claims-Stuck now k path target m _ other (record {
            pending = rw other s.pending;
            nothing_waits = s.nothing_waits;
            nothing_runs = s.nothing_runs;
            no_session = (refl, s.no_session);
          }))
  ]

  schedule_preload-Stuck :
      (exists : Str → Option Bool) (now : ℕ) (path query : Str) (m : PreloadManager)
      → Stuck key m
      → Stuck key (schedule_preload exists now path query m)
  unfolding schedule_preload
  schedule_preload-Stuck exists now path query m s =
      if_split (Stuck key) (says_exists (exists (preload_key path query)))
        (λ _. record {
          pending = s.pending;
          nothing_waits = s.nothing_waits;
          nothing_runs = s.nothing_runs;
          no_session = s.no_session;
        })
        (λ _. claimed-Stuck now (preload_key path query) path (preload_variant_for_path path) m s)

  schedule_path-Stuck :
      (exists : Str → Option Bool) (now : ℕ) (query : Str) (routes : List Str) (path : Str)
      (m : PreloadManager)
      → Stuck key m
      → Stuck key (schedule_path exists now query routes path m)
  unfolding schedule_path
  schedule_path-Stuck exists now query routes path m s =
      if_split (Stuck key) (is_empty path || not (is_cacheable_path path routes)) (λ _. s)
        (λ _. schedule_preload-Stuck exists now path query m s)

  -- Only the running tasks change.
  with_running :
      (m : PreloadManager) (ws : List Work)
      → Stuck key m
      → has_running key ws ≡ false
      → Stuck key (record m { running = ws })
  with_running m ws s h = record {
    pending = s.pending;
    nothing_waits = s.nothing_waits;
    nothing_runs = h;
    no_session = s.no_session;
  }

  run_task-Stuck :
      (n now : ℕ) (a : Answers) (w : Work) (m : PreloadManager)
      → is_request key w ≡ false
      → Stuck key m
      → Stuck key (run_task n now a w m)
  unfolding run_task
  run_task-Stuck n now a (querying routes etag) m f s = by_routes a.routes
    where
      by_routes :
          (o : Option (List Str))
          → Stuck key (elim o as (λ _. PreloadManager) [
            | none ↦ record m { running = end_at n m.running }
            | some paths ↦ record m {
              running = set m.running n (claiming (codes "v=" ++ etag) routes paths);
            }
          ])
      by_routes none =
          with_running m (end_at n m.running) s (has_running-end_at key n m.running s.nothing_runs)
      by_routes (some paths) =
          with_running m (set m.running n (claiming (codes "v=" ++ etag) routes paths)) s (
            has_running-set key n (claiming (codes "v=" ++ etag) routes paths) m.running refl
              s.nothing_runs)
  run_task-Stuck n now a (claiming query routes []) m f s =
      with_running m (end_at n m.running) s (has_running-end_at key n m.running s.nothing_runs)
  run_task-Stuck n now a (claiming query routes (path ∷ paths)) m f s =
      schedule_path-Stuck a.exists now query routes path
        (record m { running = set m.running n (claiming query routes paths) })
        (with_running m (set m.running n (claiming query routes paths)) s
          (has_running-set key n (claiming query routes paths) m.running refl s.nothing_runs))
  run_task-Stuck n now a (requesting k) m f s = record {
    pending = pending-unregister key k m.task_tracker f ∙ s.pending;
    nothing_waits = s.nothing_waits;
    nothing_runs = has_running-end_at key n m.running s.nothing_runs;
    no_session = unregister-NoSession k m.task_tracker s.no_session;
  }

  work_of-is_request : (t : Task) → is_for key t ≡ false → is_request key (work_of t) ≡ false
  work_of-is_request (folder_preload folder session routes etag) h = refl
  work_of-is_request (preload k path target) h = h

  find_task-is_for :
      (id : ℕ) (q : List (ℕ × Task)) (t : Task)
      → has_waiting key q ≡ false
      → find_task id q ≡ some t
      → is_for key t ≡ false
  unfolding has_waiting
  find_task-is_for id [] t h e = cc
  find_task-is_for id ((n, u) ∷ q) t h e =
      if_split (λ o. o ≡ some t → is_for key t ≡ false) (n == id)
        (λ _ f.
          let u_t : u ≡ t = cc in
          subst (λ x. is_for key x ≡ false) u_t (first (is_for key u) (has_waiting key q) h))
        (λ _. find_task-is_for id q t (second (is_for key u) (has_waiting key q) h)) e
    where
      first : (a b : Bool) → (a || b) ≡ false → a ≡ false
      first a b g = ground arith

      second : (a b : Bool) → (a || b) ≡ false → b ≡ false
      second a b g = ground arith

  -- Only the switch changes.
  switched :
      (m : PreloadManager) (on stopping : Bool) (o : Option Scheduler)
      → Stuck key m
      → Stuck key (record m { enabled = on; scheduler = o; stopping = stopping })
  switched m on stopping o s = record {
    pending = s.pending;
    nothing_waits = s.nothing_waits;
    nothing_runs = s.nothing_runs;
    no_session = s.no_session;
  }

  pub stop_scheduler-Stuck : (m : PreloadManager) → Stuck key m → Stuck key (stop_scheduler m)
  unfolding stop_scheduler has_waiting
  stop_scheduler-Stuck m s =
      if_split (Stuck key) (m.stopping && is_idle m.running)
        (λ _. record {
          pending = s.pending;
          nothing_waits = refl;
          nothing_runs = s.nothing_runs;
          no_session = s.no_session;
        })
        (λ _. s)

  step-Stuck : (e : Event) (m : PreloadManager) → IsNamed e → Stuck key m → Stuck key (step e m)
  unfolding step set_enabled start_scheduler shutdown has_running
  step-Stuck (opens configured clock now etag folder session) m h s =
      if_split (Stuck key) m.stopping (λ _. s)
        (λ _. schedule_folder_preload-Stuck configured clock now etag folder session m h s)
  step-Stuck (begins id) m h s = by_task (find_task id m.queued) refl
    where
      by_task :
          (o : Option Task)
          → find_task id m.queued ≡ o
          → Stuck key (elim o as (λ _. PreloadManager) [
            | none ↦ m
            | some t ↦ record m { queued = without id m.queued; running = work_of t ∷ m.running }
          ])
      by_task none e = s
      by_task (some t) e = record {
        pending = s.pending;
        nothing_waits = has_waiting-without key id m.queued s.nothing_waits;
        nothing_runs =
            rw (work_of-is_request t (find_task-is_for id m.queued t s.nothing_waits e))
              s.nothing_runs;
        no_session = s.no_session;
      }
  step-Stuck (runs n now a) m h s = by_work (get_elem? m.running n) refl
    where
      by_work :
          (o : Option Work)
          → get_elem? m.running n ≡ o
          → Stuck key (elim o as (λ _. PreloadManager) [ none ↦ m | some w ↦ run_task n now a w m ])
      by_work none e = s
      by_work (some w) e =
          run_task-Stuck n now a w m (has_running-get key n w m.running s.nothing_runs e) s
  step-Stuck (toggles num_cpu true) m h s =
      if_split (Stuck key) m.stopping (λ _. s)
        (λ _.
          if_split (Stuck key) m.enabled (λ _. s)
            (λ _. switched m true m.stopping (some (new_scheduler (pos (4 * num_cpu)) num_cpu)) s))
  step-Stuck (toggles num_cpu false) m h s =
      if_split (Stuck key) m.stopping (λ _. s)
        (λ _.
          if_split (Stuck key) m.enabled
            (λ _. switched m false (not (is_nil m.scheduler)) m.scheduler s) (λ _. s))
  step-Stuck shuts_down m h s =
      if_split (Stuck key) m.stopping (λ _. s)
        (λ _. switched m false (not (is_nil m.scheduler)) m.scheduler s)
  step-Stuck stops m h s = stop_scheduler-Stuck m s
  step-Stuck (cleans_up now max_age) m h s = record {
    pending = s.pending;
    nothing_waits = s.nothing_waits;
    nothing_runs = s.nothing_runs;
    no_session = s.no_session;
  }

  pub run-Stuck :
      (es : List Event) (m : PreloadManager) → AllNamed es → Stuck key m → Stuck key (run es m)
  unfolding run AllNamed
  run-Stuck [] m h s = s
  run-Stuck (e ∷ es) m h s = run-Stuck es (step e m) h.1 (step-Stuck e m h.0 s)
