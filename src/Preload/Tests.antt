-- ===== src/Preload/Tests.antt =====
-- internal/server/cachepreload on a folder with one image, whose preloads are dropped by a switch.
use sfpg_go.Base.{◌≡◌, refl, true, false, List, [], ◌∷◌, some, length}
use sfpg_go.Base.Int.{pos}
use sfpg_go.Base.Text.{Str, codes, same, has_prefix}
use sfpg_go.Scheduler.{add_task, new_scheduler}
use sfpg_go.HttpCache.Key.{new_cache_key, new_cache_key_for_preload, preload_variant_for_path}
use sfpg_go.Preload.Manager.{
  Event, opens, begins, stops, runs, toggles, PreloadManager, stop_scheduler, Answers, run,
  new_preload_manager,
}
use sfpg_go.Preload.Tracker.{is_task_pending}
use sfpg_go.Preload.Claims.{AllNamed, has_waiting, has_running}
use sfpg_go.Preload.Stuck.{claims_outlive_tasks}

abbrev routes : List Str
routes = codes "/info/" ∷ []

abbrev path : Str
path = codes "/info/image/1"

abbrev key : Str
key = codes "GET:/info/image/1?v=1|Variant=box_info"

abbrev answers : Answers
answers = record { routes = some (path ∷ []); exists = λ k. some false; succeeds = true }

-- The folder's task runs, and claims the key of the image; its preload has not begun.
abbrev opened : List Event
opened =
    opens true (pos 5) 5 (codes "1") (pos 3) (codes "s")
    ∷ begins 1
    ∷ runs 0 6 answers
    ∷ runs 0 6 answers
    ∷ runs 0 6 answers
    ∷ []

abbrev again : List Event
again =
    toggles 1 true
    ∷ opens true (pos 9) 9 (codes "1") (pos 3) (codes "s")
    ∷ begins 1
    ∷ runs 0 9 answers
    ∷ runs 0 9 answers
    ∷ []

abbrev fresh : PreloadManager
fresh = new_preload_manager 1 routes true

-- Opening another folder leaves the waiting preload where it is.
nothing_cancelled :
    length
      (run (opens true (pos 9) 9 (codes "1") (pos 4) (codes "s") ∷ []) (run opened fresh)).queued
    ≡ 2
unfolding run new_preload_manager add_task new_cache_key new_cache_key_for_preload
    preload_variant_for_path has_prefix same new_scheduler is_task_pending
nothing_cancelled = refl

-- A preload that runs when preloading is switched off releases its key before the scheduler is dropped.
released :
    is_task_pending key
      (run
        (begins 2 ∷ toggles 1 false ∷ stops ∷ runs 0 7 answers ∷ stops ∷ [])
        (run opened fresh)).task_tracker
    ≡ false
unfolding run new_preload_manager add_task new_cache_key new_cache_key_for_preload
    preload_variant_for_path has_prefix same new_scheduler is_task_pending
released = refl

abbrev off : List Event
off =
    opens true (pos 5) 5 (codes "1") (pos 3) (codes "s")
    ∷ begins 1
    ∷ runs 0 6 answers
    ∷ runs 0 6 answers
    ∷ runs 0 6 answers
    ∷ toggles 1 false
    ∷ []

claims_outlive_tasks_example :
    (is_task_pending key (run again (stop_scheduler (run off fresh))).task_tracker ≡ true)
    × (has_waiting key (run again (stop_scheduler (run off fresh))).queued ≡ false)
    × (has_running key (run again (stop_scheduler (run off fresh))).running ≡ false)
unfolding run new_preload_manager add_task new_cache_key new_cache_key_for_preload
    preload_variant_for_path has_prefix same new_scheduler is_task_pending AllNamed
claims_outlive_tasks_example =
    claims_outlive_tasks 1 routes true off again (run off fresh) key refl refl refl refl
      (tt, (refl, (tt, (tt, (tt, tt)))))
