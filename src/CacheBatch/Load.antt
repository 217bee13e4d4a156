-- ===== src/CacheBatch/Load.antt =====
-- internal/server/cachebatch: the load of all cacheable pages into the cache. Any number of calls of Run
-- share a manager. A step of a call is one access to the flag, the steps before the loop, one target of
-- the loop, one send, or the end; a step of one of its workers takes a job or finishes one.
use sfpg_go.Base.{
  ℕ, zero, suc, Bool, true, false, ◌&&◌, ◌||◌, not, List, [], ◌∷◌, ◌++◌, Option, none, some, length,
  get_elem?, set, ltb, if◌then◌else◌,
}
use sfpg_go.Base.Int.{ℤ, pos, ◌+ℤ◌, ◌-ℤ◌}
use sfpg_go.Base.Text.{Str, codes}
use sfpg_go.HttpCache.Key.{is_empty, new_cache_key, new_cache_key_for_preload}
use sfpg_go.CacheBatch.State.{
  Error, discovery_active, already_running, nil_queries, nil_handler, failed, Target, Metrics,
  Manager, default_queue_size, max_workers, record_completed, record_failed, record_skipped,
  record_throttled, record_backpressure_skipped,
}

-- Where a call of Run stands. From `scheduling` to `draining` it has the jobs in its channel and the jobs
-- that its workers run.
pub data Call : Type 0 where
  starting entering opening : Call
  scheduling : Str → List Target → List Target → List Target → Call
  sending : Str → Target → List Target → List Target → List Target → Call
  draining : List Target → List Target → Call
  leaving releasing returned : Option Error → Call

-- What the environment answers in a step: the state of the discovery (`none` for an error), the clock,
-- the queries, the targets, the handler, the keys in the cache, whether the context is done, and whether
-- a select with both cases ready takes the first.
pub record Answers : Type 0 where
  pub is_active : Option Bool
  pub now : ℤ
  pub has_queries : Bool
  pub targets : Option (List Target)
  pub has_handler : Bool
  pub etag_version : Str
  pub exists : Str → Option Bool
  pub cancelled : Bool
  pub first : Bool

abbrev pub guard_result : Option Bool → Call
guard_result none = returned (some failed)
guard_result (some true) = returned (some discovery_active)
guard_result (some false) = entering

abbrev pub with_metrics : (Metrics → Metrics) → Manager → Manager
with_metrics f m = record m { metrics = f m.metrics }

abbrev pub started : ℤ → Metrics → Metrics
started now s = record s { is_running = true; last_started_at = now }

abbrev pub finished : ℤ → Metrics → Metrics
finished now s = record s { is_running = false; last_finished_at = now }

abbrev pub with_total : ℕ → Metrics → Metrics
with_total n s = record s { targets_total = n }

-- From the flag to the loop. The deferred return of the queries is a call of the environment.
unfoldable pub open_run : Answers → Manager → Manager × Call
open_run a m =
    let m' = with_metrics (started a.now) m in
    if not a.has_queries
    then (m', leaving (some nil_queries))
    else (elim a.targets as (λ _. Manager × Call) [
      | none ↦ (m', leaving (some failed))
      | some ts ↦
          if a.has_handler
          then (
            with_metrics (with_total (length ts)) m',
            scheduling (if is_empty a.etag_version then codes "0" else a.etag_version) ts [] [],
          )
          else (with_metrics (with_total (length ts)) m', leaving (some nil_handler))
    ])

-- The quotients 0.95 and 0.8 of the queue's size, exact at the bounds: a float64 divides 950 and 800
-- by 1000 to the same numbers as the constants.
unfoldable pub is_backpressured : ℕ → Bool
is_backpressured pending = ltb 950 pending

unfoldable pub is_throttling : ℕ → Bool
is_throttling pending = ltb 800 pending

abbrev pub throttled : ℕ → Manager → Manager
throttled pending m =
    if is_throttling pending
    then record m { metrics = record_throttled m.metrics; is_throttled = false }
    else m

abbrev pub scheduled : Metrics → Metrics
scheduled s = record s {
  targets_scheduled = s.targets_scheduled +ℤ pos 1;
  in_flight = s.in_flight +ℤ pos 1;
}

abbrev pub unscheduled : Metrics → Metrics
unscheduled s = record s {
  in_flight = s.in_flight -ℤ pos 1;
  targets_scheduled = s.targets_scheduled -ℤ pos 1;
}

abbrev pub by_exists :
    Option Bool → Str → Target → List Target → List Target → List Target → Manager → Manager × Call
by_exists none version t ts jobs busy m = (m, scheduling version ts jobs busy)
by_exists (some true) version t ts jobs busy m =
    (with_metrics record_skipped m, scheduling version ts jobs busy)
by_exists (some false) version t ts jobs busy m =
    (with_metrics scheduled m, sending version t ts jobs busy)

abbrev pub target_key : Str → Target → Str
target_key version t =
    new_cache_key (new_cache_key_for_preload t.path (codes "v=" ++ version) t.variant)

-- One target of the loop, up to the send.
unfoldable pub schedule_target :
    Answers → Str → Target → List Target → List Target → List Target → Manager → Manager × Call
unfolding is_backpressured is_throttling record_throttled record_skipped record_backpressure_skipped
schedule_target a version t ts jobs busy m =
    if is_backpressured (length jobs)
    then (with_metrics record_backpressure_skipped m, scheduling version ts jobs busy)
    else by_exists (a.exists (target_key version t)) version t ts jobs busy
        (throttled (length jobs) m)

-- The select over the channel and the context; it waits while neither is ready.
unfoldable pub send :
    Answers → Str → Target → List Target → List Target → List Target → Manager → Manager × Call
send a version t ts jobs busy m =
    if ltb (length jobs) default_queue_size && (a.first || not a.cancelled)
    then (m, scheduling version ts (jobs ++ t ∷ []) busy)
    else if a.cancelled
    then (with_metrics unscheduled m, draining jobs busy)
    else (m, sending version t ts jobs busy)

unfoldable pub proceed : Answers → Manager → Call → Manager × Call
unfolding open_run schedule_target send
proceed a m starting = (m, if m.guarded then guard_result a.is_active else entering)
proceed a m entering =
    if m.running
    then (m, returned (some already_running))
    else (record m { running = true }, opening)
proceed a m opening = open_run a m
proceed a m (scheduling version [] jobs busy) = (m, draining jobs busy)
proceed a m (scheduling version (t ∷ ts) jobs busy) = schedule_target a version t ts jobs busy m
proceed a m (sending version t ts jobs busy) = send a version t ts jobs busy m
proceed a m (draining [] []) = (m, leaving none)
proceed a m (draining jobs busy) = (m, draining jobs busy)
proceed a m (leaving e) = (with_metrics (finished a.now) m, releasing e)
proceed a m (releasing e) = (record m { running = false }, returned e)
proceed a m (returned e) = (m, returned e)

-- A worker that is free takes the next job.
abbrev pub take_job : ℕ → List Target → List Target → (List Target → List Target → Call) → Call
take_job most [] busy c = c [] busy
take_job most (j ∷ jobs) busy c =
    if ltb (length busy) most then c jobs (j ∷ busy) else c (j ∷ jobs) busy

unfoldable pub take : Manager → Call → Call
unfolding max_workers
take m (scheduling v ts jobs busy) = take_job (max_workers m) jobs busy (scheduling v ts)
take m (sending v t ts jobs busy) = take_job (max_workers m) jobs busy (sending v t ts)
take m (draining jobs busy) = take_job (max_workers m) jobs busy draining
take m c = c

abbrev pub remove_at : ℕ → List Target → List Target
remove_at i [] = []
remove_at zero (x ∷ xs) = xs
remove_at (suc i) (x ∷ xs) = x ∷ remove_at i xs

-- The worker with the job at `i` has run it, and `ok` says whether the request succeeded.
unfoldable pub run_job : ℕ → Bool → List Target → (List Target → Call) → Manager → Manager × Call
unfolding record_completed record_failed
run_job i ok busy c m =
    if ltb i (length busy)
    then (with_metrics (if ok then record_completed else record_failed) m, c (remove_at i busy))
    else (m, c busy)

unfoldable pub finish : ℕ → Bool → Manager → Call → Manager × Call
unfolding run_job
finish i ok m (scheduling v ts jobs busy) = run_job i ok busy (scheduling v ts jobs) m
finish i ok m (sending v t ts jobs busy) = run_job i ok busy (sending v t ts jobs) m
finish i ok m (draining jobs busy) = run_job i ok busy (draining jobs) m
finish i ok m c = (m, c)

pub data Act : Type 0 where
  proceeds : Answers → Act
  takes : Act
  finishes : ℕ → Bool → Act

unfoldable pub advance : Act → Manager → Call → Manager × Call
unfolding proceed take finish
advance (proceeds a) m c = proceed a m c
advance takes m c = (m, take m c)
advance (finishes i ok) m c = finish i ok m c

pub record World : Type 0 where
  pub manager : Manager
  pub calls : List Call

abbrev pub resume : World → ℕ → Manager × Call → World
resume w i (m, c) = record { manager = m; calls = set w.calls i c }

-- Call `i`, or one of its workers, takes a step.
unfoldable pub step : ℕ → Act → World → World
unfolding advance
step i act w = elim (get_elem? w.calls i) as (λ _. World) [
  | none ↦ w
  | some c ↦ resume w i (advance act w.manager c)
]

unfoldable pub run : List (ℕ × Act) → World → World
unfolding step
run [] w = w
run ((i, act) ∷ s) w = run s (step i act w)
