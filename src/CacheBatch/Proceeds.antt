-- ===== src/CacheBatch/Proceeds.antt =====
-- internal/server/cachebatch/manager.go: each step of Run itself keeps the balance of flag and counters.
use sfpg_go.Base.{
  suc, ◌+◌, ◌≡◌, ◌≤◌, refl, ap, Bool, true, false, ◌&&◌, ◌||◌, not, List, [], ◌∷◌, ◌++◌, Option,
  none, some, length, length-append, ltb, if◌then◌else◌, if_split, arith,
}
use sfpg_go.Base.Int.{pos_part, neg_part, int_laws}
use sfpg_go.Base.Text.{Str, codes}
use sfpg_go.HttpCache.Key.{is_empty}
use sfpg_go.CacheBatch.Load.{
  Call, starting, entering, opening, scheduling, sending, draining, leaving, releasing, returned,
  Answers, guard_result, with_metrics, started, with_total, finished, open_run, is_backpressured,
  is_throttling, by_exists, target_key, schedule_target, send, proceed,
}
use sfpg_go.CacheBatch.State.{
  nil_queries, nil_handler, failed, discovery_active, already_running, Target, Metrics, Manager,
  default_queue_size, max_workers, record_skipped, record_throttled, record_backpressure_skipped,
}
use sfpg_go.CacheBatch.Count.{
  num, holds, Fits, Counts, Balanced, same-Counts, stays, notes, unscheduled-Counts,
}

-- The counters of the jobs are the same.
abbrev Quiet : Metrics → Metrics → Type 0
Quiet s s' = Counts s 0 s' 0

abbrev quiet : {s : Metrics} → Quiet s s
quiet {s} = same-Counts s 0 0 refl

guard_result-Balanced : (m : Manager) (o : Option Bool) → Balanced m starting (m, guard_result o)
guard_result-Balanced m none = stays m starting (returned (some failed)) refl refl tt
guard_result-Balanced m (some true) =
    stays m starting (returned (some discovery_active)) refl refl tt
guard_result-Balanced m (some false) = stays m starting entering refl refl tt

open_run-Balanced : (a : Answers) (m : Manager) → Balanced m opening (open_run a m)
unfolding open_run
open_run-Balanced a m =
    if_split (Balanced m opening) (not a.has_queries)
      (λ _.
        notes m opened opening (leaving (some nil_queries)) refl refl
          (record { in_flight = refl; scheduled = refl }) refl refl tt)
      (λ _. by_targets a.targets)
  where
    opened : Manager
    opened = with_metrics (started a.now) m

    by_targets :
        (o : Option (List Target))
        → Balanced m opening (elim o as (λ _. Manager × Call) [
          | none ↦ (with_metrics (started a.now) m, leaving (some failed))
          | some ts ↦
              if a.has_handler
              then (
                with_metrics (with_total (length ts)) (with_metrics (started a.now) m),
                scheduling (if is_empty a.etag_version then codes "0" else a.etag_version) ts [] [],
              )
              else (
                with_metrics (with_total (length ts)) (with_metrics (started a.now) m),
                leaving (some nil_handler),
              )
        ])
    by_targets none =
        notes m (with_metrics (started a.now) m) opening (leaving (some failed)) refl refl
          (record { in_flight = refl; scheduled = refl }) refl refl tt
    by_targets (some ts) =
        if_split (Balanced m opening) a.has_handler
          (λ _.
            notes m _ opening (scheduling _ ts [] []) refl refl
              (record { in_flight = refl; scheduled = refl }) refl refl (omega arith, omega arith))
          (λ _.
            notes m _ opening (leaving (some nil_handler)) refl refl
              (record { in_flight = refl; scheduled = refl }) refl refl tt)

by_exists-Balanced :
    (m m' : Manager) (o : Option Bool) (v : Str) (t : Target) (ts jobs busy : List Target)
    → m'.running ≡ m.running
    → m'.num_cpu ≡ m.num_cpu
    → Quiet m.metrics m'.metrics
    → length jobs ≤ 950
    → length busy ≤ max_workers m
    → Balanced m (scheduling v (t ∷ ts) jobs busy) (by_exists o v t ts jobs busy m')
unfolding record_skipped
by_exists-Balanced m m' none v t ts jobs busy r u q f g =
    notes m m' (scheduling v (t ∷ ts) jobs busy) (scheduling v ts jobs busy) r u q refl refl
      (omega arith, g)
by_exists-Balanced m m' (some true) v t ts jobs busy r u q f g =
    notes m (with_metrics record_skipped m') (scheduling v (t ∷ ts) jobs busy)
      (scheduling v ts jobs busy) r u (record { in_flight = q.in_flight; scheduled = q.scheduled })
      refl refl (omega arith, g)
by_exists-Balanced m m' (some false) v t ts jobs busy r u q f g = record {
  flag = rw r refl;
  counts = record {
    in_flight = omega (int_laws, ap pos_part q.in_flight, ap neg_part q.in_flight);
    scheduled = omega (int_laws, ap pos_part q.scheduled, ap neg_part q.scheduled);
  };
  num_cpu = u;
  fits = (f, g);
}

schedule_target-Balanced :
    (a : Answers) (m : Manager) (v : Str) (t : Target) (ts jobs busy : List Target)
    → length busy ≤ max_workers m
    → length jobs ≤ 951
    → Balanced m (scheduling v (t ∷ ts) jobs busy) (schedule_target a v t ts jobs busy m)
unfolding schedule_target is_backpressured record_backpressure_skipped record_throttled
schedule_target-Balanced a m v t ts jobs busy g f =
    if_split (Balanced m (scheduling v (t ∷ ts) jobs busy)) (ltb 950 (length jobs))
      (λ _.
        notes m _ (scheduling v (t ∷ ts) jobs busy) (scheduling v ts jobs busy) refl refl
          (record { in_flight = refl; scheduled = refl }) refl refl (f, g))
      (λ below.
        let k : length jobs ≤ 950 = ground arith in
        if_split
          (λ x.
            Balanced m (scheduling v (t ∷ ts) jobs busy)
              (by_exists (a.exists (target_key v t)) v t ts jobs busy x))
          (is_throttling (length jobs))
          (λ _.
            by_exists-Balanced m
              (record m { metrics = record_throttled m.metrics; is_throttled = false })
              (a.exists (target_key v t)) v t ts jobs busy refl refl
              (record { in_flight = refl; scheduled = refl }) k g)
          (λ _.
            by_exists-Balanced m m (a.exists (target_key v t)) v t ts jobs busy refl refl quiet k
              g))

send-Balanced :
    (a : Answers) (m : Manager) (v : Str) (t : Target) (ts jobs busy : List Target)
    → length jobs ≤ 950
    → length busy ≤ max_workers m
    → Balanced m (sending v t ts jobs busy) (send a v t ts jobs busy m)
unfolding send
send-Balanced a m v t ts jobs busy f g =
    if_split (Balanced m (sending v t ts jobs busy))
      (ltb (length jobs) default_queue_size && (a.first || not a.cancelled))
      (λ _.
        let n : length (jobs ++ t ∷ []) ≡ suc (length jobs) =
          omega (arith, length-append jobs (t ∷ [])) in
        stays m (sending v t ts jobs busy) (scheduling v ts (jobs ++ t ∷ []) busy) refl
          (omega arith) (omega arith, g))
      (λ _.
        if_split (Balanced m (sending v t ts jobs busy)) a.cancelled
          (λ _. record {
            flag = refl;
            counts = unscheduled-Counts m.metrics (length jobs + length busy);
            num_cpu = refl;
            fits = (omega arith, g);
          })
          (λ _. stays m (sending v t ts jobs busy) (sending v t ts jobs busy) refl refl (f, g)))

num_le : (b : Bool) → num b ≤ 1
num_le true = omega arith
num_le false = omega arith

pub proceed-Balanced :
    (a : Answers) (m : Manager) (c : Call)
    → holds c ≤ num m.running
    → Fits (max_workers m) c
    → Balanced m c (proceed a m c)
unfolding proceed
proceed-Balanced a m starting h f =
    if_split (λ x. Balanced m starting (m, x)) m.guarded (λ _. guard_result-Balanced m a.is_active)
      (λ _. stays m starting entering refl refl tt)
proceed-Balanced a m entering h f =
    if_split (Balanced m entering) m.running
      (λ _. stays m entering (returned (some already_running)) refl refl tt)
      (λ free. record {
        flag = rw free refl;
        counts = same-Counts m.metrics 0 0 refl;
        num_cpu = refl;
        fits = tt;
      })
proceed-Balanced a m opening h f = open_run-Balanced a m
proceed-Balanced a m (scheduling v [] jobs busy) h f =
    stays m (scheduling v [] jobs busy) (draining jobs busy) refl refl f
proceed-Balanced a m (scheduling v (t ∷ ts) jobs busy) h f =
    schedule_target-Balanced a m v t ts jobs busy f.1 f.0
proceed-Balanced a m (sending v t ts jobs busy) h f = send-Balanced a m v t ts jobs busy f.0 f.1
proceed-Balanced a m (draining [] []) h f = stays m (draining [] []) (leaving none) refl refl tt
proceed-Balanced a m (draining [] (b ∷ busy)) h f =
    stays m (draining [] (b ∷ busy)) (draining [] (b ∷ busy)) refl refl f
proceed-Balanced a m (draining (j ∷ jobs) busy) h f =
    stays m (draining (j ∷ jobs) busy) (draining (j ∷ jobs) busy) refl refl f
proceed-Balanced a m (leaving e) h f =
    notes m (with_metrics (finished a.now) m) (leaving e) (releasing e) refl refl
      (record { in_flight = refl; scheduled = refl }) refl refl tt
proceed-Balanced a m (releasing e) h f = record {
  flag = omega (arith, num_le m.running);
  counts = same-Counts m.metrics 0 0 refl;
  num_cpu = refl;
  fits = tt;
}
proceed-Balanced a m (returned e) h f = stays m (returned e) (returned e) refl refl tt
