-- ===== src/CacheBatch/Steps.antt =====
-- internal/server/cachebatch: each step of Run and of its workers keeps the balance of flag and counters.
use sfpg_go.Base.{
  ℕ, suc, ◌+◌, ◌≡◌, ◌≤◌, refl, ap, Bool, true, List, [], ◌∷◌, length, ltb, if◌then◌else◌, if_split,
  arith,
}
use sfpg_go.CacheBatch.Load.{
  Call, starting, entering, opening, scheduling, sending, draining, leaving, releasing, returned,
  with_metrics, take_job, take, remove_at, run_job, finish, Act, proceeds, takes, finishes, advance,
}
use sfpg_go.CacheBatch.State.{Target, Manager, max_workers, record_completed, record_failed}
use sfpg_go.CacheBatch.Count.{
  num, holds, in_hand, Fits, Balanced, stays, done-Counts, length-remove_at,
}
use sfpg_go.CacheBatch.Proceeds.{proceed-Balanced}

pub take_job-lem {ℓ} :
    (P : Call → Type ℓ) (most : ℕ) (jobs busy : List Target) (c : List Target → List Target → Call)
    → P (c jobs busy)
    → ((j : Target) (js : List Target)
        → jobs ≡ j ∷ js
        → ltb (length busy) most ≡ true
        → P (c js (j ∷ busy)))
    → P (take_job most jobs busy c)
take_job-lem P most [] busy c waits taken = waits
take_job-lem P most (j ∷ jobs) busy c waits taken =
    if_split P (ltb (length busy) most) (λ h. taken j jobs refl h) (λ _. waits)

take-Balanced : (m : Manager) (c : Call) → Fits (max_workers m) c → Balanced m c (m, take m c)
unfolding take
take-Balanced m (scheduling v ts jobs busy) f =
    take_job-lem (λ x. Balanced m (scheduling v ts jobs busy) (m, x)) (max_workers m) jobs busy
      (scheduling v ts) (stays m _ (scheduling v ts jobs busy) refl refl f)
      (λ j js e h.
        stays m (scheduling v ts jobs busy) (scheduling v ts js (j ∷ busy)) refl
          (omega (arith, ap length e)) (omega (arith, ap length e, f.0), ground (arith, f.1)))
take-Balanced m (sending v t ts jobs busy) f =
    take_job-lem (λ x. Balanced m (sending v t ts jobs busy) (m, x)) (max_workers m) jobs busy
      (sending v t ts) (stays m _ (sending v t ts jobs busy) refl refl f)
      (λ j js e h.
        stays m (sending v t ts jobs busy) (sending v t ts js (j ∷ busy)) refl
          (omega (arith, ap length e)) (omega (arith, ap length e, f.0), ground (arith, f.1)))
take-Balanced m (draining jobs busy) f =
    take_job-lem (λ x. Balanced m (draining jobs busy) (m, x)) (max_workers m) jobs busy draining
      (stays m _ (draining jobs busy) refl refl f)
      (λ j js e h.
        stays m (draining jobs busy) (draining js (j ∷ busy)) refl (omega (arith, ap length e))
          (omega (arith, ap length e, f.0), ground (arith, f.1)))
take-Balanced m starting f = stays m starting starting refl refl tt
take-Balanced m entering f = stays m entering entering refl refl tt
take-Balanced m opening f = stays m opening opening refl refl tt
take-Balanced m (leaving e) f = stays m (leaving e) (leaving e) refl refl tt
take-Balanced m (releasing e) f = stays m (releasing e) (releasing e) refl refl tt
take-Balanced m (returned e) f = stays m (returned e) (returned e) refl refl tt

run_job-Balanced :
    (m : Manager) (i : ℕ) (ok : Bool) (busy : List Target) (c : List Target → Call) (k : ℕ)
    → ((xs : List Target) → holds (c xs) ≡ holds (c busy))
    → ((xs : List Target) → in_hand (c xs) ≡ k + length xs)
    → ((xs : List Target) → length xs ≤ length busy → Fits (max_workers m) (c xs))
    → Balanced m (c busy) (run_job i ok busy c m)
unfolding run_job
run_job-Balanced m i ok busy c k h n f =
    if_split (Balanced m (c busy)) (ltb i (length busy))
      (λ is.
        let l = length-remove_at i busy is in
        let before : in_hand (c busy) ≡ suc (k + length (remove_at i busy)) =
          omega (arith, n busy) in
        record {
          flag = ap (λ x. num m.running + x) (h (remove_at i busy));
          counts =
              rw (before, n (remove_at i busy))
                (done-Counts m.metrics (k + length (remove_at i busy)) ok);
          num_cpu = by_result ok;
          fits = f (remove_at i busy) (omega arith);
        })
      (λ _. stays m (c busy) (c busy) refl refl (f busy (omega arith)))
  where
    by_result :
        (b : Bool)
        → (with_metrics (if b then record_completed else record_failed) m).num_cpu ≡ m.num_cpu
    by_result b = refl

finish-Balanced :
    (i : ℕ) (ok : Bool) (m : Manager) (c : Call)
    → Fits (max_workers m) c
    → Balanced m c (finish i ok m c)
unfolding finish
finish-Balanced i ok m (scheduling v ts jobs busy) f =
    run_job-Balanced m i ok busy (scheduling v ts jobs) (length jobs) (λ xs. refl) (λ xs. refl)
      (λ xs l. (f.0, omega (arith, l, f.1)))
finish-Balanced i ok m (sending v t ts jobs busy) f =
    run_job-Balanced m i ok busy (sending v t ts jobs) (suc (length jobs)) (λ xs. refl)
      (λ xs. omega arith) (λ xs l. (f.0, omega (arith, l, f.1)))
finish-Balanced i ok m (draining jobs busy) f =
    run_job-Balanced m i ok busy (draining jobs) (length jobs) (λ xs. refl) (λ xs. refl)
      (λ xs l. (f.0, omega (arith, l, f.1)))
finish-Balanced i ok m starting f = stays m starting starting refl refl tt
finish-Balanced i ok m entering f = stays m entering entering refl refl tt
finish-Balanced i ok m opening f = stays m opening opening refl refl tt
finish-Balanced i ok m (leaving e) f = stays m (leaving e) (leaving e) refl refl tt
finish-Balanced i ok m (releasing e) f = stays m (releasing e) (releasing e) refl refl tt
finish-Balanced i ok m (returned e) f = stays m (returned e) (returned e) refl refl tt

pub advance-Balanced :
    (act : Act) (m : Manager) (c : Call)
    → holds c ≤ num m.running
    → Fits (max_workers m) c
    → Balanced m c (advance act m c)
unfolding advance
advance-Balanced (proceeds a) m c h f = proceed-Balanced a m c h f
advance-Balanced takes m c h f = take-Balanced m c f
advance-Balanced (finishes i ok) m c h f = finish-Balanced i ok m c f
