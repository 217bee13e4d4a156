-- ===== src/CacheBatch/Ends.antt =====
-- internal/server/cachebatch: a call that has read its targets comes to its end.
use sfpg_go.Base.{
  ℕ, ◌+◌, ◌*◌, ◌≡◌, ◌≤◌, ◌<◌, ◌⊎◌, inl, inr, refl, ap, Bool, true, false, ◌&&◌, ◌||◌, not, List, [],
  ◌∷◌, Option, none, some, length, length-append, get_elem?, ltb, if_split, arith, Bool-cases,
}
use sfpg_go.Base.Text.{Str}
use sfpg_go.CacheBatch.Load.{
  is_backpressured, throttled, by_exists, target_key, schedule_target, send, proceed, take,
  remove_at, run_job, finish, Call, starting, entering, opening, scheduling, sending, draining,
  leaving, releasing, returned, Answers, Act, proceeds, takes, finishes, advance, World, run,
}
use sfpg_go.CacheBatch.State.{Target, Manager, new_manager, default_queue_size, max_workers}
use sfpg_go.CacheBatch.Count.{Fits, length-remove_at}
use sfpg_go.CacheBatch.Steps.{take_job-lem}
use sfpg_go.CacheBatch.Runs.{all_start, AllFit-get, reached-IsCounted}

-- The steps that a call has left at most, once it has its targets.
unfoldable pub left : Call → ℕ
left (scheduling v ts jobs busy) = 4 * length ts + 2 * length jobs + length busy + 4
left (sending v t ts jobs busy) = 4 * length ts + 2 * length jobs + length busy + 7
left (draining jobs busy) = 2 * length jobs + length busy + 3
left (leaving e) = 2
left (releasing e) = 1
left _ = 0

abbrev pub has_targets : Call → Bool
has_targets starting = false
has_targets entering = false
has_targets opening = false
has_targets _ = true

abbrev pub is_returned : Call → Bool
is_returned (returned e) = true
is_returned _ = false

-- A step goes down by one or more, or changes neither the manager nor the call.
abbrev pub Falls : Manager → Call → Manager × Call → Type 0
Falls m c r = (left r.1 < left c) ⊎ (r ≡ (m, c))

schedule_target-lower :
    (a : Answers) (m : Manager) (v : Str) (t : Target) (ts jobs busy : List Target)
    → left (schedule_target a v t ts jobs busy m).1 < left (scheduling v (t ∷ ts) jobs busy)
unfolding schedule_target left
schedule_target-lower a m v t ts jobs busy =
    if_split (λ (r : Manager × Call). left r.1 < left (scheduling v (t ∷ ts) jobs busy))
      (is_backpressured (length jobs)) (λ _. omega arith)
      (λ _. by_answer (a.exists (target_key v t)) (throttled (length jobs) m))
  where
    by_answer :
        (o : Option Bool) (m' : Manager)
        → left (by_exists o v t ts jobs busy m').1 < left (scheduling v (t ∷ ts) jobs busy)
    by_answer none m' = omega arith
    by_answer (some true) m' = omega arith
    by_answer (some false) m' = omega arith

send-Falls :
    (a : Answers) (m : Manager) (v : Str) (t : Target) (ts jobs busy : List Target)
    → Falls m (sending v t ts jobs busy) (send a v t ts jobs busy m)
unfolding send left
send-Falls a m v t ts jobs busy =
    if_split (Falls m (sending v t ts jobs busy))
      (ltb (length jobs) default_queue_size && (a.first || not a.cancelled))
      (λ _. inl (omega (arith, length-append jobs (t ∷ []))))
      (λ _.
        if_split (Falls m (sending v t ts jobs busy)) a.cancelled (λ _. inl (omega arith))
          (λ _. inr refl))

proceed-Falls :
    (a : Answers) (m : Manager) (c : Call) → has_targets c ≡ true → Falls m c (proceed a m c)
unfolding proceed left
proceed-Falls a m starting h = cc
proceed-Falls a m entering h = cc
proceed-Falls a m opening h = cc
proceed-Falls a m (scheduling v [] jobs busy) h = inl (omega arith)
proceed-Falls a m (scheduling v (t ∷ ts) jobs busy) h =
    inl (schedule_target-lower a m v t ts jobs busy)
proceed-Falls a m (sending v t ts jobs busy) h = send-Falls a m v t ts jobs busy
proceed-Falls a m (draining [] []) h = inl (omega arith)
proceed-Falls a m (draining [] (b ∷ busy)) h = inr refl
proceed-Falls a m (draining (j ∷ jobs) busy) h = inr refl
proceed-Falls a m (leaving e) h = inl (omega arith)
proceed-Falls a m (releasing e) h = inl (omega arith)
proceed-Falls a m (returned e) h = inr refl

take-Falls : (m : Manager) (c : Call) → Falls m c (m, take m c)
unfolding take left
take-Falls m (scheduling v ts jobs busy) =
    take_job-lem (λ x. Falls m (scheduling v ts jobs busy) (m, x)) (max_workers m) jobs busy
      (scheduling v ts) (inr refl) (λ j js e h. inl (omega (arith, ap length e)))
take-Falls m (sending v t ts jobs busy) =
    take_job-lem (λ x. Falls m (sending v t ts jobs busy) (m, x)) (max_workers m) jobs busy
      (sending v t ts) (inr refl) (λ j js e h. inl (omega (arith, ap length e)))
take-Falls m (draining jobs busy) =
    take_job-lem (λ x. Falls m (draining jobs busy) (m, x)) (max_workers m) jobs busy draining
      (inr refl) (λ j js e h. inl (omega (arith, ap length e)))
take-Falls m starting = inr refl
take-Falls m entering = inr refl
take-Falls m opening = inr refl
take-Falls m (leaving e) = inr refl
take-Falls m (releasing e) = inr refl
take-Falls m (returned e) = inr refl

run_job-Falls :
    (m : Manager) (i : ℕ) (ok : Bool) (busy : List Target) (c : List Target → Call) (k : ℕ)
    → ((xs : List Target) → left (c xs) ≡ k + length xs)
    → Falls m (c busy) (run_job i ok busy c m)
unfolding run_job
run_job-Falls m i ok busy c k n =
    if_split (Falls m (c busy)) (ltb i (length busy))
      (λ is. inl (omega (arith, n busy, n (remove_at i busy), length-remove_at i busy is)))
      (λ _. inr refl)

finish-Falls : (i : ℕ) (ok : Bool) (m : Manager) (c : Call) → Falls m c (finish i ok m c)
unfolding finish left
finish-Falls i ok m (scheduling v ts jobs busy) =
    run_job-Falls m i ok busy (scheduling v ts jobs) (4 * length ts + 2 * length jobs + 4)
      (λ xs. omega arith)
finish-Falls i ok m (sending v t ts jobs busy) =
    run_job-Falls m i ok busy (sending v t ts jobs) (4 * length ts + 2 * length jobs + 7)
      (λ xs. omega arith)
finish-Falls i ok m (draining jobs busy) =
    run_job-Falls m i ok busy (draining jobs) (2 * length jobs + 3) (λ xs. omega arith)
finish-Falls i ok m starting = inr refl
finish-Falls i ok m entering = inr refl
finish-Falls i ok m opening = inr refl
finish-Falls i ok m (leaving e) = inr refl
finish-Falls i ok m (releasing e) = inr refl
finish-Falls i ok m (returned e) = inr refl

advance-Falls :
    (act : Act) (m : Manager) (c : Call) → has_targets c ≡ true → Falls m c (advance act m c)
unfolding advance
advance-Falls (proceeds a) m c h = proceed-Falls a m c h
advance-Falls takes m c h = take-Falls m c
advance-Falls (finishes i ok) m c h = finish-Falls i ok m c

-- An act of a call that takes it nearer to its end, whatever the environment answers.
abbrev pub next_act : Answers → Call → Act
next_act a (draining (j ∷ jobs) []) = takes
next_act a (draining jobs (b ∷ busy)) = finishes 0 true
next_act a c = proceeds a

not_empty : (b : Target) (busy : List Target) → ltb 0 (length (b ∷ busy)) ≡ false → ⊥
not_empty b busy e = ground arith

next_act-lower :
    (a : Answers) (m : Manager) (c : Call)
    → 1 ≤ max_workers m
    → Fits (max_workers m) c
    → has_targets c ≡ true
    → is_returned c ≡ false
    → left (advance (next_act a c) m c).1 < left c
unfolding advance proceed left take finish run_job send
next_act-lower a m starting w f h r = cc
next_act-lower a m entering w f h r = cc
next_act-lower a m opening w f h r = cc
next_act-lower a m (scheduling v [] jobs busy) w f h r = omega arith
next_act-lower a m (scheduling v (t ∷ ts) jobs busy) w f h r =
    schedule_target-lower a m v t ts jobs busy
next_act-lower a m (sending v t ts jobs busy) w f h r =
    if_split (λ (x : Manager × Call). left x.1 < left (sending v t ts jobs busy))
      (ltb (length jobs) default_queue_size && (a.first || not a.cancelled))
      (λ _. omega (arith, length-append jobs (t ∷ [])))
      (λ full.
        if_split (λ (x : Manager × Call). left x.1 < left (sending v t ts jobs busy)) a.cancelled
          (λ _. omega arith) (λ calm. absurd (has_room full calm)))
  where
    has_room :
        (ltb (length jobs) default_queue_size && (a.first || not a.cancelled)) ≡ false
        → a.cancelled ≡ false
        → ⊥
    has_room full calm = ground (arith, f.0)
next_act-lower a m (draining [] []) w f h r = omega arith
next_act-lower a m (draining [] (b ∷ busy)) w f h r =
    if_split (λ (x : Manager × Call). left x.1 < left (draining [] (b ∷ busy)))
      (ltb 0 (length (b ∷ busy))) (λ _. omega arith) (λ e. absurd (not_empty b busy e))
next_act-lower a m (draining (j ∷ jobs) []) w f h r =
    if_split (λ x. left x < left (draining (j ∷ jobs) [])) (ltb 0 (max_workers m))
      (λ _. omega arith) (λ none_free. absurd (has_worker none_free))
  where
    has_worker : ltb 0 (max_workers m) ≡ false → ⊥
    has_worker e = ground (arith, w)
next_act-lower a m (draining (j ∷ jobs) (b ∷ busy)) w f h r =
    if_split (λ (x : Manager × Call). left x.1 < left (draining (j ∷ jobs) (b ∷ busy)))
      (ltb 0 (length (b ∷ busy))) (λ _. omega arith) (λ e. absurd (not_empty b busy e))
next_act-lower a m (leaving e) w f h r = omega arith
next_act-lower a m (releasing e) w f h r = omega arith
next_act-lower a m (returned e) w f h r = cc

max_workers_positive : (m : Manager) → 1 ≤ m.num_cpu → 1 ≤ max_workers m
unfolding max_workers
max_workers_positive m h = ground arith

-- On a machine with a processor, of a Run that has read its targets: each step of the call or of a worker
-- lowers the number `left` of steps still to come or changes nothing; and until the call has returned, some
-- step of it lowers that number, whatever the environment answers.
pub load_ends :
    (guarded : Bool) (num_cpu n : ℕ) (s : List (ℕ × Act)) (w : World) (i : ℕ) (c : Call) (act : Act)
    (a : Answers)
    → 1 ≤ num_cpu
    → run s (record { manager = new_manager guarded num_cpu; calls = all_start n }) ≡ w
    → get_elem? w.calls i ≡ some c
    → has_targets c ≡ true
    → Falls w.manager c (advance act w.manager c)
      × ((is_returned c ≡ true) ⊎ (left (advance (next_act a c) w.manager c).1 < left c))
load_ends guarded num_cpu n s w i c act a p r e h =
    let k = reached-IsCounted guarded num_cpu n s w r in
    let f = AllFit-get (max_workers w.manager) w.calls i c k.fits e in
    let p' : 1 ≤ w.manager.num_cpu = omega (arith, p, k.same_cpus) in
    (
      advance-Falls act w.manager c h,
      elim (Bool-cases (is_returned c)) [
        | inl ended ↦ inl ended
        | inr goes_on ↦
            inr (next_act-lower a w.manager c (max_workers_positive w.manager p') f h goes_on)
      ],
    )
