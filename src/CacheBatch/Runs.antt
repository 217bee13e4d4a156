-- ===== src/CacheBatch/Runs.antt =====
-- internal/server/cachebatch: the flag and the counters along every schedule of the calls of Run.
use sfpg_go.Base.{
  ℕ, zero, suc, ◌+◌, ◌≡◌, ◌≤◌, refl, ap, sym, ◌∙◌, subst, Bool, true, false, ◌&&◌, ◌||◌, not, List,
  [], ◌∷◌, ◌++◌, Option, none, some, length, get_elem?, set, ltb, arith,
}
use sfpg_go.Base.Int.{pos_part, neg_part, pos, int_laws}
use sfpg_go.Base.Text.{Str}
use sfpg_go.CacheBatch.Load.{
  Call, starting, sending, scheduling, Answers, proceed, send, Act, advance, World, resume, step,
  run,
}
use sfpg_go.CacheBatch.State.{Target, Manager, new_manager, default_queue_size, max_workers}
use sfpg_go.CacheBatch.Count.{num, holds, in_hand, Fits, done, Balanced}
use sfpg_go.CacheBatch.Steps.{advance-Balanced}

unfoldable pub holders : List Call → ℕ
holders [] = 0
holders (c ∷ cs) = holds c + holders cs

unfoldable pub all_in_hand : List Call → ℕ
all_in_hand [] = 0
all_in_hand (c ∷ cs) = in_hand c + all_in_hand cs

unfoldable pub AllFit : ℕ → List Call → Type 0
AllFit most [] = Unit
AllFit most (c ∷ cs) = Fits most c × AllFit most cs

-- The flag is set while one call holds it; what is scheduled is done or in hand.
pub record IsCounted (cpus : ℕ) (w : World) : Type 0 where
  pub flag : holders w.calls ≡ num w.manager.running
  pub in_flight : w.manager.metrics.in_flight ≡ pos (all_in_hand w.calls)
  pub scheduled :
      w.manager.metrics.targets_scheduled ≡ pos (done w.manager.metrics + all_in_hand w.calls)
  pub fits : AllFit (max_workers w.manager) w.calls
  pub same_cpus : w.manager.num_cpu ≡ cpus

-- A sum over the calls when one of them changes.
holders-set :
    (cs : List Call) (i : ℕ) (c c' : Call)
    → get_elem? cs i ≡ some c
    → holders (set cs i c') + holds c ≡ holders cs + holds c'
unfolding holders
holders-set [] i c c' e = cc
holders-set (u ∷ cs) zero c c' e =
    let same : holds u ≡ holds c = ap (or_zero holds) e in omega arith
  where
    or_zero : (Call → ℕ) → Option Call → ℕ
    or_zero f none = 0
    or_zero f (some x) = f x
holders-set (u ∷ cs) (suc i) c c' e = omega (arith, holders-set cs i c c' e)

all_in_hand-set :
    (cs : List Call) (i : ℕ) (c c' : Call)
    → get_elem? cs i ≡ some c
    → all_in_hand (set cs i c') + in_hand c ≡ all_in_hand cs + in_hand c'
unfolding all_in_hand
all_in_hand-set [] i c c' e = cc
all_in_hand-set (u ∷ cs) zero c c' e =
    let same : in_hand u ≡ in_hand c = ap (or_zero in_hand) e in omega arith
  where
    or_zero : (Call → ℕ) → Option Call → ℕ
    or_zero f none = 0
    or_zero f (some x) = f x
all_in_hand-set (u ∷ cs) (suc i) c c' e = omega (arith, all_in_hand-set cs i c c' e)

AllFit-set :
    (most : ℕ) (cs : List Call) (i : ℕ) (c : Call)
    → AllFit most cs
    → Fits most c
    → AllFit most (set cs i c)
unfolding AllFit
AllFit-set most [] i c h f = tt
AllFit-set most (u ∷ cs) zero c h f = (f, h.1)
AllFit-set most (u ∷ cs) (suc i) c h f = (h.0, AllFit-set most cs i c h.1 f)

pub AllFit-get :
    (most : ℕ) (cs : List Call) (i : ℕ) (c : Call)
    → AllFit most cs
    → get_elem? cs i ≡ some c
    → Fits most c
unfolding AllFit
AllFit-get most [] i c h e = cc
AllFit-get most (u ∷ cs) zero c h e = subst (FitsOr most) e h.0
  where
    FitsOr : ℕ → Option Call → Type 0
    FitsOr m none = Unit {0}
    FitsOr m (some x) = Fits m x
AllFit-get most (u ∷ cs) (suc i) c h e = AllFit-get most cs i c h.1 e

resume-IsCounted :
    (cpus : ℕ) (w : World) (i : ℕ) (c : Call) (r : Manager × Call)
    → IsCounted cpus w
    → get_elem? w.calls i ≡ some c
    → Balanced w.manager c r
    → IsCounted cpus (resume w i r)
unfolding max_workers
resume-IsCounted cpus w i c (m, c') k e b = record {
  flag = omega (arith, k.flag, b.flag, holders-set w.calls i c c' e);
  in_flight = omega (
    int_laws,
    ap pos_part b.counts.in_flight,
    ap neg_part b.counts.in_flight,
    ap pos_part k.in_flight,
    ap neg_part k.in_flight,
    all_in_hand-set w.calls i c c' e,
  );
  scheduled = omega (
    int_laws,
    ap pos_part b.counts.scheduled,
    ap neg_part b.counts.scheduled,
    ap pos_part k.scheduled,
    ap neg_part k.scheduled,
    all_in_hand-set w.calls i c c' e,
  );
  fits = rw b.num_cpu (AllFit-set (max_workers w.manager) w.calls i c' k.fits b.fits);
  same_cpus = b.num_cpu ∙ k.same_cpus;
}

step-IsCounted :
    (cpus i : ℕ) (act : Act) (w : World) → IsCounted cpus w → IsCounted cpus (step i act w)
unfolding step
step-IsCounted cpus i act w k = by_call (get_elem? w.calls i) refl
  where
    by_call :
        (o : Option Call)
        → get_elem? w.calls i ≡ o
        → IsCounted cpus
            (elim o as (λ _. World) [ none ↦ w | some c ↦ resume w i (advance act w.manager c) ])
    by_call none e = k
    by_call (some c) e =
        let held : holds c ≤ num w.manager.running =
          omega (arith, k.flag, holders-set w.calls i c starting e) in
        resume-IsCounted cpus w i c (advance act w.manager c) k e (
          advance-Balanced act w.manager c held
            (AllFit-get (max_workers w.manager) w.calls i c k.fits e))

pub run-IsCounted :
    (cpus : ℕ) (s : List (ℕ × Act)) (w : World) → IsCounted cpus w → IsCounted cpus (run s w)
unfolding run
run-IsCounted cpus [] w k = k
run-IsCounted cpus ((i, act) ∷ s) w k =
    run-IsCounted cpus s (step i act w) (step-IsCounted cpus i act w k)

-- Calls that have not begun.
unfoldable pub all_start : ℕ → List Call
all_start zero = []
all_start (suc n) = starting ∷ all_start n

all_start-nothing :
    (n most : ℕ)
    → (holders (all_start n) ≡ 0) × (all_in_hand (all_start n) ≡ 0) × AllFit most (all_start n)
unfolding all_start holders all_in_hand AllFit
all_start-nothing zero most = (refl, refl, tt)
all_start-nothing (suc n) most =
    let (h, k, f) = all_start-nothing n most in (omega (arith, h), omega (arith, k), (tt, f))

pub reached-IsCounted :
    (guarded : Bool) (num_cpu n : ℕ) (s : List (ℕ × Act)) (w : World)
    → run s (record { manager = new_manager guarded num_cpu; calls = all_start n }) ≡ w
    → IsCounted num_cpu w
unfolding new_manager
reached-IsCounted guarded num_cpu n s w r =
    let (h, k, f) = all_start-nothing n (max_workers (new_manager guarded num_cpu)) in
    subst (IsCounted num_cpu) r (
      run-IsCounted num_cpu s
        (record { manager = new_manager guarded num_cpu; calls = all_start n })
        (record {
          flag = h;
          in_flight = ap pos (sym k);
          scheduled = ap pos (omega (arith, k));
          fits = f;
          same_cpus = refl;
        }))

-- Whatever any number of calls of Run and their workers do with a new manager, the running flag is set exactly
-- while one call holds it and no two hold it; the jobs in flight are those that calls have in their channels, at
-- work or about to be sent; and the targets scheduled are those completed, failed or in flight.
pub loads_balance :
    (guarded : Bool) (num_cpu n : ℕ) (s : List (ℕ × Act)) (w : World)
    → run s (record { manager = new_manager guarded num_cpu; calls = all_start n }) ≡ w
    → (holders w.calls ≡ num w.manager.running)
      × (w.manager.metrics.in_flight ≡ pos (all_in_hand w.calls))
      × (w.manager.metrics.targets_scheduled ≡ pos (done w.manager.metrics + all_in_hand w.calls))
loads_balance guarded num_cpu n s w r =
    let k = reached-IsCounted guarded num_cpu n s w r in (k.flag, k.in_flight, k.scheduled)

-- In every run of calls of Run and their workers on a new manager, a Run that is about to send
-- a job, its context not cancelled, finds room in the channel and goes on with the next
-- target.
pub send_has_room :
    (guarded : Bool) (num_cpu n : ℕ) (s : List (ℕ × Act)) (w : World) (i : ℕ) (a : Answers)
    (version : Str) (t : Target) (ts jobs busy : List Target)
    → run s (record { manager = new_manager guarded num_cpu; calls = all_start n }) ≡ w
    → get_elem? w.calls i ≡ some (sending version t ts jobs busy)
    → a.cancelled ≡ false
    → proceed a w.manager (sending version t ts jobs busy)
      ≡ (w.manager, scheduling version ts (jobs ++ t ∷ []) busy)
unfolding proceed send
send_has_room guarded num_cpu n s w i a version t ts jobs busy r e calm =
    let k = reached-IsCounted guarded num_cpu n s w r in
    let f =
      AllFit-get (max_workers w.manager) w.calls i (sending version t ts jobs busy) k.fits e in
    let room : (ltb (length jobs) default_queue_size && (a.first || not a.cancelled)) ≡ true =
      ground (arith, f.0, calm) in
    rw room refl
