-- ===== src/CacheBatch/Count.antt =====
-- internal/server/cachebatch: what one step does to the flag, the counters and the jobs of a call.
use sfpg_go.Base.{
  ℕ, zero, suc, ◌+◌, ◌≡◌, ◌≤◌, refl, ap, sym, Bool, true, false, List, [], ◌∷◌, length, ltb,
  if◌then◌else◌, arith,
}
use sfpg_go.Base.Int.{pos_part, neg_part, pos, ◌+ℤ◌, int_laws}
use sfpg_go.CacheBatch.Load.{
  Call, starting, entering, scheduling, sending, draining, returned, scheduled, unscheduled,
  remove_at,
}
use sfpg_go.CacheBatch.State.{
  Target, Metrics, Manager, max_workers, record_completed, record_failed,
}

abbrev pub num : Bool → ℕ
num true = 1
num false = 0

-- Whether a call holds the flag.
abbrev pub holds : Call → ℕ
holds starting = 0
holds entering = 0
holds (returned e) = 0
holds _ = 1

-- The jobs that a call has scheduled and that are not done.
abbrev pub in_hand : Call → ℕ
in_hand (scheduling v ts jobs busy) = length jobs + length busy
in_hand (sending v t ts jobs busy) = suc (length jobs + length busy)
in_hand (draining jobs busy) = length jobs + length busy
in_hand _ = 0

-- The channel below the mark at which targets are skipped, and no more jobs at work than workers.
abbrev pub Fits : ℕ → Call → Type 0
Fits most (scheduling v ts jobs busy) = (length jobs ≤ 951) × (length busy ≤ most)
Fits most (sending v t ts jobs busy) = (length jobs ≤ 950) × (length busy ≤ most)
Fits most (draining jobs busy) = (length jobs ≤ 951) × (length busy ≤ most)
Fits most _ = Unit

abbrev pub done : Metrics → ℕ
done s = s.targets_completed + s.targets_failed

-- What the counters gain is what the call gains in hand.
pub record Counts (s : Metrics) (n : ℕ) (s' : Metrics) (n' : ℕ) : Type 0 where
  pub in_flight : s'.in_flight +ℤ pos n ≡ s.in_flight +ℤ pos n'
  pub scheduled :
      s'.targets_scheduled +ℤ pos (done s + n) ≡ s.targets_scheduled +ℤ pos (done s' + n')

pub record Balanced (m : Manager) (c : Call) (r : Manager × Call) : Type 0 where
  pub flag : num m.running + holds r.1 ≡ num r.0.running + holds c
  pub counts : Counts m.metrics (in_hand c) r.0.metrics (in_hand r.1)
  pub num_cpu : r.0.num_cpu ≡ m.num_cpu
  pub fits : Fits (max_workers m) r.1

-- A step that leaves the counters, and the number of jobs in hand.
pub same-Counts : (s : Metrics) (n n' : ℕ) → n' ≡ n → Counts s n s n'
same-Counts s n n' e = record {
  in_flight = ap (λ k. s.in_flight +ℤ pos k) (sym e);
  scheduled = ap (λ k. s.targets_scheduled +ℤ pos (done s + k)) (sym e);
}

pub stays :
    (m : Manager) (c c' : Call)
    → holds c' ≡ holds c
    → in_hand c' ≡ in_hand c
    → Fits (max_workers m) c'
    → Balanced m c (m, c')
stays m c c' h n f = record {
  flag = ap (λ k. num m.running + k) h;
  counts = same-Counts m.metrics (in_hand c) (in_hand c') n;
  num_cpu = refl;
  fits = f;
}

-- The counters other than those of the jobs.
pub notes :
    (m m' : Manager) (c c' : Call)
    → m'.running ≡ m.running
    → m'.num_cpu ≡ m.num_cpu
    → Counts m.metrics 0 m'.metrics 0
    → holds c' ≡ holds c
    → in_hand c' ≡ in_hand c
    → Fits (max_workers m) c'
    → Balanced m c (m', c')
notes m m' c c' r u k h n f = record {
  flag = rw (r, h) refl;
  counts = record {
    in_flight = omega (int_laws, ap pos_part k.in_flight, ap neg_part k.in_flight);
    scheduled = omega (int_laws, ap pos_part k.scheduled, ap neg_part k.scheduled);
  };
  num_cpu = u;
  fits = f;
}

pub scheduled-Counts : (s : Metrics) (n : ℕ) → Counts s n (scheduled s) (suc n)
scheduled-Counts s n = record { in_flight = omega int_laws; scheduled = omega int_laws }

pub unscheduled-Counts : (s : Metrics) (n : ℕ) → Counts s (suc n) (unscheduled s) n
unscheduled-Counts s n = record { in_flight = omega int_laws; scheduled = omega int_laws }

pub done-Counts :
    (s : Metrics) (n : ℕ) (ok : Bool)
    → Counts s (suc n) ((if ok then record_completed else record_failed) s) n
unfolding record_completed record_failed
done-Counts s n true = record { in_flight = omega int_laws; scheduled = omega int_laws }
done-Counts s n false = record { in_flight = omega int_laws; scheduled = omega int_laws }

pub length-remove_at :
    (i : ℕ) (xs : List Target)
    → ltb i (length xs) ≡ true
    → suc (length (remove_at i xs)) ≡ length xs
length-remove_at i [] h = ground arith
length-remove_at zero (x ∷ xs) h = refl
length-remove_at (suc i) (x ∷ xs) h = ap suc (length-remove_at i xs (ground arith))
