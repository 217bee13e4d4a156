-- ===== src/ConnPool/Runs.antt =====
-- internal/dbconnpool/dbconnpool.go: the counter of connections along every schedule of the threads.
use sfpg_go.Base.{
  ◌∙◌, ℕ, zero, suc, ◌+◌, ◌≡◌, refl, List, [], ◌∷◌, Option, none, some, length, get_elem?, set,
  arith, sym, ap, subst,
}
use sfpg_go.Base.Int.{ℤ, pos, pos_part, neg_part, ◌≤ℤ◌, int_laws}
use sfpg_go.ConnPool.Create.{Config, Opening, new_db_sql_conn_pool, ok, DbSqlConnPool}
use sfpg_go.ConnPool.Threads.{get_start, put_nil, monitor_waiting, close_start, Thread, Choice}
use sfpg_go.ConnPool.Schedule.{World, resume, advance, step, run}
use sfpg_go.ConnPool.Count.{slots, Swaps, all_slots, AllSwap, Balanced}
use sfpg_go.ConnPool.Steps.{advance-Balanced}

-- The counter is the number of idle connections and of those that some thread answers for, and it does
-- not exceed the maximum.
pub record IsCounted (w : World) : Type 0 where
  pub counted : w.pool.num_connections ≡ pos (length w.pool.connections + all_slots w.threads)
  pub bounded : w.pool.num_connections ≤ℤ w.pool.max_connections
  pub swaps : AllSwap w.pool.max_connections w.threads

all_slots-set :
    (ts : List Thread) (i : ℕ) (t t' : Thread)
    → get_elem? ts i ≡ some t
    → all_slots (set ts i t') + slots t ≡ all_slots ts + slots t'
unfolding all_slots
all_slots-set [] i t t' e = ground arith
all_slots-set (u ∷ ts) zero t t' e = let same : slots u ≡ slots t = ap (slots_or 0) e in omega arith
  where
    slots_or : ℕ → Option Thread → ℕ
    slots_or d none = d
    slots_or d (some x) = slots x
all_slots-set (u ∷ ts) (suc i) t t' e = omega (arith, all_slots-set ts i t t' e)

AllSwap-set :
    (most : ℤ) (ts : List Thread) (i : ℕ) (t : Thread)
    → AllSwap most ts
    → Swaps most t
    → AllSwap most (set ts i t)
unfolding AllSwap
AllSwap-set most [] i t h w = tt
AllSwap-set most (u ∷ ts) zero t h w = (w, h.1)
AllSwap-set most (u ∷ ts) (suc i) t h w = (h.0, AllSwap-set most ts i t h.1 w)

AllSwap-get :
    (most : ℤ) (ts : List Thread) (i : ℕ) (t : Thread)
    → AllSwap most ts
    → get_elem? ts i ≡ some t
    → Swaps most t
unfolding AllSwap
AllSwap-get most [] i t h e = cc
AllSwap-get most (u ∷ ts) zero t h e = subst (SwapsOr most) e h.0
  where
    SwapsOr : ℤ → Option Thread → Type 0
    SwapsOr m none = Unit {0}
    SwapsOr m (some x) = Swaps m x
AllSwap-get most (u ∷ ts) (suc i) t h e = AllSwap-get most ts i t h.1 e

resume-IsCounted :
    (w : World) (i : ℕ) (t : Thread) (r : DbSqlConnPool × Thread)
    → IsCounted w
    → get_elem? w.threads i ≡ some t
    → Balanced w.pool t r
    → IsCounted (resume w i r)
resume-IsCounted w i t (p, t') c e b = record {
  counted = omega (
    int_laws,
    ap pos_part b.counted,
    ap neg_part b.counted,
    ap pos_part c.counted,
    ap neg_part c.counted,
    all_slots-set w.threads i t t' e,
  );
  bounded = b.bounded c.bounded;
  swaps =
      subst (λ m. AllSwap m (set w.threads i t')) (sym b.same_max)
        (AllSwap-set _ w.threads i t' c.swaps b.swaps);
}

step-IsCounted : (i : ℕ) (ch : Choice) (w : World) → IsCounted w → IsCounted (step i ch w)
unfolding step
step-IsCounted i ch w c = by_thread (get_elem? w.threads i) refl
  where
    by_thread :
        (o : Option Thread)
        → get_elem? w.threads i ≡ o
        → IsCounted
            (elim o as (λ _. World) [ none ↦ w | some t ↦ resume w i (advance ch w.pool t) ])
    by_thread none e = c
    by_thread (some t) e =
        resume-IsCounted w i t (advance ch w.pool t) c e (
          advance-Balanced ch w.pool t (AllSwap-get w.pool.max_connections w.threads i t c.swaps e))

pub run-IsCounted : (s : List (ℕ × Choice)) (w : World) → IsCounted w → IsCounted (run s w)
unfolding run
run-IsCounted [] w c = c
run-IsCounted ((i, ch) ∷ s) w c = run-IsCounted s (step i ch w) (step-IsCounted i ch w c)

-- A world in which no call has begun: the pool as it was made, and threads at their start.
pub data Starts : Thread → Type 0 where
  calls_get : Starts get_start
  puts_nil : Starts put_nil
  monitors : Starts monitor_waiting
  calls_close : Starts close_start

unfoldable pub AllStart : List Thread → Type 0
AllStart [] = Unit
AllStart (t ∷ ts) = Starts t × AllStart ts

start_slots : (m : ℤ) {t : Thread} → Starts t → (slots t ≡ 0) × Swaps m t
start_slots m calls_get = (refl, tt)
start_slots m puts_nil = (refl, tt)
start_slots m monitors = (refl, tt)
start_slots m calls_close = (refl, tt)

AllStart-slots : (m : ℤ) (ts : List Thread) → AllStart ts → (all_slots ts ≡ 0) × AllSwap m ts
unfolding AllStart all_slots AllSwap
AllStart-slots m [] h = (refl, tt)
AllStart-slots m (t ∷ ts) h =
    let (n, w) = start_slots m h.0 in let (k, v) = AllStart-slots m ts h.1 in (omega arith, (w, v))

-- What new_db_sql_conn_pool returns has no connection and a positive maximum.
new_pool_empty :
    (config : Config) (o : Opening) (p : DbSqlConnPool)
    → new_db_sql_conn_pool config o ≡ ok p
    → (p.num_connections ≡ pos 0) × (p.connections ≡ []) × (pos 1 ≤ℤ p.max_connections)
unfolding new_db_sql_conn_pool
new_pool_empty config o p e = ground arith

pub start-IsCounted :
    (config : Config) (o : Opening) (p : DbSqlConnPool) (ts : List Thread)
    → new_db_sql_conn_pool config o ≡ ok p
    → AllStart ts
    → IsCounted (record { pool = p; threads = ts })
start-IsCounted config o p ts e h =
    let (n, c, m) = new_pool_empty config o p e in
    let (k, v) = AllStart-slots p.max_connections ts h in
    record {
      counted = n ∙ ap pos (omega (arith, ap length c));
      bounded = omega (int_laws, ap pos_part n, ap neg_part n);
      swaps = v;
    }
