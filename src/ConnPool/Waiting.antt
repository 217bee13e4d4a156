-- ===== src/ConnPool/Waiting.antt =====
-- internal/dbconnpool/dbconnpool.go: the pool's limit, the room of its channel, the end of Close's wait,
-- and a Get that waits while a connection is recycled.
use sfpg_go.Base.{
  lt→ltb, ℕ, zero, suc, ◌+◌, ◌≤◌, ◌<◌, ◌≡◌, refl, Bool, true, false, List, [], ◌∷◌, ◌++◌, some,
  length, get_elem?, arith, ap, subst, if◌then◌else◌, ◌∙◌,
}
use sfpg_go.Base.Int.{negsuc, ℤ, pos, pos_part, neg_part, ◌-ℤ◌, ltb_ℤ, int_laws}
use sfpg_go.ConnPool.Create.{
  CpConn, DbSqlConnPool, Config, Opening, new_db_sql_conn_pool, ok, is_zero,
}
use sfpg_go.ConnPool.Threads.{
  Thread, Choice, put_open, put_sending, put_returned, get_waiting, put_dropping, step_put,
  step_get, select_send, close_waiting, close_finishing, step_close, drop_connection,
  should_recycle_rw_on_put, select_connection,
}
use sfpg_go.ConnPool.Schedule.{World, resume, advance, step, run}
use sfpg_go.ConnPool.Count.{slots, all_slots}
use sfpg_go.ConnPool.Runs.{IsCounted, AllStart, start-IsCounted, run-IsCounted}

-- From a pool that NewDbSQLConnPool returns, along every schedule of any number of threads
-- that call Get, Put, Close or run the monitor, numConnections is the number of idle
-- connections plus the slots that threads hold, and it never exceeds MaxConnections.
pub every_run :
    (config : Config) (o : Opening) (p : DbSqlConnPool) (ts : List Thread) (s : List (ℕ × Choice))
    → new_db_sql_conn_pool config o ≡ ok p
    → AllStart ts
    → IsCounted (run s (record { pool = p; threads = ts }))
every_run config o p ts s e h = run-IsCounted s _ (start-IsCounted config o p ts e h)

slots-le :
    (ts : List Thread) (i : ℕ) (t : Thread) → get_elem? ts i ≡ some t → slots t ≤ all_slots ts
unfolding all_slots
slots-le [] i t e = cc
slots-le (u ∷ ts) zero t e = ground arith
slots-le (u ∷ ts) (suc i) t e = omega (arith, slots-le ts i t e)

room :
    (w : World) (i : ℕ) (c : CpConn)
    → IsCounted w
    → get_elem? w.threads i ≡ some (put_sending c)
    → ltb_ℤ (pos (length w.pool.connections)) w.pool.max_connections ≡ true
room w i c k e = lt→ltb _ _ (
    omega (
      int_laws,
      k.bounded,
      ap pos_part k.counted,
      ap neg_part k.counted,
      slots-le w.threads i (put_sending c) e,
    ))

-- From a pool that NewDbSQLConnPool returns, along every schedule of its threads, a Put that
-- is about to send its connection finds room in the channel: while the pool is not shut down,
-- it appends the connection to the idle ones and returns, so the branch for a full channel is
-- never taken.
pub put_has_room :
    (config : Config) (o : Opening) (p : DbSqlConnPool) (ts : List Thread) (s : List (ℕ × Choice))
    (w : World) (i : ℕ) (c : CpConn) (ch : Choice)
    → new_db_sql_conn_pool config o ≡ ok p
    → AllStart ts
    → run s (record { pool = p; threads = ts }) ≡ w
    → get_elem? w.threads i ≡ some (put_sending c)
    → w.pool.done ≡ false
    → w.pool.channel_closed ≡ false
    → step_put ch w.pool (put_sending c)
      ≡ (record w.pool { connections = w.pool.connections ++ c ∷ [] }, put_returned)
unfolding step_put select_send
put_has_room config o p ts s w i c ch e h r t d k =
    rw (d, k, room w i c (subst IsCounted r (every_run config o p ts s e h)) t)

is_zero-eq : (z : ℤ) → is_zero z ≡ true → z ≡ pos 0
is_zero-eq (pos n) h = ground arith
is_zero-eq (negsuc n) h = cc

length-zero : (cs : List CpConn) → length cs ≡ 0 → cs ≡ []
length-zero [] h = refl
length-zero (c ∷ cs) h = absurd (omega arith)

-- From a pool that NewDbSQLConnPool returns, along every schedule of its threads, if Close
-- ends its wait before the deadline, no connection is idle and no thread holds, makes or has
-- yet to count off one.
close_drained :
    (config : Config) (o : Opening) (p : DbSqlConnPool) (ts : List Thread) (s : List (ℕ × Choice))
    (w : World) (ch : Choice)
    → new_db_sql_conn_pool config o ≡ ok p
    → AllStart ts
    → run s (record { pool = p; threads = ts }) ≡ w
    → ch.timer ≡ false
    → (step_close ch w.pool close_waiting).1 ≡ close_finishing
    → (w.pool.connections ≡ []) × (all_slots w.threads ≡ 0)
unfolding step_close
close_drained config o p ts s w ch e h r t f =
    let k : IsCounted w = subst IsCounted r (every_run config o p ts s e h) in
    let z : w.pool.num_connections ≡ pos 0 = is_zero-eq _ (by_counter t f) in
    let n : length w.pool.connections + all_slots w.threads ≡ 0 =
      omega (arith, ap pos_part z, ap pos_part k.counted) in
    (length-zero w.pool.connections (omega arith), omega arith)
  where
    by_counter :
        ch.timer ≡ false
        → (step_close ch w.pool close_waiting).1 ≡ close_finishing
        → is_zero w.pool.num_connections ≡ true
    by_counter late ends = ground arith

unfoldable pub NeverCancelled : List (ℕ × Choice) → Type 0
NeverCancelled [] = Unit
NeverCancelled ((i, ch) ∷ s) = (ch.cancelled ≡ false) × NeverCancelled s

abbrev pub waits_with : DbSqlConnPool → Thread → World
waits_with p t = record { pool = p; threads = t ∷ get_waiting ∷ [] }

select_nothing :
    (ch : Choice) (p : DbSqlConnPool)
    → p.connections ≡ []
    → p.done ≡ false
    → p.channel_closed ≡ false
    → ch.cancelled ≡ false
    → select_connection ch p ch.cancelled get_waiting ≡ (p, get_waiting)
unfolding select_connection
select_nothing ch p e d k n = rw (e, d, k, n)

waits_once :
    (p : DbSqlConnPool) (i : ℕ) (ch : Choice)
    → p.connections ≡ []
    → p.done ≡ false
    → p.channel_closed ≡ false
    → ch.cancelled ≡ false
    → step i ch (waits_with p put_returned) ≡ waits_with p put_returned
unfolding step advance step_get
waits_once p zero ch e d k n = refl
waits_once p (suc zero) ch e d k n =
    ap (resume (waits_with p put_returned) 1) (select_nothing ch p e d k n)
waits_once p (suc (suc i)) ch e d k n = refl

waits_on :
    (p : DbSqlConnPool) (s : List (ℕ × Choice))
    → p.connections ≡ []
    → p.done ≡ false
    → p.channel_closed ≡ false
    → NeverCancelled s
    → run s (waits_with p put_returned) ≡ waits_with p put_returned
unfolding run NeverCancelled
waits_on p [] e d k n = refl
waits_on p ((i, ch) ∷ s) e d k n = ap (run s) (waits_once p i ch e d k n.0) ∙ waits_on p s e d k n.1

recycles :
    (p : DbSqlConnPool) (c : CpConn) (ch : Choice)
    → p.is_rw ≡ true
    → 100 < c.put_count
    → should_recycle_rw_on_put ch p c ≡ true
unfolding should_recycle_rw_on_put
recycles p c ch is_rw full = ground arith

-- When a Put of the read-write pool recycles a connection that was returned more than 100
-- times, while another thread waits in Get on an open pool with no idle connection, the
-- counter goes down by one, and as long as only these two threads act and the context is not
-- cancelled, the Get still waits.
pub recycled_put_wakes_no_one :
    (p : DbSqlConnPool) (c : CpConn) (a b : Choice) (s : List (ℕ × Choice))
    → p.is_rw ≡ true
    → 100 < c.put_count
    → p.connections ≡ []
    → p.done ≡ false
    → p.channel_closed ≡ false
    → NeverCancelled s
    → run ((0, a) ∷ (0, b) ∷ s) (waits_with p (put_open c))
      ≡ waits_with (record p { num_connections = p.num_connections -ℤ pos 1 }) put_returned
unfolding run step advance step_put
recycled_put_wakes_no_one p c a b s is_rw full e d k n =
    ap (λ r. run s (resume (resume (waits_with p (put_open c)) 0 r) 0 (advance b r.0 r.1)))
      (ap
        (λ (x : Bool).
          if x
          then (p, put_dropping c)
          else (p, put_sending (record c { idle_since = some a.now })))
        (recycles p c a is_rw full))
    ∙ waits_on (drop_connection p) s e d k n
