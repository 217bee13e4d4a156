-- ===== src/ConnPool/Threads.antt =====
-- internal/dbconnpool/dbconnpool.go: Get, Put, Close and the monitor as threads that take atomic steps on
-- the shared pool, in any order. A step is one access to an atomic, one operation on a channel or one
-- call of the driver.
use sfpg_go.Base.{
  ℕ, zero, suc, ◌+◌, Bool, true, false, ◌&&◌, ◌||◌, not, List, [], ◌∷◌, ◌++◌, Option, none, some,
  length, ltb, if◌then◌else◌,
}
use sfpg_go.Base.Int.{ℤ, pos, pos_part, ◌+ℤ◌, ◌-ℤ◌, ltb_ℤ, leb_ℤ}
use sfpg_go.ConnPool.Create.{
  CpConn, DbSqlConnPool, Error, pool_closed, acquire_failed, Result, ok, err, Driver, new_cp_conn,
  needs_health_check, is_zero,
}

-- Where a thread stands. `holding` has a connection from Get and has not called Put.
pub data Thread : Type 0 where
  get_start get_selecting get_reserving get_creating get_waiting : Thread
  get_swapping : ℤ → Thread
  get_undoing : Error → Thread
  get_checking get_dropping holding : CpConn → Thread
  get_failed : Error → Thread
  put_start put_open put_sending put_dropping : CpConn → Thread
  put_nil put_returned panicked : Thread
  monitor_waiting monitor_ticked monitor_shrink_start monitor_undoing monitor_stopped : Thread
  monitor_crashed : Thread
  monitor_measured : ℤ → Thread
  monitor_growing monitor_reserving monitor_creating monitor_dropping : ℕ → Thread
  monitor_swapping : ℕ → ℤ → Thread
  monitor_sending : ℕ → CpConn → Thread
  monitor_shrinking monitor_closing : ℕ → Thread
  close_start close_signalling close_draining close_dropping close_waiting : Thread
  close_finishing close_returned close_refused : Thread

-- What the environment decides in a step: which ready case a select takes (`first` prefers the channel
-- of connections, `second` the channel `done`), the driver's answers, the clock, the memory that the connection uses, whether the
-- context is done, a timer has fired, and other connections of the *sql.DB are open.
pub record Choice : Type 0 where
  pub first : Bool
  pub second : Bool
  pub driver : Driver
  pub now : ℤ
  pub db_status_mem : Option ℕ
  pub cancelled : Bool
  pub timer : Bool
  pub others_open : Bool

abbrev pub rw_recycle_mem_bytes : ℕ
rw_recycle_mem_bytes = 10485760

abbrev pub rw_recycle_put_count : ℕ
rw_recycle_put_count = 100

abbrev pub add_connections : DbSqlConnPool → DbSqlConnPool
add_connections p = record p { num_connections = p.num_connections +ℤ pos 1 }

abbrev pub drop_connection : DbSqlConnPool → DbSqlConnPool
drop_connection p = record p { num_connections = p.num_connections -ℤ pos 1 }

-- reserveSlot reads the counter, and swaps it if it has not changed; `full`, `retry` and `reserved` are
-- where the caller goes on.
unfoldable pub load_slot : DbSqlConnPool → Thread → (ℤ → Thread) → DbSqlConnPool × Thread
load_slot p full swap =
    if leb_ℤ p.max_connections p.num_connections then (p, full) else (p, swap p.num_connections)

unfoldable pub swap_slot : DbSqlConnPool → ℤ → Thread → Thread → DbSqlConnPool × Thread
swap_slot p current retry reserved =
    if leb_ℤ p.num_connections current && leb_ℤ current p.num_connections
    then (record p { num_connections = current +ℤ pos 1 }, reserved)
    else (p, retry)

abbrev pub settle : Result CpConn → (Error → Thread) → (CpConn → Thread) → Thread
settle (ok c) failed made = made c
settle (err e) failed made = failed e

-- A receive from the channel; a closed and empty channel gives nil.
abbrev pub receive :
    DbSqlConnPool → List CpConn → (CpConn → Thread) → Thread → DbSqlConnPool × Thread
receive p [] taken empty = (p, empty)
receive p (c ∷ cs) taken empty = (record p { connections = cs }, taken c)

abbrev pub has_one : List CpConn → Bool
has_one [] = false
has_one (c ∷ cs) = true

-- A select over the receive, `done` and, where `stop` holds, the context; `otherwise` if none is ready.
unfoldable pub select_connection : Choice → DbSqlConnPool → Bool → Thread → DbSqlConnPool × Thread
select_connection ch p stop otherwise =
    if (has_one p.connections || p.channel_closed) && (ch.first || not (p.done || stop))
    then receive p p.connections get_checking (get_failed pool_closed)
    else if p.done && (ch.second || not stop)
    then (p, get_failed pool_closed)
    else if stop
    then (p, get_failed acquire_failed)
    else (p, otherwise)

-- A send on a closed channel panics; `full` is the select's default.
unfoldable pub select_send :
    Choice → DbSqlConnPool → CpConn → Thread → Thread → DbSqlConnPool × Thread
select_send ch p c sent full =
    if p.channel_closed
    then (p, panicked)
    else if ltb_ℤ (pos (length p.connections)) p.max_connections
    then (record p { connections = p.connections ++ c ∷ [] }, sent)
    else (p, full)

unfoldable pub should_recycle_rw_on_put : Choice → DbSqlConnPool → CpConn → Bool
should_recycle_rw_on_put ch p c =
    if not p.is_rw
    then false
    else if ltb rw_recycle_put_count c.put_count
    then true
    else (elim ch.db_status_mem as (λ _. Bool) [
      | none ↦ false
      | some mem ↦ ltb rw_recycle_mem_bytes mem
    ])

unfoldable pub step_get : Choice → DbSqlConnPool → Thread → DbSqlConnPool × Thread
unfolding load_slot swap_slot select_connection new_cp_conn needs_health_check
step_get ch p get_start = (p, if p.closed then get_failed pool_closed else get_selecting)
step_get ch p get_selecting = select_connection ch p false get_reserving
step_get ch p get_reserving = load_slot p get_waiting get_swapping
step_get ch p (get_swapping current) = swap_slot p current get_reserving get_creating
step_get ch p get_creating = (p, settle (new_cp_conn p ch.driver) get_undoing holding)
step_get ch p (get_undoing e) = (drop_connection p, get_failed e)
step_get ch p get_waiting = select_connection ch p ch.cancelled get_waiting
step_get ch p (get_checking c) =
    if needs_health_check p ch.now c && not ch.driver.pings
    then (p, get_dropping c)
    else (p, holding c)
step_get ch p (get_dropping c) = (drop_connection p, get_start)
step_get ch p t = (p, t)

-- The last step before `holding` becomes `put_start` is the caller's: it calls Put.
unfoldable pub step_put : Choice → DbSqlConnPool → Thread → DbSqlConnPool × Thread
unfolding select_send should_recycle_rw_on_put
step_put ch p (holding c) = (p, put_start (record c { put_count = c.put_count + 1 }))
step_put ch p (put_start c) = (p, if p.closed then put_dropping c else put_open c)
step_put ch p (put_open c) =
    if should_recycle_rw_on_put ch p c
    then (p, put_dropping c)
    else (p, put_sending (record c { idle_since = some ch.now }))
step_put ch p (put_sending c) =
    if p.done && not ch.first
    then (p, put_dropping c)
    else select_send ch p c put_returned (put_dropping c)
step_put ch p put_nil = (p, put_returned)
step_put ch p (put_dropping c) = (drop_connection p, put_returned)
step_put ch p t = (p, t)

unfoldable pub deficit : DbSqlConnPool → ℤ → ℕ
deficit p idle =
    let wanted = p.min_idle_connections -ℤ idle in
    let available = p.max_connections -ℤ p.num_connections in
    pos_part (if ltb_ℤ available wanted then available else wanted)

abbrev pub grow : ℕ → Thread
grow zero = monitor_shrink_start
grow (suc n) = monitor_reserving n

-- A closed and empty channel gives nil, whose Close panics.
abbrev pub shrink : DbSqlConnPool → ℕ → DbSqlConnPool × Thread
shrink p zero = (p, monitor_waiting)
shrink p (suc n) =
    receive p p.connections (λ c. monitor_closing n)
      (if p.channel_closed then monitor_crashed else monitor_waiting)

unfoldable pub step_monitor : Choice → DbSqlConnPool → Thread → DbSqlConnPool × Thread
unfolding load_slot swap_slot select_send new_cp_conn deficit
step_monitor ch p monitor_waiting =
    if (p.done || ch.cancelled) && not (ch.first && ch.timer)
    then (p, monitor_stopped)
    else if ch.timer
    then (p, monitor_ticked)
    else (p, monitor_waiting)
step_monitor ch p monitor_ticked =
    if p.closed then (p, monitor_stopped) else (p, monitor_measured (pos (length p.connections)))
step_monitor ch p (monitor_measured idle) = (p, monitor_growing (deficit p idle))
step_monitor ch p (monitor_growing n) = (p, grow n)
step_monitor ch p (monitor_reserving n) = load_slot p monitor_shrink_start (monitor_swapping n)
step_monitor ch p (monitor_swapping n current) =
    swap_slot p current (monitor_reserving n) (monitor_creating n)
step_monitor ch p (monitor_creating n) =
    (p, settle (new_cp_conn p ch.driver) (λ e. monitor_undoing) (monitor_sending n))
step_monitor ch p monitor_undoing = (drop_connection p, monitor_shrink_start)
step_monitor ch p (monitor_sending n c) =
    select_send ch p c (monitor_growing n) (monitor_dropping n)
step_monitor ch p (monitor_dropping n) = (drop_connection p, monitor_growing n)
step_monitor ch p monitor_shrink_start =
    (p, monitor_shrinking (pos_part (pos (length p.connections) -ℤ p.min_idle_connections)))
step_monitor ch p (monitor_shrinking n) = shrink p n
step_monitor ch p (monitor_closing n) = (drop_connection p, monitor_shrinking n)
step_monitor ch p t = (p, t)

-- The wait ends by its deadline, a timer of the environment, or when both counters are 0.
unfoldable pub step_close : Choice → DbSqlConnPool → Thread → DbSqlConnPool × Thread
step_close ch p close_start =
    if p.closed then (p, close_refused) else (record p { closed = true }, close_signalling)
step_close ch p close_signalling = (record p { done = true }, close_draining)
step_close ch p close_draining = receive p p.connections (λ c. close_dropping) close_waiting
step_close ch p close_dropping = (drop_connection p, close_draining)
step_close ch p close_waiting =
    if ch.timer || (is_zero p.num_connections && not ch.others_open)
    then (p, close_finishing)
    else (p, close_waiting)
step_close ch p close_finishing = (record p { channel_closed = true }, close_returned)
step_close ch p t = (p, t)
