-- ===== src/ConnPool/Steps.antt =====
-- internal/dbconnpool/dbconnpool.go: each step of Get, Put, the monitor and Close, and a whole schedule,
-- against the counter of connections.
use sfpg_go.Base.{
  ℕ, zero, suc, ◌≡◌, refl, Bool, true, false, ◌&&◌, ◌||◌, not, length, if_split, if◌then◌else◌,
  arith, sym, ap,
}
use sfpg_go.Base.Int.{pos_part, neg_part, int_laws}
use sfpg_go.ConnPool.Create.{
  CpConn, DbSqlConnPool, Error, pool_closed, acquire_failed, Result, ok, err, new_cp_conn,
  needs_health_check, is_zero,
}
use sfpg_go.ConnPool.Threads.{
  Thread, Choice, settle, has_one, select_connection, receive, monitor_crashed,
  should_recycle_rw_on_put, step_get, step_put, step_monitor, step_close, get_start, get_selecting,
  get_reserving, get_creating, get_waiting, get_swapping, get_undoing, get_checking, get_dropping,
  holding, get_failed, put_start, put_open, put_sending, put_dropping, put_nil, put_returned,
  monitor_waiting, monitor_ticked, monitor_shrink_start, monitor_undoing, monitor_measured,
  monitor_growing, monitor_reserving, monitor_creating, monitor_dropping, monitor_swapping,
  monitor_sending, monitor_shrinking, monitor_closing, close_start, close_signalling,
  close_draining, close_dropping, close_waiting, close_finishing, close_returned,
}
use sfpg_go.ConnPool.Schedule.{Role, role, advance, dispatch, getting, putting, monitoring, closing}
use sfpg_go.ConnPool.Count.{
  slots, Swaps, Balanced, stays, drops, swap_slot-Balanced, load_slot-Balanced, receive-Balanced,
  send-Balanced,
}

settle-Balanced :
    (p : DbSqlConnPool) (t : Thread) (r : Result CpConn) (failed : Error → Thread)
    (made : CpConn → Thread)
    → ((e : Error) → (slots (failed e) ≡ slots t) × Swaps p.max_connections (failed e))
    → ((c : CpConn) → (slots (made c) ≡ slots t) × Swaps p.max_connections (made c))
    → Balanced p t (p, settle r failed made)
settle-Balanced p t (ok c) failed made f g = stays p t (made c) (g c).0 (g c).1
settle-Balanced p t (err e) failed made f g = stays p t (failed e) (f e).0 (f e).1

select-Balanced :
    (ch : Choice) (p : DbSqlConnPool) (stop : Bool) (t otherwise : Thread)
    → slots t ≡ 0
    → slots otherwise ≡ 0
    → Swaps p.max_connections otherwise
    → Balanced p t (select_connection ch p stop otherwise)
unfolding select_connection
select-Balanced ch p stop t otherwise e f w =
    if_split (Balanced p t)
      ((has_one p.connections || p.channel_closed) && (ch.first || not (p.done || stop)))
      (λ _.
        receive-Balanced p t (get_failed pool_closed) get_checking p.connections refl e refl
          (λ c. refl) tt (λ c. tt))
      (λ _.
        if_split (Balanced p t) (p.done && (ch.second || not stop))
          (λ _. stays p t (get_failed pool_closed) (sym e) tt)
          (λ _.
            if_split (Balanced p t) stop (λ _. stays p t (get_failed acquire_failed) (sym e) tt)
              (λ _. let k : slots otherwise ≡ slots t = omega arith in stays p t otherwise k w)))

moves :
    (p : DbSqlConnPool) (t t' t'' : Thread) (b : Bool)
    → slots t' ≡ slots t
    → slots t'' ≡ slots t
    → Swaps p.max_connections t'
    → Swaps p.max_connections t''
    → Balanced p t (p, if b then t' else t'')
moves p t t' t'' true e f v w = stays p t t' e v
moves p t t' t'' false e f v w = stays p t t'' f w

branches :
    (p : DbSqlConnPool) (t t' t'' : Thread) (b : Bool)
    → slots t' ≡ slots t
    → slots t'' ≡ slots t
    → Swaps p.max_connections t'
    → Swaps p.max_connections t''
    → Balanced p t (if b then (p, t') else (p, t''))
branches p t t' t'' true e f v w = stays p t t' e v
branches p t t' t'' false e f v w = stays p t t'' f w

step_get-Balanced :
    (ch : Choice) (p : DbSqlConnPool) (t : Thread)
    → Swaps p.max_connections t
    → Balanced p t (step_get ch p t)
unfolding step_get
step_get-Balanced ch p get_start w = moves p _ _ _ p.closed refl refl tt tt
step_get-Balanced ch p get_selecting w = select-Balanced ch p false _ _ refl refl tt
step_get-Balanced ch p get_reserving w =
    load_slot-Balanced p _ get_waiting get_swapping refl refl refl tt (λ h. h)
step_get-Balanced ch p (get_swapping current) w =
    swap_slot-Balanced p _ _ _ current refl refl refl tt tt w
step_get-Balanced ch p get_creating w =
    settle-Balanced p get_creating (new_cp_conn p ch.driver) get_undoing holding (λ e. (refl, tt))
      (λ c. (refl, tt))
step_get-Balanced ch p (get_undoing e) w = drops p _ _ refl tt
step_get-Balanced ch p get_waiting w = select-Balanced ch p ch.cancelled _ _ refl refl tt
step_get-Balanced ch p (get_checking c) w =
    branches p _ _ _ (needs_health_check p ch.now c && not ch.driver.pings) refl refl tt tt
step_get-Balanced ch p (get_dropping c) w = drops p _ _ refl tt
step_get-Balanced ch p t w = stays p t t refl w

step_put-Balanced :
    (ch : Choice) (p : DbSqlConnPool) (t : Thread)
    → Swaps p.max_connections t
    → Balanced p t (step_put ch p t)
unfolding step_put
step_put-Balanced ch p (holding c) w = stays p _ _ refl tt
step_put-Balanced ch p (put_start c) w = moves p _ _ _ p.closed refl refl tt tt
step_put-Balanced ch p (put_open c) w =
    branches p _ _ _ (should_recycle_rw_on_put ch p c) refl refl tt tt
step_put-Balanced ch p (put_sending c) w =
    if_split (Balanced p (put_sending c)) (p.done && not ch.first)
      (λ _. stays p (put_sending c) (put_dropping c) refl tt)
      (λ _. send-Balanced ch p c (put_sending c) put_returned (put_dropping c) refl refl refl tt tt)
step_put-Balanced ch p put_nil w = stays p _ _ refl tt
step_put-Balanced ch p (put_dropping c) w = drops p _ _ refl tt
step_put-Balanced ch p t w = stays p t t refl w

shrink-Balanced :
    (p : DbSqlConnPool) (n : ℕ) (b : Bool)
    → Balanced p (monitor_shrinking (suc n)) (
        receive p p.connections
          (λ c. monitor_closing n)
          (if b then monitor_crashed else monitor_waiting))
shrink-Balanced p n true =
    receive-Balanced p _ monitor_crashed (λ c. monitor_closing n) p.connections refl refl refl
      (λ c. refl) tt (λ c. tt)
shrink-Balanced p n false =
    receive-Balanced p _ monitor_waiting (λ c. monitor_closing n) p.connections refl refl refl
      (λ c. refl) tt (λ c. tt)

step_monitor-Balanced :
    (ch : Choice) (p : DbSqlConnPool) (t : Thread)
    → Swaps p.max_connections t
    → Balanced p t (step_monitor ch p t)
unfolding step_monitor
step_monitor-Balanced ch p monitor_waiting w =
    if_split (Balanced p monitor_waiting) ((p.done || ch.cancelled) && not (ch.first && ch.timer))
      (λ _. stays p _ _ refl tt) (λ _. branches p _ _ _ ch.timer refl refl tt tt)
step_monitor-Balanced ch p monitor_ticked w = branches p _ _ _ p.closed refl refl tt tt
step_monitor-Balanced ch p (monitor_measured idle) w = stays p _ _ refl tt
step_monitor-Balanced ch p (monitor_growing zero) w = stays p _ _ refl tt
step_monitor-Balanced ch p (monitor_growing (suc n)) w = stays p _ _ refl tt
step_monitor-Balanced ch p (monitor_reserving n) w =
    load_slot-Balanced p _ monitor_shrink_start (monitor_swapping n) refl refl refl tt (λ h. h)
step_monitor-Balanced ch p (monitor_swapping n current) w =
    swap_slot-Balanced p _ _ _ current refl refl refl tt tt w
step_monitor-Balanced ch p (monitor_creating n) w =
    settle-Balanced p (monitor_creating n) (new_cp_conn p ch.driver) (λ e. monitor_undoing)
      (monitor_sending n) (λ e. (refl, tt)) (λ c. (refl, tt))
step_monitor-Balanced ch p monitor_undoing w = drops p _ _ refl tt
step_monitor-Balanced ch p (monitor_sending n c) w =
    send-Balanced ch p c (monitor_sending n c) (monitor_growing n) (monitor_dropping n) refl refl
      refl tt tt
step_monitor-Balanced ch p (monitor_dropping n) w = drops p _ _ refl tt
step_monitor-Balanced ch p monitor_shrink_start w = stays p _ _ refl tt
step_monitor-Balanced ch p (monitor_shrinking zero) w = stays p _ _ refl tt
step_monitor-Balanced ch p (monitor_shrinking (suc n)) w = shrink-Balanced p n p.channel_closed
step_monitor-Balanced ch p (monitor_closing n) w = drops p _ _ refl tt
step_monitor-Balanced ch p t w = stays p t t refl w

-- A step that only closes something.
closes :
    (p q : DbSqlConnPool) (t t' : Thread)
    → q.num_connections ≡ p.num_connections
    → q.connections ≡ p.connections
    → q.max_connections ≡ p.max_connections
    → slots t' ≡ slots t
    → Swaps p.max_connections t'
    → Balanced p t (q, t')
closes p q t t' n c m e w = record {
  counted = omega (int_laws, ap pos_part n, ap neg_part n, ap length c);
  bounded = λ h. omega (int_laws, ap pos_part n, ap neg_part n, ap pos_part m, ap neg_part m);
  same_max = m;
  swaps = w;
}

step_close-Balanced :
    (ch : Choice) (p : DbSqlConnPool) (t : Thread)
    → Swaps p.max_connections t
    → Balanced p t (step_close ch p t)
unfolding step_close
step_close-Balanced ch p close_start w =
    if_split (Balanced p close_start) p.closed (λ _. stays p _ _ refl tt)
      (λ _.
        closes p (record p { closed = true }) close_start close_signalling refl refl refl refl tt)
step_close-Balanced ch p close_signalling w =
    closes p (record p { done = true }) close_signalling close_draining refl refl refl refl tt
step_close-Balanced ch p close_draining w =
    receive-Balanced p _ close_waiting (λ c. close_dropping) p.connections refl refl refl
      (λ c. refl) tt (λ c. tt)
step_close-Balanced ch p close_dropping w = drops p _ _ refl tt
step_close-Balanced ch p close_waiting w =
    branches p _ _ _ (ch.timer || (is_zero p.num_connections && not ch.others_open)) refl refl tt tt
step_close-Balanced ch p close_finishing w =
    closes p (record p { channel_closed = true }) close_finishing close_returned refl refl refl refl
      tt
step_close-Balanced ch p t w = stays p t t refl w

pub advance-Balanced :
    (ch : Choice) (p : DbSqlConnPool) (t : Thread)
    → Swaps p.max_connections t
    → Balanced p t (advance ch p t)
unfolding advance
advance-Balanced ch p t w = by_role (role t)
  where
    by_role : (r : Role) → Balanced p t (dispatch r ch p t)
    by_role getting = step_get-Balanced ch p t w
    by_role putting = step_put-Balanced ch p t w
    by_role monitoring = step_monitor-Balanced ch p t w
    by_role closing = step_close-Balanced ch p t w
