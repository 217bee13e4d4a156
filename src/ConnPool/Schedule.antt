-- ===== src/ConnPool/Schedule.antt =====
-- internal/dbconnpool/dbconnpool.go: the steps of any number of threads on one pool.
use sfpg_go.Base.{ℕ, List, [], ◌∷◌, none, some, get_elem?, set}
use sfpg_go.ConnPool.Create.{DbSqlConnPool}
use sfpg_go.ConnPool.Threads.{
  Thread, holding, put_start, put_open, put_sending, put_dropping, put_nil, monitor_waiting,
  monitor_ticked, monitor_shrink_start, monitor_undoing, monitor_measured, monitor_growing,
  monitor_reserving, monitor_creating, monitor_dropping, monitor_swapping, monitor_sending,
  monitor_shrinking, monitor_closing, close_start, close_signalling, close_draining, close_dropping,
  close_waiting, close_finishing, Choice, step_get, step_put, step_monitor, step_close,
}

pub data Role : Type 0 where
  getting putting monitoring closing : Role

abbrev pub role : Thread → Role
role (holding c) = putting
role (put_start c) = putting
role (put_open c) = putting
role (put_sending c) = putting
role (put_dropping c) = putting
role put_nil = putting
role monitor_waiting = monitoring
role monitor_ticked = monitoring
role monitor_shrink_start = monitoring
role monitor_undoing = monitoring
role (monitor_measured i) = monitoring
role (monitor_growing n) = monitoring
role (monitor_reserving n) = monitoring
role (monitor_creating n) = monitoring
role (monitor_dropping n) = monitoring
role (monitor_swapping n c) = monitoring
role (monitor_sending n c) = monitoring
role (monitor_shrinking n) = monitoring
role (monitor_closing n) = monitoring
role close_start = closing
role close_signalling = closing
role close_draining = closing
role close_dropping = closing
role close_waiting = closing
role close_finishing = closing
role _ = getting

abbrev pub dispatch : Role → Choice → DbSqlConnPool → Thread → DbSqlConnPool × Thread
dispatch getting = step_get
dispatch putting = step_put
dispatch monitoring = step_monitor
dispatch closing = step_close

unfoldable pub advance : Choice → DbSqlConnPool → Thread → DbSqlConnPool × Thread
advance ch p t = dispatch (role t) ch p t

pub record World : Type 0 where
  pub pool : DbSqlConnPool
  pub threads : List Thread

abbrev pub resume : World → ℕ → DbSqlConnPool × Thread → World
resume w i (p, t) = record { pool = p; threads = set w.threads i t }

-- Thread `i` takes its step.
unfoldable pub step : ℕ → Choice → World → World
step i ch w = elim (get_elem? w.threads i) as (λ _. World) [
  | none ↦ w
  | some t ↦ resume w i (advance ch w.pool t)
]

unfoldable pub run : List (ℕ × Choice) → World → World
run [] w = w
run ((i, ch) ∷ s) w = run s (step i ch w)
