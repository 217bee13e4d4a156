-- ===== src/ConnPool/Tests.antt =====
-- internal/dbconnpool/dbconnpool.go on concrete pools and schedules.
use sfpg_go.Base.{ℕ, zero, suc, ◌≡◌, refl, true, false, List, [], ◌∷◌, ◌++◌, none, some, arith}
use sfpg_go.Base.Int.{pos, negsuc, ◌+ℤ◌, ◌-ℤ◌}
use sfpg_go.ConnPool.Create.{
  Config, Opening, Driver, CpConn, DbSqlConnPool, ok, err, min_idle_above_max, new_db_sql_conn_pool,
  new_cp_conn, needs_health_check, health_check_of, attach_failed,
}
use sfpg_go.ConnPool.Threads.{
  Choice, step_put, step_close, get_start, holding, put_open, put_sending, put_returned,
  close_start, close_returned, step_get,
}
use sfpg_go.ConnPool.Schedule.{World, run, step, advance}
use sfpg_go.ConnPool.Runs.{IsCounted, AllStart, calls_get, calls_close}
use sfpg_go.ConnPool.Waiting.{
  every_run, put_has_room, NeverCancelled, waits_with, recycled_put_wakes_no_one,
}

abbrev config : Config
config = record {
  driver_name = b's' ∷ [];
  read_only = false;
  max_connections = pos 1;
  min_idle_connections = pos 0;
  thumbs_db_path = [];
  monitor_interval = pos 0;
  health_check_threshold = pos 0;
  test_use_mem_db = false;
}

abbrev opening : Opening
opening = record {
  data_source_empty = false;
  is_sqlite3 = true;
  mem_attach_uri = none;
  opens = true;
}

abbrev pool : DbSqlConnPool
pool = record {
  config = config;
  is_rw = true;
  connections = [];
  max_connections = pos 1;
  min_idle_connections = pos 0;
  monitor_interval = pos 0;
  health_check_threshold = pos 30000000000;
  num_connections = pos 0;
  done = false;
  closed = false;
  channel_closed = false;
  is_memory = false;
  thumbs_attach_uri = [];
}

abbrev driver : Driver
driver = record {
  connects = some 7;
  pings = true;
  attached = some false;
  attaches = true;
  sets_pragmas = true;
  prepares = true;
}

abbrev calm : Choice
calm = record {
  first = true;
  second = true;
  driver = driver;
  now = pos 5;
  db_status_mem = none;
  cancelled = false;
  timer = false;
  others_open = false;
}

new_pool : new_db_sql_conn_pool config opening ≡ ok pool
unfolding new_db_sql_conn_pool
new_pool = refl

too_many_idle :
    new_db_sql_conn_pool (record config { min_idle_connections = pos 2 }) opening
    ≡ err min_idle_above_max
unfolding new_db_sql_conn_pool
too_many_idle = refl

-- A threshold of 0 in the configuration becomes 30 s, a negative one pings on every Get.
thresholds : (health_check_of (pos 0) ≡ pos 30000000000) × (health_check_of (negsuc 0) ≡ pos 0)
unfolding health_check_of
thresholds = (refl, refl)

fresh_not_pinged :
    needs_health_check pool (pos 6) (record { conn = 7; idle_since = some (pos 5); put_count = 1 })
    ≡ false
unfolding needs_health_check ◌-ℤ◌
fresh_not_pinged = refl

thumbs_fail :
    new_cp_conn (record pool { thumbs_attach_uri = b'u' ∷ [] }) (record driver { attaches = false })
    ≡ err attach_failed
unfolding new_cp_conn
thumbs_fail = refl

abbrev calling : World
calling = record { pool = pool; threads = get_start ∷ close_start ∷ [] }

abbrev steps : ℕ → ℕ → List (ℕ × Choice)
steps i zero = []
steps i (suc n) = (i, calm) ∷ steps i n

abbrev made : CpConn
made = record { conn = 7; idle_since = none; put_count = 0 }

gets_one : run (steps 0 5) calling ≡ record {
  pool = record pool { num_connections = pos 1 };
  threads = holding made ∷ close_start ∷ [];
}
unfolding run step advance step_get ◌+ℤ◌
gets_one = refl

-- Close gives up its wait for a connection that is in use.
closes_late :
    (run (steps 0 5 ++ steps 1 3 ++ (1, record calm { timer = true }) ∷ steps 1 1) calling).threads
    ≡ holding made ∷ close_returned ∷ []
unfolding run step advance step_get step_close ◌+ℤ◌
closes_late = refl

every_run_example : IsCounted (run (steps 0 8) calling)
unfolding new_db_sql_conn_pool AllStart
every_run_example = every_run config opening pool _ (steps 0 8) refl (calls_get, (calls_close, tt))

abbrev stamped : CpConn
stamped = record { conn = 7; idle_since = some (pos 5); put_count = 1 }

abbrev busy : DbSqlConnPool
busy = record pool { num_connections = pos 1 }

put_has_room_example :
    step_put calm busy (put_sending stamped)
    ≡ (record busy { connections = stamped ∷ [] }, put_returned)
unfolding new_db_sql_conn_pool AllStart run step advance step_get step_put ◌+ℤ◌
put_has_room_example =
    put_has_room config opening pool (get_start ∷ close_start ∷ []) (steps 0 8)
      (record { pool = busy; threads = put_sending stamped ∷ close_start ∷ [] }) 0 stamped calm refl
      (calls_get, (calls_close, tt)) refl refl refl refl

recycled_put_wakes_no_one_example :
    run
      ((0, calm) ∷ (0, calm) ∷ steps 1 3)
      (waits_with busy (put_open (record made { put_count = 101 })))
    ≡ waits_with pool put_returned
unfolding NeverCancelled ◌-ℤ◌
recycled_put_wakes_no_one_example =
    recycled_put_wakes_no_one busy (record made { put_count = 101 }) calm calm (steps 1 3) refl
      (omega arith) refl refl refl (refl, (refl, (refl, tt)))
