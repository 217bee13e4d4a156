-- ===== src/ConnPool/Create.antt =====
-- internal/dbconnpool/dbconnpool.go: the pool's configuration, its start state, and how a connection is
-- made. The database driver's answers are parameters; a duration is a number of nanoseconds.
use sfpg_go.Base.{
  ℕ, Bool, true, false, ◌&&◌, ◌||◌, not, List, [], ◌∷◌, Option, none, some, if◌then◌else◌,
}
use sfpg_go.Base.Int.{ℤ, pos, ◌-ℤ◌, ltb_ℤ, leb_ℤ}
use sfpg_go.Base.Text.{Str}

pub record Config : Type 0 where
  pub driver_name : Str
  pub read_only : Bool
  pub max_connections : ℤ
  pub min_idle_connections : ℤ
  pub thumbs_db_path : Str
  pub monitor_interval : ℤ
  pub health_check_threshold : ℤ
  pub test_use_mem_db : Bool

-- A connection; `idle_since` is `none` for the zero time.
pub record CpConn : Type 0 where
  pub conn : ℕ
  pub idle_since : Option ℤ
  pub put_count : ℕ

pub data Error : Type 0 where
  no_driver_name max_not_positive min_idle_negative min_idle_above_max open_failed : Error
  pool_closed acquire_failed : Error
  connect_failed ping_failed check_thumbs_failed attach_failed pragmas_failed : Error
  prepare_failed : Error

pub data Result (A : Type 0) : Type 0 where
  ok : A → Result A
  err : Error → Result A

-- `connections` is the buffered channel, oldest first, of capacity `max_connections`; `done` and
-- `channel_closed` say whether the channels `done` and `connections` are closed. `num_connections` is
-- the pool's counter.
pub record DbSqlConnPool : Type 0 where
  pub config : Config
  pub is_rw : Bool
  pub connections : List CpConn
  pub max_connections : ℤ
  pub min_idle_connections : ℤ
  pub monitor_interval : ℤ
  pub health_check_threshold : ℤ
  pub num_connections : ℤ
  pub done : Bool
  pub closed : Bool
  pub channel_closed : Bool
  pub is_memory : Bool
  pub thumbs_attach_uri : Str

abbrev pub is_empty : Str → Bool
is_empty [] = true
is_empty (c ∷ cs) = false

-- 30 s.
abbrev pub default_health_check : ℤ
default_health_check = pos 30000000000

abbrev pub max_ℤ : ℤ → ℤ → ℤ
max_ℤ a b = if ltb_ℤ a b then b else a

abbrev pub is_zero : ℤ → Bool
is_zero (pos n) = leb_ℤ (pos n) (pos 0)
is_zero _ = false

unfoldable pub health_check_of : ℤ → ℤ
health_check_of configured =
    let health_check = max_ℤ configured (pos 0) in
    if is_zero health_check && is_zero configured then default_health_check else health_check

-- What the driver answers when the pool is made. `mem_attach_uri` is what openMemTestPool gives, for an
-- empty data source in the test mode with the driver "sqlite3".
pub record Opening : Type 0 where
  pub data_source_empty : Bool
  pub is_sqlite3 : Bool
  pub mem_attach_uri : Option Str
  pub opens : Bool

abbrev start_state : Config → Bool → Str → DbSqlConnPool
start_state config is_memory uri = record {
  config = config;
  is_rw = not config.read_only;
  connections = [];
  max_connections = config.max_connections;
  min_idle_connections = config.min_idle_connections;
  monitor_interval = config.monitor_interval;
  health_check_threshold = health_check_of config.health_check_threshold;
  num_connections = pos 0;
  done = false;
  closed = false;
  channel_closed = false;
  is_memory = is_memory;
  thumbs_attach_uri = uri;
}

abbrev open_backing : Config → Opening → Result DbSqlConnPool
open_backing config o =
    if o.data_source_empty && config.test_use_mem_db && o.is_sqlite3
    then (elim o.mem_attach_uri as (λ _. Result DbSqlConnPool) [
      | none ↦ err open_failed
      | some uri ↦ ok (start_state config true uri)
    ])
    else if o.opens
    then ok (start_state config false [])
    else err open_failed

unfoldable pub new_db_sql_conn_pool : Config → Opening → Result DbSqlConnPool
unfolding health_check_of
new_db_sql_conn_pool config o =
    if is_empty config.driver_name
    then err no_driver_name
    else if leb_ℤ config.max_connections (pos 0)
    then err max_not_positive
    else if ltb_ℤ config.min_idle_connections (pos 0)
    then err min_idle_negative
    else if ltb_ℤ config.max_connections config.min_idle_connections
    then err min_idle_above_max
    else open_backing config o

-- What the driver answers while a connection is made: `attached` is the result of
-- isThumbsDBAttached, `none` for an error.
pub record Driver : Type 0 where
  pub connects : Option ℕ
  pub pings : Bool
  pub attached : Option Bool
  pub attaches : Bool
  pub sets_pragmas : Bool
  pub prepares : Bool

abbrev finish : ℕ → Driver → Result CpConn
finish conn d =
    if d.prepares
    then ok (record { conn = conn; idle_since = none; put_count = 0 })
    else err prepare_failed

-- The pragmas of a memory image and of a file differ in their text only.
abbrev attach : DbSqlConnPool → ℕ → Driver → Result CpConn
attach p conn d =
    if not d.attaches
    then err attach_failed
    else if not p.config.read_only && not d.sets_pragmas
    then err pragmas_failed
    else finish conn d

abbrev thumbs : DbSqlConnPool → ℕ → Driver → Bool → Result CpConn
thumbs p conn d attached = if attached then finish conn d else attach p conn d

abbrev connected : DbSqlConnPool → Driver → ℕ → Result CpConn
connected p d conn =
    if not d.pings
    then err ping_failed
    else if not (is_empty p.thumbs_attach_uri) || not (is_empty p.config.thumbs_db_path)
    then (elim d.attached as (λ _. Result CpConn) [
      | none ↦ err check_thumbs_failed
      | some attached ↦ thumbs p conn d attached
    ])
    else finish conn d

unfoldable pub new_cp_conn : DbSqlConnPool → Driver → Result CpConn
new_cp_conn p d = elim d.connects as (λ _. Result CpConn) [
  | none ↦ err connect_failed
  | some conn ↦ connected p d conn
]

-- `now` is the time since an arbitrary start.
unfoldable pub needs_health_check : DbSqlConnPool → ℤ → CpConn → Bool
needs_health_check p now c =
    if is_zero p.health_check_threshold then true else (elim c.idle_since as (λ _. Bool) [
      | none ↦ false
      | some since ↦ ltb_ℤ p.health_check_threshold (now -ℤ since)
    ])
