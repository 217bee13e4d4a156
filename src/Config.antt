-- ===== src/Config.antt =====
-- internal/server/config/validator.go, over the fields of the configuration that it reads. A
-- validation gives no error or the first one.
pub mod Guardrails
pub mod Tests
use sfpg_go.Base.{
  ℕ, ◌+◌, Bool, true, false, ◌&&◌, ◌||◌, not, List, [], ◌∷◌, ◌++◌, Option, none, some, leb, ◌==◌,
  if◌then◌else◌,
}
use sfpg_go.Base.Int.{ℤ, pos, ltb_ℤ, leb_ℤ}
use sfpg_go.Base.Text.{Str, same}

pub record Config : Type 0 where
  pub listener_port : ℤ
  pub log_level : Str
  pub log_rollover : Str
  pub log_retention_count : ℤ
  pub session_same_site : Str
  pub session_secure : Bool
  pub enable_http_cache : Bool
  pub cache_max_size : ℤ
  pub cache_max_entry_size : ℤ
  pub db_max_pool_size : ℤ
  pub db_min_idle_connections : ℤ
  pub db_pool_monitor_interval : ℤ
  pub worker_pool_max : ℤ
  pub worker_pool_min_idle : ℤ
  pub queue_size : ℤ

pub data Problem : Type 0 where
  port log_level log_rollover log_retention same_site cache_size cache_entry_size db_pool_size :
      Problem
  db_min_idle db_min_idle_over_pool monitor_interval pool_max pool_min_idle pool_min_over_max
        queue :
      Problem

-- unicode.ToLower where it gives an ASCII letter: besides A to Z the dotted I and the Kelvin sign.
-- Other letters stay what they are here, as no word below has one.
abbrev pub lower : ℕ → ℕ
lower c =
    if leb 65 c && leb c 90 then c + 32 else if c == 304 then 105 else if c == 8490 then 107 else c

unfoldable pub to_lower : Str → Str
to_lower [] = []
to_lower (c ∷ cs) = lower c ∷ to_lower cs

unfoldable pub one_of : List Str → Str → Bool
one_of [] s = false
one_of (w ∷ ws) s = same s w || one_of ws s

abbrev pub log_levels : List Str
log_levels =
    (100 ∷ 101 ∷ 98 ∷ 117 ∷ 103 ∷ [])
    ∷ (105 ∷ 110 ∷ 102 ∷ 111 ∷ [])
    ∷ (119 ∷ 97 ∷ 114 ∷ 110 ∷ [])
    ∷ (101 ∷ 114 ∷ 114 ∷ 111 ∷ 114 ∷ [])
    ∷ []

abbrev pub log_rollovers : List Str
log_rollovers =
    (100 ∷ 97 ∷ 105 ∷ 108 ∷ 121 ∷ [])
    ∷ (119 ∷ 101 ∷ 101 ∷ 107 ∷ 108 ∷ 121 ∷ [])
    ∷ (109 ∷ 111 ∷ 110 ∷ 116 ∷ 104 ∷ 108 ∷ 121 ∷ [])
    ∷ []

abbrev pub same_site_none : Str
same_site_none = 78 ∷ 111 ∷ 110 ∷ 101 ∷ []

abbrev pub same_sites : List Str
same_sites = (76 ∷ 97 ∷ 120 ∷ []) ∷ (83 ∷ 116 ∷ 114 ∷ 105 ∷ 99 ∷ 116 ∷ []) ∷ same_site_none ∷ []

abbrev pub is_min_over_max : Config → Bool
is_min_over_max c =
    ltb_ℤ (pos 0) c.worker_pool_max
    && ltb_ℤ (pos 0) c.worker_pool_min_idle
    && ltb_ℤ c.worker_pool_max c.worker_pool_min_idle

-- The sizes of the database pool, the worker pool and the queue.
unfoldable pub validate_pools : Config → Option Problem
validate_pools c =
    if ltb_ℤ c.db_max_pool_size (pos 1)
    then some db_pool_size
    else if ltb_ℤ c.db_min_idle_connections (pos 0)
    then some db_min_idle
    else if ltb_ℤ c.db_max_pool_size c.db_min_idle_connections
    then some db_min_idle_over_pool
    else if ltb_ℤ c.db_pool_monitor_interval (pos 0)
    then some monitor_interval
    else if ltb_ℤ c.worker_pool_max (pos 0)
    then some pool_max
    else if ltb_ℤ c.worker_pool_min_idle (pos 0)
    then some pool_min_idle
    else if is_min_over_max c
    then some pool_min_over_max
    else if ltb_ℤ c.queue_size (pos 1)
    then some queue
    else none

unfoldable pub validate : Config → Option Problem
unfolding validate_pools to_lower one_of
validate c =
    if ltb_ℤ c.listener_port (pos 1) || ltb_ℤ (pos 65535) c.listener_port
    then some port
    else if not (one_of log_levels (to_lower c.log_level))
    then some log_level
    else if not (one_of log_rollovers (to_lower c.log_rollover))
    then some log_rollover
    else if ltb_ℤ c.log_retention_count (pos 1)
    then some log_retention
    else if not (one_of same_sites c.session_same_site)
    then some same_site
    else if ltb_ℤ c.cache_max_size (pos 0)
    then some cache_size
    else if ltb_ℤ c.cache_max_entry_size (pos 0)
    then some cache_entry_size
    else validate_pools c

pub data GuardrailWarning : Type 0 where
  db_min_idle_gt_db_max_pool worker_pool_min_idle_gt_worker_pool_max : GuardrailWarning
  session_samesite_none_without_secure http_cache_enabled_with_zero_max_size : GuardrailWarning
  cache_entry_size_exceeds_cache_size : GuardrailWarning

abbrev pub warn_if : Bool → GuardrailWarning → List GuardrailWarning
warn_if b w = if b then w ∷ [] else []

abbrev pub is_zero : ℤ → Bool
is_zero n = leb_ℤ n (pos 0) && leb_ℤ (pos 0) n

abbrev pub session_warning : Config → List GuardrailWarning
session_warning c =
    warn_if (same c.session_same_site same_site_none && not c.session_secure)
      session_samesite_none_without_secure

abbrev pub cache_warnings : Config → List GuardrailWarning
cache_warnings c =
    warn_if (c.enable_http_cache && is_zero c.cache_max_size) http_cache_enabled_with_zero_max_size
    ++ warn_if
        (c.enable_http_cache
          && ltb_ℤ (pos 0) c.cache_max_size
          && ltb_ℤ c.cache_max_size c.cache_max_entry_size)
        cache_entry_size_exceeds_cache_size

unfoldable pub validate_guardrails : Config → List GuardrailWarning
validate_guardrails c =
    warn_if (ltb_ℤ c.db_max_pool_size c.db_min_idle_connections) db_min_idle_gt_db_max_pool
    ++ (warn_if (is_min_over_max c) worker_pool_min_idle_gt_worker_pool_max
        ++ (session_warning c ++ cache_warnings c))
