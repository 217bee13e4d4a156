-- ===== src/HttpCache/Size.antt =====
-- internal/cachelite/cache.go: the size of the table, EvictLRU and CanCacheResponse, with the queries of
-- sqlc/queries/http_cache.sql.
use sfpg_go.Base.{
  ℕ, ◌+◌, Bool, false, not, List, [], ◌∷◌, Option, none, some, length, take, ◌==◌, if◌then◌else◌,
}
use sfpg_go.Base.Int.{ℤ, pos, ◌+ℤ◌, leb_ℤ}
use sfpg_go.Base.Text.{Str, codes, contains}
use sfpg_go.HttpCache.Key.{is_empty}
use sfpg_go.HttpCache.Table.{
  HttpCacheEntry, HttpCacheTable, Error, no_connection, query_failed, cancelled, Result, ok, err,
  delete_by_id,
}

-- COALESCE(SUM(LENGTH(body)), 0).
unfoldable pub total_bytes : List HttpCacheEntry → ℕ
total_bytes [] = 0
total_bytes (e ∷ es) = length e.body + total_bytes es

unfoldable pub get_cache_size_bytes : Bool → Bool → Bool → HttpCacheTable → Result ℕ
unfolding total_bytes
get_cache_size_bytes is_cancelled connects works t =
    if is_cancelled
    then err cancelled
    else if not connects
    then err no_connection
    else if works
    then ok (total_bytes t.rows)
    else err query_failed

unfoldable pub count_cache_entries : Bool → Bool → HttpCacheTable → Result ℕ
count_cache_entries connects works t =
    if not connects
    then err no_connection
    else if works
    then ok (length t.rows)
    else err query_failed

-- ORDER BY created_at, with LIMIT below.
unfoldable pub insert_created : HttpCacheEntry → List HttpCacheEntry → List HttpCacheEntry
insert_created e [] = e ∷ []
insert_created e (f ∷ fs) =
    if leb_ℤ e.created_at f.created_at then e ∷ f ∷ fs else f ∷ insert_created e fs

unfoldable pub sort_created : List HttpCacheEntry → List HttpCacheEntry
unfolding insert_created
sort_created [] = []
sort_created (e ∷ es) = insert_created e (sort_created es)

abbrev pub eviction_limit : ℕ
eviction_limit = 1000

unfoldable pub get_http_cache_oldest_created : List HttpCacheEntry → List HttpCacheEntry
unfolding sort_created
get_http_cache_oldest_created rows = take eviction_limit (sort_created rows)

-- The bytes freed, the entries deleted, the error, and the rows that are left.
pub record Eviction : Type 0 where
  pub freed : ℤ
  pub deleted : ℕ
  pub failed : Option Error
  pub left : List HttpCacheEntry

-- The loop over the oldest rows; `works` answers the n-th delete.
unfoldable pub evict_rows :
    (ℕ → Bool) → ℤ → List HttpCacheEntry → ℤ → ℕ → List HttpCacheEntry → Eviction
unfolding delete_by_id
evict_rows works target [] freed deleted rows = record {
  freed = freed;
  deleted = deleted;
  failed = none;
  left = rows;
}
evict_rows works target (o ∷ os) freed deleted rows =
    let rest =
      evict_rows works target os (freed +ℤ pos (length o.body)) (deleted + 1)
        (delete_by_id o.id rows) in
    if leb_ℤ target freed
    then record { freed = freed; deleted = deleted; failed = none; left = rows }
    else if works deleted
    then rest
    else record { freed = freed; deleted = deleted; failed = some query_failed; left = rows }

pub record EvictEnv : Type 0 where
  pub is_cancelled : Bool
  pub connects : Bool
  pub lists : Bool
  pub deletes : ℕ → Bool

abbrev pub no_eviction : Error → List HttpCacheEntry → Eviction
no_eviction e rows = record { freed = pos 0; deleted = 0; failed = some e; left = rows }

unfoldable pub evict_lru : EvictEnv → ℤ → List HttpCacheEntry → Eviction
unfolding get_http_cache_oldest_created evict_rows
evict_lru env target_free_bytes rows =
    if env.is_cancelled
    then no_eviction cancelled rows
    else if not env.connects
    then no_eviction no_connection rows
    else if not env.lists
    then no_eviction query_failed rows
    else evict_rows env.deletes target_free_bytes (get_http_cache_oldest_created rows) (pos 0) 0
        rows

unfoldable pub can_cache_response : ℕ → Str → Str → Bool
unfolding contains
can_cache_response status cache_control set_cookie =
    if not (status == 200)
    then false
    else if contains cache_control (codes "no-store")
    then false
    else is_empty set_cookie
