-- ===== src/HttpCache/Batch.antt =====
-- internal/server/infrastructure_batcher.go and internal/server/infrastructure_cache.go: a batch of cache
-- entries is stored, the counters of the cache are raised, and the cache is cut down to its limit. The
-- batch's other writes, of files and of the folder index, touch neither the table nor the counters.
use sfpg_go.Base.{ℕ, ◌+◌, ◌/◌, Bool, List, [], ◌∷◌, ◌++◌, length, ltb, if◌then◌else◌}
use sfpg_go.Base.Int.{ℤ, pos, pos_part, ◌+ℤ◌, ◌-ℤ◌, ltb_ℤ, leb_ℤ}
use sfpg_go.Base.Text.{Str, has_prefix}
use sfpg_go.HttpCache.Codec.{Registry}
use sfpg_go.HttpCache.Key.{gallery_prefix}
use sfpg_go.HttpCache.Table.{HttpCacheEntry, HttpCacheTable, Result, ok, bind, store_cache_entry}
use sfpg_go.HttpCache.Size.{total_bytes, Eviction, EvictEnv, evict_lru}

-- The table and the counters cacheSizeBytes and cacheEntryCount.
pub record Cache : Type 0 where
  pub table : HttpCacheTable
  pub cache_size_bytes : ℤ
  pub cache_entry_count : ℤ

-- The stores of a batch in their order; `works` answers them one by one.
unfoldable pub store_all :
    Registry
    → Str
    → (ℕ → Bool)
    → ℕ
    → List HttpCacheEntry
    → HttpCacheTable
    → Result (List HttpCacheEntry × HttpCacheTable)
store_all r codec_id works n [] t = ok ([], t)
store_all r codec_id works n (e ∷ es) t =
    bind (store_cache_entry r codec_id (works n) e t) (λ (e', t').
      bind (store_all r codec_id works (n + 1) es t') (λ (es', t''). ok (e' ∷ es', t'')))

unfoldable pub gallery_first : List HttpCacheEntry → List HttpCacheEntry → List HttpCacheEntry
gallery_first [] others = others
gallery_first (e ∷ es) others =
    let later = gallery_first es (others ++ e ∷ []) in
    if has_prefix e.path gallery_prefix then e ∷ gallery_first es others else later

unfoldable pub flush_cache_entries :
    Registry
    → Str
    → (ℕ → Bool)
    → List HttpCacheEntry
    → HttpCacheTable
    → Result (List HttpCacheEntry × HttpCacheTable)
unfolding gallery_first store_all
flush_cache_entries r codec_id works batch t =
    store_all r codec_id works 0 (gallery_first batch []) t

abbrev pub add_if : Bool → ℤ → ℤ → ℤ
add_if b n c = if b then c +ℤ n else c

-- OnSuccess; the bodies are those that were stored.
unfoldable pub count_batch : List HttpCacheEntry → Cache → Cache
unfolding total_bytes
count_batch batch c =
    let added = total_bytes batch in
    record c {
      cache_size_bytes = add_if (ltb 0 added) (pos added) c.cache_size_bytes;
      cache_entry_count = add_if (ltb 0 (length batch)) (pos (length batch)) c.cache_entry_count;
    }

-- An eviction's result, errors included.
abbrev pub count_eviction : Eviction → Cache → Cache
count_eviction ev c = record c {
  table = record c.table { rows = ev.left };
  cache_size_bytes =
      if ltb_ℤ (pos 0) ev.freed then c.cache_size_bytes -ℤ ev.freed else c.cache_size_bytes;
  cache_entry_count =
      if ltb 0 ev.deleted then c.cache_entry_count -ℤ pos ev.deleted else c.cache_entry_count;
}

abbrev pub target_free : ℤ → ℤ → ℤ
target_free max_total current = current -ℤ max_total +ℤ pos (pos_part max_total / 10)

unfoldable pub maybe_evict_cache_entries : EvictEnv → ℤ → List HttpCacheEntry → Cache → Cache
maybe_evict_cache_entries env max_total_size [] c = c
maybe_evict_cache_entries env max_total_size (e ∷ es) c =
    if leb_ℤ max_total_size (pos 0)
    then c
    else if ltb_ℤ max_total_size c.cache_size_bytes
    then count_eviction (evict_lru env (target_free max_total_size c.cache_size_bytes) c.table.rows)
        c
    else c

-- The whole of a batch that commits. A batch that fails leaves the table as it was.
unfoldable pub commit_batch :
    Registry → Str → (ℕ → Bool) → EvictEnv → ℤ → List HttpCacheEntry → Cache → Result Cache
unfolding flush_cache_entries count_batch maybe_evict_cache_entries
commit_batch r codec_id works env max_total_size batch c =
    bind (flush_cache_entries r codec_id works batch c.table) (λ (stored, t). ok (
      maybe_evict_cache_entries env max_total_size stored
        (count_batch stored (record c { table = t }))))
