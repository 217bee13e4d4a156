-- ===== src/HttpCache/Counters.antt =====
-- internal/server/infrastructure_batcher.go: the counters of the cache against its table.
use sfpg_go.Base.{
  ℕ, zero, suc, ◌+◌, ◌≡◌, sym, ap, ◌∙◌, subst, Bool, List, [], ◌∷◌, length, ltb, if◌then◌else◌,
  if_split, arith,
}
use sfpg_go.Base.Int.{ℤ, pos, pos_part, neg_part, ◌+ℤ◌, ◌-ℤ◌, ◌≤ℤ◌, ltb_ℤ, leb_ℤ, int_laws}
use sfpg_go.Base.Text.{Str}
use sfpg_go.HttpCache.Codec.{Registry}
use sfpg_go.HttpCache.Table.{HttpCacheEntry, HttpCacheTable, Result, ok, bind}
use sfpg_go.HttpCache.Size.{total_bytes, evict_lru, Eviction, EvictEnv}
use sfpg_go.HttpCache.Batch.{
  Cache, gallery_first, flush_cache_entries, count_batch, count_eviction, target_free,
  maybe_evict_cache_entries, commit_batch, add_if,
}
use sfpg_go.HttpCache.Evicted.{Accounts, evict_lru-Accounts}
use sfpg_go.HttpCache.Replaced.{replaced_bytes, replaced_rows, IsTable, Stores, store_all-Stores}

add_if-eq : (n : ℕ) (x : ℤ) → add_if (ltb 0 n) (pos n) x ≡ x +ℤ pos n
unfolding ◌+ℤ◌
add_if-eq zero x = ground arith
add_if-eq (suc n) x = ground arith

sub_if-eq : (x y : ℤ) → pos 0 ≤ℤ y → (if ltb_ℤ (pos 0) y then x -ℤ y else x) ≡ x -ℤ y
unfolding ◌-ℤ◌
sub_if-eq x y h = ground arith

sub_count-eq : (x : ℤ) (n : ℕ) → (if ltb 0 n then x -ℤ pos n else x) ≡ x -ℤ pos n
unfolding ◌-ℤ◌
sub_count-eq x n = ground arith

-- A cache whose counters are wrong by no more than before, up to what a batch replaced.
module _ (c : Cache) (batch : List HttpCacheEntry) (t : HttpCacheTable) where
  pub record Counts (c' : Cache) : Type 0 where
    pub bytes :
        c'.cache_size_bytes +ℤ pos (total_bytes t.rows)
        ≡ c.cache_size_bytes +ℤ pos (total_bytes c'.table.rows + replaced_bytes batch t)
    pub entries :
        c'.cache_entry_count +ℤ pos (length t.rows)
        ≡ c.cache_entry_count +ℤ pos (length c'.table.rows + replaced_rows batch t)
    pub table : IsTable c'.table

  count_batch-Counts :
      (u : HttpCacheTable) → Stores batch t u → Counts (count_batch batch (record c { table = u }))
  unfolding count_batch
  count_batch-Counts u s = record {
    bytes = omega (int_laws, ap pos_part size, ap neg_part size, s.bytes);
    entries = omega (int_laws, ap pos_part number, ap neg_part number, s.entries);
    table = s.table;
  }
    where
      size :
          add_if (ltb 0 (total_bytes batch)) (pos (total_bytes batch)) c.cache_size_bytes
          ≡ c.cache_size_bytes +ℤ pos (total_bytes batch)
      size = add_if-eq (total_bytes batch) c.cache_size_bytes

      number :
          add_if (ltb 0 (length batch)) (pos (length batch)) c.cache_entry_count
          ≡ c.cache_entry_count +ℤ pos (length batch)
      number = add_if-eq (length batch) c.cache_entry_count

  count_eviction-Counts :
      (c' : Cache) (ev : Eviction)
      → Counts c'
      → Accounts c'.table.next_id c'.table.rows (pos 0) 0 ev
      → Counts (count_eviction ev c')
  count_eviction-Counts c' ev k a =
      let size = sub_if-eq c'.cache_size_bytes ev.freed a.grows in
      let number = sub_count-eq c'.cache_entry_count ev.deleted in
      record {
        bytes = omega (
          int_laws,
          ap pos_part size,
          ap neg_part size,
          ap pos_part k.bytes,
          ap neg_part k.bytes,
          ap pos_part a.bytes,
          ap neg_part a.bytes,
        );
        entries = omega (
          int_laws,
          ap pos_part number,
          ap neg_part number,
          ap pos_part k.entries,
          ap neg_part k.entries,
          a.entries,
        );
        table = a.below;
      }

  maybe_evict-Counts :
      (env : EvictEnv) (max : ℤ) (es : List HttpCacheEntry) (c' : Cache)
      → Counts c'
      → Counts (maybe_evict_cache_entries env max es c')
  unfolding maybe_evict_cache_entries
  maybe_evict-Counts env max [] c' k = k
  maybe_evict-Counts env max (e ∷ es) c' k =
      if_split Counts (leb_ℤ max (pos 0)) (λ _. k)
        (λ _.
          if_split Counts (ltb_ℤ max c'.cache_size_bytes)
            (λ _.
              count_eviction-Counts c'
                (evict_lru env (target_free max c'.cache_size_bytes) c'.table.rows) k
                (evict_lru-Accounts env (target_free max c'.cache_size_bytes) c'.table.next_id
                  c'.table.rows k.table))
            (λ _. k))

bind_value :
    {A B : Type 0} (x : Result A) (f : A → Result B) (a : A) (b : B)
    → x ≡ ok a
    → bind x f ≡ ok b
    → f a ≡ ok b
bind_value x f a b e h = sym (ap (λ y. bind y f) e) ∙ h

committed :
    (r : Registry) (id : Str) (works : ℕ → Bool) (env : EvictEnv) (max_total : ℤ)
    (batch stored : List HttpCacheEntry) (c c' : Cache) (u : HttpCacheTable)
    → flush_cache_entries r id works batch c.table ≡ ok (stored, u)
    → commit_batch r id works env max_total batch c ≡ ok c'
    → maybe_evict_cache_entries env max_total stored (count_batch stored (record c { table = u }))
      ≡ c'
unfolding commit_batch
committed r id works env max_total batch stored c c' u f g =
    let h = bind_value (flush_cache_entries r id works batch c.table) _ (stored, u) c' f g in cc

-- When a batch of cache entries commits, evictions included, the size counter changes by as
-- much as the bytes in the table, plus the bytes of the rows that the batch replaced, the
-- entry counter by as much as the number of rows, plus the number of rows replaced, and the
-- identifiers of the table still fall and stay below the next one.
pub commit_batch-Counts :
    (r : Registry) (id : Str) (works : ℕ → Bool) (env : EvictEnv) (max_total : ℤ)
    (batch stored : List HttpCacheEntry) (c c' : Cache) (u : HttpCacheTable)
    → IsTable c.table
    → flush_cache_entries r id works batch c.table ≡ ok (stored, u)
    → commit_batch r id works env max_total batch c ≡ ok c'
    → Counts c stored c.table c'
unfolding flush_cache_entries
commit_batch-Counts r id works env max_total batch stored c c' u b f g =
    subst (Counts c stored c.table) (committed r id works env max_total batch stored c c' u f g) (
      maybe_evict-Counts c stored c.table env max_total stored
        (count_batch stored (record c { table = u }))
        (count_batch-Counts c stored c.table u
          (store_all-Stores r id works 0 (gallery_first batch []) stored c.table u f b)))
