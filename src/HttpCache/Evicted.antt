-- ===== src/HttpCache/Evicted.antt =====
-- internal/cachelite/cache.go: what an eviction deletes, and the bytes and rows it reports.
use sfpg_go.Base.{
  ℕ, suc, ◌+◌, ◌≤◌, ◌≡◌, refl, ap, Bool, true, not, List, [], ◌∷◌, Option, none, some, length, take,
  ◌==◌, ==_iff, if_split, Bool-cases, inl, inr, arith,
}
use sfpg_go.Base.Int.{ℤ, pos, pos_part, neg_part, ◌+ℤ◌, ◌≤ℤ◌, leb_ℤ, int_laws}
use sfpg_go.HttpCache.Table.{HttpCacheEntry, delete_by_id, query_failed, Error}
use sfpg_go.HttpCache.Size.{
  total_bytes, sort_created, get_http_cache_oldest_created, eviction_limit, evict_rows, evict_lru,
  Eviction, EvictEnv,
}
use sfpg_go.HttpCache.Rows.{
  Below, All, All-take, All-sort_created, Distinct, Distinct-sort_created, Distinct-take,
  Below-Distinct, find_id, IsRow, IsRow-delete, find_id-Below, Below-IsRow,
}

-- A deletion takes one row away.
delete_none :
    (id : ℕ) (rows : List HttpCacheEntry) → find_id id rows ≡ none → delete_by_id id rows ≡ rows
unfolding find_id delete_by_id
delete_none id [] h = refl
delete_none id (e ∷ es) h = ground (arith, delete_none id es)

delete_one :
    (n : ℕ) (o : HttpCacheEntry) (rows : List HttpCacheEntry)
    → Below n rows
    → IsRow rows o
    → (total_bytes (delete_by_id o.id rows) + length o.body ≡ total_bytes rows)
      × (length (delete_by_id o.id rows) + 1 ≡ length rows)
unfolding find_id delete_by_id total_bytes Below
delete_one n o [] b h = cc
delete_one n o (e ∷ es) b h = elim (Bool-cases (e.id == o.id)) [
  | inl is ↦ rw is (this is (rw is at h))
  | inr isnt ↦ rw isnt (later (delete_one e.id o es b.1 (rw isnt at h)))
]
  where
    Takes : List HttpCacheEntry → Type 0
    Takes left =
        (total_bytes left + length o.body ≡ length e.body + total_bytes es)
        × (length left + 1 ≡ suc (length es))

    this :
        (e.id == o.id) ≡ true
        → ◌≡◌ {A = Option HttpCacheEntry} (some e) (some o)
        → Takes (delete_by_id o.id es)
    this is same =
        let e_o : e ≡ o = cc in
        let gone : delete_by_id o.id es ≡ es =
          delete_none o.id es (find_id-Below e.id o.id es b.1 (omega (arith, (==_iff _ _).0 is))) in
        rw gone (omega (arith, ap (λ (x : HttpCacheEntry). length x.body) e_o), omega arith)

    later :
        (total_bytes (delete_by_id o.id es) + length o.body ≡ total_bytes es)
          × (length (delete_by_id o.id es) + 1 ≡ length es)
        → Takes (e ∷ delete_by_id o.id es)
    later (t, l) = (omega arith, omega arith)

Below-more : (n k : ℕ) (rows : List HttpCacheEntry) → n ≤ k → Below n rows → Below k rows
unfolding Below
Below-more n k [] h b = tt
Below-more n k (e ∷ es) h b = (omega arith, b.1)

Below-delete :
    (n id : ℕ) (rows : List HttpCacheEntry) → Below n rows → Below n (delete_by_id id rows)
unfolding Below delete_by_id
Below-delete n id [] b = tt
Below-delete n id (e ∷ es) b =
    if_split (Below n) (e.id == id)
      (λ _. Below-more e.id n (delete_by_id id es) (omega arith) (Below-delete e.id id es b.1))
      (λ _. (b.0, Below-delete e.id id es b.1))

-- What is left, and what was counted, account for all there was.
pub record Accounts (n : ℕ) (rows : List HttpCacheEntry) (freed : ℤ) (deleted : ℕ) (ev : Eviction)
    : Type 0 where
  pub bytes : pos (total_bytes ev.left) +ℤ ev.freed ≡ pos (total_bytes rows) +ℤ freed
  pub entries : length ev.left + ev.deleted ≡ length rows + deleted
  pub below : Below n ev.left
  pub grows : freed ≤ℤ ev.freed

stops :
    (n : ℕ) (rows : List HttpCacheEntry) (freed : ℤ) (deleted : ℕ) (f : Option Error)
    → Below n rows
    → Accounts n rows freed deleted
        (record { freed = freed; deleted = deleted; failed = f; left = rows })
stops n rows freed deleted f b = record {
  bytes = refl;
  entries = refl;
  below = b;
  grows = omega arith;
}

evict_rows-Accounts :
    (works : ℕ → Bool) (target : ℤ) (os : List HttpCacheEntry) (freed : ℤ) (deleted n : ℕ)
    (rows : List HttpCacheEntry)
    → Below n rows
    → Distinct os
    → All (IsRow rows) os
    → Accounts n rows freed deleted (evict_rows works target os freed deleted rows)
unfolding evict_rows Distinct All
evict_rows-Accounts works target [] freed deleted n rows b d h = stops n rows freed deleted none b
evict_rows-Accounts works target (o ∷ os) freed deleted n rows b d h =
    if_split (Accounts n rows freed deleted) (leb_ℤ target freed)
      (λ _. stops n rows freed deleted none b)
      (λ _.
        if_split (Accounts n rows freed deleted) (works deleted)
          (λ _.
            more
              (evict_rows works target os (freed +ℤ pos (length o.body)) (deleted + 1)
                (delete_by_id o.id rows))
              (evict_rows-Accounts works target os (freed +ℤ pos (length o.body)) (deleted + 1) n
                (delete_by_id o.id rows) (Below-delete n o.id rows b) d.1
                (IsRow-delete o os rows d.0 h.1)))
          (λ _. stops n rows freed deleted (some query_failed) b))
  where
    more :
        (ev : Eviction)
        → Accounts n (delete_by_id o.id rows) (freed +ℤ pos (length o.body)) (deleted + 1) ev
        → Accounts n rows freed deleted ev
    more ev a =
        let one = delete_one n o rows b h.0 in
        record {
          bytes = omega (int_laws, ap pos_part a.bytes, ap neg_part a.bytes, one.0);
          entries = omega (arith, a.entries, one.1);
          below = a.below;
          grows = omega (int_laws, a.grows);
        }

pub evict_lru-Accounts :
    (env : EvictEnv) (target : ℤ) (n : ℕ) (rows : List HttpCacheEntry)
    → Below n rows
    → Accounts n rows (pos 0) 0 (evict_lru env target rows)
unfolding evict_lru get_http_cache_oldest_created
evict_lru-Accounts env target n rows b =
    if_split (Accounts n rows (pos 0) 0) env.is_cancelled (λ _. stops n rows (pos 0) 0 _ b)
      (λ _.
        if_split (Accounts n rows (pos 0) 0) (not env.connects) (λ _. stops n rows (pos 0) 0 _ b)
          (λ _.
            if_split (Accounts n rows (pos 0) 0) (not env.lists) (λ _. stops n rows (pos 0) 0 _ b)
              (λ _.
                evict_rows-Accounts env.deletes target (take eviction_limit (sort_created rows))
                  (pos 0) 0 n rows b
                  (Distinct-take eviction_limit (sort_created rows)
                    (Distinct-sort_created rows (Below-Distinct n rows b)))
                  (All-take (IsRow rows) eviction_limit (sort_created rows)
                    (All-sort_created (IsRow rows) rows (Below-IsRow n rows b))))))
