-- ===== src/HttpCache/Replaced.antt =====
-- internal/cachelite/cache.go: what a batch of entries replaces in the table.
use sfpg_go.Base.{
  ℕ, ◌+◌, ◌≡◌, refl, sym, ap, ◌∙◌, subst, Bool, true, false, List, [], ◌∷◌, length, hit,
  if◌then◌else◌, if_split, Bool-cases, inl, inr, arith,
}
use sfpg_go.Base.Text.{Str, same}
use sfpg_go.HttpCache.Codec.{Registry, finalize_for_storage}
use sfpg_go.HttpCache.Codec as Codec
use sfpg_go.HttpCache.Table.{
  HttpCacheEntry, HttpCacheTable, Result, ok, err, bind, with_codec, query_failed, has_key,
  update_key, upsert_http_cache, store_cache_entry,
}
use sfpg_go.HttpCache.Size.{total_bytes}
use sfpg_go.HttpCache.Batch.{store_all}
use sfpg_go.HttpCache.Rows.{Below}

-- The bytes of the row that an entry replaces.
unfoldable pub replaced : HttpCacheEntry → List HttpCacheEntry → ℕ
replaced new [] = 0
replaced new (e ∷ es) = if same e.key new.key then length e.body else replaced new es

-- The bytes and the number of the rows that a batch replaces.
unfoldable pub replaced_bytes : List HttpCacheEntry → HttpCacheTable → ℕ
replaced_bytes [] t = 0
replaced_bytes (e ∷ es) t = replaced e t.rows + replaced_bytes es (upsert_http_cache e t)

unfoldable pub replaced_rows : List HttpCacheEntry → HttpCacheTable → ℕ
replaced_rows [] t = 0
replaced_rows (e ∷ es) t = hit (has_key e.key t.rows) + replaced_rows es (upsert_http_cache e t)

abbrev pub IsTable : HttpCacheTable → Type 0
IsTable t = Below t.next_id t.rows

pub record Stores (batch : List HttpCacheEntry) (t u : HttpCacheTable) : Type 0 where
  pub bytes : total_bytes u.rows + replaced_bytes batch t ≡ total_bytes t.rows + total_bytes batch
  pub entries : length u.rows + replaced_rows batch t ≡ length t.rows + length batch
  pub table : IsTable u

update_key-Below :
    (n : ℕ) (new : HttpCacheEntry) (rows : List HttpCacheEntry)
    → Below n rows
    → Below n (update_key new rows)
unfolding Below update_key
update_key-Below n new [] b = tt
update_key-Below n new (e ∷ es) b =
    if_split (Below n) (same e.key new.key) (λ _. (b.0, b.1))
      (λ _. (b.0, update_key-Below e.id new es b.1))

update_key-bytes :
    (new : HttpCacheEntry) (rows : List HttpCacheEntry)
    → has_key new.key rows ≡ true
    → (total_bytes (update_key new rows) + replaced new rows ≡ total_bytes rows + length new.body)
      × (length (update_key new rows) ≡ length rows)
unfolding has_key update_key replaced total_bytes
update_key-bytes new [] h = cc
update_key-bytes new (e ∷ es) h = ground (arith, update_key-bytes new es)

replaced_none :
    (new : HttpCacheEntry) (rows : List HttpCacheEntry)
    → has_key new.key rows ≡ false
    → replaced new rows ≡ 0
unfolding has_key replaced
replaced_none new [] h = refl
replaced_none new (e ∷ es) h = ground (arith, replaced_none new es)

upsert-bytes :
    (new : HttpCacheEntry) (t : HttpCacheTable)
    → IsTable t
    → (total_bytes (upsert_http_cache new t).rows + replaced new t.rows
        ≡ total_bytes t.rows + length new.body)
      × (length (upsert_http_cache new t).rows + hit (has_key new.key t.rows) ≡ length t.rows + 1)
      × IsTable (upsert_http_cache new t)
unfolding upsert_http_cache total_bytes Below
upsert-bytes new t b = elim (Bool-cases (has_key new.key t.rows)) [
  | inl old ↦
      let k = update_key-bytes new t.rows old in
      rw old (k.0, omega (arith, k.1), update_key-Below t.next_id new t.rows b)
  | inr fresh ↦
      rw fresh (omega (arith, replaced_none new t.rows fresh), omega arith, (omega arith, b))
]

-- A store that succeeds puts in the entry that it returns.
pub store_cache_entry-upsert :
    (r : Registry) (id : Str) (works : Bool) (e e' : HttpCacheEntry) (t t' : HttpCacheTable)
    → store_cache_entry r id works e t ≡ ok (e', t')
    → upsert_http_cache e' t ≡ t'
unfolding store_cache_entry
store_cache_entry-upsert r id works e e' t t' h =
    by_codec (finalize_for_storage id e.body r) works h
  where
    by_codec :
        (x : Codec.Result (List ℕ)) (w : Bool)
        → ◌≡◌ {A = Result (HttpCacheEntry × HttpCacheTable)}
            (with_codec x (λ stored.
              if w
              then ok (record e { body = stored }, upsert_http_cache (record e { body = stored }) t)
              else err query_failed))
            (ok (e', t'))
        → upsert_http_cache e' t ≡ t'
    by_codec (Codec.ok stored) true g = stored_is stored (cc) (cc)
      where
        stored_is :
            (stored : List ℕ)
            → record e { body = stored } ≡ e'
            → upsert_http_cache (record e { body = stored }) t ≡ t'
            → upsert_http_cache e' t ≡ t'
        stored_is stored a b = rw (← a) b
    by_codec (Codec.ok stored) false g = cc
    by_codec (Codec.err x) w g = cc

Stores-cons :
    (e : HttpCacheEntry) (es : List HttpCacheEntry) (t t' u : HttpCacheTable)
    → IsTable t
    → upsert_http_cache e t ≡ t'
    → (IsTable t' → Stores es t' u)
    → Stores (e ∷ es) t u
unfolding replaced_bytes replaced_rows total_bytes
Stores-cons e es t t' u b h rest =
    let up = upsert-bytes e t b in
    let s : Stores es (upsert_http_cache e t) u =
      subst (λ x. IsTable x → Stores es x u) (sym h) rest up.2 in
    record {
      bytes = omega (arith, up.0, s.bytes);
      entries = omega (arith, up.1, s.entries);
      table = s.table;
    }

-- The tail of a batch after the first store.
abbrev tail_of :
    HttpCacheEntry
    → Result (List HttpCacheEntry × HttpCacheTable)
    → Result (List HttpCacheEntry × HttpCacheTable)
tail_of e' x = bind x (λ (es', t''). ok (e' ∷ es', t''))

none_stored : (t : HttpCacheTable) → IsTable t → Stores [] t t
unfolding total_bytes replaced_bytes replaced_rows
none_stored t b = record { bytes = omega arith; entries = omega arith; table = b }

pub store_all-Stores :
    (r : Registry) (id : Str) (works : ℕ → Bool) (n : ℕ) (es stored : List HttpCacheEntry)
    (t u : HttpCacheTable)
    → store_all r id works n es t ≡ ok (stored, u)
    → IsTable t
    → Stores stored t u
unfolding store_all
store_all-Stores r id works n [] stored t u h b = nothing stored u (cc) (cc)
  where
    nothing :
        (stored : List HttpCacheEntry) (u : HttpCacheTable)
        → [] ≡ stored
        → t ≡ u
        → Stores stored t u
    nothing stored u p q = subst (λ s. Stores s t u) p (subst (Stores [] t) q (none_stored t b))
store_all-Stores r id works n (e ∷ es) stored t u h b =
    by_first (store_cache_entry r id (works n) e t) refl h
      (λ t' s h' b'. store_all-Stores r id works (n + 1) es s t' u h' b')
  where
    Rest : Type 0
    Rest =
        (t' : HttpCacheTable) (s : List HttpCacheEntry)
        → store_all r id works (n + 1) es t' ≡ ok (s, u)
        → IsTable t'
        → Stores s t' u

    by_rest :
        (e' : HttpCacheEntry) (t' : HttpCacheTable)
        (y : Result (List HttpCacheEntry × HttpCacheTable))
        → upsert_http_cache e' t ≡ t'
        → store_all r id works (n + 1) es t' ≡ y
        → tail_of e' y ≡ ok (stored, u)
        → Rest
        → Stores stored t u
    by_rest e' t' (ok (s, v)) f g k rest =
        let v_u : v ≡ u = cc in
        let s_stored : e' ∷ s ≡ stored = cc in
        let found : store_all r id works (n + 1) es t' ≡ ok (s, u) = g ∙ ap (λ x. ok (s, x)) v_u in
        subst (λ x. Stores x t u) s_stored (Stores-cons e' s t t' u b f (rest t' s found))
    by_rest e' t' (err x) f g k rest = cc

    by_first :
        (x : Result (HttpCacheEntry × HttpCacheTable))
        → store_cache_entry r id (works n) e t ≡ x
        → bind x (λ (e', t'). tail_of e' (store_all r id works (n + 1) es t')) ≡ ok (stored, u)
        → Rest
        → Stores stored t u
    by_first (ok (e', t')) f g rest =
        by_rest e' t' _ (store_cache_entry-upsert r id (works n) e e' t t' f) refl g rest
    by_first (err x) f g rest = cc
