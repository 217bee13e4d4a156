-- ===== src/HttpCache/Stored.antt =====
-- internal/cachelite/cache.go: what the table answers for an entry that was just stored.
use sfpg_go.Base.{
  ℕ, ◌≡◌, refl, Bool, true, false, List, [], ◌∷◌, some, if◌then◌else◌, Bool-cases, inl, inr,
}
use sfpg_go.Base.Int.{ℤ}
use sfpg_go.Base.Text.{Str, same, same_refl}
use sfpg_go.HttpCache.Codec.{
  Codec, Registry, register_defaults, new_registry, find, match_magic, finalize_for_storage,
  decode_for_serve,
}
use sfpg_go.HttpCache.Codec as Bodies
use sfpg_go.HttpCache.Table.{
  HttpCacheEntry, HttpCacheTable, Result, ok, err, with_codec, is_live, get_http_cache_by_key,
  update_row, has_key, update_key, upsert_http_cache, store_cache_entry, query_failed,
}

-- A row that answers like an entry.
pub record Shows (e row : HttpCacheEntry) : Type 0 where
  pub status : row.status ≡ e.status
  pub content_type_is : row.content_type ≡ e.content_type
  pub cache_control_is : row.cache_control ≡ e.cache_control
  pub e_tag_is : row.e_tag ≡ e.e_tag
  pub last_modified_is : row.last_modified ≡ e.last_modified
  pub vary_is : row.vary ≡ e.vary
  pub body : row.body ≡ e.body
  pub content_length_is : row.content_length ≡ e.content_length

-- The row that a lookup finds.
pub record Found (e : HttpCacheEntry) (key : Str) (now : ℤ) (rows : List HttpCacheEntry)
    : Type 0 where
  pub row : HttpCacheEntry
  pub found : get_http_cache_by_key key now rows ≡ some row
  pub shows : Shows e row

update_key-Found :
    (e : HttpCacheEntry) (now : ℤ) (rows : List HttpCacheEntry)
    → is_live now e.expires_at ≡ true
    → has_key e.key rows ≡ true
    → Found e e.key now (update_key e rows)
unfolding has_key update_key get_http_cache_by_key
update_key-Found e now [] live h = cc
update_key-Found e now (o ∷ os) live h = elim (Bool-cases (same o.key e.key)) [
  | inl is ↦ rw is (record {
    row = update_row e o;
    found = rw (is, live);
    shows = record {
      status = refl;
      content_type_is = refl;
      cache_control_is = refl;
      e_tag_is = refl;
      last_modified_is = refl;
      vary_is = refl;
      body = refl;
      content_length_is = refl;
    };
  })
  | inr isnt ↦
      let f = update_key-Found e now os live (rw isnt at h) in
      rw isnt (record { row = f.row; found = rw isnt f.found; shows = f.shows })
]

newest-Found :
    (e : HttpCacheEntry) (now : ℤ) (t : HttpCacheTable)
    → is_live now e.expires_at ≡ true
    → Found e e.key now (record e { id = t.next_id } ∷ t.rows)
unfolding get_http_cache_by_key
newest-Found e now t live = record {
  row = record e { id = t.next_id };
  found = rw (same_refl e.key, live);
  shows = record {
    status = refl;
    content_type_is = refl;
    cache_control_is = refl;
    e_tag_is = refl;
    last_modified_is = refl;
    vary_is = refl;
    body = refl;
    content_length_is = refl;
  };
}

pub upsert-Found :
    (e : HttpCacheEntry) (now : ℤ) (t : HttpCacheTable)
    → is_live now e.expires_at ≡ true
    → Found e e.key now (upsert_http_cache e t).rows
unfolding upsert_http_cache
upsert-Found e now t live = elim (Bool-cases (has_key e.key t.rows)) [
  | inl old ↦ rw old (update_key-Found e now t.rows live old)
  | inr fresh ↦ rw fresh (newest-Found e now t live)
]

-- What a store that succeeds did.
pub record StoredAs (r : Registry) (id : Str) (e : HttpCacheEntry) (t t' : HttpCacheTable)
    : Type 0 where
  pub stored : List ℕ
  pub encoded_as : finalize_for_storage id e.body r ≡ Bodies.ok stored
  pub inserted : upsert_http_cache (record e { body = stored }) t ≡ t'

pub store_cache_entry-StoredAs :
    (r : Registry) (id : Str) (works : Bool) (e e' : HttpCacheEntry) (t t' : HttpCacheTable)
    → store_cache_entry r id works e t ≡ ok (e', t')
    → StoredAs r id e t t'
unfolding store_cache_entry
store_cache_entry-StoredAs r id works e e' t t' h =
    by_codec (finalize_for_storage id e.body r) refl works h
  where
    by_codec :
        (x : Bodies.Result (List ℕ))
        → finalize_for_storage id e.body r ≡ x
        → (w : Bool)
        → ◌≡◌ {A = Result (HttpCacheEntry × HttpCacheTable)}
            (with_codec x (λ stored.
              if w
              then ok (record e { body = stored }, upsert_http_cache (record e { body = stored }) t)
              else err query_failed))
            (ok (e', t'))
        → StoredAs r id e t t'
    by_codec (Bodies.ok stored) f true g = record { stored = stored; encoded_as = f; inserted = cc }
    by_codec (Bodies.ok stored) f false g = cc
    by_codec (Bodies.err x) f w g = cc
