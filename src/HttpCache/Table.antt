-- ===== src/HttpCache/Table.antt =====
-- internal/cachelite/cache.go over sqlc/queries/http_cache.sql, and the part of
-- internal/server/infrastructure_batcher.go and infrastructure_cache.go that stores a batch of entries,
-- counts and evicts. The answers of the database are parameters.
use sfpg_go.Base.{
  ℕ, ◌+◌, Bool, true, false, ◌&&◌, ◌||◌, not, List, [], ◌∷◌, Option, none, some, ◌==◌,
  if◌then◌else◌,
}
use sfpg_go.Base.Int.{ℤ, ltb_ℤ}
use sfpg_go.Base.Text.{Str, same, has_prefix}
use sfpg_go.HttpCache.Codec.{Registry, decode_for_serve, finalize_for_storage}
use sfpg_go.HttpCache.Codec as Codec

pub record HttpCacheEntry : Type 0 where
  pub id : ℕ
  pub key : Str
  pub method : Str
  pub path : Str
  pub query_string : Option Str
  pub status : ℕ
  pub content_type : Option Str
  pub cache_control : Option Str
  pub e_tag : Option Str
  pub last_modified : Option Str
  pub vary : Option Str
  pub body : List ℕ
  pub content_length : Option ℕ
  pub created_at : ℤ
  pub expires_at : Option ℤ

-- The rows, newest first; identifiers are not used again.
pub record HttpCacheTable : Type 0 where
  pub rows : List HttpCacheEntry
  pub next_id : ℕ

pub data Error : Type 0 where
  no_connection no_rows query_failed cancelled : Error
  codec : Codec.Error → Error

pub data Result (A : Type 0) : Type 0 where
  ok : A → Result A
  err : Error → Result A

abbrev pub bind : {A B : Type 0} → Result A → (A → Result B) → Result B
bind (ok a) f = f a
bind (err e) f = err e

abbrev pub with_codec : {A B : Type 0} → Codec.Result A → (A → Result B) → Result B
with_codec (Codec.ok a) f = f a
with_codec (Codec.err e) f = err (codec e)

unfoldable pub is_cacheable_path : List Str → Str → Bool
is_cacheable_path [] path = true
is_cacheable_path (route ∷ []) path = has_prefix path route
is_cacheable_path (route ∷ routes) path = has_prefix path route || is_cacheable_path routes path

abbrev pub is_live : ℤ → Option ℤ → Bool
is_live now none = true
is_live now (some t) = ltb_ℤ now t

-- GetHttpCacheByKey: the row of a key that has not expired.
unfoldable pub get_http_cache_by_key : Str → ℤ → List HttpCacheEntry → Option HttpCacheEntry
get_http_cache_by_key key now [] = none
get_http_cache_by_key key now (e ∷ es) =
    if same e.key key && is_live now e.expires_at then some e else get_http_cache_by_key key now es

abbrev pub or_zero : Option ℕ → ℕ
or_zero none = 0
or_zero (some n) = n

abbrev pub decoded : Registry → Option HttpCacheEntry → Result HttpCacheEntry
decoded r none = err no_rows
decoded r (some e) =
    with_codec (decode_for_serve e.body (or_zero e.content_length) r)
      (λ plain. ok (record e { body = plain }))

unfoldable pub get_cache_entry :
    Bool → Registry → Str → ℤ → List HttpCacheEntry → Result HttpCacheEntry
unfolding get_http_cache_by_key
get_cache_entry connects r key now rows =
    if not connects then err no_connection else decoded r (get_http_cache_by_key key now rows)

-- UpsertHttpCache: on a conflict the row keeps its identifier, its request and the time it was made.
abbrev pub update_row : HttpCacheEntry → HttpCacheEntry → HttpCacheEntry
update_row new old = record old {
  status = new.status;
  content_type = new.content_type;
  cache_control = new.cache_control;
  e_tag = new.e_tag;
  last_modified = new.last_modified;
  vary = new.vary;
  body = new.body;
  content_length = new.content_length;
  expires_at = new.expires_at;
}

unfoldable pub has_key : Str → List HttpCacheEntry → Bool
has_key key [] = false
has_key key (e ∷ es) = same e.key key || has_key key es

unfoldable pub update_key : HttpCacheEntry → List HttpCacheEntry → List HttpCacheEntry
update_key new [] = []
update_key new (e ∷ es) =
    if same e.key new.key then update_row new e ∷ es else e ∷ update_key new es

unfoldable pub upsert_http_cache : HttpCacheEntry → HttpCacheTable → HttpCacheTable
unfolding has_key update_key
upsert_http_cache new t =
    if has_key new.key t.rows
    then record t { rows = update_key new t.rows }
    else record { rows = record new { id = t.next_id } ∷ t.rows; next_id = t.next_id + 1 }

-- The entry afterwards, whose body is the stored one, and the table. The connection and the transaction
-- differ between StoreCacheEntry and StoreCacheEntryInTx; `works` is the answer to the statement.
unfoldable pub store_cache_entry :
    Registry
    → Str
    → Bool
    → HttpCacheEntry
    → HttpCacheTable
    → Result (HttpCacheEntry × HttpCacheTable)
unfolding upsert_http_cache
store_cache_entry r codec_id works entry t =
    with_codec (finalize_for_storage codec_id entry.body r) (λ stored.
      let e = record entry { body = stored } in
      if works then ok (e, upsert_http_cache e t) else err query_failed)

unfoldable pub delete_by_key : Str → List HttpCacheEntry → List HttpCacheEntry
delete_by_key key [] = []
delete_by_key key (e ∷ es) =
    let rest = delete_by_key key es in if same e.key key then rest else e ∷ rest

unfoldable pub delete_by_id : ℕ → List HttpCacheEntry → List HttpCacheEntry
delete_by_id id [] = []
delete_by_id id (e ∷ es) = let rest = delete_by_id id es in if e.id == id then rest else e ∷ rest

unfoldable pub delete_expired : ℤ → List HttpCacheEntry → List HttpCacheEntry
delete_expired now [] = []
delete_expired now (e ∷ es) =
    let rest = delete_expired now es in if is_live now e.expires_at then e ∷ rest else rest

unfoldable pub delete_cache_entry : Bool → Bool → Str → HttpCacheTable → Result HttpCacheTable
unfolding delete_by_key
delete_cache_entry connects works key t =
    if not connects
    then err no_connection
    else if works
    then ok (record t { rows = delete_by_key key t.rows })
    else err query_failed

unfoldable pub clear_cache : Bool → Bool → HttpCacheTable → Result HttpCacheTable
clear_cache connects works t =
    if not connects
    then err no_connection
    else if works
    then ok (record t { rows = [] })
    else err query_failed

unfoldable pub cleanup_expired : Bool → Bool → ℤ → HttpCacheTable → Result HttpCacheTable
unfolding delete_expired
cleanup_expired connects works now t =
    if not connects
    then err no_connection
    else if works
    then ok (record t { rows = delete_expired now t.rows })
    else err query_failed
