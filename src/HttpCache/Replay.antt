-- ===== src/HttpCache/Replay.antt =====
-- internal/cachelite: a response on its way into the cache and out again.
use sfpg_go.Base.{ℕ, ◌≡◌, refl, sym, ap, ◌∙◌, subst, Bool, true, false, List, none, some, length}
use sfpg_go.Base.Int.{ℤ}
use sfpg_go.Base.Text.{Str, codes}
use sfpg_go.Conditional.{Name, e_tag, last_modified, content_type, get, Direct, nothing_sent}
use sfpg_go.HttpCache.Codec.{
  Codec, Registry, register_defaults, new_registry, find, match_magic, finalize_for_storage,
  decode_for_serve,
}
use sfpg_go.HttpCache.Codec as Bodies
use sfpg_go.HttpCache.RoundTrip.{IsLawful, IsDisjoint, decode_for_serve-finalize_for_storage}
use sfpg_go.HttpCache.Key.{Request, new_cache_key, new_cache_key_for_request}
use sfpg_go.HttpCache.Table.{
  HttpCacheEntry, HttpCacheTable, Result, ok, with_codec, is_live, get_http_cache_by_key, or_zero,
  decoded, get_cache_entry, store_cache_entry, is_cacheable_path,
}
use sfpg_go.HttpCache.Headers.{
  hit_headers, get-hit_type, get-hit_control, get-hit_tag, get-hit_modified, get-hit_vary,
  get-set_header_self,
}
use sfpg_go.HttpCache.Middleware.{
  is_same_tag, has_cache_bypass_directive, is_cached_method, new_entry, Outcome, by_lookup,
  serve_hit, middleware,
}
use sfpg_go.HttpCache.Writer.{CacheConfig, CacheCapturingWriter, Call, cache_control, vary, x_cache}
use sfpg_go.HttpCache.Submitted.{captured, Submits, middleware-submitted}
use sfpg_go.HttpCache.Stored.{Shows, Found, upsert-Found, StoredAs, store_cache_entry-StoredAs}

-- What the client of a hit receives, against the handler's run.
pub record Replays (w : CacheCapturingWriter) (o : Outcome) : Type 0 where
  pub headers : List (Name × Str)
  pub sent : o.response.sent ≡ some (w.status_code, headers)
  pub content : o.response.out ≡ w.body
  pub is_hit : get x_cache headers ≡ codes "HIT"
  pub type_kept : get content_type headers ≡ get content_type w.response_writer.live
  pub control_kept : get cache_control headers ≡ get cache_control w.response_writer.live
  pub tag_kept : get e_tag headers ≡ get e_tag w.response_writer.live
  pub modified_kept : get last_modified headers ≡ get last_modified w.response_writer.live
  pub vary_kept : get vary headers ≡ get vary w.response_writer.live
  pub nothing_submitted : o.submitted ≡ none

-- The hit on a row, as the five headers, the status and the body of the run that filled it.
abbrev hit_of : CacheCapturingWriter → List (Name × Str)
hit_of w =
    let h = w.response_writer.live in
    hit_headers (get content_type h) (get cache_control h) (get e_tag h) (get last_modified h)
      (get vary h)

served_again :
    (cfg : CacheConfig) (now : ℤ) (r r' : Request) (w : CacheCapturingWriter) (row : HttpCacheEntry)
    (stored : List ℕ)
    → Shows (record (new_entry cfg now r w) { body = stored }) row
    → is_same_tag r'.if_none_match row.e_tag ≡ false
    → serve_hit (record row { body = w.body }) r' nothing_sent
      ≡ record { live = hit_of w; sent = some (w.status_code, hit_of w); out = w.body }
unfolding serve_hit new_entry
served_again cfg now r r' w row stored s fresh = rw (
  fresh, s.status, s.content_type_is, s.cache_control_is, s.e_tag_is, s.last_modified_is, s.vary_is,
)

-- A lookup finds a row and decodes its body.
lookup_decoded :
    (r : Registry) (key : Str) (now : ℤ) (rows : List HttpCacheEntry) (row : HttpCacheEntry) (n : ℕ)
    (plain : List ℕ)
    → get_http_cache_by_key key now rows ≡ some row
    → row.content_length ≡ some n
    → decode_for_serve row.body n r ≡ Bodies.ok plain
    → get_cache_entry true r key now rows ≡ ok (record row { body = plain })
unfolding get_cache_entry
lookup_decoded r key now rows row n plain f l d = rw f (decode f l d)
  where
    decode :
        get_http_cache_by_key key now rows ≡ some row
        → row.content_length ≡ some n
        → decode_for_serve row.body n r ≡ Bodies.ok plain
        → decoded r (some row) ≡ ok (record row { body = plain })
    decode f l d =
        ap
          (λ o.
            with_codec (decode_for_serve row.body (or_zero o) r)
              (λ p. ok (record row { body = p })))
          l
        ∙ ap (λ x. with_codec x (λ p. ok (record row { body = p }))) d

-- The middleware on a request that it looks up.
looked_up :
    (cfg : CacheConfig) (registry : Registry) (now : ℤ) (rows : List HttpCacheEntry)
    (next : Bool → List Call) (r : Request) (d : Direct) (x : Result HttpCacheEntry)
    → is_cached_method r.method ≡ true
    → is_cacheable_path cfg.cacheable_routes r.path ≡ true
    → has_cache_bypass_directive r.cache_control ≡ false
    → get_cache_entry true registry (new_cache_key (new_cache_key_for_request r)) now rows ≡ x
    → middleware cfg registry true now rows next r d ≡ by_lookup cfg now (next true) r d x
unfolding middleware
looked_up cfg registry now rows next r d x a b c e = rw (a, b, c, e)

-- A hit that answers as the run did is a replay of it.
answers-Replays :
    (cfg : CacheConfig) (now : ℤ) (calls : List Call) (r : Request) (w : CacheCapturingWriter)
    (row : HttpCacheEntry)
    → serve_hit row r nothing_sent
      ≡ record { live = hit_of w; sent = some (w.status_code, hit_of w); out = w.body }
    → Replays w (by_lookup cfg now calls r nothing_sent (ok row))
answers-Replays cfg now calls r w row e =
    let h = w.response_writer.live in
    let t = get content_type h in
    let c = get cache_control h in
    let g = get e_tag h in
    let l = get last_modified h in
    let v = get vary h in
    record {
      headers = hit_of w;
      sent = ap (λ (x : Direct). x.sent) e;
      content = ap (λ (x : Direct). x.out) e;
      is_hit = get-set_header_self x_cache (codes "HIT") _;
      type_kept = get-hit_type t c g l v;
      control_kept = get-hit_control t c g l v;
      tag_kept = get-hit_tag t c g l v;
      modified_kept = get-hit_modified t c g l v;
      vary_kept = get-hit_vary t c g l v;
      nothing_submitted = refl;
    }

module _ (codecs : List Codec) (registry : Registry) (codec_id : Str) (cfg : CacheConfig)
    (now later : ℤ) (t t' : HttpCacheTable) (r : Request) (w : CacheCapturingWriter) (tag : Str)
    (reg : register_defaults codecs new_registry ≡ Bodies.ok registry) (apart : IsDisjoint registry)
    (law : (c : Codec) → find codec_id registry.by_id ≡ some c → IsLawful c)
    (plain : match_magic w.body registry ≡ none) where
  abbrev again : Request
  again = record r { if_none_match = tag }

  -- The entry of a run is found by the request's key, whole.
  found_again :
      StoredAs registry codec_id (new_entry cfg now r w) t t'
      → is_live later (new_entry cfg now r w).expires_at ≡ true
      → is_same_tag tag (new_entry cfg now r w).e_tag ≡ false
      → (row : HttpCacheEntry) × (get_cache_entry true registry
            (new_cache_key (new_cache_key_for_request again))
            later
            t'.rows
          ≡ ok row)
        × (serve_hit row again nothing_sent
            ≡ record { live = hit_of w; sent = some (w.status_code, hit_of w); out = w.body })
  unfolding new_entry
  found_again st live fresh = (
    record row { body = w.body },
    lookup_decoded registry key later t'.rows row (length w.body) w.body f.found
        f.shows.content_length_is
        (subst (λ b. decode_for_serve b (length w.body) registry ≡ Bodies.ok w.body)
          (sym f.shows.body)
          (decode_for_serve-finalize_for_storage codecs registry codec_id w.body st.stored reg apart
            law plain st.encoded_as)),
    served_again cfg now r again w row st.stored f.shows
        (subst (λ o. is_same_tag tag o ≡ false) (sym f.shows.e_tag_is) fresh),
  )
    where
      key : Str
      key = new_cache_key (new_cache_key_for_request r)

      f : Found (record (new_entry cfg now r w) { body = st.stored }) key later t'.rows
      f =
          subst
            (λ (x : HttpCacheTable).
              Found (record (new_entry cfg now r w) { body = st.stored }) key later x.rows)
            st.inserted
            (upsert-Found (record (new_entry cfg now r w) { body = st.stored }) later t live)

      row : HttpCacheEntry
      row = f.row

-- Under codecs that restore what they compressed, where no bytes start like the output of two
-- of them: if the middleware submits an entry for a request, the body starts like no codec's
-- output, and the entry is stored, then the same request before the entry expires, with
-- another If-None-Match than the stored ETag, is a hit with the status and the body that the
-- handler wrote, with its Content-Type, Cache-Control, ETag, Last-Modified and Vary, and
-- nothing is submitted again.
pub middleware-replay :
    (codecs : List Codec) (registry : Registry) (codec_id : Str) (cfg : CacheConfig)
    (connects : Bool) (now later : ℤ) (t t' : HttpCacheTable) (next : Bool → List Call)
    (r : Request) (d : Direct) (e e' : HttpCacheEntry) (tag : Str)
    → register_defaults codecs new_registry ≡ Bodies.ok registry
    → IsDisjoint registry
    → ((c : Codec) → find codec_id registry.by_id ≡ some c → IsLawful c)
    → (middleware cfg registry connects now t.rows next r d).submitted ≡ some e
    → match_magic e.body registry ≡ none
    → store_cache_entry registry codec_id true e t ≡ ok (e', t')
    → is_live later e.expires_at ≡ true
    → is_same_tag tag e.e_tag ≡ false
    → Replays (captured next d) (
        middleware cfg registry true later t'.rows next
          (record r { if_none_match = tag })
          nothing_sent)
unfolding new_entry
middleware-replay codecs registry codec_id cfg connects now later t t' next r d e e' tag reg apart
      law sub plain put live fresh =
    let (row, found, served) =
      found_again codecs registry codec_id cfg now later t t' r (captured next d) tag reg apart law
        (subst (λ (x : HttpCacheEntry). match_magic x.body registry ≡ none) entry plain)
        (subst (λ x. StoredAs registry codec_id x t t') entry
          (store_cache_entry-StoredAs registry codec_id true e e' t t' put))
        (subst (λ (x : HttpCacheEntry). is_live later x.expires_at ≡ true) entry live)
        (subst (λ (x : HttpCacheEntry). is_same_tag tag x.e_tag ≡ false) entry fresh) in
    subst (Replays (captured next d))
      (sym (
        looked_up cfg registry later t'.rows next (record r { if_none_match = tag }) nothing_sent
          (ok row) s.is_cached s.is_cacheable s.no_bypass found))
      (answers-Replays cfg later (next true) (record r { if_none_match = tag }) (captured next d)
        row served)
  where
    s : Submits cfg now next r d e (middleware cfg registry connects now t.rows next r d)
    s = middleware-submitted cfg registry connects now t.rows next r d e sub

    entry : e ≡ new_entry cfg now r (captured next d)
    entry = sym s.entry
