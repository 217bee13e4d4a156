-- ===== src/HttpCache/Submitted.antt =====
-- internal/cachelite/http_cache_middleware.go: what the middleware submits.
use sfpg_go.Base.{◌≡◌, refl, Bool, true, false, not, List, [], ◌∷◌, some, length, if_split, arith}
use sfpg_go.Base.Int.{ℤ, pos, ◌≤ℤ◌, ltb_ℤ}
use sfpg_go.Base.Text.{Str, codes}
use sfpg_go.Conditional.{get, Direct}
use sfpg_go.HttpCache.Codec.{Registry}
use sfpg_go.HttpCache.Key.{is_empty, Request, new_cache_key, new_cache_key_for_request}
use sfpg_go.HttpCache.Table.{HttpCacheEntry, Result, ok, err, is_cacheable_path, get_cache_entry}
use sfpg_go.HttpCache.Size.{can_cache_response}
use sfpg_go.HttpCache.Middleware.{
  has_cache_bypass_directive, is_cached_method, is_stored_in_server_cache, new_entry, Outcome,
  set_x_cache, serve_miss, by_lookup, middleware,
}
use sfpg_go.HttpCache.Writer.{
  CacheConfig, CacheCapturingWriter, Call, get_cache_capturing_writer, capture, set_cookie,
  status_ok,
}

-- The handler's run on the capturing writer, on the way to a miss.
abbrev pub captured : (Bool → List Call) → Direct → CacheCapturingWriter
captured next d = capture (next true) (get_cache_capturing_writer (set_x_cache (codes "MISS") d))

-- Where an entry comes from.
pub record Submits (cfg : CacheConfig) (now : ℤ) (next : Bool → List Call) (r : Request)
    (d : Direct) (e : HttpCacheEntry) (o : Outcome) : Type 0 where
  pub is_cached : is_cached_method r.method ≡ true
  pub is_cacheable : is_cacheable_path cfg.cacheable_routes r.path ≡ true
  pub no_bypass : has_cache_bypass_directive r.cache_control ≡ false
  pub is_ok : (captured next d).status_code ≡ status_ok
  pub no_cookie : get set_cookie (captured next d).response_writer.live ≡ []
  pub fits : pos (length (captured next d).body) ≤ℤ cfg.max_entry_size
  pub entry : new_entry cfg now r (captured next d) ≡ e
  pub answered : o.response ≡ (captured next d).response_writer

negated_test : (b : Bool) → not b ≡ false → b ≡ true
negated_test b h = ground arith

not_below : (a b : ℤ) → ltb_ℤ a b ≡ false → b ≤ℤ a
not_below a b h = ground arith

is_empty-eq : (s : Str) → is_empty s ≡ true → s ≡ []
is_empty-eq [] h = refl
is_empty-eq (c ∷ cs) h = cc

stored_ok :
    (cfg : CacheConfig) (r : Request) (w : CacheCapturingWriter)
    → is_stored_in_server_cache cfg r w ≡ true
    → (w.status_code ≡ status_ok) × (get set_cookie w.response_writer.live ≡ [])
unfolding is_stored_in_server_cache can_cache_response
stored_ok cfg r w h =
    (ground arith, is_empty-eq (get set_cookie w.response_writer.live) (ground arith))

module _ (cfg : CacheConfig) (registry : Registry) (connects : Bool) (now : ℤ)
    (next : Bool → List Call) (r : Request) (d : Direct) (e : HttpCacheEntry) where
  -- A miss that submits an entry, on a request that got so far.
  record Missed (o : Outcome) : Type 0 where
    is_stored : is_stored_in_server_cache cfg r (captured next d) ≡ true
    small : pos (length (captured next d).body) ≤ℤ cfg.max_entry_size
    is_new : new_entry cfg now r (captured next d) ≡ e
    answers : o.response ≡ (captured next d).response_writer

  serve_miss-Missed :
      (serve_miss cfg now (next true) r d).submitted ≡ some e
      → Missed (serve_miss cfg now (next true) r d)
  unfolding serve_miss
  serve_miss-Missed =
      if_split (λ o. o.submitted ≡ some e → Missed o)
        (not (is_stored_in_server_cache cfg r (captured next d))) (λ _ h. cc)
        (λ stored.
          if_split (λ o. o.submitted ≡ some e → Missed o)
            (ltb_ℤ cfg.max_entry_size (pos (length (captured next d).body))) (λ _ h. cc)
            (λ small h. record {
              is_stored = negated_test _ stored;
              small = not_below cfg.max_entry_size (pos (length (captured next d).body)) small;
              is_new = cc;
              answers = refl;
            }))

  by_lookup-Missed :
      (x : Result HttpCacheEntry)
      → (by_lookup cfg now (next true) r d x).submitted ≡ some e
      → Missed (by_lookup cfg now (next true) r d x)
  by_lookup-Missed (ok f) h = cc
  by_lookup-Missed (err f) h = serve_miss-Missed h

  abbrev If : Outcome → Type 0
  If o = o.submitted ≡ some e → Submits cfg now next r d e o

  middleware-Submits :
      (rows : List HttpCacheEntry) → If (middleware cfg registry connects now rows next r d)
  unfolding middleware
  middleware-Submits rows =
      if_split If (not (is_cached_method r.method)) (λ _ h. cc)
        (λ get_head.
          if_split If (not (is_cacheable_path cfg.cacheable_routes r.path)) (λ _ h. cc)
            (λ route.
              if_split If (has_cache_bypass_directive r.cache_control) (λ _ h. cc)
                (λ open_case. submits get_head route open_case (
                  get_cache_entry connects registry (new_cache_key (new_cache_key_for_request r))
                    now rows))))
    where
      submits :
          not (is_cached_method r.method) ≡ false
          → not (is_cacheable_path cfg.cacheable_routes r.path) ≡ false
          → has_cache_bypass_directive r.cache_control ≡ false
          → (x : Result HttpCacheEntry) → If (by_lookup cfg now (next true) r d x)
      submits a b c x h =
          let m = by_lookup-Missed x h in
          let good = stored_ok cfg r (captured next d) m.is_stored in
          record {
            is_cached = negated_test _ a;
            is_cacheable = negated_test _ b;
            no_bypass = c;
            is_ok = good.0;
            no_cookie = good.1;
            fits = m.small;
            entry = m.is_new;
            answered = m.answers;
          }

-- If the middleware submits an entry, the request is a GET or HEAD of a cacheable path without
-- a bypass directive, the handler answered with status 200 and no Set-Cookie and a body of at
-- most MaxEntrySize bytes, the entry is the one of this request and answer, and the response
-- is what the handler wrote after X-Cache was set.
pub middleware-submitted :
    (cfg : CacheConfig) (registry : Registry) (connects : Bool) (now : ℤ)
    (rows : List HttpCacheEntry) (next : Bool → List Call) (r : Request) (d : Direct)
    (e : HttpCacheEntry)
    → (middleware cfg registry connects now rows next r d).submitted ≡ some e
    → Submits cfg now next r d e (middleware cfg registry connects now rows next r d)
middleware-submitted cfg registry connects now rows next r d e h =
    middleware-Submits cfg registry connects now next r d e rows h
