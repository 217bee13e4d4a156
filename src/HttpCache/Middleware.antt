-- ===== src/HttpCache/Middleware.antt =====
-- internal/cachelite/http_cache_middleware.go and internal/cachelite/pool.go: the middleware in front of a
-- handler. A handler is the list of what it does to the writer that it is given. The client's connection
-- is the writer of net/http; an entry that is submitted is the outcome's, as are the arguments of a
-- preload.
use sfpg_go.Base.{
  ℕ, zero, suc, ◌+◌, ◌-◌, ◌*◌, ◌/◌, Bool, true, false, ◌&&◌, ◌||◌, not, List, [], ◌∷◌, Option, none,
  some, length, drop, leb, ◌==◌, if◌then◌else◌,
}
use sfpg_go.Base.Int.{ℤ, pos, negsuc, pos_part, ◌+ℤ◌, ltb_ℤ}
use sfpg_go.Base.Text.{Str, same, codes, has_prefix, contains, split_at, cut, to_lower, trim_space}
use sfpg_go.Conditional.{Name, e_tag, last_modified, content_type, get, set_header, Direct, send}
use sfpg_go.HttpCache.Codec.{Registry}
use sfpg_go.HttpCache.Key.{
  is_empty, gallery_prefix, Request, new_cache_key, new_cache_key_for_request,
}
use sfpg_go.HttpCache.Table.{HttpCacheEntry, Result, ok, err, is_cacheable_path, get_cache_entry}
use sfpg_go.HttpCache.Size.{can_cache_response}
use sfpg_go.HttpCache.Writer.{
  CacheConfig, cache_control, set_cookie, vary, x_cache, status_not_modified, Call,
  CacheCapturingWriter, get_cache_capturing_writer, write_direct, capture, serve_direct,
}

abbrev pub or_empty : Option Str → Str
or_empty none = []
or_empty (some s) = s

abbrev is_zero_age : Str × Option Str → Bool
is_zero_age (k, none) = false
is_zero_age (k, some v) = same (trim_space k) (codes "max-age") && same (trim_space v) (codes "0")

unfoldable pub is_bypass : Str → Bool
unfolding to_lower trim_space has_prefix cut same
is_bypass part =
    let directive = to_lower (trim_space part) in
    same directive (codes "no-cache")
    || same directive (codes "no-store")
    || has_prefix directive (codes "no-cache=")
    || (has_prefix directive (codes "max-age") && is_zero_age (cut b'=' directive))

unfoldable pub any_bypass : List Str → Bool
unfolding is_bypass
any_bypass [] = false
any_bypass (p ∷ ps) = is_bypass p || any_bypass ps

unfoldable pub has_cache_bypass_directive : List Str → Bool
unfolding any_bypass split_at
has_cache_bypass_directive [] = false
has_cache_bypass_directive (cc ∷ ccs) =
    any_bypass (split_at b',' cc) || has_cache_bypass_directive ccs

unfoldable pub digits : ℕ → Str → Option ℕ
digits n [] = some n
digits n (c ∷ cs) =
    let rest = digits (n * 10 + (c - b'0')) cs in if leb b'0' c && leb c b'9' then rest else none

abbrev pub in_range : ℕ → (ℕ → ℤ) → Option ℕ → Option ℤ
in_range most f none = none
in_range most f (some n) = if leb n most then some (f n) else none

abbrev pub negated : ℕ → ℤ
negated zero = pos 0
negated (suc n) = negsuc n

abbrev pub some_digits : Str → Option ℕ
some_digits [] = none
some_digits (c ∷ cs) = digits 0 (c ∷ cs)

-- strconv.ParseInt in base 10 to 64 bits.
unfoldable pub parse_int : Str → Option ℤ
unfolding digits
parse_int [] = none
parse_int (c ∷ cs) =
    if c == b'-'
    then in_range 9223372036854775808 negated (some_digits cs)
    else if c == b'+'
    then in_range 9223372036854775807 pos (some_digits cs)
    else in_range 9223372036854775807 pos (some_digits (c ∷ cs))

unfoldable pub parse_gallery_folder_id : Str → Option ℤ
unfolding parse_int has_prefix cut
parse_gallery_folder_id path =
    if not (has_prefix path gallery_prefix) then none else parse_int (cut b'/' (drop 9 path)).0

abbrev pub or_address : Str → Option Str → Str
or_address address none = address
or_address address (some v) = if is_empty v then address else v

unfoldable pub get_session_id_for_preload : CacheConfig → Request → Str
get_session_id_for_preload cfg r =
    if not (is_empty cfg.session_cookie_name)
    then or_address r.remote_addr r.cookie
    else r.remote_addr

abbrev pub with_session : Str → Option ℤ → Option (ℤ × Str)
with_session s none = none
with_session s (some id) = some (id, s)

-- The arguments of the callback, if it is called.
unfoldable pub maybe_trigger_gallery_preload : CacheConfig → Request → Option (ℤ × Str)
unfolding parse_gallery_folder_id get_session_id_for_preload same
maybe_trigger_gallery_preload cfg r =
    if not cfg.has_on_gallery_cache_hit
    then none
    else if not (is_empty cfg.skip_preload_when_header)
        && not (is_empty cfg.skip_preload_when_value)
        && same r.skip_preload cfg.skip_preload_when_value
    then none
    else with_session (get_session_id_for_preload cfg r) (parse_gallery_folder_id r.path)

abbrev pub set_valid : Name → Option Str → List (Name × Str) → List (Name × Str)
set_valid n none h = h
set_valid n (some v) h = set_header n v h

-- The headers that both forms of a hit send.
unfoldable pub validators : HttpCacheEntry → List (Name × Str) → List (Name × Str)
unfolding set_header
validators e h = set_header x_cache (codes "HIT") (
    set_valid vary e.vary (
      set_valid last_modified e.last_modified
        (set_valid e_tag e.e_tag (set_valid cache_control e.cache_control h))))

abbrev pub is_same_tag : Str → Option Str → Bool
is_same_tag t none = false
is_same_tag t (some v) = same t v

unfoldable pub serve_hit : HttpCacheEntry → Request → Direct → Direct
unfolding validators same
serve_hit e r d =
    if is_same_tag r.if_none_match e.e_tag
    then send status_not_modified (record d { live = validators e d.live })
    else write_direct e.body (
        send e.status
          (record d { live = validators e (set_valid content_type e.content_type d.live) }))

unfoldable pub is_stored_in_server_cache : CacheConfig → Request → CacheCapturingWriter → Bool
unfolding can_cache_response contains is_cacheable_path get
is_stored_in_server_cache cfg r w =
    let h = w.response_writer.live in
    can_cache_response w.status_code (get cache_control h) (get set_cookie h)
    || ((w.status_code == 200)
        && contains (get cache_control h) (codes "no-store")
        && is_cacheable_path cfg.cacheable_routes r.path
        && is_empty (get set_cookie h))

abbrev pub null_string : Str → Option Str
null_string s = if is_empty s then none else some s

-- A duration is a number of nanoseconds.
abbrev pub expires_at : ℤ → ℤ → Option ℤ
expires_at ttl now =
    if ltb_ℤ (pos 0) ttl then some (now +ℤ pos (pos_part ttl / 1000000000)) else none

unfoldable pub new_entry : CacheConfig → ℤ → Request → CacheCapturingWriter → HttpCacheEntry
unfolding new_cache_key new_cache_key_for_request get
new_entry cfg now r w =
    let h = w.response_writer.live in
    let params = new_cache_key_for_request r in
    record {
      id = 0;
      key = new_cache_key params;
      method = r.method;
      path = r.path;
      query_string = null_string params.query;
      status = w.status_code;
      content_type = null_string (get content_type h);
      cache_control = null_string (get cache_control h);
      e_tag = null_string (get e_tag h);
      last_modified = null_string (get last_modified h);
      vary = null_string (get vary h);
      body = w.body;
      content_length = some (length w.body);
      created_at = now;
      expires_at = expires_at cfg.default_ttl now;
    }

pub record Outcome : Type 0 where
  pub response : Direct
  pub submitted : Option HttpCacheEntry
  pub preload : Option (ℤ × Str)

abbrev pub passed : Direct → Outcome
passed d = record { response = d; submitted = none; preload = none }

abbrev pub set_x_cache : Str → Direct → Direct
set_x_cache v d = record d { live = set_header x_cache v d.live }

unfoldable pub serve_miss : CacheConfig → ℤ → List Call → Request → Direct → Outcome
unfolding capture get_cache_capturing_writer is_stored_in_server_cache new_entry
serve_miss cfg now calls r d =
    let w = capture calls (get_cache_capturing_writer (set_x_cache (codes "MISS") d)) in
    if not (is_stored_in_server_cache cfg r w)
    then passed w.response_writer
    else if ltb_ℤ cfg.max_entry_size (pos (length w.body))
    then passed w.response_writer
    else record {
      response = w.response_writer;
      submitted = some (new_entry cfg now r w);
      preload = none;
    }

abbrev pub by_lookup :
    CacheConfig → ℤ → List Call → Request → Direct → Result HttpCacheEntry → Outcome
by_lookup cfg now calls r d (ok e) = record {
  response = serve_hit e r d;
  submitted = none;
  preload = maybe_trigger_gallery_preload cfg r;
}
by_lookup cfg now calls r d (err x) = serve_miss cfg now calls r d

abbrev pub is_cached_method : Str → Bool
is_cached_method m = same m (codes "GET") || same m (codes "HEAD")

-- `next` is the handler, told whether its writer captures; `rows` is the table.
unfoldable pub middleware :
    CacheConfig
    → Registry
    → Bool
    → ℤ
    → List HttpCacheEntry
    → (Bool → List Call)
    → Request
    → Direct
    → Outcome
unfolding serve_direct serve_hit serve_miss maybe_trigger_gallery_preload has_cache_bypass_directive
    get_cache_entry same
middleware cfg registry connects now rows next r d =
    if not (is_cached_method r.method)
    then passed (serve_direct (next false) d)
    else if not (is_cacheable_path cfg.cacheable_routes r.path)
    then passed (serve_direct (next false) d)
    else if has_cache_bypass_directive r.cache_control
    then passed (serve_direct (next false) (set_x_cache (codes "BYPASS") d))
    else by_lookup cfg now (next true) r d
        (get_cache_entry connects registry (new_cache_key (new_cache_key_for_request r)) now rows)
