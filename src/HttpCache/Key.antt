-- ===== src/HttpCache/Key.antt =====
-- internal/cachelite/key.go: the key of a response. A query string is its list of bytes; url.ParseQuery
-- and url.QueryEscape are written out.
use sfpg_go.Base.{
  ℕ, ◌+◌, ◌-◌, ◌*◌, ◌/◌, ◌%◌, Bool, true, false, ◌&&◌, ◌||◌, not, List, [], ◌∷◌, ◌++◌, Option, none,
  some, ltb, leb, ◌==◌, if◌then◌else◌,
}
use sfpg_go.Base.Text.{Str, same, codes, has_prefix, contains, split_at, cut}

abbrev pub is_empty : Str → Bool
is_empty [] = true
is_empty (c ∷ cs) = false

abbrev pub cache_key_format_version : ℕ
cache_key_format_version = 4

pub record CacheKeyParams : Type 0 where
  pub method : Str
  pub path : Str
  pub query : Str
  pub variant : Str

pub data CacheRouteKind : Type 0 where
  cache_route_gallery cache_route_lightbox cache_route_info cache_route_other : CacheRouteKind

abbrev pub gallery_prefix : Str
gallery_prefix = codes "/gallery/"

unfoldable pub cache_route_kind_for_path : Str → CacheRouteKind
unfolding has_prefix
cache_route_kind_for_path path =
    if has_prefix path gallery_prefix
    then cache_route_gallery
    else if has_prefix path (codes "/lightbox/")
    then cache_route_lightbox
    else if has_prefix path (codes "/info/")
    then cache_route_info
    else cache_route_other

abbrev pub is_other : CacheRouteKind → Bool
is_other cache_route_other = true
is_other _ = false

unfoldable pub cache_key_uses_v_query_only : Str → Bool
unfolding cache_route_kind_for_path
cache_key_uses_v_query_only path = not (is_other (cache_route_kind_for_path path))

-- The value of a hexadecimal digit.
unfoldable pub unhex : ℕ → Option ℕ
unhex c =
    if leb b'0' c && leb c b'9'
    then some (c - b'0')
    else if leb b'a' c && leb c b'f'
    then some (c - b'a' + 10)
    else if leb b'A' c && leb c b'F'
    then some (c - b'A' + 10)
    else none

abbrev pub cons? : Option ℕ → Option Str → Option Str
cons? (some c) (some s) = some (c ∷ s)
cons? _ _ = none

abbrev pub hex_pair : Option ℕ → Option ℕ → Option ℕ
hex_pair (some a) (some b) = some (a * 16 + b)
hex_pair _ _ = none

-- url.QueryUnescape.
unfoldable pub query_unescape : Str → Option Str
unfolding unhex
query_unescape [] = some []
query_unescape (c ∷ []) =
    if c == b'%' then none else if c == b'+' then some (b' ' ∷ []) else some (c ∷ [])
query_unescape (c ∷ d ∷ []) =
    let rest = query_unescape (d ∷ []) in
    if c == b'%' then none else cons? (some (if c == b'+' then b' ' else c)) rest
query_unescape (c ∷ d ∷ e ∷ s) =
    let rest = query_unescape (d ∷ e ∷ s) in
    let after = query_unescape s in
    if c == b'%'
    then cons? (hex_pair (unhex d) (unhex e)) after
    else cons? (some (if c == b'+' then b' ' else c)) rest

abbrev pub is_unreserved : ℕ → Bool
is_unreserved c =
    (leb b'a' c && leb c b'z')
    || (leb b'A' c && leb c b'Z')
    || (leb b'0' c && leb c b'9')
    || (c == b'-')
    || (c == b'_')
    || (c == b'.')
    || (c == b'~')

abbrev pub hex_digit : ℕ → ℕ
hex_digit n = if ltb n 10 then n + b'0' else n - 10 + b'A'

abbrev pub escape_byte : ℕ → Str → Str
escape_byte c rest =
    if c == b' '
    then b'+' ∷ rest
    else if is_unreserved c
    then c ∷ rest
    else b'%' ∷ hex_digit (c / 16) ∷ hex_digit (c % 16) ∷ rest

-- url.QueryEscape.
unfoldable pub query_escape : Str → Str
query_escape [] = []
query_escape (c ∷ cs) = escape_byte c (query_escape cs)

abbrev pub pair : Option Str → Option Str → Option (Str × Str)
pair (some k) (some v) = some (k, v)
pair _ _ = none

abbrev pub or_empty : Option Str → Str
or_empty none = []
or_empty (some s) = s

-- One setting of a query; an empty one is passed over.
unfoldable pub parse_setting : Str → Option (Str × Str)
unfolding query_unescape cut
parse_setting s =
    let (key, value) = cut b'=' s in pair (query_unescape key) (query_unescape (or_empty value))

abbrev pub join : Option (Str × Str) → Option (List (Str × Str)) → Option (List (Str × Str))
join (some p) (some ps) = some (p ∷ ps)
join _ _ = none

unfoldable pub parse_settings : List Str → Option (List (Str × Str))
unfolding parse_setting contains
parse_settings [] = some []
parse_settings (s ∷ ss) =
    let rest = parse_settings ss in
    if contains s (b';' ∷ [])
    then none
    else if is_empty s
    then rest
    else join (parse_setting s) rest

-- url.ParseQuery; `none` is an error, whatever else was parsed.
unfoldable pub parse_query : Str → Option (List (Str × Str))
unfolding parse_settings split_at
parse_query query = parse_settings (split_at b'&' query)

-- Values.Get.
unfoldable pub values_get : Str → List (Str × Str) → Str
values_get k [] = []
values_get k ((j, v) ∷ m) = if same j k then v else values_get k m

abbrev pub v_only : Option (List (Str × Str)) → Str
v_only none = []
v_only (some values) =
    let v = values_get (codes "v") values in if is_empty v then [] else codes "v=" ++ query_escape v

unfoldable pub normalize_cache_query : Str → Str → Str
unfolding cache_key_uses_v_query_only parse_query values_get query_escape
normalize_cache_query path raw_query =
    if not (cache_key_uses_v_query_only path)
    then raw_query
    else if is_empty raw_query
    then []
    else v_only (parse_query raw_query)

abbrev pub gallery_content : Str
gallery_content = codes "gallery-content"

abbrev pub full : Str
full = codes "full"

abbrev pub variant_of : CacheRouteKind → Bool → Str
variant_of cache_route_gallery content = if content then gallery_content else full
variant_of cache_route_info content = codes "box_info"
variant_of cache_route_lightbox content = codes "lightbox-ui"
variant_of cache_route_other content = full

unfoldable pub normalized_variant : Str → Str → Str → Str
unfolding cache_route_kind_for_path same
normalized_variant path hx_request hx_target =
    variant_of (cache_route_kind_for_path path)
      (same hx_request (codes "true") && same hx_target gallery_content)

unfoldable pub preload_variant_for_path : Str → Str
unfolding cache_route_kind_for_path
preload_variant_for_path path = variant_of (cache_route_kind_for_path path) true

unfoldable pub new_cache_key : CacheKeyParams → Str
new_cache_key p =
    p.method
    ++ (b':'
        ∷ (p.path
            ++ (b'?'
                ∷ (p.query
                    ++ (if is_empty p.variant then [] else codes "|Variant=" ++ p.variant)))))

-- What the cache reads of a request; a missing header is the empty string. `cookie` is the value of the
-- session cookie, and `cache_control` the values of Cache-Control.
pub record Request : Type 0 where
  pub method : Str
  pub path : Str
  pub raw_query : Str
  pub hx_request : Str
  pub hx_target : Str
  pub if_none_match : Str
  pub cache_control : List Str
  pub skip_preload : Str
  pub cookie : Option Str
  pub remote_addr : Str

unfoldable pub new_cache_key_for_request : Request → CacheKeyParams
unfolding normalized_variant normalize_cache_query
new_cache_key_for_request r =
    let htmx = if is_empty r.hx_request then codes "false" else r.hx_request in
    record {
      method = r.method;
      path = r.path;
      query = normalize_cache_query r.path r.raw_query;
      variant = normalized_variant r.path htmx r.hx_target;
    }

unfoldable pub new_cache_key_for_preload : Str → Str → Str → CacheKeyParams
unfolding normalize_cache_query
new_cache_key_for_preload path query variant = record {
  method = codes "GET";
  path = path;
  query = normalize_cache_query path query;
  variant = variant;
}
