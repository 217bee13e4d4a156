-- ===== src/HttpCache/Writer.antt =====
-- internal/cachelite/http_cache_middleware.go and pool.go: the writer that captures what a handler writes.
use sfpg_go.Base.{ℕ, Bool, true, false, List, [], ◌∷◌, ◌++◌, if◌then◌else◌}
use sfpg_go.Base.Int.{ℤ}
use sfpg_go.Base.Text.{Str, codes}
use sfpg_go.Conditional.{Name, other, set_header, Direct, send}

pub record CacheConfig : Type 0 where
  pub max_entry_size : ℤ
  pub default_ttl : ℤ
  pub cacheable_routes : List Str
  pub has_on_gallery_cache_hit : Bool
  pub session_cookie_name : Str
  pub skip_preload_when_header : Str
  pub skip_preload_when_value : Str

abbrev pub cache_control : Name
cache_control = other (codes "Cache-Control")

abbrev pub set_cookie : Name
set_cookie = other (codes "Set-Cookie")

abbrev pub vary : Name
vary = other (codes "Vary")

abbrev pub x_cache : Name
x_cache = other (codes "X-Cache")

abbrev pub status_ok : ℕ
status_ok = 200

abbrev pub status_not_modified : ℕ
status_not_modified = 304

-- The last three are offered by the capturing writer only: CaptureBodyWriter's Write,
-- CommitCapturedBody and ResetCapturedBody.
pub data Call : Type 0 where
  sets : Name → Str → Call
  writes_header : ℕ → Call
  writes captures : List ℕ → Call
  commits resets : Call

pub record CacheCapturingWriter : Type 0 where
  pub response_writer : Direct
  pub body : List ℕ
  pub status_code : ℕ
  pub wrote_header : Bool

-- A writer from the pool has been reset.
unfoldable pub get_cache_capturing_writer : Direct → CacheCapturingWriter
get_cache_capturing_writer d = record {
  response_writer = d;
  body = [];
  status_code = 0;
  wrote_header = false;
}

abbrev pub write_direct : List ℕ → Direct → Direct
write_direct p d = let d' = send status_ok d in record d' { out = d'.out ++ p }

unfoldable pub write_header : ℕ → CacheCapturingWriter → CacheCapturingWriter
write_header code w = if w.wrote_header then w else record w {
  status_code = code;
  wrote_header = true;
  response_writer = send code w.response_writer;
}

unfoldable pub write : List ℕ → CacheCapturingWriter → CacheCapturingWriter
unfolding write_header
write p w =
    let w' = write_header status_ok w in
    record w' { body = w'.body ++ p; response_writer = write_direct p w'.response_writer }

unfoldable pub commit_captured_body : CacheCapturingWriter → CacheCapturingWriter
unfolding write_header
commit_captured_body w =
    let w' = write_header status_ok w in
    record w' { response_writer = write_direct w'.body w'.response_writer }

unfoldable pub capture : List Call → CacheCapturingWriter → CacheCapturingWriter
unfolding write commit_captured_body set_header
capture [] w = w
capture (sets n v ∷ cs) w =
    let d = w.response_writer in
    capture cs (record w { response_writer = record d { live = set_header n v d.live } })
capture (writes_header code ∷ cs) w = capture cs (write_header code w)
capture (writes p ∷ cs) w = capture cs (write p w)
capture (captures p ∷ cs) w = capture cs (record w { body = w.body ++ p })
capture (commits ∷ cs) w = capture cs (commit_captured_body w)
capture (resets ∷ cs) w = capture cs (record w { body = [] })

-- The handler on the writer of net/http, which has none of the last three.
unfoldable pub serve_direct : List Call → Direct → Direct
unfolding set_header
serve_direct [] d = d
serve_direct (sets n v ∷ cs) d = serve_direct cs (record d { live = set_header n v d.live })
serve_direct (writes_header code ∷ cs) d = serve_direct cs (send code d)
serve_direct (writes p ∷ cs) d = serve_direct cs (write_direct p d)
serve_direct (c ∷ cs) d = serve_direct cs d
