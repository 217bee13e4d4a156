-- ===== src/Conditional.antt =====
-- internal/server/conditional/match.go and internal/server/middleware/conditional.go. A handler is the
-- list of what it does to the response writer. A time of RFC 1123 is a number of seconds; its parser
-- is a parameter.
pub mod Etag
pub mod Trim
pub mod Etags
pub mod Transparent
pub mod NotModified
pub mod Tests
use sfpg_go.Base.{
  ℕ, ◌+◌, Bool, true, false, ◌&&◌, ◌||◌, not, List, [], ◌∷◌, ◌++◌, Option, none, some, ◌==◌,
  if◌then◌else◌,
}
use sfpg_go.Base.Int.{ℤ, pos, ◌+ℤ◌, ltb_ℤ}
use sfpg_go.Base.Text.{Str, same}
use sfpg_go.Conditional.Etag.{matches_etag}

-- The header names the code speaks of; `other` has the rest.
pub data Name : Type 0 where
  e_tag last_modified content_length content_type content_encoding content_range : Name
  other : Str → Name

abbrev pub same_name : Name → Name → Bool
same_name e_tag e_tag = true
same_name last_modified last_modified = true
same_name content_length content_length = true
same_name content_type content_type = true
same_name content_encoding content_encoding = true
same_name content_range content_range = true
same_name (other s) (other t) = same s t
same_name _ _ = false

-- A missing header reads as the empty string.
unfoldable pub get : Name → List (Name × Str) → Str
get n [] = []
get n ((m, v) ∷ h) = if same_name m n then v else get n h

unfoldable pub remove : Name → List (Name × Str) → List (Name × Str)
remove n [] = []
remove n ((m, v) ∷ h) = let rest = remove n h in if same_name m n then rest else (m, v) ∷ rest

unfoldable pub set_header : Name → Str → List (Name × Str) → List (Name × Str)
unfolding remove
set_header n v h = (n, v) ∷ remove n h

pub data Call : Type 0 where
  sets : Name → Str → Call
  writes_header : ℕ → Call
  writes : List ℕ → Call

pub record ConditionalResponseWriter : Type 0 where
  pub header : List (Name × Str)
  pub body : List ℕ
  pub status_code : ℕ
  pub wrote_header : Bool

pub record Response : Type 0 where
  pub status : ℕ
  pub headers : List (Name × Str)
  pub content : List ℕ

pub data Method : Type 0 where
  get_method head_method other_method : Method

pub record Request : Type 0 where
  pub method : Method
  pub if_none_match : Str
  pub if_modified_since : Str

abbrev pub status_ok : ℕ
status_ok = 200

abbrev pub status_not_modified : ℕ
status_not_modified = 304

unfoldable pub new_conditional_response_writer : ConditionalResponseWriter
new_conditional_response_writer = record {
  header = [];
  body = [];
  status_code = status_ok;
  wrote_header = false;
}

unfoldable pub write_header : ℕ → ConditionalResponseWriter → ConditionalResponseWriter
write_header code w =
    if w.wrote_header then w else record w { wrote_header = true; status_code = code }

unfoldable pub write : List ℕ → ConditionalResponseWriter → ConditionalResponseWriter
unfolding write_header
write p w =
    let w' = if not w.wrote_header then write_header status_ok w else w in
    record w' { body = w'.body ++ p }

unfoldable pub buffer : List Call → ConditionalResponseWriter → ConditionalResponseWriter
unfolding write set_header
buffer [] w = w
buffer (sets n v ∷ cs) w = buffer cs (record w { header = set_header n v w.header })
buffer (writes_header code ∷ cs) w = buffer cs (write_header code w)
buffer (writes p ∷ cs) w = buffer cs (write p w)

-- net/http's own writer: the headers are those at the first write.
pub record Direct : Type 0 where
  pub live : List (Name × Str)
  pub sent : Option (ℕ × List (Name × Str))
  pub out : List ℕ

abbrev pub send : ℕ → Direct → Direct
send code d = elim d.sent [ none ↦ record d { sent = some (code, d.live) } | some _ ↦ d ]

unfoldable pub serve : List Call → Direct → Direct
unfolding set_header
serve [] d = d
serve (sets n v ∷ cs) d = serve cs (record d { live = set_header n v d.live })
serve (writes_header code ∷ cs) d = serve cs (send code d)
serve (writes p ∷ cs) d = let d' = send status_ok d in serve cs (record d' { out = d'.out ++ p })

-- What the client of a GET receives.
unfoldable pub received : Direct → Response
received d = elim d.sent [
  | none ↦ record { status = status_ok; headers = d.live; content = d.out }
  | some (code, h) ↦ record { status = code; headers = h; content = d.out }
]

abbrev pub nothing_sent : Direct
nothing_sent = record { live = []; sent = none; out = [] }

abbrev pub is_empty : Str → Bool
is_empty [] = true
is_empty (c ∷ cs) = false

unfoldable pub matches_last_modified : ℤ → ℤ → Bool
matches_last_modified last_modified_at since = ltb_ℤ last_modified_at (since +ℤ pos 1)

abbrev pub both_times : Option ℤ → Option ℤ → Bool
both_times (some l) (some i) = matches_last_modified l i
both_times _ _ = false

-- A handler that wrote nothing has status 200.
abbrev pub settled : ConditionalResponseWriter → ConditionalResponseWriter
settled w = if not w.wrote_header then record w { status_code = status_ok } else w

abbrev pub is_content : Name → Bool
is_content content_length = true
is_content content_type = true
is_content content_encoding = true
is_content content_range = true
is_content _ = false

unfoldable pub without_content : List (Name × Str) → List (Name × Str)
without_content [] = []
without_content ((n, v) ∷ h) =
    let rest = without_content h in if is_content n then rest else (n, v) ∷ rest

unfoldable pub write_not_modified : ConditionalResponseWriter → Response
unfolding without_content
write_not_modified w = record {
  status = status_not_modified;
  headers = without_content w.header;
  content = [];
}

abbrev pub is_head : Method → Bool
is_head head_method = true
is_head _ = false

unfoldable pub write_normal : Request → ConditionalResponseWriter → Response
write_normal r w = record {
  status = w.status_code;
  headers = w.header;
  content = if is_head r.method then [] else w.body;
}

abbrev pub passes_through : Request → Bool
passes_through r = elim r.method [
  | get_method ↦ is_empty r.if_none_match && is_empty r.if_modified_since
  | head_method ↦ false
  | other_method ↦ true
]

module _ (parse_time : Str → Option ℤ) where
  -- The tests of `Finalize` on a response with status 200.
  unfoldable pub is_not_modified : Request → ConditionalResponseWriter → Bool
  unfolding matches_last_modified get
  is_not_modified r w =
      (not (is_empty r.if_none_match)
        && not (is_empty (get e_tag w.header))
        && matches_etag r.if_none_match (get e_tag w.header))
      || (not (is_empty r.if_modified_since)
          && not (is_empty (get last_modified w.header))
          && both_times (parse_time (get last_modified w.header)) (parse_time r.if_modified_since))

  unfoldable pub finalize : Request → ConditionalResponseWriter → Response
  unfolding is_not_modified write_not_modified write_normal
  finalize r w =
      let w' = settled w in
      if (w'.status_code == status_ok) && is_not_modified r w'
      then write_not_modified w'
      else write_normal r w'

  unfoldable pub conditional_middleware : List Call → Request → Response
  unfolding serve received buffer finalize new_conditional_response_writer
  conditional_middleware handler r =
      if passes_through r
      then received (serve handler nothing_sent)
      else finalize r (buffer handler new_conditional_response_writer)
