-- ===== src/HttpCache/Codec.antt =====
-- internal/cachelite/bodycodec/registry.go and internal/cachelite/body_storage.go: the codecs of stored
-- bodies. A codec is a record of functions; gzip and zstd themselves are parameters. A body is its list
-- of bytes.
use sfpg_go.Base.{
  ℕ, Bool, true, false, ◌&&◌, ◌||◌, not, List, [], ◌∷◌, ◌++◌, Option, none, some, length, ltb, leb,
  ◌==◌, if◌then◌else◌,
}
use sfpg_go.Base.Text.{Str, same}

-- `none` is an error of the codec.
pub record Codec : Type 0 where
  pub id : Str
  pub magic : List (List ℕ)
  pub compress : List ℕ → Option (List ℕ)
  pub decompress : List ℕ → ℕ → Option (List ℕ)

pub data Error : Type 0 where
  unrecognized_cache_body nil_codec no_magic empty_magic duplicate_magic duplicate_id : Error
  unknown_codec_id codec_failed : Error

pub data Result (A : Type 0) : Type 0 where
  ok : A → Result A
  err : Error → Result A

abbrev pub bind : {A B : Type 0} → Result A → (A → Result B) → Result B
bind (ok a) f = f a
bind (err e) f = err e

-- A map from identifiers to codecs, newest first, and the magic prefixes, longest first.
pub record Registry : Type 0 where
  pub by_id : List (Str × Codec)
  pub entries : List (List ℕ × Codec)
  pub max_magic : ℕ

abbrev pub new_registry : Registry
new_registry = record { by_id = []; entries = []; max_magic = 0 }

unfoldable pub find : Str → List (Str × Codec) → Option Codec
find id [] = none
find id ((k, c) ∷ m) = if same k id then some c else find id m

-- Equality of byte slices.
unfoldable pub prefixes_match : List ℕ → List ℕ → Bool
unfolding same
prefixes_match a b = (length a == length b) && same a b

unfoldable pub is_registered : List ℕ → List (List ℕ × Codec) → Bool
unfolding prefixes_match
is_registered m [] = false
is_registered m ((p, c) ∷ es) = prefixes_match p m || is_registered m es

unfoldable pub any_registered : List (List ℕ) → List (List ℕ × Codec) → Bool
unfolding is_registered
any_registered [] es = false
any_registered (m ∷ ms) es = is_registered m es || any_registered ms es

abbrev pub is_nil : List ℕ → Bool
is_nil [] = true
is_nil (b ∷ bs) = false

unfoldable pub any_nil : List (List ℕ) → Bool
any_nil [] = false
any_nil (m ∷ ms) = is_nil m || any_nil ms

abbrev pub has_none : List (List ℕ) → Bool
has_none [] = true
has_none (m ∷ ms) = false

unfoldable pub longest : ℕ → List (List ℕ) → ℕ
longest n [] = n
longest n (m ∷ ms) = longest (if ltb n (length m) then length m else n) ms

-- sort.SliceStable by descending length of the prefix.
unfoldable pub insert_entry : List ℕ × Codec → List (List ℕ × Codec) → List (List ℕ × Codec)
insert_entry (m, c) [] = (m, c) ∷ []
insert_entry (m, c) ((p, d) ∷ es) =
    if ltb (length m) (length p) then (p, d) ∷ insert_entry (m, c) es else (m, c) ∷ (p, d) ∷ es

unfoldable pub sort_entries : List (List ℕ × Codec) → List (List ℕ × Codec)
unfolding insert_entry
sort_entries [] = []
sort_entries (e ∷ es) = insert_entry e (sort_entries es)

unfoldable pub entries_of : Codec → List (List ℕ) → List (List ℕ × Codec)
entries_of c [] = []
entries_of c (m ∷ ms) = (m, c) ∷ entries_of c ms

abbrev pub add_codec : Codec → Registry → Registry
add_codec c r = record {
  by_id = (c.id, c) ∷ r.by_id;
  entries = sort_entries (r.entries ++ entries_of c c.magic);
  max_magic = longest r.max_magic c.magic;
}

abbrev pub add_new : Codec → Registry → Option Codec → Result Registry
add_new c r (some d) = err duplicate_id
add_new c r none =
    if any_registered c.magic r.entries then err duplicate_magic else ok (add_codec c r)

-- `none` is a nil codec.
unfoldable pub register : Option Codec → Registry → Result Registry
unfolding find any_registered any_nil longest sort_entries entries_of
register none r = err nil_codec
register (some c) r =
    if has_none c.magic
    then err no_magic
    else if any_nil c.magic
    then err empty_magic
    else add_new c r (find c.id r.by_id)

-- The calls of Register of registerDefaults, which stop at the first error.
unfoldable pub register_defaults : List Codec → Registry → Result Registry
unfolding register
register_defaults [] r = ok r
register_defaults (c ∷ cs) r = bind (register (some c) r) (register_defaults cs)

abbrev pub known : Option Codec → Result Codec
known (some c) = ok c
known none = err unknown_codec_id

unfoldable pub lookup : Str → Registry → Result Codec
unfolding find
lookup id r = known (find id r.by_id)

-- Reads only as far as the prefix goes; the caller has checked the length.
unfoldable pub head_matches : List ℕ → List ℕ → Bool
head_matches head [] = true
head_matches [] (b ∷ prefix) = false
head_matches (a ∷ head) (b ∷ prefix) = (a == b) && head_matches head prefix

unfoldable pub match_entries : List ℕ → List (List ℕ × Codec) → Option Codec
unfolding head_matches
match_entries head [] = none
match_entries head ((prefix, c) ∷ es) =
    if ltb (length head) (length prefix)
    then match_entries head es
    else if head_matches head prefix
    then some c
    else match_entries head es

unfoldable pub match_magic : List ℕ → Registry → Option Codec
unfolding match_entries
match_magic head r = match_entries head r.entries

abbrev pub min_compress_bytes : ℕ
min_compress_bytes = 256

abbrev pub identity : Str
identity = b'i' ∷ b'd' ∷ b'e' ∷ b'n' ∷ b't' ∷ b'i' ∷ b't' ∷ b'y' ∷ []

-- The guard against a compressed body that is not shorter.
abbrev pub shorter : List ℕ → Option (List ℕ) → Result (List ℕ)
shorter src none = err codec_failed
shorter src (some compressed) =
    if leb (length src) (length compressed) then ok src else ok compressed

unfoldable pub encode_with : Str → List ℕ → Registry → Result (List ℕ)
unfolding lookup
encode_with write_codec_id src r =
    if same write_codec_id identity
    then ok src
    else if ltb (length src) min_compress_bytes
    then ok src
    else bind (lookup write_codec_id r) (λ c. shorter src (c.compress src))

abbrev pub checked : ℕ → Option (List ℕ) → Result (List ℕ)
checked n none = err codec_failed
checked n (some plain) =
    if ltb 0 n && not (length plain == n) then err unrecognized_cache_body else ok plain

abbrev pub served : List ℕ → ℕ → Option Codec → Result (List ℕ)
served stored n (some c) = checked n (c.decompress stored n)
served stored n none = if length stored == n then ok stored else err unrecognized_cache_body

unfoldable pub decode_for_serve : List ℕ → ℕ → Registry → Result (List ℕ)
unfolding match_magic
decode_for_serve stored uncompressed_len r = served stored uncompressed_len (match_magic stored r)

abbrev pub encoded : Str → List ℕ → Registry → Option Codec → Result (List ℕ)
encoded id body r (some c) = ok body
encoded id body r none = encode_with id body r

-- The body that FinalizeForStorage leaves in the entry.
unfoldable pub finalize_for_storage : Str → List ℕ → Registry → Result (List ℕ)
unfolding match_magic encode_with
finalize_for_storage id body r =
    if is_nil body then ok body else encoded id body r (match_magic body r)

abbrev pub default_codec_id : Str
default_codec_id = b'z' ∷ b's' ∷ b't' ∷ b'd' ∷ b'-' ∷ b'1' ∷ []

abbrev configured : Str → Result Codec → Result Str
configured id (ok c) = ok id
configured id (err e) = err e

-- The identifier that ConfigureBodyCodec stores; on an error the old one stays.
unfoldable pub configure_body_codec : Str → Registry → Result Str
unfolding lookup
configure_body_codec write_codec_id r =
    let id = if is_nil write_codec_id then default_codec_id else write_codec_id in
    if same id identity then ok id else configured id (lookup id r)

unfoldable pub validate_write_codec_id : Str → Registry → Result Str
unfolding lookup
validate_write_codec_id id r =
    if is_nil id || same id identity then ok id else configured id (lookup id r)
