-- ===== src/HttpCache/Tests.antt =====
-- internal/cachelite on concrete requests, with a codec that shortens a run of four bytes.
use sfpg_go.Base.{
  ℕ, ◌≡◌, ◌↔◌, ◌≢◌, ◌⊎◌, inl, inr, refl, sym, ap, ◌∙◌, subst, Bool, true, false, ◌&&◌, List, [],
  ◌∷◌, ◌++◌, Option, none, some, length, drop, replicate, ◌==◌, ==_iff, if◌then◌else◌, if_split,
  Bool-cases, arith,
}
use sfpg_go.Base.Int.{pos, ◌+ℤ◌, ◌-ℤ◌}
use sfpg_go.Base.Text.{Str, same, codes, has_prefix}
use sfpg_go.Conditional.{content_type, e_tag, nothing_sent}
use sfpg_go.HttpCache.Codec as Bodies
use sfpg_go.HttpCache.Codec.{
  Codec, Registry, find, head_matches, register_defaults, new_registry, match_magic,
  finalize_for_storage, decode_for_serve, configure_body_codec, unknown_codec_id, entries_of,
  sort_entries, longest, any_registered, any_nil,
}
use sfpg_go.HttpCache.Codecs.{marked}
use sfpg_go.HttpCache.RoundTrip.{IsLawful, IsDisjoint, decode_for_serve-finalize_for_storage}
use sfpg_go.HttpCache.Key.{
  Request, cache_route_kind_for_path, cache_route_gallery, gallery_content, new_cache_key,
  new_cache_key_for_request, new_cache_key_for_preload, preload_variant_for_path,
}
use sfpg_go.HttpCache.Keys.{IsFolderClick, preload_key-request_key}
use sfpg_go.HttpCache.Table.{HttpCacheEntry, HttpCacheTable, store_cache_entry}
use sfpg_go.HttpCache.Size.{EvictEnv, evict_lru}
use sfpg_go.HttpCache.Batch.{Cache, commit_batch, flush_cache_entries}
use sfpg_go.HttpCache.Rows.{Below}
use sfpg_go.HttpCache.Counters.{Counts, commit_batch-Counts}
use sfpg_go.HttpCache.Middleware.{
  middleware, new_entry, parse_gallery_folder_id, has_cache_bypass_directive,
}
use sfpg_go.HttpCache.Writer.{CacheConfig, Call, sets, writes}
use sfpg_go.HttpCache.Submitted.{captured, Submits, middleware-submitted}
use sfpg_go.HttpCache.Replay.{Replays, middleware-replay}

abbrev run_of_four : List ℕ
run_of_four = b'A' ∷ b'A' ∷ b'A' ∷ b'A' ∷ []

abbrev squeeze : List ℕ → List ℕ
squeeze src = if has_prefix src run_of_four then 1 ∷ drop 4 src else 0 ∷ src

abbrev unsqueeze : List ℕ → Option (List ℕ)
unsqueeze [] = none
unsqueeze (a ∷ []) = none
unsqueeze (a ∷ b ∷ []) = none
unsqueeze (a ∷ b ∷ f ∷ rest) = if f == 1 then some (run_of_four ++ rest) else some rest

abbrev codec : Codec
codec = record {
  id = codes "z";
  magic = (40 ∷ 181 ∷ []) ∷ [];
  compress = λ src. some (40 ∷ 181 ∷ squeeze src);
  decompress = λ out n. unsqueeze out;
}

abbrev registry : Registry
registry = record {
  by_id = (codes "z", codec) ∷ [];
  entries = (40 ∷ 181 ∷ [], codec) ∷ [];
  max_magic = 2;
}

has_prefix-drop : (s p : Str) → has_prefix s p ≡ true → p ++ drop (length p) s ≡ s
unfolding has_prefix
has_prefix-drop s [] h = refl
has_prefix-drop [] (d ∷ ds) h = cc
has_prefix-drop (c ∷ cs) (d ∷ ds) h =
    let (head, tail) = both (c == d) (has_prefix cs ds) h in
    rw (has_prefix-drop cs ds tail) (ap (λ x. x ∷ cs) (sym ((==_iff c d).0 head)))
  where
    both : (a b : Bool) → (a && b) ≡ true → (a ≡ true) × (b ≡ true)
    both a b e = ground arith

unsqueeze-squeeze : (src : List ℕ) → unsqueeze (40 ∷ 181 ∷ squeeze src) ≡ some src
unsqueeze-squeeze src = elim (Bool-cases (has_prefix src run_of_four)) [
  | inl is ↦ rw is (ap some (has_prefix-drop src run_of_four is))
  | inr isnt ↦ rw isnt
]

codec-IsLawful : IsLawful codec
unfolding marked head_matches
codec-IsLawful = record {
  restores = λ src out e. subst (λ o. decoded_by o ≡ some src) e (unsqueeze-squeeze src);
  marks = λ src out e. subst (λ o. is_marked o ≡ true) e refl;
}
  where
    decoded_by : Option (List ℕ) → Option (List ℕ)
    decoded_by none = none
    decoded_by (some out) = unsqueeze out

    is_marked : Option (List ℕ) → Bool
    is_marked none = false
    is_marked (some out) = marked out codec.magic

only_codec : (k : Str) (c : Codec) → find k registry.by_id ≡ some c → codec ≡ c
unfolding find
only_codec k c = if_split (λ o. o ≡ some c → codec ≡ c) (same (codes "z") k) (λ _ e. cc) (λ _ e. cc)

registry-IsDisjoint : IsDisjoint registry
registry-IsDisjoint c d head e f m n =
    ap (λ (x : Codec). x.id) (sym (only_codec c.id c e) ∙ only_codec d.id d f)

lawful : (k : Str) (c : Codec) → find k registry.by_id ≡ some c → IsLawful c
lawful k c e = subst IsLawful (only_codec k c e) codec-IsLawful

registered : register_defaults (codec ∷ []) new_registry ≡ Bodies.ok registry
unfolding register_defaults
registered = refl

abbrev page : List ℕ
page = replicate 300 65

abbrev stored_page : List ℕ
stored_page = 40 ∷ 181 ∷ 1 ∷ replicate 296 65

decode_for_serve-finalize_for_storage_example :
    decode_for_serve stored_page (length page) registry ≡ Bodies.ok page
unfolding match_magic finalize_for_storage has_prefix same
decode_for_serve-finalize_for_storage_example =
    decode_for_serve-finalize_for_storage (codec ∷ []) registry (codes "z") page stored_page
      registered registry-IsDisjoint (lawful (codes "z")) refl refl

unknown_codec : configure_body_codec (codes "br") registry ≡ Bodies.err unknown_codec_id
unfolding configure_body_codec same
unknown_codec = refl

abbrev click : Request
click = record {
  method = codes "GET";
  path = codes "/gallery/7";
  raw_query = codes "x=1&v=a%2fb";
  hx_request = codes "true";
  hx_target = gallery_content;
  if_none_match = [];
  cache_control = [];
  skip_preload = [];
  cookie = none;
  remote_addr = codes "::1";
}

click_key :
    new_cache_key (new_cache_key_for_request click)
    ≡ codes "GET:/gallery/7?v=a%2Fb|Variant=gallery-content"
unfolding new_cache_key new_cache_key_for_request
click_key = refl

preload_key-request_key_example :
    (new_cache_key (new_cache_key_for_request click)
      ≡ new_cache_key (
          new_cache_key_for_preload click.path click.raw_query
            (preload_variant_for_path click.path)))
    ↔ ((click.method ≡ codes "GET")
        × ((cache_route_kind_for_path click.path ≢ cache_route_gallery) ⊎ IsFolderClick click))
preload_key-request_key_example = preload_key-request_key click (inl refl)

folder_ids :
    (parse_gallery_folder_id (codes "/gallery/12/x") ≡ some (pos 12))
    × (parse_gallery_folder_id (codes "/gallery/x") ≡ none)
unfolding parse_gallery_folder_id
folder_ids = (refl, refl)

bypasses :
    (has_cache_bypass_directive (codes "private, Max-Age = 0" ∷ []) ≡ true)
    × (has_cache_bypass_directive (codes "max-age=10" ∷ []) ≡ false)
unfolding has_cache_bypass_directive
bypasses = (refl, refl)

abbrev cfg : CacheConfig
cfg = record {
  max_entry_size = pos 1000;
  default_ttl = pos 60000000000;
  cacheable_routes = codes "/gallery/" ∷ [];
  has_on_gallery_cache_hit = false;
  session_cookie_name = [];
  skip_preload_when_header = [];
  skip_preload_when_value = [];
}

abbrev handler : Bool → List Call
handler captures =
    sets content_type (codes "text/html") ∷ sets e_tag (codes "t1") ∷ writes page ∷ []

abbrev empty : HttpCacheTable
empty = record { rows = []; next_id = 0 }

abbrev entry : HttpCacheEntry
entry = new_entry cfg (pos 5) click (captured handler nothing_sent)

middleware-submitted_example :
    Submits cfg
      (pos 5)
      handler
      click
      nothing_sent
      entry
      (middleware cfg registry true (pos 5) [] handler click nothing_sent)
unfolding middleware new_entry
middleware-submitted_example =
    middleware-submitted cfg registry true (pos 5) [] handler click nothing_sent entry refl

abbrev filled : HttpCacheTable
filled = record { rows = record entry { id = 0; body = stored_page } ∷ []; next_id = 1 }

middleware-replay_example : Replays (captured handler nothing_sent) (
    middleware cfg registry true
      (pos 64)
      filled.rows
      handler
      (record click { if_none_match = codes "t0" })
      nothing_sent)
unfolding middleware new_entry store_cache_entry match_magic finalize_for_storage has_prefix ◌+ℤ◌
    same
middleware-replay_example =
    middleware-replay (codec ∷ []) registry (codes "z") cfg true (pos 5) (pos 64) empty filled
      handler click nothing_sent entry (record entry { body = stored_page }) (codes "t0") registered
      registry-IsDisjoint (lawful (codes "z")) refl refl refl refl refl

abbrev row : List ℕ → HttpCacheEntry
row body = record {
  id = 0;
  key = codes "GET:/gallery/7?|Variant=full";
  method = codes "GET";
  path = codes "/gallery/7";
  query_string = none;
  status = 200;
  content_type = none;
  cache_control = none;
  e_tag = none;
  last_modified = none;
  vary = none;
  body = body;
  content_length = some (length body);
  created_at = pos 1;
  expires_at = none;
}

abbrev all_works : EvictEnv
all_works = record { is_cancelled = false; connects = true; lists = true; deletes = λ n. true }

abbrev before : Cache
before = record {
  table = record { rows = row (1 ∷ 2 ∷ 3 ∷ 4 ∷ 5 ∷ []) ∷ []; next_id = 1 };
  cache_size_bytes = pos 5;
  cache_entry_count = pos 1;
}

-- A row is replaced, the counters are too high, and the row is evicted at 3 of 7 bytes.
abbrev after : Cache
after = record {
  table = record { rows = []; next_id = 1 };
  cache_size_bytes = pos 5;
  cache_entry_count = pos 1;
}

commit_batch-Counts_example : Counts before (row (1 ∷ 2 ∷ 3 ∷ []) ∷ []) before.table after
unfolding flush_cache_entries commit_batch Below evict_lru has_prefix ◌+ℤ◌ ◌-ℤ◌ match_magic
    finalize_for_storage same store_cache_entry
commit_batch-Counts_example =
    commit_batch-Counts registry (codes "z") (λ n. true) all_works (pos 7)
      (row (1 ∷ 2 ∷ 3 ∷ []) ∷ []) (row (1 ∷ 2 ∷ 3 ∷ []) ∷ []) before after
      (record { rows = row (1 ∷ 2 ∷ 3 ∷ []) ∷ []; next_id = 1 }) (omega arith, tt) refl refl
