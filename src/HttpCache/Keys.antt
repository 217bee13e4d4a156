-- ===== src/HttpCache/Keys.antt =====
-- internal/cachelite/key.go: which requests the preloaded entries serve.
use sfpg_go.Base.{
  ℕ, ◌≡◌, ◌≢◌, ◌↔◌, ◌⊎◌, refl, sym, ap, ◌∙◌, subst, Bool, true, false, ◌&&◌, [], ◌∷◌, ◌++◌,
  if◌then◌else◌, inl, inr, arith,
}
use sfpg_go.Base.Text.{Str, same, same_eq, codes, append-cancel}
use sfpg_go.HttpCache.Key.{
  is_empty, CacheRouteKind, cache_route_gallery, cache_route_info, cache_route_lightbox,
  cache_route_other, cache_route_kind_for_path, gallery_content, variant_of, normalized_variant,
  preload_variant_for_path, new_cache_key, Request, new_cache_key_for_request,
  new_cache_key_for_preload, normalize_cache_query,
}

-- The htmx headers of a click on a folder tile.
abbrev pub IsFolderClick : Request → Type 0
IsFolderClick r = (r.hx_request ≡ codes "true") × (r.hx_target ≡ gallery_content)

abbrev content : Request → Bool
content r =
    same (if is_empty r.hx_request then codes "false" else r.hx_request) (codes "true")
    && same r.hx_target gallery_content

content_iff : (r : Request) → (content r ≡ true) ↔ IsFolderClick r
unfolding same
content_iff r = (to, from)
  where
    both : (a b : Bool) → (a && b) ≡ true → (a ≡ true) × (b ≡ true)
    both a b h = ground arith

    told : (s : Str) → (if is_empty s then codes "false" else s) ≡ codes "true" → s ≡ codes "true"
    told [] e = cc
    told (c ∷ cs) e = e

    to : content r ≡ true → IsFolderClick r
    to h = let (a, b) = both _ _ h in (told r.hx_request (same_eq _ _ a), same_eq _ _ b)

    from : IsFolderClick r → content r ≡ true
    from (a, b) = rw (a, b) (refl)

-- The text of a key with a variant, and the key of a preload of the same path and query.
abbrev key_text : Str → Str → Str → Str → Str
key_text method path query variant =
    method ++ (b':' ∷ (path ++ (b'?' ∷ (query ++ (codes "|Variant=" ++ variant)))))

same_text :
    (path query v w : Str)
    → key_text (codes "GET") path query v ≡ key_text (codes "GET") path query w
    → v ≡ w
same_text path query v w e = append-cancel (codes "|Variant=") v w (
    append-cancel query _ _
      (append-cancel (b'?' ∷ []) _ _ (append-cancel path _ _ (append-cancel (codes "GET:") _ _ e))))

abbrev first_code : Str → ℕ
first_code [] = 0
first_code (c ∷ cs) = c

-- The variants of a path's kind are not empty.
new_cache_key-text :
    (m p q : Str) (k : CacheRouteKind) (b : Bool)
    → new_cache_key (record { method = m; path = p; query = q; variant = variant_of k b })
      ≡ key_text m p q (variant_of k b)
unfolding new_cache_key
new_cache_key-text m p q cache_route_gallery true = refl
new_cache_key-text m p q cache_route_gallery false = refl
new_cache_key-text m p q cache_route_info b = refl
new_cache_key-text m p q cache_route_lightbox b = refl
new_cache_key-text m p q cache_route_other b = refl

variant_iff :
    (k : CacheRouteKind) (b : Bool)
    → (variant_of k b ≡ variant_of k true) ↔ ((k ≢ cache_route_gallery) ⊎ (b ≡ true))
variant_iff cache_route_gallery true = (λ e. inr refl, λ h. refl)
variant_iff cache_route_gallery false =
    (λ e. cc, λ h. elim h [ inl other ↦ absurd (other refl) | inr e ↦ cc ])
variant_iff cache_route_info b = (λ e. inl (λ f. cc), λ h. refl)
variant_iff cache_route_lightbox b = (λ e. inl (λ f. cc), λ h. refl)
variant_iff cache_route_other b = (λ e. inl (λ f. cc), λ h. refl)

-- The key of a GET or HEAD request is the key under which its path and query are preloaded
-- exactly when the method is GET and the path is no gallery path or the request is the htmx
-- request of a click on a folder tile.
pub preload_key-request_key :
    (r : Request)
    → (r.method ≡ codes "GET") ⊎ (r.method ≡ codes "HEAD")
    → (new_cache_key (new_cache_key_for_request r)
        ≡ new_cache_key
            (new_cache_key_for_preload r.path r.raw_query (preload_variant_for_path r.path)))
      ↔ ((r.method ≡ codes "GET")
          × ((cache_route_kind_for_path r.path ≢ cache_route_gallery) ⊎ IsFolderClick r))
unfolding new_cache_key new_cache_key_for_request new_cache_key_for_preload preload_variant_for_path
    normalized_variant
preload_key-request_key r m = (to, from)
  where
    k : CacheRouteKind
    k = cache_route_kind_for_path r.path

    query : Str
    query = normalize_cache_query r.path r.raw_query

    own : Str → Str
    own method = key_text method r.path query (variant_of k (content r))

    preloaded : Str
    preloaded = key_text (codes "GET") r.path query (variant_of k true)

    texts :
        (x : Str)
        → new_cache_key (record {
          method = x;
          path = r.path;
          query = query;
          variant = variant_of k (content r);
        })
          ≡ new_cache_key (record {
            method = codes "GET";
            path = r.path;
            query = query;
            variant = variant_of k true;
          })
        → own x ≡ preloaded
    texts x e =
        sym (new_cache_key-text x r.path query k (content r))
        ∙ e
        ∙ new_cache_key-text (codes "GET") r.path query k true

    clicked :
        (k ≢ cache_route_gallery) ⊎ (content r ≡ true) → (k ≢ cache_route_gallery) ⊎ IsFolderClick r
    clicked (inl other) = inl other
    clicked (inr h) = inr ((content_iff r).0 h)

    unclicked :
        (k ≢ cache_route_gallery) ⊎ IsFolderClick r → (k ≢ cache_route_gallery) ⊎ (content r ≡ true)
    unclicked (inl other) = inl other
    unclicked (inr h) = inr ((content_iff r).1 h)

    head_differs : own (codes "HEAD") ≡ preloaded → ⊥
    head_differs e = let f : ◌≡◌ {A = ℕ} 72 71 = ap first_code e in absurd (omega arith)

    to :
        new_cache_key (new_cache_key_for_request r)
          ≡ new_cache_key
              (new_cache_key_for_preload r.path r.raw_query (preload_variant_for_path r.path))
        → (r.method ≡ codes "GET") × ((k ≢ cache_route_gallery) ⊎ IsFolderClick r)
    to e = elim m [
      | inl get ↦ (
        get,
        clicked (
            (variant_iff k (content r)).0
              (same_text r.path query _ _ (subst (λ x. own x ≡ preloaded) get (texts r.method e)))),
      )
      | inr head ↦ absurd (head_differs (subst (λ x. own x ≡ preloaded) head (texts r.method e)))
    ]

    from :
        (r.method ≡ codes "GET") × ((k ≢ cache_route_gallery) ⊎ IsFolderClick r)
        → new_cache_key (new_cache_key_for_request r)
          ≡ new_cache_key
              (new_cache_key_for_preload r.path r.raw_query (preload_variant_for_path r.path))
    from (get, h) = rw (get, (variant_iff k (content r)).1 (unclicked h)) (refl)
