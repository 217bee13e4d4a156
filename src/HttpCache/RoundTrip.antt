-- ===== src/HttpCache/RoundTrip.antt =====
-- internal/cachelite/body_storage.go: a body that is stored and read back.
use sfpg_go.Base.{
  ℕ, ◌≡◌, refl, sym, ap, ◌∙◌, subst, true, false, List, [], ◌∷◌, Option, none, some, length, ltb,
  leb, Option-cases, inl, inr, arith, ◌≤◌, if_split,
}
use sfpg_go.Base.Text.{Str, same}
use sfpg_go.HttpCache.Codec.{
  Codec, Result, bind, Registry, new_registry, find, is_nil, register_defaults, known, head_matches,
  match_entries, match_magic, min_compress_bytes, identity, shorter, encode_with, decode_for_serve,
  encoded, finalize_for_storage, ok,
}
use sfpg_go.HttpCache.Codecs.{
  AllKnown, fits, marked, IsRegistry, register_defaults-IsRegistry, IsRegistry-new, ok_inj,
}

-- What a codec promises: what it compressed it gives back, under one of its magic prefixes.
pub record IsLawful (c : Codec) : Type 0 where
  pub restores :
      (src out : List ℕ) → c.compress src ≡ some out → c.decompress out (length src) ≡ some src
  pub marks : (src out : List ℕ) → c.compress src ≡ some out → marked out c.magic ≡ true

-- No bytes start like the output of two codecs.
abbrev pub IsDisjoint : Registry → Type 0
IsDisjoint r =
    (c d : Codec) (head : List ℕ)
    → find c.id r.by_id ≡ some c
    → find d.id r.by_id ≡ some d
    → marked head c.magic ≡ true
    → marked head d.magic ≡ true
    → c.id ≡ d.id

head_matches-length : (head p : List ℕ) → head_matches head p ≡ true → length p ≤ length head
unfolding head_matches
head_matches-length head [] h = omega arith
head_matches-length [] (b ∷ p) h = cc
head_matches-length (a ∷ head) (b ∷ p) h = ground (arith, head_matches-length head p)

match_entries-fits :
    (head : List ℕ) (es : List (List ℕ × Codec))
    → match_entries head es ≡ none
    → fits head es ≡ false
unfolding match_entries fits
match_entries-fits head [] h = refl
match_entries-fits head ((p, c) ∷ es) h =
    ground (arith, head_matches-length head p, match_entries-fits head es)

match_entries-Known :
    (head : List ℕ) (m : List (Str × Codec)) (es : List (List ℕ × Codec)) (d : Codec)
    → AllKnown m es
    → match_entries head es ≡ some d
    → (find d.id m ≡ some d) × (marked head d.magic ≡ true)
unfolding match_entries AllKnown
match_entries-Known head m [] d k h = cc
match_entries-Known head m ((p, c) ∷ es) d k h =
    if_split (λ x. x ≡ some d → Found d) (ltb (length head) (length p))
      (λ _. match_entries-Known head m es d k.2)
      (λ _.
        if_split (λ x. x ≡ some d → Found d) (head_matches head p) (λ fit. this fit)
          (λ _. match_entries-Known head m es d k.2))
      h
  where
    Found : Codec → Type 0
    Found x = (find x.id m ≡ some x) × (marked head x.magic ≡ true)

    this : head_matches head p ≡ true → ◌≡◌ {A = Option Codec} (some c) (some d) → Found d
    this fit e = let c_d : c ≡ d = cc in subst Found c_d (k.0, k.1 head fit)

decode_plain :
    (src : List ℕ) (r : Registry)
    → match_magic src r ≡ none
    → decode_for_serve src (length src) r ≡ ok src
unfolding decode_for_serve
decode_plain src r e = rw e (ground arith)

module _ (r : Registry) (i : IsRegistry r) (apart : IsDisjoint r) (id : Str) (c : Codec)
    (e : find id r.by_id ≡ some c) (law : IsLawful c) where
  match_own : (src out : List ℕ) → c.compress src ≡ some out → match_magic out r ≡ some c
  unfolding match_magic
  match_own src out h = elim (Option-cases (match_entries out r.entries)) [
    | inl nothing ↦ absurd (
        ground (
          arith,
          match_entries-fits out r.entries nothing,
          i.listed id c out e (law.marks src out h),
        ))
    | inr (d, found) ↦
        found ∙ sym (own d (match_entries-Known out r.by_id r.entries d i.all_known found))
  ]
    where
      here : find c.id r.by_id ≡ some c
      here = subst (λ k. find k r.by_id ≡ some c) (sym (i.named id c e)) e

      own :
          (d : Codec) → (find d.id r.by_id ≡ some d) × (marked out d.magic ≡ true) → some c ≡ some d
      own d (k, m) =
          sym here ∙ ap (λ x. find x r.by_id) (apart c d out here k (law.marks src out h) m) ∙ k

  decode_compressed :
      (src out : List ℕ) → c.compress src ≡ some out → decode_for_serve out (length src) r ≡ ok src
  unfolding decode_for_serve
  decode_compressed src out h = rw (match_own src out h, law.restores src out h) (ground arith)

-- The two outcomes of EncodeWith that succeed: the body itself, and a shorter compressed one.
module _ (r : Registry) (id : Str) (src stored : List ℕ) (plain : match_magic src r ≡ none) where
  abbrev Reads : Result (List ℕ) → Type 0
  Reads x = x ≡ ok stored → decode_for_serve stored (length src) r ≡ ok src

  as_is : Reads (ok src)
  as_is f =
      subst (λ x. decode_for_serve x (length src) r ≡ ok src) (ok_inj src src stored f)
        (decode_plain src r plain)

  shorter-Reads :
      (o : Option (List ℕ))
      → ((out : List ℕ) → o ≡ some out → decode_for_serve out (length src) r ≡ ok src)
      → Reads (shorter src o)
  shorter-Reads none f = λ g. cc
  shorter-Reads (some out) f =
      if_split Reads (leb (length src) (length out)) (λ _. as_is)
        (λ _ g.
          subst (λ x. decode_for_serve x (length src) r ≡ ok src) (ok_inj src out stored g)
            (f out refl))

  known-Reads :
      IsRegistry r
      → IsDisjoint r
      → ((c : Codec) → find id r.by_id ≡ some c → IsLawful c)
      → (o : Option Codec) → find id r.by_id ≡ o
      → Reads (bind (known o) (λ c. shorter src (c.compress src)))
  known-Reads i apart law none e = λ g. cc
  known-Reads i apart law (some c) e =
      shorter-Reads (c.compress src)
        (λ out h. decode_compressed r i apart id c e (law c e) src out h)

  encode_with-Reads :
      IsRegistry r
      → IsDisjoint r
      → ((c : Codec) → find id r.by_id ≡ some c → IsLawful c)
      → Reads (encode_with id src r)
  unfolding encode_with
  encode_with-Reads i apart law =
      if_split Reads (same id identity) (λ _. as_is)
        (λ _.
          if_split Reads (ltb (length src) min_compress_bytes) (λ _. as_is)
            (λ _. known-Reads i apart law (find id r.by_id) refl))

  finalize-Reads :
      IsRegistry r
      → IsDisjoint r
      → ((c : Codec) → find id r.by_id ≡ some c → IsLawful c)
      → Reads (finalize_for_storage id src r)
  unfolding finalize_for_storage
  finalize-Reads i apart law =
      if_split Reads (is_nil src) (λ _. as_is)
        (λ _. subst (λ o. Reads (encoded id src r o)) (sym plain) (encode_with-Reads i apart law))

-- For a registry built by Register from any codecs, where the written codec restores what it
-- compressed under its own magic and no bytes start like the output of two codecs: a body that
-- starts like no codec's output, once FinalizeForStorage has stored it, is read back by
-- DecodeForServe as it was, compressed or not.
pub decode_for_serve-finalize_for_storage :
    (codecs : List Codec) (r : Registry) (id : Str) (src stored : List ℕ)
    → register_defaults codecs new_registry ≡ ok r
    → IsDisjoint r
    → ((c : Codec) → find id r.by_id ≡ some c → IsLawful c)
    → match_magic src r ≡ none
    → finalize_for_storage id src r ≡ ok stored
    → decode_for_serve stored (length src) r ≡ ok src
decode_for_serve-finalize_for_storage codecs r id src stored e apart law plain f =
    finalize-Reads r id src stored plain
      (register_defaults-IsRegistry codecs new_registry r e IsRegistry-new) apart law f
