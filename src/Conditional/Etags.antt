-- ===== src/Conditional/Etags.antt =====
-- If-None-Match as a list of tags.
use sfpg_go.Base.{
  ℕ, suc, ◌≡◌, ◌≢◌, ◌≤◌, ◌↔◌, ◌⊎◌, inl, inr, refl, ap, sym, ◌∙◌, Bool, true, false, ◌||◌, List, [],
  ◌∷◌, ◌++◌, ◌==◌, if◌then◌else◌, length, length-append, if_split, arith,
}
use sfpg_go.Base.Text.{Str, same, same_eq, same_refl, is_space}
use sfpg_go.Conditional.Etag.{
  comma, trim_weak, onto_first, split, normalize_etag, any_same, matches_etag,
}
use sfpg_go.Conditional.Trim.{AllSpace, trim_space_around}

unfoldable pub HasNoComma : Str → Type 0
HasNoComma [] = Unit
HasNoComma (c ∷ s) = ((c == comma) ≡ false) × HasNoComma s

unfoldable pub HaveNoComma : List Str → Type 0
unfolding HasNoComma
HaveNoComma [] = Unit
HaveNoComma (s ∷ ss) = HasNoComma s × HaveNoComma ss

-- The tags of a header line, with commas between them.
abbrev pub join : Str → List Str → Str
join t [] = t
join t (u ∷ us) = t ++ comma ∷ join u us

split_last_piece : (t : Str) → HasNoComma t → split t ≡ t ∷ []
unfolding split HasNoComma
split_last_piece [] h = refl
split_last_piece (c ∷ t) (h, hs) =
    ap (λ b. if b then [] ∷ split t else onto_first c (split t)) h
    ∙ ap (onto_first c) (split_last_piece t hs)

split_piece : (t s : Str) → HasNoComma t → split (t ++ comma ∷ s) ≡ t ∷ split s
unfolding split HasNoComma
split_piece [] s h = refl
split_piece (c ∷ t) s (h, hs) =
    ap (λ b. if b then [] ∷ split (t ++ comma ∷ s) else onto_first c (split (t ++ comma ∷ s))) h
    ∙ ap (onto_first c) (split_piece t s hs)

split-join : (t : Str) (ts : List Str) → HaveNoComma (t ∷ ts) → split (join t ts) ≡ t ∷ ts
unfolding HaveNoComma
split-join t [] (h, hs) = split_last_piece t h
split-join t (u ∷ us) (h, hs) = split_piece t (join u us) h ∙ ap (λ r. t ∷ r) (split-join u us hs)

-- A tag as a header has it: a quoted value, perhaps with the mark of weakness, and white space around it.
pub record Tag : Type 0 where
  pub lead : Str
  pub weak : Bool
  pub value : Str
  pub trail : Str

abbrev pub quoted : Str → Str
quoted v = 34 ∷ v ++ 34 ∷ []

abbrev pub marked : Bool → Str → Str
marked true v = 87 ∷ 47 ∷ quoted v
marked false v = quoted v

abbrev pub text : Tag → Str
text t = t.lead ++ (marked t.weak t.value ++ t.trail)

abbrev pub texts : List Tag → List Str
texts [] = []
texts (t ∷ ts) = text t ∷ texts ts

abbrev pub IsTag : Tag → Type 0
IsTag t = AllSpace t.lead × AllSpace t.trail × HasNoComma (text t)

unfoldable pub AreTags : List Tag → Type 0
AreTags [] = Unit
AreTags (t ∷ ts) = IsTag t × AreTags ts

-- One of the tags has the value.
unfoldable pub HasValue : Str → List Tag → Type 0
HasValue v [] = ⊥
HasValue v (t ∷ ts) = (t.value ≡ v) ⊎ HasValue v ts

trim_weak_quote : (s : Str) → trim_weak (34 ∷ s) ≡ 34 ∷ s
trim_weak_quote [] = refl
trim_weak_quote (c ∷ s) = refl

normalize-text :
    (lead : Str) (weak : Bool) (v trail : Str)
    → AllSpace lead
    → AllSpace trail
    → normalize_etag (lead ++ (marked weak v ++ trail)) ≡ quoted v
unfolding normalize_etag is_space
normalize-text lead true v trail h g =
    ap trim_weak (trim_space_around lead 87 (47 ∷ 34 ∷ v) 34 trail h g refl refl)
normalize-text lead false v trail h g =
    ap trim_weak (trim_space_around lead 34 v 34 trail h g refl refl)
    ∙ trim_weak_quote (v ++ 34 ∷ [])

quoted-cancel : (v u : Str) → quoted v ≡ quoted u → v ≡ u
quoted-cancel v u e = drop_quote v u (ap tail e)
  where
    tail : Str → Str
    tail [] = []
    tail (c ∷ s) = s

    head : Str → ℕ
    head [] = 0
    head (c ∷ s) = suc c

    too_short : (x y : ℕ) (s : Str) → x ∷ [] ≢ y ∷ s ++ 34 ∷ []
    too_short x y s e = absurd (omega (arith, length-append s (34 ∷ []), ap length e))

    drop_quote : (v u : Str) → v ++ 34 ∷ [] ≡ u ++ 34 ∷ [] → v ≡ u
    drop_quote [] [] e = refl
    drop_quote [] (y ∷ u) e = absurd (too_short 34 y u e)
    drop_quote (x ∷ v) [] e = absurd (too_short 34 x v (sym e))
    drop_quote (x ∷ v) (y ∷ u) e =
        let same_head : x ≡ y = omega (arith, ap head e) in
        rw (same_head, drop_quote v u (ap tail e)) refl

any_same-HasValue :
    (ts : List Tag) (v : Str) → AreTags ts → (any_same (quoted v) (texts ts) ≡ true) ↔ HasValue v ts
unfolding any_same HasValue AreTags
any_same-HasValue [] v h = ((λ e. cc), (λ e. absurd e))
any_same-HasValue (t ∷ ts) v (h, hs) =
    let (to, from) = any_same-HasValue ts v hs in
    let n : normalize_etag (text t) ≡ quoted t.value =
      normalize-text t.lead t.weak t.value t.trail h.0 h.1 in
    (
      (λ e.
          elim (either (same (normalize_etag (text t)) (quoted v)) (any_same (quoted v) (texts ts))
            e) [
              | inl is ↦ inl (
                  quoted-cancel t.value v (sym n ∙ same_eq (normalize_etag (text t)) (quoted v) is))
              | inr later ↦ inr (to later)
            ]),
      (λ e. elim e [
        | inl is ↦
            left_true (same (normalize_etag (text t)) (quoted v)) (any_same (quoted v) (texts ts))
              (rw n (rw is (same_refl (quoted v))))
        | inr later ↦ right_true (same (normalize_etag (text t)) (quoted v)) (from later)
      ]),
    )
  where
    either : (a b : Bool) → (a || b) ≡ true → (a ≡ true) ⊎ (b ≡ true)
    either true b e = inl refl
    either false b e = inr e

    left_true : (a b : Bool) → a ≡ true → (a || b) ≡ true
    left_true a b e = ground arith

    right_true : (a : Bool) {b : Bool} → b ≡ true → (a || b) ≡ true
    right_true a e = ground arith

texts-HaveNoComma : (ts : List Tag) → AreTags ts → HaveNoComma (texts ts)
unfolding AreTags HaveNoComma
texts-HaveNoComma [] h = tt
texts-HaveNoComma (t ∷ ts) h = (h.0.2, texts-HaveNoComma ts h.1)

length-marked : (weak : Bool) (v : Str) → 2 ≤ length (marked weak v)
length-marked true v = omega (arith, length-append v (34 ∷ []))
length-marked false v = omega (arith, length-append v (34 ∷ []))

length-text : (t : Tag) → 2 ≤ length (text t)
length-text t = omega (
  arith,
  length-append t.lead (marked t.weak t.value ++ t.trail),
  length-append (marked t.weak t.value) t.trail,
  length-marked t.weak t.value,
)

length-join : (s : Str) (ss : List Str) → length s ≤ length (join s ss)
length-join s [] = omega arith
length-join s (u ∷ us) = omega (arith, length-append s (comma ∷ join u us))

-- A line that is longer than a star is split into tags.
matches_etag_long :
    (s : Str) (etag : Str)
    → 2 ≤ length s
    → matches_etag s etag ≡ any_same (normalize_etag etag) (split s)
unfolding matches_etag
matches_etag_long [] etag h = absurd (omega arith)
matches_etag_long (c ∷ cs) etag h =
    if_split (λ b. b ≡ any_same (normalize_etag etag) (split (c ∷ cs))) (same (c ∷ cs) (42 ∷ []))
      (λ e. absurd (omega (arith, ap length (same_eq (c ∷ cs) (42 ∷ []) e)))) (λ e. refl)

-- If-None-Match with a list of tags between commas, each a quoted value without a comma, with or without the
-- mark of weakness and with any white space around it, matches an ETag of that form exactly when one of the
-- tags has its value.
pub matches_etag-HasValue :
    (t : Tag) (ts : List Tag) (e : Tag)
    → AreTags (t ∷ ts)
    → IsTag e
    → (matches_etag (join (text t) (texts ts)) (text e) ≡ true) ↔ HasValue e.value (t ∷ ts)
unfolding AreTags
matches_etag-HasValue t ts e h g =
    let path : matches_etag (join (text t) (texts ts)) (text e)
        ≡ any_same (quoted e.value) (texts (t ∷ ts)) =
      matches_etag_long (join (text t) (texts ts)) (text e)
        (omega (arith, length-text t, length-join (text t) (texts ts)))
      ∙ ap (λ n. any_same n (split (join (text t) (texts ts))))
          (normalize-text e.lead e.weak e.value e.trail g.0 g.1)
      ∙ ap (any_same (quoted e.value))
          (split-join (text t) (texts ts) (texts-HaveNoComma (t ∷ ts) h)) in
    let (to, from) = any_same-HasValue (t ∷ ts) e.value h in
    ((λ m. to (sym path ∙ m)), (λ v. path ∙ from v))
