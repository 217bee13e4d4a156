-- ===== src/HttpCache/Codecs.antt =====
-- internal/cachelite/bodycodec/registry.go: what registration keeps, and a stored body read back.
use sfpg_go.Base.{
  ℕ, ◌≡◌, refl, ◌⊎◌, sym, ap, ◌∙◌, subst, Bool, true, false, ◌||◌, List, [], ◌∷◌, ◌++◌, Option,
  none, some, length, ltb, Bool-cases, Option-cases, inl, inr, arith, if_split,
}
use sfpg_go.Base.Text.{Str, same, same_refl, same_eq}
use sfpg_go.HttpCache.Codec.{
  Codec, Result, bind, Registry, new_registry, find, insert_entry, sort_entries, entries_of,
  register, register_defaults, head_matches, ok, err, add_codec,
}

-- Some prefix of the codec fits the head.
unfoldable pub marked : List ℕ → List (List ℕ) → Bool
marked head [] = false
marked head (m ∷ ms) = head_matches head m || marked head ms

-- Every prefix is one of the codec that its identifier names.
abbrev pub Owns : Codec → List ℕ → Type 0
Owns c p = (head : List ℕ) → head_matches head p ≡ true → marked head c.magic ≡ true

unfoldable pub AllKnown : List (Str × Codec) → List (List ℕ × Codec) → Type 0
AllKnown m [] = Unit
AllKnown m ((p, c) ∷ es) = (find c.id m ≡ some c) × Owns c p × AllKnown m es

-- Some prefix fits the head.
unfoldable pub fits : List ℕ → List (List ℕ × Codec) → Bool
fits head [] = false
fits head ((p, c) ∷ es) = head_matches head p || fits head es

pub record IsRegistry (r : Registry) : Type 0 where
  pub all_known : AllKnown r.by_id r.entries
  pub named : (id : Str) (c : Codec) → find id r.by_id ≡ some c → c.id ≡ id
  pub listed :
      (id : Str) (c : Codec) (head : List ℕ)
      → find id r.by_id ≡ some c
      → marked head c.magic ≡ true
      → fits head r.entries ≡ true

fits-append :
    (head : List ℕ) (es fs : List (List ℕ × Codec))
    → fits head (es ++ fs) ≡ (fits head es || fits head fs)
unfolding fits
fits-append head [] fs = refl
fits-append head ((p, c) ∷ es) fs = ground (arith, fits-append head es fs)

fits-insert_entry :
    (head m : List ℕ) (c : Codec) (es : List (List ℕ × Codec))
    → fits head (insert_entry (m, c) es) ≡ (head_matches head m || fits head es)
unfolding fits insert_entry
fits-insert_entry head m c [] = refl
fits-insert_entry head m c ((p, d) ∷ es) = ground (arith, fits-insert_entry head m c es)

fits-sort_entries :
    (head : List ℕ) (es : List (List ℕ × Codec)) → fits head (sort_entries es) ≡ fits head es
unfolding fits sort_entries
fits-sort_entries head [] = refl
fits-sort_entries head ((p, c) ∷ es) =
    fits-insert_entry head p c (sort_entries es)
    ∙ ap (λ b. head_matches head p || b) (fits-sort_entries head es)

fits-entries_of :
    (head : List ℕ) (c : Codec) (ms : List (List ℕ)) → fits head (entries_of c ms) ≡ marked head ms
unfolding fits entries_of marked
fits-entries_of head c [] = refl
fits-entries_of head c (m ∷ ms) = ap (λ b. head_matches head m || b) (fits-entries_of head c ms)

AllKnown-append :
    (m : List (Str × Codec)) (es fs : List (List ℕ × Codec))
    → AllKnown m es
    → AllKnown m fs
    → AllKnown m (es ++ fs)
unfolding AllKnown
AllKnown-append m [] fs h k = k
AllKnown-append m ((p, c) ∷ es) fs h k = (h.0, h.1, AllKnown-append m es fs h.2 k)

AllKnown-insert_entry :
    (m : List (Str × Codec)) (p : List ℕ) (c : Codec) (es : List (List ℕ × Codec))
    → find c.id m ≡ some c
    → Owns c p
    → AllKnown m es
    → AllKnown m (insert_entry (p, c) es)
unfolding AllKnown insert_entry
AllKnown-insert_entry m p c [] e o h = (e, o, tt)
AllKnown-insert_entry m p c ((q, d) ∷ es) e o h =
    if_split (AllKnown m) (ltb (length p) (length q))
      (λ _. (h.0, h.1, AllKnown-insert_entry m p c es e o h.2)) (λ _. (e, o, h))

AllKnown-sort_entries :
    (m : List (Str × Codec)) (es : List (List ℕ × Codec))
    → AllKnown m es
    → AllKnown m (sort_entries es)
unfolding AllKnown sort_entries
AllKnown-sort_entries m [] h = tt
AllKnown-sort_entries m ((p, c) ∷ es) h =
    AllKnown-insert_entry m p c (sort_entries es) h.0 h.1 (AllKnown-sort_entries m es h.2)

AllKnown-entries_of :
    (m : List (Str × Codec)) (c : Codec) (ms : List (List ℕ))
    → find c.id m ≡ some c
    → ((head : List ℕ) → marked head ms ≡ true → marked head c.magic ≡ true)
    → AllKnown m (entries_of c ms)
unfolding AllKnown entries_of marked
AllKnown-entries_of m c [] e o = tt
AllKnown-entries_of m c (p ∷ ms) e o = (
  e,
  λ head h. o head (first _ _ h),
  AllKnown-entries_of m c ms e (λ head h. o head (second _ _ h)),
)
  where
    first : (a b : Bool) → a ≡ true → (a || b) ≡ true
    first a b h = ground arith

    second : (a b : Bool) → b ≡ true → (a || b) ≡ true
    second a b h = ground arith

find_self : (c : Codec) (m : List (Str × Codec)) → find c.id ((c.id, c) ∷ m) ≡ some c
unfolding find
find_self c m = rw (same_refl c.id)

find-inversion :
    (id k : Str) (c d : Codec) (m : List (Str × Codec))
    → find id ((k, c) ∷ m) ≡ some d
    → ((k ≡ id) × (c ≡ d)) ⊎ (find id m ≡ some d)
unfolding find
find-inversion id k c d m e = elim (Bool-cases (same k id)) [
  | inl is ↦ inl (same_eq k id is, let f : some c ≡ some d = rw is at e in cc)
  | inr isnt ↦ inr (rw isnt at e)
]

-- A new identifier hides none of those that were there.
find-cons :
    (id k : Str) (c d : Codec) (m : List (Str × Codec))
    → find k m ≡ none
    → find id m ≡ some d
    → find id ((k, c) ∷ m) ≡ some d
unfolding find
find-cons id k c d m new e = elim (Bool-cases (same k id)) [
  | inl is ↦ absurd (none_some (sym (subst (λ i. find i m ≡ none) (same_eq k id is) new) ∙ e))
  | inr isnt ↦ rw isnt e
]
  where
    none_some : ◌≡◌ {A = Option Codec} none (some d) → ⊥
    none_some h = cc

AllKnown-cons :
    (k : Str) (c : Codec) (m : List (Str × Codec)) (es : List (List ℕ × Codec))
    → find k m ≡ none
    → AllKnown m es
    → AllKnown ((k, c) ∷ m) es
unfolding AllKnown
AllKnown-cons k c m [] new h = tt
AllKnown-cons k c m ((p, d) ∷ es) new h =
    (find-cons d.id k c d m new h.0, h.1, AllKnown-cons k c m es new h.2)

module _ (c : Codec) (r : Registry) (new : find c.id r.by_id ≡ none) (i : IsRegistry r) where
  add_codec-named : (id : Str) (d : Codec) → find id ((c.id, c) ∷ r.by_id) ≡ some d → d.id ≡ id
  add_codec-named id d e = elim (find-inversion id c.id c d r.by_id e) [
    | inl (k, same_codec) ↦ ap (λ (x : Codec). x.id) (sym same_codec) ∙ k
    | inr old ↦ i.named id d old
  ]

  fits-add_codec :
      (head : List ℕ)
      → fits head (add_codec c r).entries ≡ (fits head r.entries || marked head c.magic)
  fits-add_codec head =
      fits-sort_entries head (r.entries ++ entries_of c c.magic)
      ∙ fits-append head r.entries (entries_of c c.magic)
      ∙ ap (λ b. fits head r.entries || b) (fits-entries_of head c c.magic)

  add_codec-listed :
      (id : Str) (d : Codec) (head : List ℕ)
      → find id ((c.id, c) ∷ r.by_id) ≡ some d
      → marked head d.magic ≡ true
      → fits head (add_codec c r).entries ≡ true
  add_codec-listed id d head e h = elim (find-inversion id c.id c d r.by_id e) [
    | inl (k, same_codec) ↦
        let own : marked head c.magic ≡ true =
          subst (λ (x : Codec). marked head x.magic ≡ true) (sym same_codec) h in
        ground (arith, fits-add_codec head)
    | inr old ↦ ground (arith, fits-add_codec head, i.listed id d head old h)
  ]

  add_codec-IsRegistry : IsRegistry (add_codec c r)
  add_codec-IsRegistry = record {
    all_known = AllKnown-sort_entries _ _ (
        AllKnown-append _ r.entries _ (AllKnown-cons c.id c r.by_id r.entries new i.all_known)
          (AllKnown-entries_of _ c c.magic (find_self c r.by_id) (λ head h. h)));
    named = add_codec-named;
    listed = add_codec-listed;
  }

pub ok_inj : {A : Type 0} (d a b : A) → ◌≡◌ {A = Result A} (ok a) (ok b) → a ≡ b
ok_inj d a b e = ap (λ r. elim r [ ok x ↦ x | err _ ↦ d ]) e

register-IsRegistry :
    (c : Codec) (r q : Registry) → register (some c) r ≡ ok q → IsRegistry r → IsRegistry q
unfolding register
register-IsRegistry c r q e i = elim (Option-cases (find c.id r.by_id)) [
  | inl new ↦ subst IsRegistry (added new) (add_codec-IsRegistry c r new i)
  | inr (d, old) ↦ absurd (ground arith)
]
  where
    added : find c.id r.by_id ≡ none → add_codec c r ≡ q
    added new = ground arith

pub register_defaults-IsRegistry :
    (cs : List Codec) (r q : Registry) → register_defaults cs r ≡ ok q → IsRegistry r → IsRegistry q
unfolding register_defaults
register_defaults-IsRegistry [] r q e i = subst IsRegistry (ok_inj r r q e) i
register_defaults-IsRegistry (c ∷ cs) r q e i =
    by_first (register (some c) r) refl e (λ r'. register_defaults-IsRegistry cs r' q)
  where
    by_first :
        (x : Result Registry)
        → register (some c) r ≡ x
        → bind x (register_defaults cs) ≡ ok q
        → ((r' : Registry) → register_defaults cs r' ≡ ok q → IsRegistry r' → IsRegistry q)
        → IsRegistry q
    by_first (ok r') f g rest = rest r' g (register-IsRegistry c r r' f i)
    by_first (err x) f g rest = cc

pub IsRegistry-new : IsRegistry new_registry
unfolding AllKnown find
IsRegistry-new = record { all_known = tt; named = λ id c e. cc; listed = λ id c head e h. cc }
