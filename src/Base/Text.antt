-- ===== src/Base/Text.antt =====
-- What the code uses of Go's strings: equality, the length in bytes, and strings.TrimSpace. A string
-- is the list of its code points.
use Prim.Native.Char.{code}
use Prim.Native.String.{String}
use sfpg_go.Base.{
  Option, none, some, ℕ, ◌+◌, ◌≡◌, refl, Bool, true, false, ◌&&◌, ◌||◌, List, [], ◌∷◌, ◌++◌, ltb,
  leb, ◌==◌, ==_iff, if◌then◌else◌, arith,
}

abbrev pub Str : Type 0
Str = List ℕ

unfoldable pub same : Str → Str → Bool
same [] [] = true
same [] (c ∷ cs) = false
same (c ∷ cs) [] = false
same (c ∷ cs) (d ∷ ds) = (c == d) && same cs ds

pub same_refl : (s : Str) → same s s ≡ true
unfolding same
same_refl [] = refl
same_refl (c ∷ cs) = ground (arith, same_refl cs)

pub same_eq : (s t : Str) → same s t ≡ true → s ≡ t
unfolding same
same_eq [] [] h = refl
same_eq [] (c ∷ cs) h = ground arith
same_eq (c ∷ cs) [] h = ground arith
same_eq (c ∷ cs) (d ∷ ds) h =
    let (head, tail) = both_true (c == d) (same cs ds) h in
    rw ((==_iff c d).0 head, same_eq cs ds tail)
  where
    both_true : (a b : Bool) → (a && b) ≡ true → (a ≡ true) × (b ≡ true)
    both_true a b e = ground arith

-- The bytes of a code point in UTF-8.
abbrev pub width : ℕ → ℕ
width c = if ltb c 128 then 1 else if ltb c 2048 then 2 else if ltb c 65536 then 3 else 4

unfoldable pub byte_len : Str → ℕ
byte_len [] = 0
byte_len (c ∷ cs) = width c + byte_len cs

-- unicode.IsSpace.
unfoldable pub is_space : ℕ → Bool
is_space c =
    (leb 9 c && leb c 13)
    || (c == 32)
    || (c == 133)
    || (c == 160)
    || (c == 5760)
    || (leb 8192 c && leb c 8202)
    || (c == 8232)
    || (c == 8233)
    || (c == 8239)
    || (c == 8287)
    || (c == 12288)

unfoldable pub trim_left : Str → Str
unfolding is_space
trim_left [] = []
trim_left (c ∷ cs) = let rest = trim_left cs in if is_space c then rest else c ∷ cs

unfoldable pub reverse : Str → Str
reverse [] = []
reverse (c ∷ cs) = reverse cs ++ c ∷ []

unfoldable pub trim_space : Str → Str
unfolding trim_left reverse
trim_space s = reverse (trim_left (reverse (trim_left s)))

-- The code points of a text: its bytes, if it is ASCII.
abbrev pub codes : String → Str
codes String.[] = []
codes (String.◌∷◌ c s) = code c ∷ codes s

-- strings.HasPrefix, Contains and Split at a single byte.
unfoldable pub has_prefix : Str → Str → Bool
has_prefix s [] = true
has_prefix [] (d ∷ ds) = false
has_prefix (c ∷ cs) (d ∷ ds) = (c == d) && has_prefix cs ds

unfoldable pub contains : Str → Str → Bool
unfolding has_prefix
contains [] sub = has_prefix [] sub
contains (c ∷ cs) sub = has_prefix (c ∷ cs) sub || contains cs sub

abbrev pub cons_first : ℕ → List Str → List Str
cons_first c [] = (c ∷ []) ∷ []
cons_first c (s ∷ ss) = (c ∷ s) ∷ ss

unfoldable pub split_at : ℕ → Str → List Str
split_at sep [] = [] ∷ []
split_at sep (c ∷ cs) =
    let rest = split_at sep cs in if c == sep then [] ∷ rest else cons_first c rest

-- strings.Cut at a single byte; the second part is `none` if the byte is not there.
abbrev pub put_first : ℕ → Str × Option Str → Str × Option Str
put_first c (s, r) = (c ∷ s, r)

unfoldable pub cut : ℕ → Str → Str × Option Str
cut sep [] = ([], none)
cut sep (c ∷ cs) = let rest = cut sep cs in if c == sep then ([], some cs) else put_first c rest

abbrev pub lower : ℕ → ℕ
lower c =
    if leb b'A' c && leb c b'Z'
    then c + 32
    else if c == 8490
    then b'k'
    else if c == 304
    then b'i'
    else c

-- strings.ToLower on ASCII, and the two other code points whose lower case is in ASCII.
unfoldable pub to_lower : Str → Str
to_lower [] = []
to_lower (c ∷ cs) = lower c ∷ to_lower cs

pub append-cancel : (xs ys zs : Str) → xs ++ ys ≡ xs ++ zs → ys ≡ zs
append-cancel [] ys zs e = e
append-cancel (x ∷ xs) ys zs e = append-cancel xs ys zs (cc)
