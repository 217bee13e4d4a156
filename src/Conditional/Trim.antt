-- ===== src/Conditional/Trim.antt =====
-- strings.TrimSpace on white space around a text that begins and ends with other characters.
use sfpg_go.Base.{ℕ, ◌≡◌, refl, ap, sym, ◌∙◌, true, false, [], ◌∷◌, ◌++◌}
use sfpg_go.Base.Text.{Str, is_space, trim_left, reverse, trim_space}

unfoldable pub AllSpace : Str → Type 0
AllSpace [] = Unit
AllSpace (c ∷ cs) = (is_space c ≡ true) × AllSpace cs

append_nil : (xs : Str) → xs ++ [] ≡ xs
append_nil [] = refl
append_nil (x ∷ xs) = ap (λ r. x ∷ r) (append_nil xs)

append_assoc : (xs ys zs : Str) → (xs ++ ys) ++ zs ≡ xs ++ (ys ++ zs)
append_assoc [] ys zs = refl
append_assoc (x ∷ xs) ys zs = ap (λ r. x ∷ r) (append_assoc xs ys zs)

reverse-append : (xs ys : Str) → reverse (xs ++ ys) ≡ reverse ys ++ reverse xs
unfolding reverse
reverse-append [] ys = sym (append_nil (reverse ys))
reverse-append (x ∷ xs) ys =
    ap (λ r. r ++ x ∷ []) (reverse-append xs ys) ∙ append_assoc (reverse ys) (reverse xs) (x ∷ [])

reverse-reverse : (xs : Str) → reverse (reverse xs) ≡ xs
unfolding reverse
reverse-reverse [] = refl
reverse-reverse (x ∷ xs) =
    reverse-append (reverse xs) (x ∷ []) ∙ ap (λ r. x ∷ r) (reverse-reverse xs)

AllSpace-append : (xs ys : Str) → AllSpace xs → AllSpace ys → AllSpace (xs ++ ys)
unfolding AllSpace
AllSpace-append [] ys h g = g
AllSpace-append (x ∷ xs) ys h g = (h.0, AllSpace-append xs ys h.1 g)

reverse-AllSpace : (xs : Str) → AllSpace xs → AllSpace (reverse xs)
unfolding AllSpace reverse
reverse-AllSpace [] h = tt
reverse-AllSpace (x ∷ xs) h =
    AllSpace-append (reverse xs) (x ∷ []) (reverse-AllSpace xs h.1) (h.0, tt)

trim_left-append :
    (lead : Str) (c : ℕ) (s : Str)
    → AllSpace lead
    → is_space c ≡ false
    → trim_left (lead ++ c ∷ s) ≡ c ∷ s
unfolding AllSpace trim_left
trim_left-append [] c s h g = rw g refl
trim_left-append (x ∷ xs) c s h g = rw (h.0) (trim_left-append xs c s h.1 g)

pub trim_space_around :
    (lead : Str) (c : ℕ) (middle : Str) (d : ℕ) (trail : Str)
    → AllSpace lead
    → AllSpace trail
    → is_space c ≡ false
    → is_space d ≡ false
    → trim_space (lead ++ ((c ∷ middle ++ d ∷ []) ++ trail)) ≡ c ∷ middle ++ d ∷ []
unfolding trim_space reverse
trim_space_around lead c middle d trail hl ht hc hd =
    let core : Str = c ∷ middle ++ d ∷ [] in
    let backwards : reverse core ≡ d ∷ reverse middle ++ c ∷ [] =
      ap (λ r. r ++ c ∷ []) (reverse-append middle (d ∷ [])) in
    let inner : trim_left (reverse (core ++ trail)) ≡ reverse core =
      ap trim_left (reverse-append core trail ∙ ap (λ r. reverse trail ++ r) backwards)
      ∙ trim_left-append (reverse trail) d (reverse middle ++ c ∷ []) (reverse-AllSpace trail ht) hd
      ∙ sym backwards in
    ap (λ r. reverse (trim_left (reverse r)))
      (trim_left-append lead c ((middle ++ d ∷ []) ++ trail) hl hc)
    ∙ ap reverse inner
    ∙ reverse-reverse core
