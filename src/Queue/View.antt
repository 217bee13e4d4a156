-- ===== src/Queue/View.antt =====
-- What the circular buffer of a queue holds: the loops of `Slice` and `resize`, read by read.
use sfpg_go.Base.{
  ℕ, zero, suc, ◌+◌, ◌-◌, ◌%◌, ◌≤◌, ◌<◌, ◌≡◌, refl, sym, ap, ◌∙◌, List, [], ◌∷◌, ◌++◌, arith,
  length, get_or, set, length-set, ◌⊎◌, inl, inr, get_or-set_self, get_or-set_ne,
}
use sfpg_go.Base.Bits.{IsPow2, bit_and-mask}
use sfpg_go.Queue.{read, slice_loop, fill}
use native.Mathlib.Decide.{dec_lt}
use native.Mathlib.Nat.{mod-eq_of_lt, mod-eq-sub-mod}

add-zero_right : (h i : ℕ) → h + (i + 0) ≡ h + i
add-zero_right h i = omega arith

suc_shift : (h i r : ℕ) → h + (suc i + r) ≡ h + (i + suc r)
suc_shift h i r = omega arith

-- One lap at most is taken off.
pub mod_lap :
    (h j m : ℕ)
    → h < m
    → j ≤ m
    → ((h + j < m) × ((h + j) % m ≡ h + j)) ⊎ ((m ≤ h + j) × ((h + j) % m ≡ h + j - m))
mod_lap h j m p q = elim (dec_lt (h + j) m) [
  | yes below ↦ inl (below, mod-eq_of_lt below)
  | no above ↦
      inr (omega arith, mod-eq-sub-mod {n = h + j} (omega arith) ∙ mod-eq_of_lt (omega arith))
]

module _ {ℓ} {A : Type ℓ} (z : A) where
  pub read_mod :
      (buf : List A) → IsPow2 (length buf) → (i : ℕ) → read z buf i ≡ get_or buf (i % length buf) z
  unfolding read
  read_mod buf p i = ap (λ k. get_or buf k z) (bit_and-mask p i)

  -- Two loops that read the same elements.
  pub slice_loop_ext :
      (b c : List A) (h k i j n : ℕ)
      → ((r : ℕ) → r < n → read z b (h + (i + r)) ≡ read z c (k + (j + r)))
      → slice_loop z b h i n ≡ slice_loop z c k j n
  unfolding slice_loop
  slice_loop_ext b c h k i j zero same = refl
  slice_loop_ext b c h k i j (suc n) same =
      let first : read z b (h + i) ≡ read z c (k + j) =
        ground
          (arith, same 0, ap (read z b) (add-zero_right h i), ap (read z c) (add-zero_right k j)) in
      let rest : slice_loop z b h (suc i) n ≡ slice_loop z c k (suc j) n =
        slice_loop_ext b c h k (suc i) (suc j) n (λ r p.
          ap (read z b) (suc_shift h i r)
          ∙ same (suc r) (omega arith)
          ∙ ap (read z c) (sym (suc_shift k j r))) in
      cc

  pub slice_loop-snoc :
      (b : List A) (h i n : ℕ)
      → slice_loop z b h i (suc n) ≡ slice_loop z b h i n ++ read z b (h + (i + n)) ∷ []
  unfolding slice_loop
  slice_loop-snoc b h i zero = ap (λ k. read z b k ∷ []) (sym (add-zero_right h i))
  slice_loop-snoc b h i (suc n) =
      ap (λ xs. read z b (h + i) ∷ xs)
        (slice_loop-snoc b h (suc i) n
          ∙ ap (λ k. slice_loop z b h (suc i) n ++ read z b k ∷ []) (suc_shift h i n))

  pub length-fill :
      (b : List A) (h i n : ℕ) (out : List A) → length (fill z b h i n out) ≡ length out
  unfolding fill
  length-fill b h i zero out = refl
  length-fill b h i (suc n) out = length-fill b h (suc i) n _ ∙ length-set out i _

  -- `resize` copies element `r` to place `r`.
  pub get_or-fill_before :
      (b : List A) (h i n r : ℕ) (out : List A)
      → r < i
      → get_or (fill z b h i n out) r z ≡ get_or out r z
  unfolding fill
  get_or-fill_before b h i zero r out p = refl
  get_or-fill_before b h i (suc n) r out p =
      get_or-fill_before b h (suc i) n r _ (omega arith)
      ∙ get_or-set_ne out i r _ z (λ e. absurd (omega arith))

  pub get_or-fill :
      (b : List A) (h i n r : ℕ) (out : List A)
      → i ≤ r
      → r < i + n
      → i + n ≤ length out
      → get_or (fill z b h i n out) r z ≡ read z b (h + r)
  unfolding fill
  get_or-fill b h i zero r out p q s = absurd (omega arith)
  get_or-fill b h i (suc n) r out p q s = elim (dec_lt i r) [
    | yes later ↦
        get_or-fill b h (suc i) n r _ later (omega arith)
          (omega (arith, length-set out i (read z b (h + i))))
    | no here ↦
        let e : i ≡ r = omega arith in
        get_or-fill_before b h (suc i) n r _ (omega arith)
        ∙ ap (λ k. get_or (set out i (read z b (h + i))) k z) (sym e)
        ∙ get_or-set_self out i _ z (omega arith)
        ∙ ap (λ k. read z b (h + k)) e
  ]
