-- ===== src/Queue/Inv.antt =====
-- The well-formedness invariant of the deque, and that the parts of its operations keep it.
use sfpg_go.Base.{
  ℕ, ◌+◌, ◌-◌, ◌*◌, ◌/◌, ◌%◌, ◌≤◌, ◌<◌, max, ◌≡◌, refl, sym, ap, subst, ◌∙◌, ◌≢◌, inl, inr, List,
  arith, ◌==◌, leb, length, get_or, set, length-set, length-replicate, get_or-set_self,
  get_or-set_ne, Bool-cases,
}
use sfpg_go.Base.Bits.{IsPow2, IsPow2-half, IsPow2-sixteen, twice}
use sfpg_go.Queue.{Queue, read, slice, resize, shrink_if_needed, make_room, min_capacity}
use sfpg_go.Queue.View.{mod_lap, read_mod, slice_loop_ext, length-fill, get_or-fill}
use native.Mathlib.Decide.{dec_le}
use native.Mathlib.Nat.{mod-eq_of_lt, mod-add-mod, add-mod_right}

zeros : (r : ℕ) → 0 + (0 + r) ≡ r
zeros r = omega arith

zero_left : (r : ℕ) → 0 + r ≡ r
zero_left r = omega arith

pub record Inv {ℓ} {A : Type ℓ} (q : Queue A) : Type 0 where
  pub pow : IsPow2 (length q.buf)
  pub roomy : min_capacity ≤ length q.buf
  pub head_in : q.head < length q.buf
  pub size_in : q.size ≤ length q.buf
  pub tail_at : q.tail ≡ (q.head + q.size) % length q.buf
  pub counted : q.size + q.ct_remove_back + q.ct_remove_front ≤ q.ct_add_back + q.ct_add_front

-- Two places of one window are two slots.
pub mod_apart : (h j s m : ℕ) → h < m → j < s → s < m → (h + j) % m ≢ (h + s) % m
mod_apart h j s m p q r = ground (arith, mod_lap h j m p, mod_lap h s m p)

-- `(x % m + m - 1) % m` steps one slot back.
pub mod_back : (x m : ℕ) → 0 < m → 0 < x → (x % m + m - 1) % m ≡ (x - 1) % m
mod_back x m p q =
    let e : x % m + m - 1 ≡ x % m + (m - 1) = omega arith in
    let e' : x + (m - 1) ≡ (x - 1) + m = omega arith in
    ap (λ k. k % m) e ∙ mod-add-mod x m (m - 1) ∙ ap (λ k. k % m) e' ∙ add-mod_right (x - 1) m

module _ {ℓ} {A : Type ℓ} (z : A) where
  pub read-set_self :
      (b : List A) (t i : ℕ) (x : A)
      → IsPow2 (length b)
      → i % length b ≡ t
      → t < length b
      → read z (set b t x) i ≡ x
  read-set_self b t i x p e below =
      read_mod z (set b t x) (subst IsPow2 (sym (length-set b t x)) p) i
      ∙ ap (λ n. get_or (set b t x) (i % n) z) (length-set b t x)
      ∙ ap (λ k. get_or (set b t x) k z) e
      ∙ get_or-set_self b t x z below

  pub read-set_ne :
      (b : List A) (t i j : ℕ) (x : A)
      → IsPow2 (length b)
      → i % length b ≡ j % length b
      → j % length b ≢ t
      → read z (set b t x) i ≡ read z b j
  read-set_ne b t i j x p e apart =
      read_mod z (set b t x) (subst IsPow2 (sym (length-set b t x)) p) i
      ∙ ap (λ n. get_or (set b t x) (i % n) z) (length-set b t x)
      ∙ ap (λ k. get_or (set b t x) k z) e
      ∙ get_or-set_ne b t (j % length b) x z (λ same. apart (sym same))
      ∙ sym (read_mod z b p j)

  length-resize : (n : ℕ) (q : Queue A) → length (resize z n q).buf ≡ n
  unfolding resize
  length-resize n q = length-fill z q.buf q.head 0 q.size _ ∙ length-replicate n z

  copied :
      (n : ℕ) (q : Queue A) (r : ℕ)
      → IsPow2 n
      → q.size ≤ n
      → r < q.size
      → read z (resize z n q).buf (0 + (0 + r)) ≡ read z q.buf (q.head + (0 + r))
  unfolding resize
  copied n q r p fits below =
      let m : length (resize z n q).buf ≡ n = length-resize n q in
      read_mod z _ (subst IsPow2 (sym m) p) (0 + (0 + r))
      ∙ ap (λ k. get_or (resize z n q).buf k z) (mod-eq_of_lt (omega arith) ∙ zeros r)
      ∙ get_or-fill z q.buf q.head 0 q.size r _ (omega arith) (omega arith)
          (omega (arith, length-replicate n z))
      ∙ ap (λ k. read z q.buf (q.head + k)) (sym (zero_left r))

  -- `resize` keeps the content when the new buffer has room and a capacity that is a power of two.
  pub slice-resize :
      (n : ℕ) (q : Queue A) → IsPow2 n → q.size ≤ n → slice z (resize z n q) ≡ slice z q
  unfolding slice resize
  slice-resize n q p fits =
      slice_loop_ext z _ q.buf 0 q.head 0 0 q.size (λ r below. copied n q r p fits below)

  pub resize-Inv :
      (n : ℕ) (q : Queue A)
      → IsPow2 n
      → min_capacity ≤ n
      → q.size < n
      → q.size + q.ct_remove_back + q.ct_remove_front ≤ q.ct_add_back + q.ct_add_front
      → Inv (resize z n q)
  unfolding resize
  resize-Inv n q p big fits counted =
      let m : length (resize z n q).buf ≡ n = length-resize n q in
      record {
        pow = subst IsPow2 (sym m) p;
        roomy = omega arith;
        head_in = omega arith;
        size_in = omega arith;
        tail_at = sym (mod-eq_of_lt (omega arith) ∙ zero_left q.size);
        counted = counted;
      }

  pub make_room-Inv : (q : Queue A) → Inv q → Inv (make_room z q)
  unfolding make_room
  make_room-Inv q v = elim (Bool-cases (q.size == length q.buf)) [
    | inl full ↦ rw full (
        resize-Inv (length q.buf * 2) q (twice (length q.buf) v.pow refl) (omega (arith, v.roomy))
          (ground (arith, v.roomy)) v.counted)
    | inr room ↦ rw room v
  ]

  pub slice-make_room : (q : Queue A) → Inv q → slice z (make_room z q) ≡ slice z q
  unfolding make_room
  slice-make_room q v = elim (Bool-cases (q.size == length q.buf)) [
    | inl full ↦ rw full (
        slice-resize (length q.buf * 2) q (twice (length q.buf) v.pow refl)
          (ground (arith, v.roomy)))
    | inr room ↦ rw room
  ]

  -- After `make_room` there is a free slot.
  pub make_room_fits : (q : Queue A) → Inv q → (make_room z q).size < length (make_room z q).buf
  unfolding make_room
  make_room_fits q v = elim (Bool-cases (q.size == length q.buf)) [
    | inl full ↦
        rw full (unfold resize in (ground (arith, v.roomy, length-resize (length q.buf * 2) q)))
    | inr room ↦ rw room (ground (arith, v.size_in))
  ]

  halved : (c : ℕ) → IsPow2 c → 16 < c → IsPow2 (max (c / 2) min_capacity)
  halved c p more = elim (dec_le min_capacity (c / 2)) [
    | yes big ↦
        let e : c / 2 ≡ max (c / 2) min_capacity = omega arith in
        subst IsPow2 e (IsPow2-half p (omega arith))
    | no small ↦
        let e : min_capacity ≡ max (c / 2) min_capacity = omega arith in
        subst IsPow2 e IsPow2-sixteen
  ]

  shrink_cases {κ} :
      (P : Queue A → Type κ) (q : Queue A)
      → P q
      → (16 < length q.buf
          → q.size < max (length q.buf / 2) min_capacity
          → P (resize z (max (length q.buf / 2) min_capacity) q))
      → P (shrink_if_needed z q)
  unfolding shrink_if_needed
  shrink_cases P q keep less = elim (Bool-cases (leb (length q.buf) min_capacity)) [
    | inl small ↦ rw small keep
    | inr large ↦ elim (Bool-cases (leb q.size (length q.buf / 4))) [
      | inl sparse ↦ rw (large, sparse) (less (ground arith) (ground arith))
      | inr dense ↦ rw (large, dense) keep
    ]
  ]

  pub shrink-Inv : (q : Queue A) → Inv q → Inv (shrink_if_needed z q)
  shrink-Inv q v = shrink_cases Inv q v λ more fits.
      resize-Inv (max (length q.buf / 2) min_capacity) q (halved (length q.buf) v.pow more)
        (omega arith) fits v.counted

  pub slice-shrink : (q : Queue A) → Inv q → slice z (shrink_if_needed z q) ≡ slice z q
  slice-shrink q v =
      shrink_cases (λ q'. slice z q' ≡ slice z q) q refl
        λ more fits.
          slice-resize (max (length q.buf / 2) min_capacity) q (halved (length q.buf) v.pow more)
            (omega arith)
