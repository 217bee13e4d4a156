-- ===== src/Queue/Moves.antt =====
-- What putting and dropping one item does to the content of a queue with room.
use sfpg_go.Base.{
  ℕ, suc, ◌+◌, ◌-◌, ◌%◌, ◌<◌, bit_and, ◌≡◌, refl, sym, ap, subst, ◌∙◌, [], ◌∷◌, ◌++◌, arith, length,
  get_or, set, length-set,
}
use sfpg_go.Base.Bits.{IsPow2, pow2_pos, bit_and-mask}
use sfpg_go.Queue.{
  Queue, read, slice_loop, slice, put_back, put_front, drop_front, drop_back, back_index,
}
use sfpg_go.Queue.View.{read_mod, slice_loop_ext, slice_loop-snoc}
use sfpg_go.Queue.Inv.{Inv, mod_apart, mod_back, read-set_self, read-set_ne}
use native.Mathlib.Numerals.{add-one}
use native.Mathlib.Nat.{add-zero, add_comm, mod-eq_of_lt, mod-lt, mod-add-mod, add-mod_right}

zero_left : (r : ℕ) → 0 + r ≡ r
zero_left r = omega arith

regroup : (h m : ℕ) → 0 < m → h + m - 1 ≡ h + (m - 1)
regroup h m p = omega arith

lap : (h m r : ℕ) → 0 < m → h + (m - 1) + (1 + r) ≡ h + (0 + r) + m
lap h m r p = omega arith

front_out : (h n : ℕ) → 0 < n → h + n ≡ h + 1 + (n - 1)
front_out h n p = omega arith

front_in : (h r : ℕ) → h + 1 + (0 + r) ≡ h + (1 + r)
front_in h r = omega arith

back_out : (h n : ℕ) → 0 < n → h + n - 1 ≡ h + (n - 1)
back_out h n p = omega arith

pred_suc : (n : ℕ) → 0 < n → n ≡ suc (n - 1)
pred_suc n p = omega arith

module _ {ℓ} {A : Type ℓ} (z : A) where
  put_back_tail :
      (q : Queue A)
      → Inv q
      → bit_and (q.tail + 1) (length q.buf - 1) ≡ (q.head + (q.size + 1)) % length q.buf
  put_back_tail q v =
      bit_and-mask v.pow (q.tail + 1)
      ∙ ap (λ t. (t + 1) % length q.buf) v.tail_at
      ∙ mod-add-mod (q.head + q.size) (length q.buf) 1
      ∙ ap (λ t. t % length q.buf) (omega arith)

  tail_in : (q : Queue A) → Inv q → q.tail < length q.buf
  tail_in q v = omega (arith, v.tail_at, v.head_in, mod-lt (q.head + q.size) {m = length q.buf})

  pub put_back-Inv : (x : A) (q : Queue A) → Inv q → q.size < length q.buf → Inv (put_back z x q)
  unfolding put_back
  put_back-Inv x q v room =
      let m = length-set q.buf q.tail x in
      record {
        pow = subst IsPow2 (sym m) v.pow;
        roomy = omega (arith, m, v.roomy);
        head_in = omega (arith, m, v.head_in);
        size_in = omega (arith, m);
        tail_at = put_back_tail q v ∙ ap (λ n. (q.head + (q.size + 1)) % n) (sym m);
        counted = omega (arith, v.counted);
      }

  pub slice-put_back :
      (x : A) (q : Queue A)
      → Inv q
      → q.size < length q.buf
      → slice z (put_back z x q) ≡ slice z q ++ x ∷ []
  unfolding slice put_back
  slice-put_back x q v room =
      ap (slice_loop z (set q.buf q.tail x) q.head 0) (add-one q.size)
      ∙ slice_loop-snoc z (set q.buf q.tail x) q.head 0 q.size
      ∙ ap (λ xs. xs ++ read z (set q.buf q.tail x) (q.head + (0 + q.size)) ∷ [])
          (slice_loop_ext z _ q.buf q.head q.head 0 0 q.size λ r below.
            read-set_ne z q.buf q.tail _ _ x v.pow refl λ e.
              mod_apart q.head (0 + r) q.size (length q.buf) v.head_in (omega arith) room
                (e ∙ v.tail_at))
      ∙ ap (λ y. slice z q ++ y ∷ [])
          (read-set_self z q.buf q.tail _ x v.pow
            (ap (λ k. (q.head + k) % length q.buf) (zero_left q.size) ∙ sym v.tail_at)
            (tail_in q v))

  -- The slot before the front.
  front_slot :
      (q : Queue A)
      → Inv q
      → bit_and (q.head + length q.buf - 1) (length q.buf - 1)
        ≡ (q.head + (length q.buf - 1)) % length q.buf
  front_slot q v =
      bit_and-mask v.pow (q.head + length q.buf - 1)
      ∙ ap (λ k. k % length q.buf) (regroup q.head (length q.buf) (pow2_pos v.pow))

  front_shift : (h m r : ℕ) → 0 < m → ((h + (m - 1)) % m + (1 + r)) % m ≡ (h + (0 + r)) % m
  front_shift h m r p =
      mod-add-mod (h + (m - 1)) m (1 + r)
      ∙ ap (λ k. k % m) (lap h m r p)
      ∙ add-mod_right (h + (0 + r)) m

  front_slot_in :
      (q : Queue A) → Inv q → bit_and (q.head + length q.buf - 1) (length q.buf - 1) < length q.buf
  front_slot_in q v =
      omega (arith, front_slot q v, mod-lt (q.head + (length q.buf - 1)) (pow2_pos v.pow))

  pub put_front-Inv : (x : A) (q : Queue A) → Inv q → q.size < length q.buf → Inv (put_front z x q)
  unfolding put_front
  put_front-Inv x q v room =
      let t = bit_and (q.head + length q.buf - 1) (length q.buf - 1) in
      let m = length-set q.buf t x in
      record {
        pow = subst IsPow2 (sym m) v.pow;
        roomy = omega (arith, m, v.roomy);
        head_in = omega (arith, m, front_slot_in q v);
        size_in = omega (arith, m);
        tail_at =
            v.tail_at
            ∙ ap (λ k. (q.head + k) % length q.buf) (sym (zero_left q.size))
            ∙ sym (front_shift q.head (length q.buf) q.size (pow2_pos v.pow))
            ∙ ap (λ k. (k + (1 + q.size)) % length q.buf) (sym (front_slot q v))
            ∙ ap (λ n. (t + n) % length q.buf) (add_comm 1 q.size)
            ∙ ap (λ n. (t + (q.size + 1)) % n) (sym m);
        counted = omega (arith, v.counted);
      }

  pub slice-put_front :
      (x : A) (q : Queue A)
      → Inv q
      → q.size < length q.buf
      → slice z (put_front z x q) ≡ x ∷ slice z q
  unfolding slice put_front
  slice-put_front x q v room =
      let t = bit_and (q.head + length q.buf - 1) (length q.buf - 1) in
      let first : read z (set q.buf t x) (t + 0) ≡ x =
        read-set_self z q.buf t (t + 0) x v.pow
          (ap (λ k. k % length q.buf) (add-zero t) ∙ mod-eq_of_lt (front_slot_in q v))
          (front_slot_in q v) in
      let rest : slice_loop z (set q.buf t x) t 1 q.size ≡ slice_loop z q.buf q.head 0 q.size =
        slice_loop_ext z _ q.buf t q.head 1 0 q.size λ r below.
          read-set_ne z q.buf t _ _ x v.pow
            (ap (λ k. (k + (1 + r)) % length q.buf) (front_slot q v)
              ∙ front_shift q.head (length q.buf) r (pow2_pos v.pow))
            λ e.
              mod_apart q.head (0 + r) (length q.buf - 1) (length q.buf) v.head_in (omega arith)
                (omega (arith, pow2_pos v.pow)) (e ∙ front_slot q v) in
      ap (slice_loop z (set q.buf t x) t 0) (add-one q.size)
      ∙ ap (λ y. y ∷ slice_loop z (set q.buf t x) t 1 q.size) first
      ∙ ap (λ ys. x ∷ ys) rest

  head_step :
      (q : Queue A) → Inv q → bit_and (q.head + 1) (length q.buf - 1) ≡ (q.head + 1) % length q.buf
  head_step q v = bit_and-mask v.pow (q.head + 1)

  pub drop_front-Inv : (q : Queue A) → Inv q → 0 < q.size → Inv (drop_front z q)
  unfolding drop_front
  drop_front-Inv q v some_item =
      let m = length-set q.buf q.head z in
      record {
        pow = subst IsPow2 (sym m) v.pow;
        roomy = omega (arith, m, v.roomy);
        head_in = omega (arith, m, head_step q v, mod-lt (q.head + 1) (pow2_pos v.pow));
        size_in = omega (arith, m, v.size_in);
        tail_at =
            v.tail_at
            ∙ ap (λ k. k % length q.buf) (front_out q.head q.size some_item)
            ∙ sym (mod-add-mod (q.head + 1) (length q.buf) (q.size - 1))
            ∙ ap (λ k. (k + (q.size - 1)) % length q.buf) (sym (head_step q v))
            ∙ ap (λ n. (bit_and (q.head + 1) (length q.buf - 1) + (q.size - 1)) % n) (sym m);
        counted = omega (arith, v.counted);
      }

  -- The front item, and what is left behind it.
  pub slice-drop_front :
      (q : Queue A)
      → Inv q
      → 0 < q.size
      → slice z q ≡ get_or q.buf q.head z ∷ slice z (drop_front z q)
  unfolding slice drop_front
  slice-drop_front q v some_item =
      let n = q.size - 1 in
      let h' = bit_and (q.head + 1) (length q.buf - 1) in
      let first : read z q.buf (q.head + 0) ≡ get_or q.buf q.head z =
        read_mod z q.buf v.pow (q.head + 0)
        ∙ ap (λ k. get_or q.buf k z)
            (ap (λ k. k % length q.buf) (add-zero q.head) ∙ mod-eq_of_lt v.head_in) in
      let rest : slice_loop z q.buf q.head 1 n ≡ slice_loop z (set q.buf q.head z) h' 0 n = sym (
        slice_loop_ext z _ q.buf h' q.head 0 1 n λ r below.
          read-set_ne z q.buf q.head _ _ z v.pow
            (ap (λ k. (k + (0 + r)) % length q.buf) (head_step q v)
              ∙ mod-add-mod (q.head + 1) (length q.buf) (0 + r)
              ∙ ap (λ k. k % length q.buf) (front_in q.head r))
            λ e.
              mod_apart q.head 0 (1 + r) (length q.buf) v.head_in (omega arith)
                (omega (arith, v.size_in))
                (ap (λ k. k % length q.buf) (add-zero q.head) ∙ mod-eq_of_lt v.head_in ∙ sym e)) in
      ap (slice_loop z q.buf q.head 0) (pred_suc q.size some_item)
      ∙ ap (λ y. y ∷ slice_loop z q.buf q.head 1 n) first
      ∙ ap (λ ys. get_or q.buf q.head z ∷ ys) rest

  back_slot :
      (q : Queue A) → Inv q → 0 < q.size → back_index z q ≡ (q.head + (q.size - 1)) % length q.buf
  unfolding back_index
  back_slot q v some_item =
      bit_and-mask v.pow (q.tail + length q.buf - 1)
      ∙ ap (λ t. (t + length q.buf - 1) % length q.buf) v.tail_at
      ∙ mod_back (q.head + q.size) (length q.buf) (pow2_pos v.pow) (omega arith)
      ∙ ap (λ k. k % length q.buf) (back_out q.head q.size some_item)

  pub drop_back-Inv : (q : Queue A) → Inv q → 0 < q.size → Inv (drop_back z q)
  unfolding drop_back
  drop_back-Inv q v some_item =
      let m = length-set q.buf (back_index z q) z in
      record {
        pow = subst IsPow2 (sym m) v.pow;
        roomy = omega (arith, m, v.roomy);
        head_in = omega (arith, m, v.head_in);
        size_in = omega (arith, m, v.size_in);
        tail_at = back_slot q v some_item ∙ ap (λ n. (q.head + (q.size - 1)) % n) (sym m);
        counted = omega (arith, v.counted);
      }

  -- The back item, and what is left before it.
  pub slice-drop_back :
      (q : Queue A)
      → Inv q
      → 0 < q.size
      → slice z q ≡ slice z (drop_back z q) ++ get_or q.buf (back_index z q) z ∷ []
  unfolding slice drop_back
  slice-drop_back q v some_item =
      let n = q.size - 1 in
      let t = back_index z q in
      let last : read z q.buf (q.head + (0 + n)) ≡ get_or q.buf t z =
        read_mod z q.buf v.pow (q.head + (0 + n))
        ∙ ap (λ k. get_or q.buf k z)
            (ap (λ k. (q.head + k) % length q.buf) (zero_left n) ∙ sym (back_slot q v some_item)) in
      let rest : slice_loop z q.buf q.head 0 n ≡ slice_loop z (set q.buf t z) q.head 0 n = sym (
        slice_loop_ext z _ q.buf q.head q.head 0 0 n λ r below.
          read-set_ne z q.buf t _ _ z v.pow refl λ e.
            mod_apart q.head (0 + r) n (length q.buf) v.head_in (omega arith)
              (omega (arith, v.size_in)) (e ∙ back_slot q v some_item)) in
      ap (slice_loop z q.buf q.head 0) (pred_suc q.size some_item)
      ∙ slice_loop-snoc z q.buf q.head 0 n
      ∙ ap (λ xs. xs ++ read z q.buf (q.head + (0 + n)) ∷ []) rest
      ∙ ap (λ y. slice_loop z (set q.buf t z) q.head 0 n ++ y ∷ []) last
