-- ===== src/Queue/Refine.antt =====
-- The circular buffer implements the deque of items.
use sfpg_go.Base.{
  ℕ, zero, suc, ◌<◌, ◌≡◌, refl, sym, ap, ◌∙◌, inl, inr, List, [], ◌∷◌, ◌++◌, none, arith, ◌==◌,
  get_or, length, Bool-cases, ◌&&◌, if_both,
}
use sfpg_go.Base.Int.{pos, ltb_ℤ, leb_ℤ}
use sfpg_go.Queue.{
  Queue, Result, ok, slice, slice_loop, Op, adds_back, adds_front, removes_front, removes_back,
  peeks_front, peeks_back, clears, closes, broadcasts, Reply, status, item, step, run, add_back,
  add_front, make_room, put_back, put_front, drop_front, drop_back, shrink_if_needed, back_index,
  is_full, clear, close, broadcast_waiters,
}
use sfpg_go.Base.Bits.{IsPow2-sixteen}
use sfpg_go.Queue.Inv.{
  Inv, make_room-Inv, slice-make_room, make_room_fits, shrink-Inv, slice-shrink,
}
use sfpg_go.Queue.Moves.{
  put_back-Inv, slice-put_back, put_front-Inv, slice-put_front, drop_front-Inv, slice-drop_front,
  drop_back-Inv, slice-drop_back,
}
use sfpg_go.Queue.Spec.{Deque, view, split_last, back-snoc, front, back, spec_step, spec_run}

module _ {ℓ} {A : Type ℓ} (z : A) where
  length-slice_loop : (b : List A) (h i n : ℕ) → length (slice_loop z b h i n) ≡ n
  unfolding slice_loop
  length-slice_loop b h i zero = refl
  length-slice_loop b h i (suc n) = ap suc (length-slice_loop b h (suc i) n)

  pub length-slice : (q : Queue A) → length (slice z q) ≡ q.size
  unfolding slice
  length-slice q = length-slice_loop q.buf q.head 0 q.size

  -- The queue is well formed, the caller sees the same, and the content is what the deque says.
  abbrev pub Agrees : Reply A × Queue A → Reply A × Deque A → Type ℓ
  Agrees r s = Inv r.1 × (r.0 ≡ s.0) × (view z r.1 ≡ s.1)

  abbrev AgreesStatus : Result (Unit {0}) × Queue A → Reply A × Deque A → Type ℓ
  AgreesStatus r s = Agrees (status r.0, r.1) s

  abbrev AgreesItem : Result A × Queue A → Reply A × Deque A → Type ℓ
  AgreesItem r s = Agrees (item r.0, r.1) s

  is_full_lem :
      (q : Queue A)
      → is_full z q ≡ (ltb_ℤ (pos 0) q.max_cap && leb_ℤ q.max_cap (pos (length (slice z q))))
  unfolding is_full
  is_full_lem q = rw (length-slice q)

  view_with :
      (q r : Queue A) (xs : List A)
      → q.closed ≡ r.closed
      → q.max_cap ≡ r.max_cap
      → slice z q ≡ xs
      → view z q ≡ record (view z r) { items = xs }
  view_with q r xs c m e = λ i. record { items = e i; closed = c i; max_cap = m i }

  closed-make_room : (q : Queue A) → (make_room z q).closed ≡ q.closed
  unfolding make_room
  closed-make_room q = ground arith

  max_cap-make_room : (q : Queue A) → (make_room z q).max_cap ≡ q.max_cap
  unfolding make_room
  max_cap-make_room q = ground arith

  put_back-Agrees :
      (x : A) (q : Queue A)
      → Inv q
      → Agrees
          (status (ok tt), put_back z x (make_room z q))
          (status (ok tt), record (view z q) { items = slice z q ++ x ∷ [] })
  put_back-Agrees x q v =
      let w = make_room-Inv z q v in
      let room = make_room_fits z q v in
      (
        put_back-Inv z x (make_room z q) w room,
        refl,
        view_with (put_back z x (make_room z q)) q (slice z q ++ x ∷ [])
            (unfold put_back in closed-make_room q) (unfold put_back in max_cap-make_room q)
            (slice-put_back z x (make_room z q) w room
              ∙ ap (λ xs. xs ++ x ∷ []) (slice-make_room z q v)),
      )

  put_front-Agrees :
      (x : A) (q : Queue A)
      → Inv q
      → Agrees
          (status (ok tt), put_front z x (make_room z q))
          (status (ok tt), record (view z q) { items = x ∷ slice z q })
  put_front-Agrees x q v =
      let w = make_room-Inv z q v in
      let room = make_room_fits z q v in
      (
        put_front-Inv z x (make_room z q) w room,
        refl,
        view_with (put_front z x (make_room z q)) q (x ∷ slice z q)
            (unfold put_front in closed-make_room q) (unfold put_front in max_cap-make_room q)
            (slice-put_front z x (make_room z q) w room
              ∙ ap (λ xs. x ∷ xs) (slice-make_room z q v)),
      )

  add_back-Agrees :
      (x : A) (q : Queue A)
      → Inv q
      → Agrees (step z (adds_back x) q) (spec_step (adds_back x) (view z q))
  unfolding step add_back spec_step
  add_back-Agrees x q v =
      if_both AgreesStatus q.closed (λ closed. (v, refl, refl))
        λ open_queue. rw (sym (is_full_lem q)) (
          if_both AgreesStatus (is_full z q) (λ full. (v, refl, refl))
            (λ room. put_back-Agrees x q v))

  add_front-Agrees :
      (x : A) (q : Queue A)
      → Inv q
      → Agrees (step z (adds_front x) q) (spec_step (adds_front x) (view z q))
  unfolding step add_front spec_step
  add_front-Agrees x q v =
      if_both AgreesStatus q.closed (λ closed. (v, refl, refl))
        λ open_queue. rw (sym (is_full_lem q)) (
          if_both AgreesStatus (is_full z q) (λ full. (v, refl, refl))
            (λ room. put_front-Agrees x q v))

  closed-shrink : (q : Queue A) → (shrink_if_needed z q).closed ≡ q.closed
  unfolding shrink_if_needed
  closed-shrink q = ground arith

  max_cap-shrink : (q : Queue A) → (shrink_if_needed z q).max_cap ≡ q.max_cap
  unfolding shrink_if_needed
  max_cap-shrink q = ground arith

  pub slice_empty : (q : Queue A) → q.size ≡ 0 → slice z q ≡ []
  slice_empty q e = ground (arith, length-slice q)

  back_nil : back {A = A} [] ≡ none
  unfolding back split_last
  back_nil = refl

  drop_front-Agrees :
      (q : Queue A)
      → Inv q
      → 0 < q.size
      → Agrees
          (item (ok (get_or q.buf q.head z)), shrink_if_needed z (drop_front z q))
          (
            item (ok (get_or q.buf q.head z)),
            record (view z q) { items = slice z (drop_front z q) },
          )
  drop_front-Agrees q v some_item =
      let w = drop_front-Inv z q v some_item in
      (
        shrink-Inv z (drop_front z q) w,
        refl,
        view_with (shrink_if_needed z (drop_front z q)) q (slice z (drop_front z q))
            (unfold drop_front in closed-shrink (drop_front z q))
            (unfold drop_front in max_cap-shrink (drop_front z q))
            (slice-shrink z (drop_front z q) w),
      )

  drop_back-Agrees :
      (q : Queue A)
      → Inv q
      → 0 < q.size
      → Agrees
          (item (ok (get_or q.buf (back_index z q) z)), shrink_if_needed z (drop_back z q))
          (
            item (ok (get_or q.buf (back_index z q) z)),
            record (view z q) { items = slice z (drop_back z q) },
          )
  drop_back-Agrees q v some_item =
      let w = drop_back-Inv z q v some_item in
      (
        shrink-Inv z (drop_back z q) w,
        refl,
        view_with (shrink_if_needed z (drop_back z q)) q (slice z (drop_back z q))
            (unfold drop_back in closed-shrink (drop_back z q))
            (unfold drop_back in max_cap-shrink (drop_back z q)) (slice-shrink z (drop_back z q) w),
      )

  remove_front-Agrees :
      (q : Queue A) → Inv q → Agrees (step z removes_front q) (spec_step removes_front (view z q))
  unfolding step spec_step front
  remove_front-Agrees q v = elim (Bool-cases (q.size == 0)) [
    | inl empty ↦ rw (empty, slice_empty q (ground arith)) (v, refl, refl)
    | inr left ↦
        let e = slice-drop_front z q v (ground arith) in
        rw (left, e)
          (if_both AgreesItem q.closed (λ closed. (v, refl, view_with q q _ refl refl e))
            (λ opened. drop_front-Agrees q v (ground arith)))
  ]

  remove_back-Agrees :
      (q : Queue A) → Inv q → Agrees (step z removes_back q) (spec_step removes_back (view z q))
  unfolding step spec_step
  remove_back-Agrees q v = elim (Bool-cases (q.size == 0)) [
    | inl empty ↦ rw (empty, slice_empty q (ground arith), back_nil) (v, refl, refl)
    | inr left ↦
        let e = slice-drop_back z q v (ground arith) in
        rw (left, e, back-snoc)
          (if_both AgreesItem q.closed (λ closed. (v, refl, view_with q q _ refl refl e))
            (λ opened. drop_back-Agrees q v (ground arith)))
  ]

  peek_front-Agrees :
      (q : Queue A) → Inv q → Agrees (step z peeks_front q) (spec_step peeks_front (view z q))
  unfolding step spec_step front
  peek_front-Agrees q v = elim (Bool-cases (q.size == 0)) [
    | inl empty ↦ (v, rw (empty, slice_empty q (ground arith)), refl)
    | inr left ↦ (v, rw (left, slice-drop_front z q v (ground arith)) (ground arith), refl)
  ]

  peek_back-Agrees :
      (q : Queue A) → Inv q → Agrees (step z peeks_back q) (spec_step peeks_back (view z q))
  unfolding step spec_step
  peek_back-Agrees q v = elim (Bool-cases (q.size == 0)) [
    | inl empty ↦ (v, rw (empty, slice_empty q (ground arith), back_nil), refl)
    | inr left ↦
        (v, rw (left, slice-drop_back z q v (ground arith), back-snoc) (ground arith), refl)
  ]

  clear-Inv : (q : Queue A) → Inv q → Inv (clear z q)
  unfolding clear
  clear-Inv q v = record {
    pow = IsPow2-sixteen;
    roomy = omega arith;
    head_in = omega arith;
    size_in = omega arith;
    tail_at = refl;
    counted = omega (arith, v.counted);
  }

  slice-clear : (q : Queue A) → slice z (clear z q) ≡ []
  unfolding slice clear
  slice-clear q = refl

  -- One call of a method does to the circular buffer what it does to the list of items.
  pub step-Agrees : (o : Op A) (q : Queue A) → Inv q → Agrees (step z o q) (spec_step o (view z q))
  unfolding step spec_step
  step-Agrees (adds_back x) q v = add_back-Agrees x q v
  step-Agrees (adds_front x) q v = add_front-Agrees x q v
  step-Agrees removes_front q v = remove_front-Agrees q v
  step-Agrees removes_back q v = remove_back-Agrees q v
  step-Agrees peeks_front q v = peek_front-Agrees q v
  step-Agrees peeks_back q v = peek_back-Agrees q v
  step-Agrees clears q v =
      (clear-Inv q v, refl, unfold clear in view_with (clear z q) q [] refl refl (slice-clear q))
  step-Agrees closes q v =
      unfold close slice in
      (
        record {
          pow = v.pow;
          roomy = v.roomy;
          head_in = v.head_in;
          size_in = v.size_in;
          tail_at = v.tail_at;
          counted = v.counted;
        },
        refl,
        refl,
      )
  step-Agrees broadcasts q v =
      unfold broadcast_waiters slice in
      (
        record {
          pow = v.pow;
          roomy = v.roomy;
          head_in = v.head_in;
          size_in = v.size_in;
          tail_at = v.tail_at;
          counted = v.counted;
        },
        refl,
        refl,
      )

  pub run-spec_run : (os : List (Op A)) (q : Queue A) → Inv q → run z os q ≡ spec_run os (view z q)
  unfolding run spec_run
  run-spec_run [] q v = refl
  run-spec_run (o ∷ os) q v =
      let (w, replies, states) = step-Agrees o q v in
      ap (λ r. r ∷ run z os (step z o q).1) replies
      ∙ ap (λ rs. (spec_step o (view z q)).0 ∷ rs)
          (run-spec_run os (step z o q).1 w ∙ ap (spec_run os) states)
