-- ===== src/Queue/Waiting.antt =====
-- `DequeueWait`: when a caller blocks, and what wakes it.
use sfpg_go.Base.{
  ℕ, ◌+◌, ◌%◌, ◌^◌, ◌<◌, ◌≡◌, ◌↔◌, ◌≢◌, ap, ◌∙◌, Bool, true, false, [], ◌∷◌, arith, get_or,
}
use sfpg_go.Queue.{
  Queue, ok, err, empty_queue, closed_queue, ctx_err, slice, step, adds_back, is_full, add_back,
  remove_front, clear, close, broadcast_waiters, returns, waits, dequeue_wait, woken,
}
use sfpg_go.Queue.Inv.{Inv}
use sfpg_go.Queue.Moves.{slice-drop_front}
use sfpg_go.Queue.Spec.{Deque, view, spec_step}
use sfpg_go.Queue.Refine.{step-Agrees, length-slice, slice_empty}

epoch_moves : (e : ℕ) → e < 2 ^ 64 → (e + 1) % 2 ^ 64 ≢ e
epoch_moves e h = omega arith

-- A waiter is parked on an empty open queue whose epoch it saw.
pub record IsParked {ℓ} {A : Type ℓ} (epoch : ℕ) (q : Queue A) : Type 0 where
  pub empty : q.size ≡ 0
  pub opened : q.closed ≡ false
  pub seen : q.wake_epoch ≡ epoch
  pub word : epoch < 2 ^ 64

module _ {ℓ} {A : Type ℓ} (z : A) where
  -- `DequeueWait` blocks exactly on an empty open queue whose caller is not cancelled; on a queue
  -- with items it is `RemoveFront`.
  dequeue_wait_cases :
      (ctx_done : Bool) (q : Queue A)
      → (((dequeue_wait z ctx_done q).0 ≡ waits q.wake_epoch)
          ↔ ((q.size ≡ 0) × (q.closed ≡ false) × (ctx_done ≡ false)))
        × (0 < q.size → (dequeue_wait z ctx_done q).0 ≡ returns (remove_front z q).0)
        × (0 < q.size → (dequeue_wait z ctx_done q).1 ≡ (remove_front z q).1)
  unfolding dequeue_wait remove_front
  dequeue_wait_cases ctx_done q =
      (((λ h. ground arith), (λ h. ground arith)), ground arith, ground arith)

  spec_added :
      (x : A) (d : Deque A)
      → d.items ≡ []
      → d.closed ≡ false
      → (spec_step (adds_back x) d).1 ≡ record d { items = x ∷ [] }
  unfolding spec_step
  spec_added x d e c = ground arith

  woken_single :
      (ctx_done : Bool) (epoch : ℕ) (x : A) (q : Queue A)
      → Inv q
      → q.closed ≡ false
      → slice z q ≡ x ∷ []
      → (woken z ctx_done epoch q).0 ≡ returns (ok x)
  unfolding woken
  woken_single ctx_done epoch x q v c e =
      let one : q.size ≡ 1 = ground (arith, length-slice z q) in
      let first : get_or q.buf q.head z ≡ x =
        ground (arith, slice-drop_front z q v (omega arith)) in
      ground arith

  module _ (ctx_done : Bool) (epoch : ℕ) (q : Queue A) (v : Inv q) (parked : IsParked epoch q) where
    -- What ends the wait of a parked caller, and with what.
    pub woken_cases :
        (woken z ctx_done epoch (close q) ≡ (returns (err closed_queue), close q))
        × (woken z false epoch (clear z q) ≡ (returns (err empty_queue), clear z q))
        × (woken z false epoch (broadcast_waiters q)
            ≡ (returns (err empty_queue), broadcast_waiters q))
        × (woken z true epoch q ≡ (returns (err ctx_err), q))
        × (woken z false epoch q ≡ (waits epoch, q))
    unfolding woken close clear broadcast_waiters
    woken_cases = (
      ground arith,
      ground (arith, epoch_moves epoch parked.word),
      ground (arith, epoch_moves epoch parked.word),
      ground arith,
      ground arith,
    )

    added_view :
        (x : A)
        → ((add_back z x q).0 ≡ ok tt)
          × (view z (add_back z x q).1 ≡ record (view z q) { items = x ∷ [] })
    added_view x = (
      unfold add_back is_full in (ground arith),
      unfold step in
          (step-Agrees z (adds_back x) q v).2
          ∙ spec_added x (view z q) (slice_empty z q parked.empty) parked.opened,
    )

    -- An item that is added to the queue of a parked caller is accepted, and reaches the caller when
    -- it wakes, cancelled or not.
    pub woken-add_back :
        (x : A)
        → ((add_back z x q).0 ≡ ok tt)
          × ((woken z ctx_done epoch (add_back z x q).1).0 ≡ returns (ok x))
    woken-add_back x =
        let (accepted, seen) = added_view x in
        (
          accepted,
          woken_single ctx_done epoch x (add_back z x q).1
              (unfold step in (step-Agrees z (adds_back x) q v).0)
              (ap (λ d. d.closed) seen ∙ parked.opened) (ap (λ d. d.items) seen),
        )
