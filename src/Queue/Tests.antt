-- ===== src/Queue/Tests.antt =====
-- Runs of the deque on concrete inputs, and the theorems at them.
use sfpg_go.Base.{ℕ, zero, suc, ◌≡◌, refl, true, false, List, [], ◌∷◌, arith, length}
use sfpg_go.Base.Int.{pos}
use sfpg_go.Queue.{
  Queue, ok, err, empty_queue, closed_queue, queue_full, Op, adds_back, adds_front, removes_front,
  removes_back, closes, status, item, nothing, new_queue, run, add_back, broadcast_waiters, returns,
  woken,
}
use sfpg_go.Queue.Fresh.{new_queue-Inv}
use sfpg_go.Queue.Waiting.{IsParked, woken_cases, woken-add_back}

abbrev small_open : Queue ℕ
small_open = new_queue 0 (pos 4) (pos 0)

abbrev calls : List (Op ℕ)
calls =
    adds_back 1
    ∷ adds_back 2
    ∷ adds_front 3
    ∷ adds_back 4
    ∷ removes_back
    ∷ removes_front
    ∷ closes
    ∷ removes_front
    ∷ []

abbrev small : Queue ℕ
small = new_queue 0 (pos 4) (pos 3)

calls_replies :
    run 0 calls small
    ≡ status (ok tt)
      ∷ status (ok tt)
      ∷ status (ok tt)
      ∷ status (err queue_full)
      ∷ item (ok 2)
      ∷ item (ok 3)
      ∷ nothing
      ∷ item (err closed_queue)
      ∷ []
unfolding run new_queue
calls_replies = refl

-- A buffer of sixteen slots that is full doubles on the next item.
abbrev full_of : ℕ → Queue ℕ
full_of zero = small_open
full_of (suc n) = (add_back 0 n (full_of n)).1

small_doubles : length (add_back 0 9 (full_of 16)).1.buf ≡ 32
unfolding add_back new_queue
small_doubles = refl

small-IsParked : IsParked 0 small
unfolding new_queue
small-IsParked = record { empty = refl; opened = refl; seen = refl; word = omega arith }

woken_cases_example :
    woken 0 false 0 (broadcast_waiters small) ≡ (returns (err empty_queue), broadcast_waiters small)
woken_cases_example =
    (woken_cases 0 false 0 small (new_queue-Inv 0 (pos 4) (pos 3)) small-IsParked).2

woken-add_back_example : (woken 0 true 0 (add_back 0 7 small).1).0 ≡ returns (ok 7)
woken-add_back_example =
    (woken-add_back 0 true 0 small (new_queue-Inv 0 (pos 4) (pos 3)) small-IsParked 7).1
