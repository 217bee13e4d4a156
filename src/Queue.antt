-- ===== src/Queue.antt =====
-- internal/queue/queue.go: the deque on a circular buffer whose capacity is a power of two.
-- A method runs under the queue's lock, so it is a function from the queue to its result and the
-- new queue. `T` is any type with its zero value. Indices and capacities are ℕ (a `make` of 2 ^ 62
-- items fails); `max_cap` is a Go int and may be negative.
pub mod View
pub mod Inv
pub mod Moves
pub mod Spec
pub mod Refine
pub mod Fresh
pub mod Waiting
pub mod Tests
use sfpg_go.Base.{
  ℕ, zero, suc, ◌+◌, ◌-◌, ◌*◌, ◌/◌, ◌%◌, ◌^◌, bit_and, max, Bool, true, false, ◌&&◌, not, List, [],
  ◌∷◌, ltb, leb, ◌==◌, if◌then◌else◌, length, get_or, set, replicate,
}
use sfpg_go.Base.Int.{ℤ, pos, negsuc, ltb_ℤ, leb_ℤ, pos_part}

abbrev pub min_capacity : ℕ
min_capacity = 16

pub data Error : Type 0 where
  empty_queue closed_queue queue_full : Error
  ctx_err : Error

pub data Result {ℓ} (A : Type ℓ) : Type ℓ where
  ok : A → Result A
  err : Error → Result A

pub record Queue {ℓ} (A : Type ℓ) : Type ℓ where
  pub buf : List A
  pub ct_add_back : ℕ
  pub ct_add_front : ℕ
  pub ct_remove_back : ℕ
  pub ct_remove_front : ℕ
  pub head : ℕ
  pub tail : ℕ
  pub size : ℕ
  pub closed : Bool
  pub max_cap : ℤ
  pub wake_epoch : ℕ

-- `for cap < initialCap { cap <<= 1 }`; the fuel is the number of doublings that are left.
pub grow_cap : ℕ → ℕ → ℕ → ℕ
grow_cap zero cap initial = cap
grow_cap (suc f) cap initial =
    let rest = grow_cap f (cap * 2) initial in if ltb cap initial then rest else cap

-- The two adjustments of `initialCap` at the head of `newQueue`.
pub clamp_initial : ℤ → ℤ → ℤ
clamp_initial initial max_cap =
    let raised : ℤ = if ltb_ℤ initial (pos min_capacity) then pos min_capacity else initial in
    if ltb_ℤ (pos 0) max_cap && ltb_ℤ max_cap raised then max_cap else raised

module _ {ℓ} {A : Type ℓ} (zero_value : A) where
  unfoldable pub new_queue : ℤ → ℤ → Queue A
  unfolding grow_cap clamp_initial
  new_queue initial max_cap =
      let want : ℕ = pos_part (clamp_initial initial max_cap) in
      record {
        buf = replicate (grow_cap want min_capacity want) zero_value;
        ct_add_back = 0;
        ct_add_front = 0;
        ct_remove_back = 0;
        ct_remove_front = 0;
        head = 0;
        tail = 0;
        size = 0;
        closed = false;
        max_cap = max_cap;
        wake_epoch = 0;
      }

  -- `q.buf[i & (len(q.buf) - 1)]`
  pub read : List A → ℕ → A
  read buf i = get_or buf (bit_and i (length buf - 1)) zero_value

  -- The loop of `Slice`: round `i` of the `n` that are left.
  pub slice_loop : List A → ℕ → ℕ → ℕ → List A
  unfolding read
  slice_loop buf head i zero = []
  slice_loop buf head i (suc n) = read buf (head + i) ∷ slice_loop buf head (suc i) n

  unfoldable pub slice : Queue A → List A
  unfolding slice_loop
  slice q = slice_loop q.buf q.head 0 q.size

  -- The loop of `resize`.
  pub fill : List A → ℕ → ℕ → ℕ → List A → List A
  unfolding read
  fill buf head i zero new_buf = new_buf
  fill buf head i (suc n) new_buf = fill buf head (suc i) n (set new_buf i (read buf (head + i)))

  pub resize : ℕ → Queue A → Queue A
  unfolding fill
  resize new_cap q = record q {
    buf = fill q.buf q.head 0 q.size (replicate new_cap zero_value);
    head = 0;
    tail = q.size;
  }

  pub shrink_if_needed : Queue A → Queue A
  unfolding resize
  shrink_if_needed q =
      let cap = length q.buf in
      if leb cap min_capacity
      then q
      else if leb q.size (cap / 4)
      then resize (max (cap / 2) min_capacity) q
      else q

  -- The guards that `AddBack` and `AddFront` share.
  pub is_full : Queue A → Bool
  is_full q = ltb_ℤ (pos 0) q.max_cap && leb_ℤ q.max_cap (pos q.size)

  pub make_room : Queue A → Queue A
  unfolding resize
  make_room q = if q.size == length q.buf then resize (length q.buf * 2) q else q

  pub put_back : A → Queue A → Queue A
  put_back item q = record q {
    buf = set q.buf q.tail item;
    tail = bit_and (q.tail + 1) (length q.buf - 1);
    size = q.size + 1;
    ct_add_back = q.ct_add_back + 1;
  }

  unfoldable pub add_back : A → Queue A → Result (Unit {0}) × Queue A
  unfolding is_full make_room put_back
  add_back item q =
      if q.closed
      then (err closed_queue, q)
      else if is_full q
      then (err queue_full, q)
      else (ok tt, put_back item (make_room q))

  -- `(q.head - 1 + len(q.buf)) & (len(q.buf) - 1)`, with the sum written so that it stays positive.
  pub put_front : A → Queue A → Queue A
  put_front item q =
      let head = bit_and (q.head + length q.buf - 1) (length q.buf - 1) in
      record q {
        buf = set q.buf head item;
        head = head;
        size = q.size + 1;
        ct_add_front = q.ct_add_front + 1;
      }

  pub add_front : A → Queue A → Result (Unit {0}) × Queue A
  unfolding is_full make_room put_front
  add_front item q =
      if q.closed
      then (err closed_queue, q)
      else if is_full q
      then (err queue_full, q)
      else (ok tt, put_front item (make_room q))

  pub drop_front : Queue A → Queue A
  drop_front q = record q {
    buf = set q.buf q.head zero_value;
    head = bit_and (q.head + 1) (length q.buf - 1);
    size = q.size - 1;
    ct_remove_front = q.ct_remove_front + 1;
  }

  pub remove_front_locked : Queue A → A × Queue A
  unfolding drop_front shrink_if_needed
  remove_front_locked q = (get_or q.buf q.head zero_value, shrink_if_needed (drop_front q))

  unfoldable pub remove_front : Queue A → Result A × Queue A
  unfolding remove_front_locked
  remove_front q =
      if q.size == 0
      then (err empty_queue, q)
      else if q.closed
      then (err closed_queue, q)
      else let (item, q') = remove_front_locked q in (ok item, q')

  pub back_index : Queue A → ℕ
  back_index q = bit_and (q.tail + length q.buf - 1) (length q.buf - 1)

  pub drop_back : Queue A → Queue A
  unfolding back_index
  drop_back q = record q {
    tail = back_index q;
    buf = set q.buf (back_index q) zero_value;
    size = q.size - 1;
    ct_remove_back = q.ct_remove_back + 1;
  }

  pub remove_back : Queue A → Result A × Queue A
  unfolding drop_back shrink_if_needed
  remove_back q =
      if q.size == 0
      then (err empty_queue, q)
      else if q.closed
      then (err closed_queue, q)
      else (ok (get_or q.buf (back_index q) zero_value), shrink_if_needed (drop_back q))

  pub peek_front : Queue A → Result A
  peek_front q =
      if q.size == 0
      then err empty_queue
      else if q.closed
      then err closed_queue
      else ok (get_or q.buf q.head zero_value)

  pub peek_back : Queue A → Result A
  unfolding back_index
  peek_back q =
      if q.size == 0
      then err empty_queue
      else if q.closed
      then err closed_queue
      else ok (get_or q.buf (back_index q) zero_value)

  pub clear : Queue A → Queue A
  clear q = record q {
    head = 0;
    tail = 0;
    size = 0;
    buf = replicate min_capacity zero_value;
    wake_epoch = (q.wake_epoch + 1) % 2 ^ 64;
  }

module _ {ℓ} {A : Type ℓ} where
  pub close : Queue A → Queue A
  close q = record q { closed = true; wake_epoch = (q.wake_epoch + 1) % 2 ^ 64 }

  pub broadcast_waiters : Queue A → Queue A
  broadcast_waiters q = record q { wake_epoch = (q.wake_epoch + 1) % 2 ^ 64 }

-- `DequeueWait`, cut where it blocks. A waiter is parked with the epoch that it saw; the caller's
-- context is done or not when a waiter looks at it.
pub data Wait {ℓ} (A : Type ℓ) : Type ℓ where
  returns : Result A → Wait A
  waits : ℕ → Wait A

module _ {ℓ} {A : Type ℓ} (zero_value : A) where
  -- The head of the loop, up to `q.cond.Wait()`.
  pub wait_round : Bool → Queue A → Wait A × Queue A
  wait_round ctx_done q =
      if q.closed
      then (returns (err closed_queue), q)
      else if ctx_done
      then (returns (err ctx_err), q)
      else (waits q.wake_epoch, q)

  pub take_waiting : Queue A → Wait A × Queue A
  unfolding remove_front_locked
  take_waiting q =
      if q.closed
      then (returns (err closed_queue), q)
      else let (x, q') = remove_front_locked zero_value q in (returns (ok x), q')

  unfoldable pub dequeue_wait : Bool → Queue A → Wait A × Queue A
  unfolding wait_round take_waiting
  dequeue_wait ctx_done q = if ltb 0 q.size then take_waiting q else wait_round ctx_done q

  -- What a parked waiter does when it is woken.
  unfoldable pub woken : Bool → ℕ → Queue A → Wait A × Queue A
  unfolding wait_round take_waiting
  woken ctx_done epoch q =
      if ltb 0 q.size
      then take_waiting q
      else if not q.closed && not ctx_done && not (q.wake_epoch == epoch)
      then (returns (err empty_queue), q)
      else wait_round ctx_done q

-- A call of a method, and what the caller sees of it.
pub data Op {ℓ} (A : Type ℓ) : Type ℓ where
  adds_back adds_front : A → Op A
  removes_front removes_back peeks_front peeks_back clears closes broadcasts : Op A

pub data Reply {ℓ} (A : Type ℓ) : Type ℓ where
  status : Result (Unit {0}) → Reply A
  item : Result A → Reply A
  nothing : Reply A

module _ {ℓ} {A : Type ℓ} (zero_value : A) where
  unfoldable pub step : Op A → Queue A → Reply A × Queue A
  unfolding add_back add_front remove_front remove_back peek_front peek_back clear close
      broadcast_waiters
  step (adds_back x) q = let (r, q') = add_back zero_value x q in (status r, q')
  step (adds_front x) q = let (r, q') = add_front zero_value x q in (status r, q')
  step removes_front q = let (r, q') = remove_front zero_value q in (item r, q')
  step removes_back q = let (r, q') = remove_back zero_value q in (item r, q')
  step peeks_front q = (item (peek_front zero_value q), q)
  step peeks_back q = (item (peek_back zero_value q), q)
  step clears q = (nothing, clear zero_value q)
  step closes q = (nothing, close q)
  step broadcasts q = (nothing, broadcast_waiters q)

  unfoldable pub run : List (Op A) → Queue A → List (Reply A)
  unfolding step
  run [] q = []
  run (o ∷ os) q = let (r, q') = step o q in r ∷ run os q'
