-- ===== src/WriteBatcher/Worker.antt =====
-- internal/writebatcher/worker.go, and the drain of the durable queue in dque.go.
use sfpg_go.Base.{
  ℕ, zero, suc, ◌+◌, Bool, true, false, ◌&&◌, ◌||◌, List, [], ◌∷◌, ◌++◌, none, some, ltb, leb, ◌==◌,
  if◌then◌else◌, length,
}
use sfpg_go.Base.Int.{pos, ◌-ℤ◌}
use sfpg_go.WriteBatcher.State.{
  close, cancel, start_dque_drain, set_max_disk_bytes, close_after_exit, on_notify, Result, ok, err,
  Config, Env, on_after_commit, Batcher, stored,
}
use sfpg_go.WriteBatcher.Flush.{batch_limit, submit, flush_batch}

module _ {ℓ} {A : Type ℓ} (cfg : Config A) (env : Env A) where
  unfoldable pub cost : A → ℕ
  cost x = elim cfg.size_func [ none ↦ 0 | some size ↦ size x ]

  unfoldable pub is_due : Batcher A → Bool
  is_due s =
      leb (batch_limit cfg env) (length s.batch)
      || (ltb 0 cfg.max_batch_bytes && leb cfg.max_batch_bytes s.batch_bytes)

  unfoldable pub with_item : A → Batcher A → Batcher A
  unfolding cost
  with_item x s = record s { batch = s.batch ++ x ∷ []; batch_bytes = s.batch_bytes + cost x }

  -- The two limits flush alike; only the reason that is logged differs.
  unfoldable pub append_and_manage_timer : A → Batcher A → Batcher A
  unfolding with_item is_due flush_batch
  append_and_manage_timer x s =
      let s' = with_item x s in
      if is_due s'
      then flush_batch cfg env s'
      else if length s'.batch == 1
      then record s' { timer = true }
      else s'

  -- The body of the loops of `drainChannel`.
  unfoldable pub collect : A → Batcher A → Batcher A
  unfolding with_item is_due flush_batch
  collect x s = let s' = with_item x s in if is_due s' then flush_batch cfg env s' else s'

  -- `drainChannel` and the last flush of `flushChannelAndExit`, with fuel.
  unfoldable pub drain_channel : ℕ → Batcher A → Batcher A
  unfolding collect
  drain_channel zero s = s
  drain_channel (suc f) s = elim s.ch [
    | [] ↦ s
    | x ∷ rest ↦ drain_channel f (collect x (record s { ch = rest }))
  ]

  unfoldable pub flush_channel_and_exit : ℕ → Batcher A → Batcher A
  unfolding drain_channel
  flush_channel_and_exit f s =
      record (flush_batch cfg env (drain_channel f (record s { timer = false }))) { exited = true }

  -- One round of the loop of `drainDQueAll`; `again` says whether it continues.
  pub record Round : Type ℓ where
    pub again : Bool
    pub drained : ℕ
    pub state : Batcher A

  -- The queue is not empty here. Its ErrEmpty, after which the loop goes on, needs a second consumer
  -- between Size and Dequeue, and the worker is the only one: an error of Dequeue is another one.
  unfoldable pub take_stored : ℕ → Batcher A → List A → Round
  unfolding append_and_manage_timer
  take_stored drained s [] =
      let s' : Batcher A = if ltb 0 drained then flush_batch cfg env s else s in
      record { again = false; drained = drained; state = s' }
  take_stored drained s (x ∷ rest) =
      if env.dequeue_works (x ∷ rest)
      then record {
        again = true;
        drained = drained + 1;
        state =
            append_and_manage_timer x
              (record s { dq = some rest; overflow_count = s.overflow_count -ℤ pos 1 });
      }
      else record { again = false; drained = drained; state = s }

  unfoldable pub drain_round : ℕ → ℕ → Batcher A → Round
  unfolding take_stored flush_channel_and_exit
  drain_round f drained s =
      if s.closed
      then record { again = false; drained = drained; state = s }
      else if s.ctx_done
      then record { again = false; drained = drained; state = flush_channel_and_exit f s }
      else elim s.ch [
        | x ∷ rest ↦ record {
          again = true;
          drained = drained;
          state = append_and_manage_timer x (record s { ch = rest });
        }
        | [] ↦ take_stored drained s (stored s.dq)
      ]

  unfoldable pub drain_dque_all : ℕ → ℕ → Batcher A → Batcher A
  unfolding drain_round
  drain_dque_all zero drained s = s
  drain_dque_all (suc f) drained s =
      let r = drain_round f drained s in
      elim r.again [ true ↦ drain_dque_all f r.drained r.state | false ↦ r.state ]

  -- Phase 1 of each turn of the worker's loop.
  unfoldable pub drain_phase : ℕ → Batcher A → Batcher A
  unfolding drain_dque_all
  drain_phase f s = elim s.dq [
    | none ↦ s
    | some _ ↦ if s.drain_enabled then drain_dque_all f 0 s else s
  ]

  -- The cases of the worker's `select`.
  unfoldable pub receive : ℕ → Batcher A → Batcher A
  unfolding append_and_manage_timer flush_channel_and_exit
  receive f s = elim s.ch [
    | x ∷ rest ↦ append_and_manage_timer x (record s { ch = rest })
    | [] ↦ if s.closed then flush_channel_and_exit f s else s
  ]

  unfoldable pub on_timer : Batcher A → Batcher A
  unfolding flush_batch
  on_timer s = if s.timer then flush_batch cfg env s else s

  unfoldable pub on_maintenance : Batcher A → Batcher A
  on_maintenance s = record s { calls = on_after_commit s.total_committed false ∷ s.calls }

  unfoldable pub on_ctx_done : ℕ → Batcher A → Batcher A
  unfolding flush_channel_and_exit
  on_ctx_done f s = if s.ctx_done then flush_channel_and_exit f s else s

-- What can happen to a batcher: a caller's call, or a turn of the worker while it lives. `fuel` is
-- for the worker's loops.
pub data Event {ℓ} (A : Type ℓ) : Type ℓ where
  submits : A → Event A
  closes cancels starts_drain : Event A
  sets_max_disk_bytes : ℕ → Event A
  drains receives times_out maintains notices sees_ctx_done finishes_close : Event A

module _ {ℓ} {A : Type ℓ} where
  -- A worker that has exited takes no more turns.
  unfoldable pub is_worker : Event A → Bool
  is_worker drains = true
  is_worker receives = true
  is_worker times_out = true
  is_worker maintains = true
  is_worker notices = true
  is_worker sees_ctx_done = true
  is_worker _ = false

  -- The items whose `Submit` returned nil.
  unfoldable pub took : A → Result → List A
  took x ok = x ∷ []
  took x (err e) = []

module _ {ℓ} {A : Type ℓ} (cfg : Config A) (env : Env A) (fuel : ℕ) where
  unfoldable pub turn : Event A → Batcher A → Batcher A
  unfolding drain_phase receive on_timer on_maintenance on_notify on_ctx_done submit close cancel
      start_dque_drain set_max_disk_bytes close_after_exit
  turn (submits x) s = (submit cfg env x s).1
  turn closes s = close s
  turn cancels s = cancel s
  turn starts_drain s = start_dque_drain s
  turn (sets_max_disk_bytes n) s = set_max_disk_bytes n s
  turn drains s = drain_phase cfg env fuel s
  turn receives s = receive cfg env fuel s
  turn times_out s = on_timer cfg env s
  turn maintains s = on_maintenance cfg env s
  turn notices s = on_notify s
  turn sees_ctx_done s = on_ctx_done cfg env fuel s
  turn finishes_close s = close_after_exit s

  unfoldable pub step : Event A → Batcher A → Batcher A
  unfolding turn is_worker
  step e s = if is_worker e && s.exited then s else turn e s

  unfoldable pub run : List (Event A) → Batcher A → Batcher A
  unfolding step
  run [] s = s
  run (e ∷ es) s = run es (step e s)

  unfoldable pub accepted_by : Event A → Batcher A → List A
  unfolding submit took
  accepted_by (submits x) s = took x (submit cfg env x s).0
  accepted_by _ s = []

  unfoldable pub accepted : List (Event A) → Batcher A → List A
  unfolding step accepted_by
  accepted [] s = []
  accepted (e ∷ es) s = accepted_by e s ++ accepted es (step e s)
