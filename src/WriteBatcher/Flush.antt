-- ===== src/WriteBatcher/Flush.antt =====
-- internal/writebatcher/submit.go and flush.go.
use sfpg_go.Base.{
  ℕ, ◌+◌, ◌-◌, Bool, true, false, ◌&&◌, not, List, [], ◌∷◌, ◌++◌, Option, none, some, ltb, leb,
  if◌then◌else◌, length,
}
use sfpg_go.Base.Int.{pos, ◌+ℤ◌, pos_part}
use sfpg_go.WriteBatcher.State.{
  closed, full, quota_exceeded, Result, ok, err, Fate, commits, Config, with_defaults, Env,
  on_error, on_success, on_after_commit, Batcher,
}

module _ {ℓ} {A : Type ℓ} (cfg : Config A) (env : Env A) where
  abbrev pub capacity : ℕ
  capacity = pos_part (with_defaults cfg).channel_size

  abbrev pub batch_limit : ℕ
  batch_limit = pos_part (with_defaults cfg).max_batch_size

  unfoldable pub over_quota : Batcher A → List A → Bool
  over_quota s d = ltb 0 s.max_disk_bytes && leb s.max_disk_bytes (env.disk_bytes d)

  unfoldable pub overflow : A → Batcher A → Option (List A) → Result × Batcher A
  overflow x s none = (err full, s)
  overflow x s (some d) =
      if over_quota s d
      then (err quota_exceeded, s)
      else if env.enqueue_works x d
      then (
        ok,
        record s {
          dq = some (d ++ x ∷ []);
          pending = s.pending + 1;
          overflow_count = s.overflow_count +ℤ pos 1;
          notified = true;
        },
      )
      else (err full, s)

  -- The `select` of the fast path takes the channel if there is room, `ctx.Done()` if the context is
  -- cancelled, either if both are ready, and else falls through to the overflow path.
  unfoldable pub submit : A → Batcher A → Result × Batcher A
  unfolding overflow over_quota
  submit x s =
      if s.closed
      then (err closed, s)
      else if ltb (length s.ch) capacity && not (s.ctx_done && env.picks_done s.turn)
      then (ok, record s { ch = s.ch ++ x ∷ []; pending = s.pending + 1; turn = s.turn + 1 })
      else if s.ctx_done
      then (err closed, record s { turn = s.turn + 1 })
      else overflow x (record s { turn = s.turn + 1 }) s.dq

  -- The first item that `Submit` refuses ends the loop, and the rest is lost with it.
  unfoldable pub re_enqueue_batch : List A → Batcher A → Batcher A
  unfolding submit
  re_enqueue_batch [] s = s
  re_enqueue_batch (x ∷ xs) s =
      let (r, s') = submit x s in
      elim r [ ok ↦ re_enqueue_batch xs s' | err e ↦ record s' { lost = s'.lost ++ x ∷ xs } ]

  unfoldable pub discardable : List A → Bool
  discardable batch = elim cfg.drop_without_flush [ none ↦ false | some hook ↦ hook batch ]

  -- A failed transaction was rolled back.
  unfoldable pub fail : List A → Batcher A → Batcher A
  unfolding re_enqueue_batch
  fail batch s =
      re_enqueue_batch batch
        (record s { total_errors = s.total_errors + 1; calls = on_error batch ∷ s.calls })

  unfoldable pub commit : List A → Batcher A → Batcher A
  commit batch s = record s {
    total_flushed = s.total_flushed + length batch;
    total_committed = s.total_committed + length batch;
    calls = on_after_commit (s.total_committed + length batch) true ∷ on_success batch ∷ s.calls;
    written = s.written ++ batch;
  }

  unfoldable pub drop : List A → Batcher A → Batcher A
  drop batch s = record s {
    total_flushed = s.total_flushed + length batch;
    calls = on_success batch ∷ s.calls;
    dropped = s.dropped ++ batch;
  }

  unfoldable pub transact : List A → Fate → Batcher A → Batcher A
  unfolding fail commit
  transact batch commits s = commit batch s
  transact batch _ s = fail batch s

  -- The deferred `pendingCount.Add(-n)` comes last.
  unfoldable pub flush : List A → Batcher A → Batcher A
  unfolding discardable drop transact
  flush [] s = s
  flush (x ∷ xs) s =
      let batch = x ∷ xs in
      let s' : Batcher A =
        if discardable batch
        then drop batch s
        else transact batch (env.fate s.turn) (record s { turn = s.turn + 1 }) in
      record s' { pending = s'.pending - length batch }

  -- `flush` of the worker's batch, which the worker then empties.
  unfoldable pub flush_batch : Batcher A → Batcher A
  unfolding flush
  flush_batch s = record (flush s.batch s) { batch = []; batch_bytes = 0; timer = false }
