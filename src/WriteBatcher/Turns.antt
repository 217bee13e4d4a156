-- ===== src/WriteBatcher/Turns.antt =====
-- internal/writebatcher: properties that the turns of callers and worker keep.
use sfpg_go.Base.{ℕ, ◌≡◌, refl, ◌&&◌, arith, if_split}
use sfpg_go.WriteBatcher.State.{
  close, cancel, start_dque_drain, set_max_disk_bytes, close_after_exit, on_notify, Batcher, Config,
  Env,
}
use sfpg_go.WriteBatcher.Flush.{submit}
use sfpg_go.WriteBatcher.Worker.{
  on_maintenance, Event, submits, closes, cancels, starts_drain, sets_max_disk_bytes, drains,
  receives, times_out, maintains, notices, sees_ctx_done, finishes_close, turn, is_worker, step,
}
use sfpg_go.WriteBatcher.Keeps.{
  Keeps, drain_phase-keeps, receive-keeps, on_timer-keeps, on_ctx_done-keeps,
}

-- Two states that differ in flags, callbacks and settings only.
pub record Same {ℓ} {A : Type ℓ} (s s' : Batcher A) : Type ℓ where
  pub ch_same : s'.ch ≡ s.ch
  pub dq_same : s'.dq ≡ s.dq
  pub batch_same : s'.batch ≡ s.batch
  pub pending_same : s'.pending ≡ s.pending
  pub written_same : s'.written ≡ s.written
  pub dropped_same : s'.dropped ≡ s.dropped
  pub lost_same : s'.lost ≡ s.lost

close_after_exit-Same {ℓ} : {A : Type ℓ} (s : Batcher A) → Same s (close_after_exit s)
unfolding close_after_exit
close_after_exit-Same s =
    if_split (Same s) (s.closed && s.exited)
      (λ _. record {
        ch_same = refl;
        dq_same = refl;
        batch_same = refl;
        pending_same = refl;
        written_same = refl;
        dropped_same = refl;
        lost_same = refl;
      })
      (λ _. record {
        ch_same = refl;
        dq_same = refl;
        batch_same = refl;
        pending_same = refl;
        written_same = refl;
        dropped_same = refl;
        lost_same = refl;
      })

start_dque_drain-Same {ℓ} : {A : Type ℓ} (s : Batcher A) → Same s (start_dque_drain s)
unfolding start_dque_drain
start_dque_drain-Same s = record {
  ch_same = ground arith;
  dq_same = ground arith;
  batch_same = ground arith;
  pending_same = ground arith;
  written_same = ground arith;
  dropped_same = ground arith;
  lost_same = ground arith;
}

module _ {ℓ κ} {A : Type ℓ} (cfg : Config A) (env : Env A) (fuel : ℕ) (P : Batcher A → Type κ)
    (k : Keeps cfg env P) (same : (s s' : Batcher A) → Same s s' → P s → P s') where
  -- All that happens but a `Submit`.
  pub turn-keeps :
      (e : Event A) (s : Batcher A)
      → ((x : A) → e ≡ submits x → P (submit cfg env x s).1)
      → P s
      → P (turn cfg env fuel e s)
  unfolding turn
  turn-keeps (submits x) s sub h = sub x refl
  turn-keeps closes s sub h =
      same s (close s)
        (unfold close in
          record {
            ch_same = refl;
            dq_same = refl;
            batch_same = refl;
            pending_same = refl;
            written_same = refl;
            dropped_same = refl;
            lost_same = refl;
          })
        h
  turn-keeps cancels s sub h =
      same s (cancel s)
        (unfold cancel in
          record {
            ch_same = refl;
            dq_same = refl;
            batch_same = refl;
            pending_same = refl;
            written_same = refl;
            dropped_same = refl;
            lost_same = refl;
          })
        h
  turn-keeps starts_drain s sub h = same s (start_dque_drain s) (start_dque_drain-Same s) h
  turn-keeps (sets_max_disk_bytes n) s sub h =
      same s (set_max_disk_bytes n s)
        (unfold set_max_disk_bytes in
          record {
            ch_same = refl;
            dq_same = refl;
            batch_same = refl;
            pending_same = refl;
            written_same = refl;
            dropped_same = refl;
            lost_same = refl;
          })
        h
  turn-keeps drains s sub h = drain_phase-keeps cfg env P k fuel s h
  turn-keeps receives s sub h = receive-keeps cfg env P k fuel s h
  turn-keeps times_out s sub h = on_timer-keeps cfg env P k s h
  turn-keeps maintains s sub h =
      same s (on_maintenance cfg env s)
        (unfold on_maintenance in
          record {
            ch_same = refl;
            dq_same = refl;
            batch_same = refl;
            pending_same = refl;
            written_same = refl;
            dropped_same = refl;
            lost_same = refl;
          })
        h
  turn-keeps notices s sub h =
      same s (on_notify s)
        (unfold on_notify in
          record {
            ch_same = refl;
            dq_same = refl;
            batch_same = refl;
            pending_same = refl;
            written_same = refl;
            dropped_same = refl;
            lost_same = refl;
          })
        h
  turn-keeps sees_ctx_done s sub h = on_ctx_done-keeps cfg env P k fuel s h
  turn-keeps finishes_close s sub h = same s (close_after_exit s) (close_after_exit-Same s) h

  pub step-keeps :
      (e : Event A) (s : Batcher A)
      → ((x : A) → e ≡ submits x → P (submit cfg env x s).1)
      → P s
      → P (step cfg env fuel e s)
  unfolding step
  step-keeps e s sub h = if_split P (is_worker e && s.exited) (λ _. h) (λ _. turn-keeps e s sub h)
