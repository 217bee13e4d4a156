-- ===== src/WriteBatcher/Submit.antt =====
-- `Submit`, on every branch.
use sfpg_go.Base.{
  ◌+◌, ◌≤◌, ◌<◌, ◌≡◌, ◌⊎◌, Bool, true, false, List, [], ◌∷◌, ◌++◌, Option, none, some, arith,
  length,
}
use sfpg_go.WriteBatcher.State.{
  Batcher, Config, Env, stored, ok, err, Error, closed, full, quota_exceeded,
}
use sfpg_go.WriteBatcher.Flush.{submit, capacity}

abbrev pub has_queue {ℓ} : {A : Type ℓ} → Option (List A) → Bool
has_queue none = false
has_queue (some d) = true

module _ {ℓ} {A : Type ℓ} (cfg : Config A) (env : Env A) (x : A) (s : Batcher A) where
  -- Why an item may be refused.
  abbrev pub Reason : Error → Type 0
  Reason closed = (s.closed ≡ true) ⊎ (s.ctx_done ≡ true)
  Reason full =
      (capacity cfg env ≤ length s.ch)
      × ((has_queue s.dq ≡ false) ⊎ (env.enqueue_works x (stored s.dq) ≡ false))
  Reason quota_exceeded =
      (capacity cfg env ≤ length s.ch)
      × (0 < s.max_disk_bytes)
      × (s.max_disk_bytes ≤ env.disk_bytes (stored s.dq))

  submit-Reason : (e : Error) → (submit cfg env x s).0 ≡ err e → Reason e
  unfolding submit
  submit-Reason closed h = ground arith
  submit-Reason full h = ground arith
  submit-Reason quota_exceeded h = ground arith

  -- A refused item leaves no trace and its error names a real reason; an accepted one stands last in
  -- the channel, or last in the durable queue, when the channel is full and the queue is below its
  -- quota or has none.
  pub submit_outcome :
      ((e : Error)
        → (submit cfg env x s).0 ≡ err e
        → Reason e
          × ((submit cfg env x s).1.ch ≡ s.ch)
          × ((submit cfg env x s).1.dq ≡ s.dq)
          × ((submit cfg env x s).1.pending ≡ s.pending))
      × ((submit cfg env x s).0 ≡ ok
          → (s.closed ≡ false)
            × ((submit cfg env x s).1.pending ≡ s.pending + 1)
            × (((submit cfg env x s).1.ch ≡ s.ch ++ x ∷ []) × ((submit cfg env x s).1.dq ≡ s.dq)
                ⊎ ((submit cfg env x s).1.ch ≡ s.ch)
                  × (capacity cfg env ≤ length s.ch)
                  × ((s.max_disk_bytes ≡ 0) ⊎ (env.disk_bytes (stored s.dq) < s.max_disk_bytes))
                  × ((submit cfg env x s).1.dq ≡ some (stored s.dq ++ x ∷ []))))
  submit_outcome = (
    (λ e h. (
      submit-Reason e h,
      unfold submit in (ground arith),
      unfold submit in (ground arith),
      unfold submit in (ground arith),
    )),
    λ h. unfold submit in (ground arith),
  )
