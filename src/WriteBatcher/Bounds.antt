-- ===== src/WriteBatcher/Bounds.antt =====
-- The pending count is exact, the channel keeps its capacity, and a batch stays below its limit.
use sfpg_go.Base.{
  ℕ, ◌+◌, ◌-◌, ◌≤◌, ◌<◌, ◌≡◌, refl, ◌∙◌, ap, false, List, [], ◌∷◌, ◌++◌, arith, length,
  length-append, if_split,
}
use sfpg_go.WriteBatcher.State.{
  Batcher, Config, Env, stored, with_defaults, Result, ok, err, Fate, begin_fails, flush_fails,
  commit_fails, commits,
}
use sfpg_go.WriteBatcher.Flush.{
  capacity, batch_limit, submit, re_enqueue_batch, flush, flush_batch, fail, commit, drop, transact,
  discardable,
}
use sfpg_go.WriteBatcher.Worker.{with_item, is_due}
use sfpg_go.WriteBatcher.Keeps.{Keeps, Takes, from_ch, from_dq}

abbrev queued {ℓ} : {A : Type ℓ} → Batcher A → ℕ
queued s = length s.ch + length (stored s.dq)

module _ {ℓ} {A : Type ℓ} (cfg : Config A) (env : Env A) where
  pub record Inv (s : Batcher A) : Type 0 where
    pub counted : s.pending ≡ length s.ch + length (stored s.dq) + length s.batch
    pub ch_fits : length s.ch ≤ capacity cfg env
    pub batch_short : length s.batch < batch_limit cfg env

  pub batch_limit_pos : 0 < batch_limit cfg env
  unfolding with_defaults
  batch_limit_pos = ground arith

  -- What `Submit` and the flushes do to the counter, beside the queues.
  record Tracks (s s' : Batcher A) : Type ℓ where
    balance : s'.pending + queued s ≡ s.pending + queued s'
    grows : s.pending ≤ s'.pending
    fits : length s.ch ≤ capacity cfg env → length s'.ch ≤ capacity cfg env
    batch_same : s'.batch ≡ s.batch

  submit-Tracks : (x : A) (s : Batcher A) → Tracks s (submit cfg env x s).1
  unfolding submit
  submit-Tracks x s =
      ground (arith, length-append s.ch (x ∷ []), length-append (stored s.dq) (x ∷ []))

  Tracks-trans : {r s t : Batcher A} → Tracks r s → Tracks s t → Tracks r t
  Tracks-trans a b = record {
    balance = omega (arith, a.balance, b.balance);
    grows = omega (arith, a.grows, b.grows);
    fits = λ h. b.fits (a.fits h);
    batch_same = b.batch_same ∙ a.batch_same;
  }

  re_enqueue_batch-Tracks : (xs : List A) (s : Batcher A) → Tracks s (re_enqueue_batch cfg env xs s)
  unfolding re_enqueue_batch
  re_enqueue_batch-Tracks [] s = record {
    balance = refl;
    grows = omega arith;
    fits = λ h. h;
    batch_same = refl;
  }
  re_enqueue_batch-Tracks (x ∷ xs) s = Tracks-trans (submit-Tracks x s) (
      go (submit cfg env x s).0 (submit cfg env x s).1
        (re_enqueue_batch-Tracks xs (submit cfg env x s).1))
    where
      go :
          (r : Result) (s' : Batcher A)
          → Tracks s' (re_enqueue_batch cfg env xs s')
          → Tracks s' (elim r [
            | ok ↦ re_enqueue_batch cfg env xs s'
            | err e ↦ record s' { lost = s'.lost ++ x ∷ xs }
          ])
      go ok s' ih = ih
      go (err e) s' ih = record {
        balance = refl;
        grows = omega arith;
        fits = λ h. h;
        batch_same = refl;
      }

  fail-Tracks : (b : List A) (s : Batcher A) → Tracks s (fail cfg env b s)
  unfolding fail
  fail-Tracks b s =
      let t = re_enqueue_batch-Tracks b _ in
      record { balance = t.balance; grows = t.grows; fits = t.fits; batch_same = t.batch_same }

  transact-Tracks : (b : List A) (o : Fate) (s : Batcher A) → Tracks s (transact cfg env b o s)
  unfolding transact
  transact-Tracks b commits s =
      unfold commit in
      record { balance = refl; grows = omega arith; fits = λ h. h; batch_same = refl }
  transact-Tracks b begin_fails s = fail-Tracks b s
  transact-Tracks b flush_fails s = fail-Tracks b s
  transact-Tracks b commit_fails s = fail-Tracks b s

  drop-Tracks : (b : List A) (s : Batcher A) → Tracks s (drop cfg env b s)
  unfolding drop
  drop-Tracks b s = record { balance = refl; grows = omega arith; fits = λ h. h; batch_same = refl }

  -- After the deferred subtraction of the batch.
  abbrev Settles : List A → Batcher A → Batcher A → Type 0
  Settles b s s' =
      (s'.pending + length b + queued s ≡ s.pending + queued s')
      × (length s.ch ≤ capacity cfg env → length s'.ch ≤ capacity cfg env)

  settle :
      (b : List A) (s s' : Batcher A)
      → length b ≤ s.pending
      → Tracks s s'
      → Settles b s (record s' { pending = s'.pending - length b })
  settle b s s' h t = (omega (arith, t.balance, t.grows), t.fits)

  flush-Settles :
      (b : List A) (s : Batcher A) → length b ≤ s.pending → Settles b s (flush cfg env b s)
  unfolding flush
  flush-Settles [] s h = (omega arith, λ h. h)
  flush-Settles (x ∷ xs) s h =
      if_split (λ s'. Settles (x ∷ xs) s (record s' { pending = s'.pending - length (x ∷ xs) }))
        (discardable cfg env (x ∷ xs)) (λ _. settle (x ∷ xs) s _ h (drop-Tracks (x ∷ xs) s))
        λ _.
          let t = transact-Tracks (x ∷ xs) (env.fate s.turn) (record s { turn = s.turn + 1 }) in
          settle (x ∷ xs) s
            (transact cfg env (x ∷ xs) (env.fate s.turn) (record s { turn = s.turn + 1 })) h
            (record {
              balance = t.balance;
              grows = t.grows;
              fits = t.fits;
              batch_same = t.batch_same;
            })

  flush_batch-Inv :
      (s : Batcher A)
      → s.pending ≡ length s.ch + length (stored s.dq) + length s.batch
      → length s.ch ≤ capacity cfg env
      → Inv (flush_batch cfg env s)
  unfolding flush_batch
  flush_batch-Inv s counted fits =
      let (balance, keeps) = flush-Settles s.batch s (omega arith) in
      record { counted = omega arith; ch_fits = keeps fits; batch_short = batch_limit_pos }

  taken_counts :
      (x : A) (s s' : Batcher A)
      → Takes x s s'
      → Inv s
      → ((with_item cfg env x s').pending
          ≡ length s'.ch + length (stored s'.dq) + length (with_item cfg env x s').batch)
        × (length s'.ch ≤ capacity cfg env)
  unfolding with_item
  taken_counts x s s' (from_ch rest e) v = (
    omega (arith, ap length e, length-append s.batch (x ∷ []), v.counted),
    omega (arith, ap length e, v.ch_fits),
  )
  taken_counts x s s' (from_dq rest e) v =
      (omega (arith, ap length e, length-append s.batch (x ∷ []), v.counted), v.ch_fits)

  idle_short : (s : Batcher A) → is_due cfg env s ≡ false → length s.batch < batch_limit cfg env
  unfolding is_due
  idle_short s h = ground arith

  -- Every step of the worker keeps the three bounds.
  pub Inv-Keeps : Keeps cfg env Inv
  Inv-Keeps = record {
    item_flushed = λ x s s' t v due.
        let (counted, fits) = taken_counts x s s' t v in
        flush_batch-Inv (with_item cfg env x s') (unfold with_item in counted)
          (unfold with_item in fits);
    item_kept = λ x s s' t v idle.
        let (counted, fits) = taken_counts x s s' t v in
        record {
          counted = unfold with_item in counted;
          ch_fits = unfold with_item in fits;
          batch_short = idle_short (with_item cfg env x s') idle;
        };
    flushed = λ s v. flush_batch-Inv s v.counted v.ch_fits;
    timed =
        λ b s v. record { counted = v.counted; ch_fits = v.ch_fits; batch_short = v.batch_short };
    exits = λ s v. record { counted = v.counted; ch_fits = v.ch_fits; batch_short = v.batch_short };
  }

  pub submit-Inv : (x : A) (s : Batcher A) → Inv s → Inv (submit cfg env x s).1
  submit-Inv x s v =
      let t = submit-Tracks x s in
      record {
        counted = omega (arith, t.balance, v.counted, ap length t.batch_same);
        ch_fits = t.fits v.ch_fits;
        batch_short = omega (arith, v.batch_short, ap length t.batch_same);
      }

  pub batch-submit : (x : A) (s : Batcher A) → (submit cfg env x s).1.batch ≡ s.batch
  batch-submit x s = (submit-Tracks x s).batch_same
