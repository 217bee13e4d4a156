-- ===== src/WriteBatcher/Closing.antt =====
-- `Close`: the worker's last drain ends and leaves no item in the channel or the batch.
use sfpg_go.Base.{
  ℕ, zero, suc, ◌+◌, ◌<◌, ◌≡◌, refl, sym, ap, ◌∙◌, true, false, List, [], ◌∷◌, ◌++◌, none, some,
  arith, length, ◌-◌, if_split,
}
use mathlib.Core.List.{append_assoc, append-nil}
use sfpg_go.WriteBatcher.State.{
  Batcher, Config, Env, Fate, begin_fails, flush_fails, commit_fails, commits,
}
use sfpg_go.WriteBatcher.Flush.{
  re_enqueue_batch, flush, flush_batch, fail, commit, drop, transact, discardable,
}
use sfpg_go.WriteBatcher.Worker.{with_item, is_due, collect, drain_channel, flush_channel_and_exit}

append_line {ℓ} : {A : Type ℓ} (xs ys zs : List A) → (xs ++ ys) ++ ([] ++ zs) ≡ xs ++ (ys ++ zs)
append_line xs ys zs = append_assoc xs ys zs

append_none {ℓ} :
    {A : Type ℓ} (s : Batcher A)
    → s.batch ≡ []
    → s.ch ≡ []
    → s.written ++ (s.batch ++ s.ch) ≡ s.written
append_none s b c =
    ap (λ l. s.written ++ (l ++ s.ch)) b ∙ ap (λ l. s.written ++ l) c ∙ append-nil s.written

module _ {ℓ} {A : Type ℓ} (cfg : Config A) (env : Env A) where
  -- A flush of a closed batcher touches neither queue: what it cannot commit is given up.
  record Sealed (s s' : Batcher A) : Type ℓ where
    closed_same : s'.closed ≡ true
    ch_same : s'.ch ≡ s.ch
    dq_same : s'.dq ≡ s.dq

  re_enqueue_batch-Sealed :
      (xs : List A) (s : Batcher A) → s.closed ≡ true → Sealed s (re_enqueue_batch cfg env xs s)
  unfolding re_enqueue_batch
  re_enqueue_batch-Sealed [] s h = record { closed_same = h; ch_same = refl; dq_same = refl }
  re_enqueue_batch-Sealed (x ∷ xs) s h = record {
    closed_same = ground arith;
    ch_same = ground arith;
    dq_same = ground arith;
  }

  fail-Sealed : (b : List A) (s : Batcher A) → s.closed ≡ true → Sealed s (fail cfg env b s)
  unfolding fail
  fail-Sealed b s h =
      let k = re_enqueue_batch-Sealed b _ h in
      record { closed_same = k.closed_same; ch_same = k.ch_same; dq_same = k.dq_same }

  transact-Sealed :
      (b : List A) (o : Fate) (s : Batcher A) → s.closed ≡ true → Sealed s (transact cfg env b o s)
  unfolding transact
  transact-Sealed b commits s h =
      unfold commit in record { closed_same = h; ch_same = refl; dq_same = refl }
  transact-Sealed b begin_fails s h = fail-Sealed b s h
  transact-Sealed b flush_fails s h = fail-Sealed b s h
  transact-Sealed b commit_fails s h = fail-Sealed b s h

  flush-Sealed : (b : List A) (s : Batcher A) → s.closed ≡ true → Sealed s (flush cfg env b s)
  unfolding flush
  flush-Sealed [] s h = record { closed_same = h; ch_same = refl; dq_same = refl }
  flush-Sealed (x ∷ xs) s h =
      let k = transact-Sealed (x ∷ xs) (env.fate s.turn) (record s { turn = s.turn + 1 }) h in
      if_split (λ s'. Sealed s (record s' { pending = s'.pending - length (x ∷ xs) }))
        (discardable cfg env (x ∷ xs))
        (λ _. unfold drop in record { closed_same = h; ch_same = refl; dq_same = refl })
        (λ _. record { closed_same = k.closed_same; ch_same = k.ch_same; dq_same = k.dq_same })

  collect-Sealed : (x : A) (s : Batcher A) → s.closed ≡ true → Sealed s (collect cfg env x s)
  unfolding collect with_item
  collect-Sealed x s h =
      let s' = with_item cfg env x s in
      let k = flush-Sealed s'.batch s' h in
      if_split (Sealed s) (is_due cfg env s')
        (λ _.
          unfold flush_batch in
          (record { closed_same = k.closed_same; ch_same = k.ch_same; dq_same = k.dq_same }))
        (λ _. record { closed_same = h; ch_same = refl; dq_same = refl })

  -- The loop of `drainChannel` takes as many rounds as the channel has items.
  abbrev Drained : Batcher A → Batcher A → Type ℓ
  Drained s s' = (s'.ch ≡ []) × (s'.dq ≡ s.dq) × (s'.closed ≡ true)

  drain_channel-Drained :
      (f : ℕ) (s : Batcher A)
      → s.closed ≡ true
      → length s.ch < f
      → Drained s (drain_channel cfg env f s)
  unfolding drain_channel
  drain_channel-Drained zero s h enough = absurd (omega arith)
  drain_channel-Drained (suc f) s h enough = go (drain_channel-Drained f) s.ch refl
    where
      go :
          ((r : Batcher A)
            → r.closed ≡ true
            → length r.ch < f
            → Drained r (drain_channel cfg env f r))
          → (c : List A) → s.ch ≡ c
          → Drained s (elim c [
            | [] ↦ s
            | x ∷ rest ↦ drain_channel cfg env f (collect cfg env x (record s { ch = rest }))
          ])
      go ih [] e = (e, refl, h)
      go ih (x ∷ rest) e =
          let k = collect-Sealed x (record s { ch = rest }) h in
          let (empty, same, shut) =
            ih (collect cfg env x (record s { ch = rest })) k.closed_same
              (omega (arith, ap length k.ch_same, ap length e)) in
          (empty, same ∙ k.dq_same, shut)

  pub exit_closed :
      (f : ℕ) (s : Batcher A)
      → s.closed ≡ true
      → length s.ch < f
      → ((flush_channel_and_exit cfg env f s).ch ≡ [])
        × ((flush_channel_and_exit cfg env f s).batch ≡ [])
        × ((flush_channel_and_exit cfg env f s).dq ≡ s.dq)
        × ((flush_channel_and_exit cfg env f s).exited ≡ true)
  unfolding flush_channel_and_exit flush_batch
  exit_closed f s h enough =
      let d = drain_channel cfg env f (record s { timer = false }) in
      let (empty, same, shut) = drain_channel-Drained f (record s { timer = false }) h enough in
      let k = flush-Sealed d.batch d shut in (k.ch_same ∙ empty, refl, k.dq_same ∙ same, refl)

  module _ (no_hook : cfg.drop_without_flush ≡ none) (works : (n : ℕ) → env.fate n ≡ commits) where
    kept_batch : (b : List A) → discardable cfg env b ≡ false
    unfolding discardable
    kept_batch b = ap (λ h. elim h [ none ↦ false | some hook ↦ hook b ]) no_hook

    -- With no hook and no failure a flush writes its batch and leaves the channel alone.
    flush_commits :
        (b : List A) (s : Batcher A)
        → ((flush cfg env b s).written ≡ s.written ++ b) × ((flush cfg env b s).ch ≡ s.ch)
    unfolding flush
    flush_commits [] s = (sym (append-nil s.written), refl)
    flush_commits (x ∷ xs) s =
        rw (kept_batch (x ∷ xs), works s.turn) (unfold transact commit in (refl, refl))

    -- What the batcher has written and holds, in order.
    abbrev pub line : Batcher A → List A
    line s = s.written ++ (s.batch ++ s.ch)

    flush_batch-line : (s : Batcher A) → line (flush_batch cfg env s) ≡ line s
    unfolding flush_batch
    flush_batch-line s =
        let (wrote, same) = flush_commits s.batch s in
        ap (λ w. w ++ ([] ++ (flush cfg env s.batch s).ch)) wrote
        ∙ ap (λ c. (s.written ++ s.batch) ++ ([] ++ c)) same
        ∙ append_line s.written s.batch s.ch

    collect-line :
        (x : A) (rest : List A) (s : Batcher A)
        → s.ch ≡ x ∷ rest
        → line (collect cfg env x (record s { ch = rest })) ≡ line s
    unfolding collect
    collect-line x rest s e =
        let s' = with_item cfg env x (record s { ch = rest }) in
        let moved : line s' ≡ line s =
          unfold with_item in
          (ap (λ l. s.written ++ l) (append_assoc s.batch (x ∷ []) rest)
            ∙ ap (λ c. s.written ++ (s.batch ++ c)) (sym e)) in
        if_split (λ r. line r ≡ line s) (is_due cfg env s') (λ _. flush_batch-line s' ∙ moved)
          (λ _. moved)

    drain_channel-line : (f : ℕ) (s : Batcher A) → line (drain_channel cfg env f s) ≡ line s
    unfolding drain_channel
    drain_channel-line zero s = refl
    drain_channel-line (suc f) s = go (drain_channel-line f) s.ch refl
      where
        go :
            ((r : Batcher A) → line (drain_channel cfg env f r) ≡ line r)
            → (c : List A) → s.ch ≡ c
            → line (elim c [
              | [] ↦ s
              | x ∷ rest ↦ drain_channel cfg env f (collect cfg env x (record s { ch = rest }))
            ])
              ≡ line s
        go ih [] e = refl
        go ih (x ∷ rest) e = ih _ ∙ collect-line x rest s e

    -- When no transaction fails and no hook drops a batch, the exit after `Close` writes the batch
    -- and then the channel, in order and each item once.
    pub exit_writes_all :
        (f : ℕ) (s : Batcher A)
        → s.closed ≡ true
        → length s.ch < f
        → (flush_channel_and_exit cfg env f s).written ≡ s.written ++ (s.batch ++ s.ch)
    exit_writes_all f s h enough =
        let (empty_ch, empty_batch, _, _) = exit_closed f s h enough in
        sym (append_none (flush_channel_and_exit cfg env f s) empty_batch empty_ch) ∙ exit-line
      where
        exit-line : line (flush_channel_and_exit cfg env f s) ≡ line s
        exit-line =
            unfold flush_channel_and_exit in
            (flush_batch-line (drain_channel cfg env f (record s { timer = false }))
              ∙ drain_channel-line f (record s { timer = false }))
