-- ===== src/WriteBatcher/Count.antt =====
-- Where the items are: what a step takes from one place it puts in another.
use sfpg_go.Base.{
  ℕ, ◌+◌, ◌≡◌, ◌∙◌, ap, Bool, List, [], ◌∷◌, ◌++◌, arith, count, count-append, count-nil,
  count-cons, if_split,
}
use sfpg_go.WriteBatcher.State.{
  Batcher, Config, Env, stored, Result, ok, err, Fate, begin_fails, flush_fails, commit_fails,
  commits,
}
use sfpg_go.WriteBatcher.Flush.{
  submit, re_enqueue_batch, flush, flush_batch, fail, commit, drop, transact, discardable,
}
use sfpg_go.WriteBatcher.Worker.{with_item}
use sfpg_go.WriteBatcher.Keeps.{Keeps, Takes, from_ch, from_dq}

module _ {ℓ} {A : Type ℓ} (p : A → Bool) where
  -- The items that pass `p` and are not in the worker's batch.
  abbrev pub outside : Batcher A → ℕ
  outside s =
      count p s.ch + count p (stored s.dq) + count p s.written + count p s.dropped + count p s.lost

  -- Those that pass `p`, wherever they are.
  abbrev pub total : Batcher A → ℕ
  total s = outside s + count p s.batch

  abbrev pub taken : A → Result → ℕ
  taken x ok = count p (x ∷ [])
  taken x (err e) = 0

  module _ (cfg : Config A) (env : Env A) where
    pub submit-outside :
        (x : A) (s : Batcher A)
        → outside (submit cfg env x s).1 ≡ outside s + taken x (submit cfg env x s).0
    unfolding submit
    submit-outside x s =
        ground (arith, count-append p s.ch (x ∷ []), count-append p (stored s.dq) (x ∷ []))

    re_enqueue_batch-outside :
        (xs : List A) (s : Batcher A)
        → outside (re_enqueue_batch cfg env xs s) ≡ outside s + count p xs
    unfolding re_enqueue_batch
    re_enqueue_batch-outside [] s = omega (arith, count-nil p)
    re_enqueue_batch-outside (x ∷ xs) s =
        go (submit cfg env x s).0 (submit cfg env x s).1 (submit-outside x s)
          (re_enqueue_batch-outside xs (submit cfg env x s).1)
      where
        go :
            (r : Result) (s' : Batcher A)
            → outside s' ≡ outside s + taken x r
            → outside (re_enqueue_batch cfg env xs s') ≡ outside s' + count p xs
            → outside (elim r [
              | ok ↦ re_enqueue_batch cfg env xs s'
              | err e ↦ record s' { lost = s'.lost ++ x ∷ xs }
            ])
              ≡ outside s + count p (x ∷ xs)
        go ok s' e ih = omega (arith, count-cons p x xs, count-cons p x [], count-nil p)
        go (err _) s' e ih = omega (arith, count-append p s'.lost (x ∷ xs))

    fail-outside : (b : List A) (s : Batcher A) → outside (fail cfg env b s) ≡ outside s + count p b
    unfolding fail
    fail-outside b s = re_enqueue_batch-outside b _

    transact-outside :
        (b : List A) (o : Fate) (s : Batcher A)
        → outside (transact cfg env b o s) ≡ outside s + count p b
    unfolding transact
    transact-outside b commits s = unfold commit in omega (arith, count-append p s.written b)
    transact-outside b begin_fails s = fail-outside b s
    transact-outside b flush_fails s = fail-outside b s
    transact-outside b commit_fails s = fail-outside b s

    pub flush-outside :
        (b : List A) (s : Batcher A) → outside (flush cfg env b s) ≡ outside s + count p b
    unfolding flush
    flush-outside [] s = omega (arith, count-nil p)
    flush-outside (x ∷ xs) s =
        if_split (λ s'. outside s' ≡ outside s + count p (x ∷ xs)) (discardable cfg env (x ∷ xs))
          (λ _. unfold drop in omega (arith, count-append p s.dropped (x ∷ xs)))
          (λ _. transact-outside (x ∷ xs) (env.fate s.turn) _)

    flush_batch-total : (s : Batcher A) → total (flush_batch cfg env s) ≡ total s
    unfolding flush_batch
    flush_batch-total s = omega (arith, flush-outside s.batch s, count-nil p)

    with_item-total :
        (x : A) (s : Batcher A) → total (with_item cfg env x s) ≡ total s + count p (x ∷ [])
    unfolding with_item
    with_item-total x s = omega (arith, count-append p s.batch (x ∷ []))

    Takes-total : {x : A} {s s' : Batcher A} → Takes x s s' → total s' + count p (x ∷ []) ≡ total s
    Takes-total {x} {s} (from_ch rest e) =
        omega (arith, ap (count p) e, count-cons p x rest, count-cons p x [], count-nil p)
    Takes-total {x} {s} (from_dq rest e) =
        omega (arith, ap (count p) e, count-cons p x rest, count-cons p x [], count-nil p)

    -- No step of the worker makes an item or loses one unnoticed.
    pub total-Keeps : (n : ℕ) → Keeps cfg env (λ s. total s ≡ n)
    total-Keeps n = record {
      item_flushed = λ x s s' t e _.
          flush_batch-total (with_item cfg env x s') ∙ with_item-total x s' ∙ Takes-total t ∙ e;
      item_kept = λ x s s' t e _. with_item-total x s' ∙ Takes-total t ∙ e;
      flushed = λ s e. flush_batch-total s ∙ e;
      timed = λ b s e. e;
      exits = λ s e. e;
    }
