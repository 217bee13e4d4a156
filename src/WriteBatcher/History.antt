-- ===== src/WriteBatcher/History.antt =====
-- Whole histories: callers and worker in any order.
use sfpg_go.Base.{
  ℕ, ◌+◌, ◌≡◌, ◌≢◌, refl, sym, ◌∙◌, ap, Bool, List, [], ◌∷◌, Option, arith, length, count,
  count-append, count-nil,
}
use sfpg_go.WriteBatcher.State.{Batcher, Config, Env, stored, Result, ok, err, new}
use sfpg_go.WriteBatcher.Flush.{submit}
use sfpg_go.WriteBatcher.Worker.{
  Event, submits, closes, cancels, starts_drain, sets_max_disk_bytes, drains, receives, times_out,
  maintains, notices, sees_ctx_done, finishes_close, turn, is_worker, step, run, took, accepted_by,
  accepted,
}
use sfpg_go.WriteBatcher.Turns.{Same, step-keeps}
use sfpg_go.WriteBatcher.Count.{total, submit-outside, total-Keeps, taken}
use sfpg_go.WriteBatcher.Bounds.{Inv, Inv-Keeps, submit-Inv, batch-submit, batch_limit_pos}

module _ {ℓ} {A : Type ℓ} (p : A → Bool) where
  taken-took : (x : A) (r : Result) → taken p x r ≡ count p (took x r)
  unfolding took
  taken-took x ok = refl
  taken-took x (err e) = sym (count-nil p)

module _ {ℓ} {A : Type ℓ} (cfg : Config A) (env : Env A) (fuel : ℕ) where
  module _ (p : A → Bool) where
    none_taken : (s s' : Batcher A) → total p s' ≡ total p s → total p s' ≡ total p s + count p []
    none_taken s s' e = omega (arith, e, count-nil p)

    total-Same : (s s' : Batcher A) → Same s s' → total p s' ≡ total p s
    total-Same s s' same = omega (
      arith,
      ap (count p) same.ch_same,
      ap (λ d. count p (stored d)) same.dq_same,
      ap (count p) same.batch_same,
      ap (count p) same.written_same,
      ap (count p) same.dropped_same,
      ap (count p) same.lost_same,
    )

    quiet :
        (e : Event A) (s : Batcher A)
        → ((x : A) → e ≢ submits x)
        → total p (step cfg env fuel e s) ≡ total p s + count p []
    quiet e s n = none_taken s (step cfg env fuel e s) (
        step-keeps cfg env fuel (λ r. total p r ≡ total p s) (total-Keeps p cfg env (total p s))
          (λ r r' same h. total-Same r r' same ∙ h) e s (λ x eq. absurd (n x eq)) refl)

    step-total :
        (e : Event A) (s : Batcher A)
        → total p (step cfg env fuel e s) ≡ total p s + count p (accepted_by cfg env fuel e s)
    unfolding accepted_by
    step-total (submits x) s =
        unfold step turn is_worker in
        omega (
          arith,
          submit-outside p cfg env x s,
          taken-took p x (submit cfg env x s).0,
          ap (count p) (batch-submit cfg env x s),
        )
    step-total closes s = quiet closes s (λ x e. cc)
    step-total cancels s = quiet cancels s (λ x e. cc)
    step-total starts_drain s = quiet starts_drain s (λ x e. cc)
    step-total (sets_max_disk_bytes n) s = quiet (sets_max_disk_bytes n) s (λ x e. cc)
    step-total drains s = quiet drains s (λ x e. cc)
    step-total receives s = quiet receives s (λ x e. cc)
    step-total times_out s = quiet times_out s (λ x e. cc)
    step-total maintains s = quiet maintains s (λ x e. cc)
    step-total notices s = quiet notices s (λ x e. cc)
    step-total sees_ctx_done s = quiet sees_ctx_done s (λ x e. cc)
    step-total finishes_close s = quiet finishes_close s (λ x e. cc)

    -- Whatever callers and worker do, and however the transactions end, the items that pass a test
    -- and were stored at the start or accepted since are, as often, in the channel, the durable
    -- queue, the batch, the database, or among those that the hook dropped or that a failed
    -- re-enqueue gave up.
    pub run-total :
        (es : List (Event A)) (s : Batcher A)
        → total p (run cfg env fuel es s) ≡ total p s + count p (accepted cfg env fuel es s)
    unfolding run accepted
    run-total [] s = none_taken s s refl
    run-total (e ∷ es) s = omega (
      arith,
      run-total es (step cfg env fuel e s),
      step-total e s,
      count-append p (accepted_by cfg env fuel e s)
          (accepted cfg env fuel es (step cfg env fuel e s)),
    )

  Same-Inv : (s s' : Batcher A) → Same s s' → Inv cfg env s → Inv cfg env s'
  Same-Inv s s' same v = record {
    counted = omega (
      arith,
      v.counted,
      same.pending_same,
      ap length same.ch_same,
      ap (λ d. length (stored d)) same.dq_same,
      ap length same.batch_same,
    );
    ch_fits = omega (arith, v.ch_fits, ap length same.ch_same);
    batch_short = omega (arith, v.batch_short, ap length same.batch_same);
  }

  run-Inv :
      (es : List (Event A)) (s : Batcher A) → Inv cfg env s → Inv cfg env (run cfg env fuel es s)
  unfolding run
  run-Inv [] s v = v
  run-Inv (e ∷ es) s v = run-Inv es (step cfg env fuel e s) (
      step-keeps cfg env fuel (Inv cfg env) (Inv-Keeps cfg env) Same-Inv e s
        (λ x _. submit-Inv cfg env x s v) v)

  -- After any history of a new batcher the pending count is the number of items in the channel, the
  -- durable queue and the batch; the channel holds no more than its capacity, and the batch is
  -- below the batch limit.
  pub run-new-Inv :
      (d : Option (List A)) (es : List (Event A)) → Inv cfg env (run cfg env fuel es (new cfg d))
  run-new-Inv d es = run-Inv es (new cfg d) (
      unfold new in
      (record {
        counted = omega arith;
        ch_fits = omega arith;
        batch_short = batch_limit_pos cfg env;
      }))
