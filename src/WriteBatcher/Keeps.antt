-- ===== src/WriteBatcher/Keeps.antt =====
-- One rule for the invariants of the worker: what holds across a taken item and across a flush
-- holds across every loop of worker.go and dque.go.
use sfpg_go.Base.{
  ℕ, zero, suc, ◌≡◌, refl, Bool, true, false, List, [], ◌∷◌, Option, none, some, length, if_split,
  ltb, ◌==◌, if◌then◌else◌,
}
use sfpg_go.Base.Int.{pos, ◌-ℤ◌}
use sfpg_go.WriteBatcher.State.{Batcher, Config, Env, stored}
use sfpg_go.WriteBatcher.Flush.{flush_batch}
use sfpg_go.WriteBatcher.Worker.{
  with_item, is_due, append_and_manage_timer, collect, drain_channel, flush_channel_and_exit, Round,
  take_stored, drain_round, drain_dque_all, drain_phase, receive, on_timer, on_ctx_done,
}

-- The worker takes an item from the channel or from the durable queue.
pub data Takes {ℓ} {A : Type ℓ} (x : A) (s : Batcher A) : Batcher A → Type ℓ where
  from_ch : (rest : List A) → s.ch ≡ x ∷ rest → Takes x s (record s { ch = rest })
  from_dq :
      (rest : List A)
      → stored s.dq ≡ x ∷ rest
      → Takes x s (record s { dq = some rest; overflow_count = s.overflow_count -ℤ pos 1 })

pub record Keeps {ℓ κ} {A : Type ℓ} (cfg : Config A) (env : Env A) (P : Batcher A → Type κ)
    : Type (ℓ ⊔ κ) where
  pub item_flushed :
      (x : A) (s s' : Batcher A)
      → Takes x s s'
      → P s
      → is_due cfg env (with_item cfg env x s') ≡ true
      → P (flush_batch cfg env (with_item cfg env x s'))
  pub item_kept :
      (x : A) (s s' : Batcher A)
      → Takes x s s'
      → P s
      → is_due cfg env (with_item cfg env x s') ≡ false
      → P (with_item cfg env x s')
  pub flushed : (s : Batcher A) → P s → P (flush_batch cfg env s)
  pub timed : (b : Bool) (s : Batcher A) → P s → P (record s { timer = b })
  pub exits : (s : Batcher A) → P s → P (record s { exited = true })

choose {ℓ κ} :
    {S : Type ℓ} (P : S → Type κ) (b : Bool) {x y : S}
    → P x
    → P y
    → P (elim b [ true ↦ x | false ↦ y ])
choose P true h k = h
choose P false h k = k

module _ {ℓ κ} {A : Type ℓ} (cfg : Config A) (env : Env A) (P : Batcher A → Type κ)
    (k : Keeps cfg env P) where
  append-keeps :
      (x : A) (s s' : Batcher A) → Takes x s s' → P s → P (append_and_manage_timer cfg env x s')
  unfolding append_and_manage_timer
  append-keeps x s s' t h =
      if_split P (is_due cfg env (with_item cfg env x s')) (k.item_flushed x s s' t h) λ idle.
        if_split P (length (with_item cfg env x s').batch == 1)
          (λ _. k.timed true _ (k.item_kept x s s' t h idle)) (λ _. k.item_kept x s s' t h idle)

  collect-keeps : (x : A) (s s' : Batcher A) → Takes x s s' → P s → P (collect cfg env x s')
  unfolding collect
  collect-keeps x s s' t h =
      if_split P (is_due cfg env (with_item cfg env x s')) (k.item_flushed x s s' t h)
        (k.item_kept x s s' t h)

  drain_channel-keeps : (f : ℕ) (s : Batcher A) → P s → P (drain_channel cfg env f s)
  unfolding drain_channel
  drain_channel-keeps zero s h = h
  drain_channel-keeps (suc f) s h = go (drain_channel-keeps f) s.ch refl
    where
      go :
          ((s : Batcher A) → P s → P (drain_channel cfg env f s))
          → (c : List A) → s.ch ≡ c
          → P (elim c [
            | [] ↦ s
            | x ∷ rest ↦ drain_channel cfg env f (collect cfg env x (record s { ch = rest }))
          ])
      go ih [] e = h
      go ih (x ∷ rest) e = ih _ (collect-keeps x s _ (from_ch rest e) h)

  exit-keeps : (f : ℕ) (s : Batcher A) → P s → P (flush_channel_and_exit cfg env f s)
  unfolding flush_channel_and_exit
  exit-keeps f s h = k.exits _ (k.flushed _ (drain_channel-keeps f _ (k.timed false s h)))

  take_stored-keeps :
      (n : ℕ) (s : Batcher A) (d : List A)
      → stored s.dq ≡ d
      → P s
      → P (take_stored cfg env n s d).state
  unfolding take_stored
  take_stored-keeps n s [] e h = if_split P (ltb 0 n) (λ _. k.flushed s h) (λ _. h)
  take_stored-keeps n s (x ∷ rest) e h =
      if_split (λ (r : Round cfg env). P r.state) (env.dequeue_works (x ∷ rest))
        (λ _. append-keeps x s _ (from_dq rest e) h) (λ _. h)

  drain_round-keeps : (f n : ℕ) (s : Batcher A) → P s → P (drain_round cfg env f n s).state
  unfolding drain_round
  drain_round-keeps f n s h =
      if_split (λ (r : Round cfg env). P r.state) s.closed (λ _. h)
        λ _.
          if_split (λ (r : Round cfg env). P r.state) s.ctx_done (λ _. exit-keeps f s h)
            (λ _. go s.ch refl)
    where
      go :
          (c : List A)
          → s.ch ≡ c
          → P (
              let r : Round cfg env = elim c [
                | x ∷ rest ↦ record {
                  again = true;
                  drained = n;
                  state = append_and_manage_timer cfg env x (record s { ch = rest });
                }
                | [] ↦ take_stored cfg env n s (stored s.dq)
              ] in
              r.state)
      go [] e = take_stored-keeps n s (stored s.dq) refl h
      go (x ∷ rest) e = append-keeps x s _ (from_ch rest e) h

  drain_dque_all-keeps : (f n : ℕ) (s : Batcher A) → P s → P (drain_dque_all cfg env f n s)
  unfolding drain_dque_all
  drain_dque_all-keeps zero n s h = h
  drain_dque_all-keeps (suc f) n s h =
      go (drain_round cfg env f n s) (drain_round-keeps f n s h) (drain_dque_all-keeps f)
    where
      go :
          (r : Round cfg env)
          → P r.state
          → ((n : ℕ) (s : Batcher A) → P s → P (drain_dque_all cfg env f n s))
          → P (elim r.again [ true ↦ drain_dque_all cfg env f r.drained r.state | false ↦ r.state ])
      go r h ih = choose P r.again (ih r.drained r.state h) h

  pub drain_phase-keeps : (f : ℕ) (s : Batcher A) → P s → P (drain_phase cfg env f s)
  unfolding drain_phase
  drain_phase-keeps f s h = go s.dq
    where
      go :
          (d : Option (List A))
          → P (elim d [
            | none ↦ s
            | some _ ↦ if s.drain_enabled then drain_dque_all cfg env f 0 s else s
          ])
      go none = h
      go (some _) = if_split P s.drain_enabled (λ _. drain_dque_all-keeps f 0 s h) (λ _. h)

  pub receive-keeps : (f : ℕ) (s : Batcher A) → P s → P (receive cfg env f s)
  unfolding receive
  receive-keeps f s h = go s.ch refl
    where
      go :
          (c : List A)
          → s.ch ≡ c
          → P (elim c [
            | x ∷ rest ↦ append_and_manage_timer cfg env x (record s { ch = rest })
            | [] ↦ if s.closed then flush_channel_and_exit cfg env f s else s
          ])
      go [] e = if_split P s.closed (λ _. exit-keeps f s h) (λ _. h)
      go (x ∷ rest) e = append-keeps x s _ (from_ch rest e) h

  pub on_timer-keeps : (s : Batcher A) → P s → P (on_timer cfg env s)
  unfolding on_timer
  on_timer-keeps s h = if_split P s.timer (λ _. k.flushed s h) (λ _. h)

  pub on_ctx_done-keeps : (f : ℕ) (s : Batcher A) → P s → P (on_ctx_done cfg env f s)
  unfolding on_ctx_done
  on_ctx_done-keeps f s h = if_split P s.ctx_done (λ _. exit-keeps f s h) (λ _. h)
