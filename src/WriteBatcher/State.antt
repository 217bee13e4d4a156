-- ===== src/WriteBatcher/State.antt =====
-- internal/writebatcher/batcher.go, close.go: the state, `New`, and the steps that only set flags.
use sfpg_go.Base.{
  ℕ, Bool, true, false, ◌&&◌, not, List, [], Option, none, some, if◌then◌else◌, length,
}
use sfpg_go.Base.Int.{ℤ, pos, leb_ℤ}

pub data Error : Type 0 where
  closed full quota_exceeded : Error

pub data Result : Type 0 where
  ok : Result
  err : Error → Result

-- How the transaction of one flush ends.
pub data Fate : Type 0 where
  begin_fails flush_fails commit_fails commits : Fate

pub record Config {ℓ} (A : Type ℓ) : Type ℓ where
  pub max_batch_size : ℤ
  pub channel_size : ℤ
  pub size_func : Option (A → ℕ)
  pub max_batch_bytes : ℕ
  pub max_disk_bytes : ℕ
  pub defer_dque_drain : Bool
  pub drop_without_flush : Option (List A → Bool)

-- The defaults of `New`.
unfoldable pub with_defaults {ℓ} : {A : Type ℓ} → Config A → Config A
with_defaults c = record c {
  max_batch_size = if leb_ℤ c.max_batch_size (pos 0) then pos 50 else c.max_batch_size;
  channel_size = if leb_ℤ c.channel_size (pos 0) then pos 1024 else c.channel_size;
}

pub record Env {ℓ} (A : Type ℓ) : Type ℓ where
  pub enqueue_works : A → List A → Bool
  pub dequeue_works : List A → Bool
  pub disk_bytes : List A → ℕ
  pub fate : ℕ → Fate
  pub picks_done : ℕ → Bool

-- The callbacks, newest first.
pub data Call {ℓ} (A : Type ℓ) : Type ℓ where
  on_error on_success : List A → Call A
  on_after_commit : ℕ → Bool → Call A

-- `turn` counts the choices of the environment that were used up. `written`, `dropped` and `lost`
-- say what became of the items that left the batcher: committed, dropped by the hook, or given up.
pub record Batcher {ℓ} (A : Type ℓ) : Type ℓ where
  pub ch : List A
  pub dq : Option (List A)
  pub batch : List A
  pub batch_bytes : ℕ
  pub timer : Bool
  pub closed : Bool
  pub ctx_done : Bool
  pub exited : Bool
  pub notified : Bool
  pub drain_enabled : Bool
  pub pending : ℕ
  pub total_flushed : ℕ
  pub total_errors : ℕ
  pub total_committed : ℕ
  pub overflow_count : ℤ
  pub max_disk_bytes : ℕ
  pub turn : ℕ
  pub calls : List (Call A)
  pub written : List A
  pub dropped : List A
  pub lost : List A

abbrev pub stored {ℓ} : {A : Type ℓ} → Option (List A) → List A
stored none = []
stored (some d) = d

module _ {ℓ} {A : Type ℓ} where
  -- `New`, with what the durable queue holds from the last run; none without a queue.
  unfoldable pub new : Config A → Option (List A) → Batcher A
  new cfg dq = record {
    ch = [];
    dq = dq;
    batch = [];
    batch_bytes = 0;
    timer = false;
    closed = false;
    ctx_done = false;
    exited = false;
    notified = false;
    drain_enabled = elim dq [ none ↦ false | some _ ↦ not cfg.defer_dque_drain ];
    pending = length (stored dq);
    total_flushed = 0;
    total_errors = 0;
    total_committed = 0;
    overflow_count = pos 0;
    max_disk_bytes = cfg.max_disk_bytes;
    turn = 0;
    calls = [];
    written = [];
    dropped = [];
    lost = [];
  }

module _ {ℓ} {A : Type ℓ} where
  -- `Close` up to its wait for the worker, and what it does after the worker's exit.
  unfoldable pub close : Batcher A → Batcher A
  close s = record s { closed = true }

  unfoldable pub close_after_exit : Batcher A → Batcher A
  close_after_exit s = if s.closed && s.exited then record s { ctx_done = true } else s

  unfoldable pub cancel : Batcher A → Batcher A
  cancel s = record s { ctx_done = true }

  unfoldable pub on_notify : Batcher A → Batcher A
  on_notify s = record s { notified = false }

  unfoldable pub set_max_disk_bytes : ℕ → Batcher A → Batcher A
  set_max_disk_bytes n s = record s { max_disk_bytes = n }

  unfoldable pub start_dque_drain : Batcher A → Batcher A
  start_dque_drain s = elim s.dq [
    | none ↦ s
    | some _ ↦ if s.drain_enabled then s else record s { drain_enabled = true; notified = true }
  ]
