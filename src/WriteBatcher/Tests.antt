-- ===== src/WriteBatcher/Tests.antt =====
-- Runs of a batcher of numbers on concrete inputs, and the theorems at them.
use sfpg_go.Base.{
  ℕ, ◌+◌, ◌≤◌, ◌<◌, ◌≡◌, refl, true, false, List, [], ◌∷◌, ◌++◌, none, some, arith, length, count,
  ◌==◌, if◌then◌else◌, ◌⊎◌,
}
use sfpg_go.Base.Int.{pos}
use sfpg_go.WriteBatcher.State.{
  Batcher, with_defaults, Config, Env, ok, begin_fails, commits, new, stored,
}
use sfpg_go.WriteBatcher.Flush.{submit, capacity}
use sfpg_go.WriteBatcher.Worker.{
  flush_channel_and_exit, Event, submits, receives, drains, run, accepted,
}
use sfpg_go.WriteBatcher.Count.{total}
use sfpg_go.WriteBatcher.Bounds.{Inv}
use sfpg_go.WriteBatcher.History.{run-total, run-new-Inv}
use sfpg_go.WriteBatcher.Submit.{submit_outcome}
use sfpg_go.WriteBatcher.Closing.{exit_writes_all}

abbrev pairs : Config ℕ
pairs = record {
  max_batch_size = pos 2;
  channel_size = pos 3;
  size_func = none;
  max_batch_bytes = 0;
  max_disk_bytes = 0;
  defer_dque_drain = false;
  drop_without_flush = none;
}

-- Every answer is good but the fate of the first transaction.
abbrev first_fails : Env ℕ
first_fails = record {
  enqueue_works = λ x d. true;
  dequeue_works = λ d. true;
  disk_bytes = length;
  fate = λ n. if n == 4 then begin_fails else commits;
  picks_done = λ n. false;
}

abbrev all_commit : Env ℕ
all_commit = record first_fails { fate = λ n. commits }

-- Four items overflow the channel of three; the first batch is full at its second item, and the
-- transaction that fails puts both items back at the end of the channel.
abbrev busy : List (Event ℕ)
busy = submits 1 ∷ submits 2 ∷ submits 3 ∷ submits 4 ∷ receives ∷ receives ∷ receives ∷ drains ∷ []

busy_written : (run pairs first_fails 9 busy (new pairs (some []))).written ≡ 3 ∷ 1 ∷ 2 ∷ 4 ∷ []
unfolding run new with_defaults
busy_written = refl

run-total_example :
    total (λ x. x == 1) (run pairs first_fails 9 busy (new pairs (some [])))
    ≡ total (λ x. x == 1) (new pairs (some []))
      + count (λ x. x == 1) (accepted pairs first_fails 9 busy (new pairs (some [])))
run-total_example = run-total pairs first_fails 9 (λ x. x == 1) busy (new pairs (some []))

run-new-Inv_example : Inv pairs first_fails (run pairs first_fails 9 busy (new pairs (some [])))
run-new-Inv_example = run-new-Inv pairs first_fails 9 (some []) busy

submit_outcome_example :
    ((new pairs none).closed ≡ false)
    × ((submit pairs all_commit 5 (new pairs none)).1.pending ≡ (new pairs none).pending + 1)
    × (((submit pairs all_commit 5 (new pairs none)).1.ch ≡ (new pairs none).ch ++ 5 ∷ [])
          × ((submit pairs all_commit 5 (new pairs none)).1.dq ≡ (new pairs none).dq)
        ⊎ ((submit pairs all_commit 5 (new pairs none)).1.ch ≡ (new pairs none).ch)
          × (capacity pairs all_commit ≤ length (new pairs none).ch)
          × (((new pairs none).max_disk_bytes ≡ 0)
              ⊎ (all_commit.disk_bytes (stored (new pairs none).dq)
                  < (new pairs none).max_disk_bytes))
          × ((submit pairs all_commit 5 (new pairs none)).1.dq
              ≡ some (stored (new pairs none).dq ++ 5 ∷ [])))
unfolding submit new with_defaults
submit_outcome_example = (submit_outcome pairs all_commit 5 (new pairs none)).1 refl

abbrev cancelled : Batcher ℕ
cancelled = record (new pairs none) { ctx_done = true }

-- A cancelled context does not close the channel.
accepted_though_cancelled : (submit pairs all_commit 5 cancelled).0 ≡ ok
unfolding submit new with_defaults
accepted_though_cancelled = refl

abbrev closing : Batcher ℕ
closing = record (new pairs none) { closed = true; ch = 7 ∷ 8 ∷ 9 ∷ []; batch = 6 ∷ [] }

exit_writes_all_example :
    (flush_channel_and_exit pairs all_commit 4 closing).written ≡ 6 ∷ 7 ∷ 8 ∷ 9 ∷ []
unfolding new
exit_writes_all_example =
    exit_writes_all pairs all_commit refl (λ n. refl) 4 closing refl (omega arith)
