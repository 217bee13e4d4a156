-- ===== src/WriteBatcher.antt =====
-- internal/writebatcher: batcher.go, submit.go, flush.go, worker.go, dque.go and close.go.
-- The worker goroutine and the callers take turns: each function below is one step of one of them,
-- and the worker's locals (the batch, its bytes, its timer) stand in the state. What the program
-- does not decide is an environment: the durable queue's answers, the fate of each transaction and
-- the choice of a `select` with two ready cases. Byte costs and quotas are ℕ, 0 for "no limit".
pub mod State
pub mod Flush
pub mod Worker
pub mod Keeps
pub mod Turns
pub mod Count
pub mod Bounds
pub mod History
pub mod Submit
pub mod Closing
pub mod Tests
