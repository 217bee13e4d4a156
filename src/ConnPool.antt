-- ===== src/ConnPool.antt =====
-- internal/dbconnpool/dbconnpool.go: the pool of database connections under its goroutines.
pub mod Create
pub mod Threads
pub mod Schedule
pub mod Count
pub mod Steps
pub mod Runs
pub mod Waiting
pub mod Tests
