-- ===== src/CacheBatch.antt =====
-- internal/server/cachebatch: the load of all cacheable pages into the cache.
pub mod State
pub mod Load
pub mod Count
pub mod Proceeds
pub mod Steps
pub mod Runs
pub mod Ends
pub mod Tests
