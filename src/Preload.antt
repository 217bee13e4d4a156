-- ===== src/Preload.antt =====
-- internal/server/cachepreload: the preloading of a folder's pages.
pub mod Tracker
pub mod Manager
pub mod Claims
pub mod Lasting
pub mod Stuck
pub mod Tests
