-- ===== src/HttpCache.antt =====
-- internal/cachelite: the HTTP response cache, its keys, the codecs of its bodies, its table and its
-- middleware.
pub mod Codec
pub mod Codecs
pub mod RoundTrip
pub mod Key
pub mod Keys
pub mod Table
pub mod Size
pub mod Batch
pub mod Rows
pub mod Evicted
pub mod Replaced
pub mod Counters
pub mod Writer
pub mod Middleware
pub mod Headers
pub mod Submitted
pub mod Stored
pub mod Replay
pub mod Tests
