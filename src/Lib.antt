-- ===== src/Lib.antt =====
-- Verification of the core logic of sfpg-go, a photo gallery server in Go.
--
-- The server keeps its state in SQLite. Requests and the discovery of images hand their writes to the
-- write batcher, which collects them and runs one transaction for each batch; work items wait in an
-- in-memory deque; idle work is run by the scheduler and the worker pool; a login goes through the
-- rate limiter, the lockout and the stored hash. Connections to SQLite come from a pool. A page that is
-- answered is kept in the HTTP cache by way of the write batcher, and the pages of a folder that is opened,
-- or all pages at once, are loaded into it in the background. Each of these is a record for the state, a
-- function for each method, and a run of calls and environment choices.
--
-- Base: names and lemmas that all share: tests on numbers, lists measured by native numbers, signed
-- integers, bit masks.
-- Queue: internal/queue/queue.go, the deque on a circular buffer. `add_back` is AddBack, and so on;
-- DequeueWait is cut where it blocks, into `dequeue_wait` and `woken`. View, Spec and Refine relate it
-- to a list of items.
-- WriteBatcher: internal/writebatcher. State has New and the flags, Flush has submit.go and flush.go,
-- Worker has worker.go and dque.go. A history is a list of turns of callers and worker; how a
-- transaction ends and which case a select takes are answers of an environment.
-- Security: internal/server/security. int64 sums wrap as written; a clock of the rate limiter is a
-- number of seconds that callers pass.
-- Auth: internal/server/auth/service.go over internal/server/auth_service.go and server.go, with
-- internal/server/validation/validation.go. A method of the store is a program over the two tables; each
-- statement takes one answer of the environment, which may be a failure. bcrypt is a parameter: the
-- theorems say which hash was compared with which password, not that a hash is hard to invert. A
-- string is its list of code points.
-- Scheduler: internal/scheduler/scheduler.go. A call that takes the lock is one step, and a turn of the loop
-- is cut where it holds no lock. The calendar is a parameter.
-- WorkerPool: internal/workerpool/workerpool.go.
-- Conditional: internal/server/conditional/match.go and internal/server/middleware/conditional.go. A
-- handler is the list of its calls of the response writer; a header has one value.
-- Config: internal/server/config/validator.go. The worker pool's limit rests on what it checks.
-- ConnPool: internal/dbconnpool/dbconnpool.go. Get, Put, Close and the monitor are threads; a step is one
-- access to an atomic or a channel, or one call of the driver, and a schedule is a list of thread numbers
-- with what the environment decides.
-- HttpCache: internal/cachelite, with its part of internal/server/infrastructure_batcher.go and
-- infrastructure_cache.go. Codec has bodycodec/registry.go and body_storage.go, Key has key.go, Table and
-- Size have cache.go over sqlc/queries/http_cache.sql, Batch a batch that is stored, counted and cut down,
-- and Writer and Middleware http_cache_middleware.go. A codec is a record of functions; a handler is the
-- list of its calls of the writer.
-- Preload: internal/server/cachepreload, over Scheduler and HttpCache.Key. Tracker has deduplication.go and
-- session_tracker.go, Manager the rest. What the scheduler runs next and what the database answers are
-- events; a task begins, takes its steps and ends among others.
-- CacheBatch: internal/server/cachebatch, over HttpCache.Key. State has the counters, Load has Run. Calls of
-- Run share a manager; a step is one of a call or of one of its workers.
--
-- Fuel: the exit of the write batcher takes rounds of fuel; a round takes an item from the channel, which
-- a closed batcher does not fill again. The growth loop of a new queue has as many doublings as the
-- wanted capacity, of which it needs the logarithm. All else is structural recursion.
--
-- Not modelled: input and output, HTTP, templates, the generated database code, image processing, the
-- durable queue's own files, metrics and logging. Counters that only statistics show are kept where a
-- method changes them, except time stamps.
pub mod Base
pub mod Queue
pub mod WriteBatcher
pub mod Security
pub mod Auth
pub mod Scheduler
pub mod WorkerPool
pub mod Conditional
pub mod Config
pub mod ConnPool
pub mod HttpCache
pub mod Preload
pub mod CacheBatch
