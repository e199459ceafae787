-- ===== src/Lib.antt =====
-- Models of the backup service: a REST API over PostgreSQL and Redis, a worker that takes jobs from
-- RabbitMQ and reports by gRPC, and the crate that both share. A request passes the router
-- (crates/backup-service/src/router.rs), the token check and the rate limiter, and reaches a handler
-- that sends SQL statements and keeps copies in the cache. A job goes through the queue to the worker,
-- whose two calls change the row. An updater merges remote settings into the shared configuration.
--
-- The files, each with its children for what is proved of it; a path without a crate is below
-- crates/backup-service/src, or the root for migrations and proto:
-- Models, Errors: models.rs, errors.rs. A UUID is the number of its bits, a timestamp a number, and a
--   text a native string; the error of another crate is the text that it displays.
-- Services: PostgreSQL, Redis, RabbitMQ, serde_json, uuid, jsonwebtoken and the floating-point numbers
--   as parameters; Services.Laws: their documented behaviour as records of laws, which are hypotheses
--   of the theorems that need them. Tests.Fixtures has an instance that satisfies all of them.
-- Sql: the table of migrations/001_create_backups.sql, and each SQL statement of handlers/backups.rs
--   and grpc.rs as a function of the table. Db: a statement on its way: it may be refused, or run and
--   lose its reply.
-- Cache: cache.rs, `CacheLayer`. State: state.rs, `AppState`, with the clocks and the stores that its
--   handles refer to. Config: config.rs, `AppConfig::from_env`. Apollo, with Apollo.Fetch: apollo/merge.rs and fetch.rs.
-- SourcePath, Backups: handlers/backups.rs, one function per handler, in the order of the code.
-- Auth: handlers/auth.rs and the tokens of middleware/auth.rs. RateLimit: the counters of
--   middleware/rate_limit.rs. Middleware: both layers. Http: requests and responses. Router: router.rs
--   and handlers/health.rs.
-- Proto, Grpc: proto/backup.proto and grpc.rs. Jobs: crates/backup-common/src/worker.rs, with
--   Jobs.Topology for the connection and its declarations. Entropy: crates/backup-common/src/ffi.rs and
--   its C code. Worker: crates/backup-worker/src/main.rs, with Worker.Life for its start and end.
-- Migrations: db.rs, as commands on a catalog of two tables. Telemetry:
--   crates/backup-common/src/telemetry.rs. Startup: main.rs, from the configuration to the shutdown; its
--   log of effects is what tells their order, and between start and signal stand the operations of
--   System.
-- System: the service as a whole, a sequence of requests, calls, fetches and steps of the clock.
-- Common: shared notation and lemmas; `Exec` is code that changes a state and may fail, and what it
--   changed before a failure stays changed. Tests: the theorems on concrete runs; Tests.Unit: the
--   tests of the repository, run on the model.
--
-- Each request, call and update is one step of the state. The limiter's mutex makes its check one
-- step in the code too. The statements and commands of two handlers may interleave in the program;
-- here they do only in Backups.Race, which has another request between the steps of a read.
-- Counters are `u64` and wrap at 2 ^ 64, as a release build does; the sizes of columns are
-- integers without bound, for no code computes with them. Loops are structural: over the
-- deliveries of the worker and the fetches of the updater as far as they have come, over lists and
-- over texts, so no fuel is needed. That the
-- queue empties, in Worker.Drain, is accessibility of a step relation.
--
-- Not modelled: the layers of tower-http, the matching of URLs and the reading of bodies, which axum
-- and serde do, the signals, the metrics but for the counter of jobs, what is logged, and the
-- deployment. The timer of the updater is the number of its ticks. An error that ends the gRPC server early
-- is the absence of later calls.
pub mod Common
pub mod Models
pub mod Errors
pub mod RateLimit
pub mod Config
pub mod Apollo
pub mod Entropy
pub mod Jobs
pub mod Services
pub mod Sql
pub mod Db
pub mod Cache
pub mod State
pub mod SourcePath
pub mod Backups
pub mod Proto
pub mod Grpc
pub mod Auth
pub mod Http
pub mod Middleware
pub mod Router
pub mod Worker
pub mod System
pub mod Telemetry
pub mod Migrations
pub mod Startup
pub mod Tests
