-- ===== src/Tests.antt =====
-- Concrete services, and each theorem on a concrete run.
pub mod Broker
pub mod Codec
pub mod Fixtures
pub mod Parts
pub mod Flows
pub mod Race
pub mod Handlers
pub mod Service
pub mod Jobs
pub mod Queue
pub mod Startup
pub mod Unit
