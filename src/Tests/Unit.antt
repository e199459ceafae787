-- ===== src/Tests/Unit.antt =====
-- The unit tests of the repository, as functions of the model: each takes what the test finds around
-- it, and answers whether its assertions hold.
pub mod Cache
pub mod Merge
pub mod RateLimit
pub mod Entropy
pub mod Reports
pub mod Paths
