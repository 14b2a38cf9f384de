-- ===== src/Views.antt =====
-- The read side of the API: the routes that list reviews, decisions, audit events and metrics.
pub mod Reviews
pub mod Audit
pub mod Metrics
pub mod Decisions
