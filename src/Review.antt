-- ===== src/Review.antt =====
-- The human review queue of the API: apps/api/app/redis_client.py (claim locks), review_claims.py
-- (expiry) and the handlers of routes/review.py.
pub mod Locks
pub mod Claims
pub mod Handlers
pub mod Rows
pub mod Exclusion
pub mod Resolution
pub mod Expiry
pub mod Finality
pub mod Machine
pub mod Refinement
pub mod Holding
