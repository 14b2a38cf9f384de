-- ===== src/Ingest.antt =====
-- apps/api/app: the ingest service (ingest_service.py), its idempotency key (hashing.py) and the
-- producers of the queue (queue.py).
pub mod Hashing
pub mod Queue
pub mod Fetch
pub mod Service
pub mod Accept
pub mod Idempotency
pub mod Resubmission
pub mod Routes
pub mod Admission
pub mod Stored
