-- ===== src/Worker.antt =====
-- apps/worker/worker: the job pipeline (pipeline.py) and the queue consumer (main.py).
pub mod Statements
pub mod Pipeline
pub mod Classifier
pub mod Vision
pub mod Adapters
pub mod Consumer
pub mod Pubsub
pub mod Effects
pub mod Delivery
pub mod Retries
pub mod Exhaustion
pub mod Consistency
pub mod Preservation
pub mod Polling
pub mod Race
pub mod Safety
