-- ===== src/Examples.antt =====
-- Concrete inputs at which the theorems apply, and the states that they run on.
pub mod Instances
pub mod Worker
pub mod Review
pub mod Api
pub mod Ingest
pub mod Classifier
pub mod Fetch
pub mod Routes
pub mod Cloud
pub mod Views
pub mod Pipeline
pub mod Lifecycle
