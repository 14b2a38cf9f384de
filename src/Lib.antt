-- ===== src/Lib.antt =====
-- Verification of the multimodal content moderation service: an API accepts images with captions,
-- stores them and queues jobs; workers classify each job and write a decision; reviewers claim and
-- resolve what needs a human; a script moves dead letters back.
--
-- Parts, and the files that model them:
--   Policy        packages/moderation_shared/src/moderation_shared/thresholds.py: `route_decision`
--   Envelope      packages/moderation_shared/src/moderation_shared/envelope.py: signals and envelope
--   Schema        db/migrations/001_init.sql: the tables, as the record `Db` of lists of rows
--   Worker        apps/worker/worker/pipeline.py (Worker/Statements, Worker/Pipeline) and main.py
--                 (Worker/Consumer, Worker/Pubsub):
--                 `validate`, `process_job`, `persist_envelope`, `mark_failed`, `handle_message`,
--                 `poll_sqs`, `poll_pubsub`, `poll_loop`; adapters/llm.py (Worker/Classifier,
--                 Worker/Classifier/Openai) and adapters/vision.py (Worker/Vision,
--                 Worker/Vision/Cloud): the adapters, which Worker/Adapters plugs into the pipeline
--   Review        apps/api/app/redis_client.py (Review/Locks), review_claims.py (Review/Claims) and
--                 routes/review.py (Review/Handlers): `claim_review`, `resolve_review`;
--                 Review/Machine is the abstract machine of a review, on requests at their times
--   RateLimit     apps/api/app/rate_limit.py
--   Redrive       scripts/redrive.py: the plan and the loop; Redrive/Cli: `.env`, environment, `main`
--   Ingest        apps/api/app/hashing.py (Ingest/Hashing), queue.py (Ingest/Queue) and
--                 ingest_service.py (Ingest/Service, Ingest/Accept): `accept_image`; url_fetch.py
--                 (Ingest/Fetch): `fetch_image_bytes`; routes/ingest.py (Ingest/Routes)
--   Storage       apps/api/app/storage.py and apps/worker/worker/object_store.py: `put_object`,
--                 `signed_url`, `fetch_object`
--   Views         routes/review.py (Views/Reviews, Views/Decisions): `list_reviews`,
--                 `list_decisions`, `get_decision`; routes/audit.py (Views/Audit): `list_audit`;
--                 routes/metrics.py and prometheus_export.py (Views/Metrics)
--   Telemetry     telemetry.py of the API and of the worker: `setup_tracing`, and the trace context
--                 that travels in the attributes of a message
--   Eval          eval/harness.py (Eval, Eval/Report) and `predict` of scripts/build_labeled_set.py
--   Lifecycle     apps/api/app/main.py, db.py and redis_client.py: `lifespan`, `init_pool`, `ready`
--   EndToEnd      an upload from `accept_image` to `handle_message`
-- Common holds what they share: lists, texts, the monad `Exec` of code that reads and writes a state
-- and may raise, and the interface of floats. Examples runs the theorems at concrete inputs.
--
-- How the parts meet: `Ingest` writes the rows of `content_items` and `jobs` and publishes the body
-- that `Worker` consumes; `Worker` writes `decisions` and `review_queue`, which `Review` changes;
-- `Redrive` changes `jobs` that `Worker` gave up. All of them share `Db`. The API takes its locks in
-- Redis, which is the interface `LockStore`; the limiter's counters are the interface `CounterStore`.
--
-- Conventions. Postgres statements are functions on `Db`, one after the other as the code awaits
-- them. Object storage, the clients of the adapters, the queue's client, SHA-256, the
-- JSON and UUID parsers and the clock are arguments; an exception of theirs is a value. Floats are
-- the interface `FloatOps`, with the laws of IEEE comparison and what rounding to nearest keeps of
-- the order. Uuids and times are natural numbers. The loops of the consumers and of the redrive
-- script run over the list of what the receive calls return or raise, so they need no fuel; a list of any length stands for a process that is stopped at some time.
--
-- Not modelled: the clients of the cloud services, Pillow, the HTTP request to OpenAI and the JSON
-- parser (libraries, which are arguments), spans and logging (no effect), the application object
-- and its middleware (glue), and the generators of sample images (offline tools).
pub mod Common
pub mod Lifecycle
pub mod Policy
pub mod Envelope
pub mod Schema
pub mod Http
pub mod Worker
pub mod Review
pub mod RateLimit
pub mod Redrive
pub mod Ingest
pub mod Storage
pub mod Eval
pub mod Views
pub mod Telemetry
pub mod EndToEnd
pub mod Examples
