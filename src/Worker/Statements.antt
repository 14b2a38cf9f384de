-- ===== src/Worker/Statements.antt =====
-- apps/worker/worker/pipeline.py: the Postgres statements of `process_job` and `persist_envelope`, as
-- functions on `Db`.
use multimodal_content_moder.Common.{
  ℕ, suc, ◌+◌, ◌==◌, Bool, ◌&&◌, not, is_some, none, some, ◌∷◌, any, update_where, if◌then◌else◌,
}
use multimodal_content_moder.Envelope.{DecisionEnvelope}
use multimodal_content_moder.Schema.{DecisionRow, ReviewRow, processing, succeeded, pending, Db}

module _ {F : Type 0} where
  -- `UPDATE jobs SET status = 'processing', started_at = COALESCE(started_at, now()),
  -- attempts = attempts + 1`
  unfoldable pub start_job : ℕ → ℕ → Db F → Db F
  start_job now job_id db = record db {
    jobs =
        update_where (λ j. j.id == job_id)
          (λ j. record j {
            status = processing;
            started_at = if is_some j.started_at then j.started_at else some now;
            attempts = j.attempts + 1;
          })
          db.jobs;
  }

  -- `UPDATE jobs SET status = 'succeeded', finished_at = now(), last_error = NULL`
  unfoldable pub finish_job : ℕ → ℕ → Db F → Db F
  finish_job now job_id db = record db {
    jobs =
        update_where (λ j. j.id == job_id)
          (λ j. record j { status = succeeded; finished_at = some now; last_error = none }) db.jobs;
  }

  abbrev pub decision_row : ℕ → ℕ → DecisionEnvelope F → DecisionRow F
  decision_row now id envelope = record {
    id = id;
    job_id = envelope.job_id;
    content_id = envelope.content_id;
    decision = envelope.decision;
    latency_ms = envelope.latency_ms;
    needs_human_review = envelope.needs_human_review;
    envelope = envelope;
    created_at = now;
  }

  -- `INSERT INTO decisions ... RETURNING id`, where no row has the job
  unfoldable pub insert_decision : ℕ → DecisionEnvelope F → Db F → Db F
  insert_decision now envelope db = record db {
    next_id = suc db.next_id;
    decisions = decision_row now db.next_id envelope ∷ db.decisions;
  }

  unfoldable pub insert_metrics : DecisionEnvelope F → Db F → Db F
  insert_metrics envelope db = record db {
    metrics_events =
        record {
          event_type = "decision";
          decision = envelope.decision;
          latency_ms = envelope.latency_ms;
          auto = not envelope.needs_human_review;
        }
        ∷ db.metrics_events;
  }

  abbrev pub review_row : ℕ → ℕ → ℕ → DecisionEnvelope F → ℕ → ReviewRow
  review_row now id decision_id envelope priority = record {
    id = id;
    decision_id = decision_id;
    content_id = envelope.content_id;
    job_id = envelope.job_id;
    status = pending;
    priority = priority;
    claimed_by = none;
    claimed_at = none;
    claim_expires_at = none;
    resolved_by = none;
    resolved_at = none;
    reviewer_decision = none;
    notes = none;
    created_at = now;
  }

  -- `INSERT INTO review_queue ... ON CONFLICT (decision_id) DO NOTHING`
  unfoldable pub insert_review : ℕ → ℕ → DecisionEnvelope F → ℕ → Db F → Db F
  insert_review now decision_id envelope priority db =
      if any (λ r. r.decision_id == decision_id) db.review_queue then db else record db {
        next_id = suc db.next_id;
        review_queue = review_row now db.next_id decision_id envelope priority ∷ db.review_queue;
      }

  -- the foreign keys of `decisions`
  unfoldable pub has_parents : DecisionEnvelope F → Db F → Bool
  has_parents envelope db =
      any (λ j. j.id == envelope.job_id) db.jobs
      && any (λ c. c.id == envelope.content_id) db.content_items
