-- ===== src/Schema.antt =====
-- db/migrations/001_init.sql: the tables, as records of rows, and the status texts of the CHECK
-- constraints. Ids are UUIDs, written as numbers; times are microseconds; JSON columns hold the
-- value that was serialised. A table is a list of rows, the newest first. `next_id` stands for
-- `gen_random_uuid()`, which does not repeat.
pub mod Jobs
use multimodal_content_moder.Common.{ℕ, ◌==◌, String, Bool, Option, List, [], ◌∷◌, find_where}
use multimodal_content_moder.Policy.{Decision}
use multimodal_content_moder.Envelope.{Text, DecisionEnvelope}

pub data JobStatus : Type 0 where
  queued processing succeeded failed dead : JobStatus

unfoldable pub job_status_text : JobStatus → String
job_status_text queued = "queued"
job_status_text processing = "processing"
job_status_text succeeded = "succeeded"
job_status_text failed = "failed"
job_status_text dead = "dead"

pub data ReviewStatus : Type 0 where
  pending claimed approved rejected escalated : ReviewStatus

pub record ContentItem : Type 0 where
  pub id : ℕ
  pub content_hash : String
  pub object_key : String
  pub bucket : String
  pub caption : Text
  pub content_type : String
  pub byte_size : ℕ
  pub source : String

pub record Job : Type 0 where
  pub id : ℕ
  pub content_id : ℕ
  pub content_hash : String
  pub status : JobStatus
  pub attempts : ℕ
  pub max_attempts : ℕ
  pub last_error : Option Text
  pub enqueued_at : ℕ
  pub started_at : Option ℕ
  pub finished_at : Option ℕ

-- The columns that other statements read, and the `envelope` column; the columns left out are copies
-- of the envelope's fields.
pub record DecisionRow (F : Type 0) : Type 0 where
  pub id : ℕ
  pub job_id : ℕ
  pub content_id : ℕ
  pub decision : Decision
  pub latency_ms : ℕ
  pub needs_human_review : Bool
  pub envelope : DecisionEnvelope F
  pub created_at : ℕ

pub record ReviewRow : Type 0 where
  pub id : ℕ
  pub decision_id : ℕ
  pub content_id : ℕ
  pub job_id : ℕ
  pub status : ReviewStatus
  pub priority : ℕ
  pub claimed_by : Option String
  pub claimed_at : Option ℕ
  pub claim_expires_at : Option ℕ
  pub resolved_by : Option String
  pub resolved_at : Option ℕ
  pub reviewer_decision : Option Decision
  pub notes : Option Text
  pub created_at : ℕ

pub data AuditDetail (F : Type 0) : Type 0 where
  empty : AuditDetail F
  job_enqueued : String → String → String → AuditDetail F
  decided : Decision → F → Bool → AuditDetail F
  job_error : Text → AuditDetail F
  claim_ttl : ℕ → AuditDetail F
  resolution : Decision → Decision → Bool → Text → ReviewStatus → AuditDetail F
  redriven : String → String → AuditDetail F

pub record AuditEvent (F : Type 0) : Type 0 where
  pub entity_type : String
  pub entity_id : ℕ
  pub action : String
  pub actor : String
  pub detail : AuditDetail F

pub record MetricsEvent : Type 0 where
  pub event_type : String
  pub decision : Decision
  pub latency_ms : ℕ
  pub auto : Bool

pub record Db (F : Type 0) : Type 0 where
  pub content_items : List ContentItem
  pub jobs : List Job
  pub decisions : List (DecisionRow F)
  pub review_queue : List ReviewRow
  pub audit_log : List (AuditEvent F)
  pub metrics_events : List MetricsEvent
  pub next_id : ℕ

abbrev pub empty_db : (F : Type 0) → Db F
empty_db F = record {
  content_items = [];
  jobs = [];
  decisions = [];
  review_queue = [];
  audit_log = [];
  metrics_events = [];
  next_id = 0;
}

module _ {F : Type 0} where
  -- `INSERT INTO audit_log (entity_type, entity_id, action, actor, detail) VALUES (...)`
  unfoldable pub insert_audit : String → ℕ → String → String → AuditDetail F → Db F → Db F
  insert_audit entity_type entity_id action actor detail db = record db {
    audit_log =
        record {
          entity_type = entity_type;
          entity_id = entity_id;
          action = action;
          actor = actor;
          detail = detail;
        }
        ∷ db.audit_log;
  }

  unfoldable pub find_job : ℕ → Db F → Option Job
  find_job job_id db = find_where (λ j. j.id == job_id) db.jobs

  unfoldable pub find_decision : ℕ → Db F → Option (DecisionRow F)
  find_decision job_id db = find_where (λ d. d.job_id == job_id) db.decisions

  unfoldable pub find_review : ℕ → Db F → Option ReviewRow
  find_review review_id db = find_where (λ r. r.id == review_id) db.review_queue
