-- ===== src/Ingest/Stored.antt =====
-- What the rows and the message of an accepted upload hold.
use multimodal_content_moder.Common.{
  ℕ, ==_refl, ◌≡◌, refl, ap, str_eq, false, some, none, ◌∷◌, length, find_where, strip,
}
use multimodal_content_moder.Common.Exec.{ok}
use multimodal_content_moder.Schema.{
  ContentItem, queued, Job, Db, AuditEvent, insert_audit, find_job,
}
use multimodal_content_moder.Review.Locks.{LockStore}
use multimodal_content_moder.Ingest.Queue.{ApiSettings, Published, job_body}
use multimodal_content_moder.Ingest.Service.{IngestResponse, Upload, check_upload, digest_of}
use multimodal_content_moder.Ingest.Accept.{
  content_item, queued_job, message_of, insert_job, IngestState, accept_image,
}
use multimodal_content_moder.Ingest.Resubmission.{accept-IsAccepted}

-- the item holds the upload, under the answer's key of idempotency
pub record HoldsUpload (u : Upload) (r : IngestResponse) (item : ContentItem) : Type 0 where
  pub id : item.id ≡ r.content_id
  pub hash : item.content_hash ≡ r.content_hash
  pub caption : item.caption ≡ strip u.caption
  pub content_type : item.content_type ≡ u.content_type
  pub byte_size : item.byte_size ≡ length u.body
  pub source : item.source ≡ u.source

-- a job for the item, which no worker has taken
pub record IsFreshJob (now : ℕ) (r : IngestResponse) (j : Job) : Type 0 where
  pub id : j.id ≡ r.job_id
  pub of_item : j.content_id ≡ r.content_id
  pub hash : j.content_hash ≡ r.content_hash
  pub waits : j.status ≡ queued
  pub untried : j.attempts ≡ 0
  pub attempts_left : j.max_attempts ≡ 3
  pub no_error : j.last_error ≡ none
  pub since : j.enqueued_at ≡ now

-- the message tells the worker of the job and the item
pub record TellsOf (settings : ApiSettings) (item : ContentItem) (j : Job) (m : Published)
    : Type 0 where
  pub job : (m.body.job_id ≡ j.id) × (m.job_id ≡ j.id)
  pub content : m.body.content_id ≡ item.id
  pub hash : (m.body.content_hash ≡ item.content_hash) × (m.content_hash ≡ item.content_hash)
  pub key : m.body.object_key ≡ item.object_key
  pub caption : m.body.caption ≡ item.caption
  pub policy : m.body.policy_version ≡ settings.policy_version

module _ (F : Type 0) (redis : LockStore str_eq) (settings : ApiSettings) where
  pub record IsStored (now : ℕ) (u : Upload) (s s' : IngestState F redis) (r : IngestResponse)
      : Type 0 where
    pub item : ContentItem
    pub items : s'.db.content_items ≡ item ∷ s.db.content_items
    pub holds : HoldsUpload u r item
    pub job : Job
    pub jobs : s'.db.jobs ≡ job ∷ s.db.jobs
    pub found : find_job r.job_id s'.db ≡ some job
    pub fresh : IsFreshJob now r job
    pub undecided : (s'.db.decisions ≡ s.db.decisions) × (s'.db.review_queue ≡ s.db.review_queue)
    pub logged :
        (e : AuditEvent F) × (s'.db.audit_log ≡ e ∷ s.db.audit_log)
        × (e.entity_id ≡ r.job_id)
        × (e.action ≡ "enqueued")
    pub message : Published
    pub published : s'.published ≡ message ∷ s.published
    pub tells : TellsOf settings item job message

  -- An upload that passes the checks and is answered as accepted, and not as a repetition, adds one
  -- content item with its hash, its stripped caption, type and size, one queued job for it, which is
  -- found by the id in the answer, one entry of the log, and one message, which names this job, this
  -- item and the key of its object; decisions and reviews stay as they are.
  pub accept-IsStored :
      (meanwhile : ℕ → IngestState F redis → IngestState F redis) (now : ℕ) (u : Upload)
      (s : IngestState F redis) (r : IngestResponse)
      → (check_upload settings u s).0 ≡ ok tt
      → (accept_image F redis settings meanwhile now u s).0 ≡ ok r
      → r.deduplicated ≡ false
      → IsStored now u s (accept_image F redis settings meanwhile now u s).1 r
  unfolding insert_job insert_audit find_job find_where job_body
  accept-IsStored meanwhile now u s r checked h fresh =
      let left = accept-IsAccepted F redis settings meanwhile now u s r checked h fresh in
      let digest = digest_of settings u in
      let answer = left.answer in
      record {
        item = content_item settings u digest;
        items = ap (λ (db : Db F). db.content_items) left.rows;
        holds = rw answer (record {
          id = refl;
          hash = refl;
          caption = refl;
          content_type = refl;
          byte_size = refl;
          source = refl;
        });
        job = queued_job now u digest;
        jobs = ap (λ (db : Db F). db.jobs) left.rows;
        found = rw (answer, left.rows) (rw (==_refl u.job_id) refl);
        fresh = rw answer (record {
          id = refl;
          of_item = refl;
          hash = refl;
          waits = refl;
          untried = refl;
          attempts_left = refl;
          no_error = refl;
          since = refl;
        });
        undecided = (
          ap (λ (db : Db F). db.decisions) left.rows,
          ap (λ (db : Db F). db.review_queue) left.rows,
        );
        logged = (_, ap (λ (db : Db F). db.audit_log) left.rows, rw answer refl, refl);
        message = record {
          body = message_of settings u digest;
          content_hash = digest;
          job_id = u.job_id;
        };
        published = left.sent;
        tells = record {
          job = (refl, refl);
          content = refl;
          hash = (refl, refl);
          key = refl;
          caption = refl;
          policy = refl;
        };
      }
