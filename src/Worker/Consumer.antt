-- ===== src/Worker/Consumer.antt =====
-- apps/worker/worker/main.py: failure marking, one message, one batch of SQS, and `poll_sqs` over
-- the batches that the queue hands out. A call that acknowledges a message is taken to succeed.
use multimodal_content_moder.Common.{
  ℕ, ◌==◌, leb, String, Bool, true, false, Option, none, some, List, [], ◌∷◌, ◌++◌, take,
  update_where, if◌then◌else◌, codes,
}
use multimodal_content_moder.Common.Exec.{
  Result, ok, err, Exec, pure, raise, lift, execute, try_except, ◌>>=◌, ◌>>◌,
}
use multimodal_content_moder.Common.Float.{FloatOps}
use multimodal_content_moder.Envelope.{Text}
use multimodal_content_moder.Schema.{
  JobStatus, succeeded, failed, dead, Job, job_error, Db, insert_audit, find_job,
}
use multimodal_content_moder.Worker.Pipeline.{
  Settings, WorkerError, validation_error, other_error, Services, JobMessage, process_job,
}

-- The fields of a message body; `none` is a missing key. The caption is `body.get("caption") or ""`.
pub record JobBody : Type 0 where
  pub job_id : Option String
  pub content_id : Option String
  pub content_hash : Option String
  pub object_key : Option String
  pub caption : Option Text

-- A received message: its receipt handle or ack id, and its body where that is JSON of an object.
pub record QueueMessage : Type 0 where
  pub receipt : String
  pub body : Option JobBody

-- `dead if attempts >= max_attempts else failed`
unfoldable pub failure_status : Job → JobStatus
failure_status j = if leb j.max_attempts j.attempts then dead else failed

-- the texts of the two statuses that `mark_failed` writes
unfoldable pub failure_action : JobStatus → String
failure_action dead = "dead"
failure_action _ = "failed"

module _ {F : Type 0} where
  unfoldable pub write_failure : ℕ → ℕ → JobStatus → Text → Db F → Db F
  unfolding failure_action
  write_failure now job_id status error db =
      insert_audit "job" job_id (failure_action status) "worker" (job_error (take 500 error))
        (record db {
          jobs =
              update_where (λ j. j.id == job_id)
                (λ j. record j {
                  status = status;
                  last_error = some (take 2000 error);
                  finished_at = some now;
                })
                db.jobs;
        })

  unfoldable pub mark_failed : ℕ → ℕ → Text → Db F → Db F
  unfolding write_failure failure_status
  mark_failed now job_id error db = elim (find_job job_id db) [
    | none ↦ db
    | some row ↦ write_failure now job_id (failure_status row) error db
  ]

unfoldable pub key_of : Option String → String → Result WorkerError String
key_of none name = err (other_error (codes name))
key_of (some value) name = ok value

-- `UUID(...)`, a function of Python's library
unfoldable pub uuid_of : (String → Option ℕ) → String → Result WorkerError ℕ
uuid_of parse_uuid value = elim (parse_uuid value) [
  | none ↦ err (other_error (codes "badly formed hexadecimal UUID string"))
  | some n ↦ ok n
]

abbrev pub caption_or_empty : Option Text → Text
caption_or_empty none = []
caption_or_empty (some t) = t

unfoldable pub read_body :
    {S : Type 0} → (String → Option ℕ) → JobBody → Exec WorkerError S JobMessage
unfolding key_of uuid_of
read_body parse_uuid body = do
  job_text ← lift (key_of body.job_id "job_id")
  job_id ← lift (uuid_of parse_uuid job_text)
  content_text ← lift (key_of body.content_id "content_id")
  content_id ← lift (uuid_of parse_uuid content_text)
  content_hash ← lift (key_of body.content_hash "content_hash")
  object_key ← lift (key_of body.object_key "object_key")
  pure (record {
    job_id = job_id;
    content_id = content_id;
    content_hash = content_hash;
    object_key = object_key;
    caption = caption_or_empty body.caption;
  })

abbrev pub is_succeeded : Option Job → Bool
is_succeeded none = false
is_succeeded (some j) = elim j.status [ succeeded ↦ true | _ ↦ false ]

-- what `mark_failed` is told of an exception
unfoldable pub failure_text : WorkerError → Text
failure_text (validation_error e) = codes "validation: " ++ e
failure_text (other_error e) = e

module _ (fl : FloatOps) where
  open fl use {F}

  -- the part of `handle_message` behind the parsing of the body
  unfoldable pub handle_job :
      Settings F → Services F → ℕ → JobMessage → Exec WorkerError (Db F) (Unit {0})
  handle_job settings services now m db =
      if is_succeeded (find_job m.job_id db)
      then (ok tt, db)
      else try_except (process_job fl settings services now m >>= λ _. pure tt)
          (λ e. do execute (mark_failed now m.job_id (failure_text e)); raise e) db

  unfoldable pub handle_message :
      Settings F
      → Services F
      → (String → Option ℕ)
      → ℕ
      → JobBody
      → Exec WorkerError (Db F) (Unit {0})
  unfolding read_body
  handle_message settings services parse_uuid now body = do
    m ← read_body parse_uuid body
    handle_job settings services now m

  -- What a batch leaves behind: the database, the messages acknowledged (deleted from SQS) and
  -- those left for a retry or the dead-letter queue, each in order.
  pub record Batch : Type 0 where
    pub db : Db F
    pub acked : List String
    pub left : List String

  -- The body of `for msg in messages` of SQS. A `ValidationError` acknowledges the message; any other
  -- exception, of the JSON parser too, leaves it.
  unfoldable pub settle : String → Result WorkerError (Unit {0}) × Db F → Batch → Batch
  settle receipt (ok _, db) b = record { db = db; acked = b.acked ++ (receipt ∷ []); left = b.left }
  settle receipt (err (validation_error _), db) b = record {
    db = db;
    acked = b.acked ++ (receipt ∷ []);
    left = b.left;
  }
  settle receipt (err (other_error _), db) b = record {
    db = db;
    acked = b.acked;
    left = b.left ++ (receipt ∷ []);
  }

  unfoldable pub consume :
      Settings F
      → Services F
      → (String → Option ℕ)
      → ℕ
      → QueueMessage
      → Exec WorkerError (Db F) (Unit {0})
  consume settings services parse_uuid now msg = elim msg.body [
    | none ↦ raise (other_error (codes "Expecting value"))
    | some body ↦ handle_message settings services parse_uuid now body
  ]

  unfoldable pub poll_batch :
      Settings F → Services F → (String → Option ℕ) → ℕ → List QueueMessage → Batch → Batch
  unfolding settle consume
  poll_batch settings services parse_uuid now [] b = b
  poll_batch settings services parse_uuid now (msg ∷ rest) b =
      poll_batch settings services parse_uuid now rest
        (settle msg.receipt (consume settings services parse_uuid now msg b.db) b)

  -- One entry for each receive call until the shutdown: `none` where it raised (the loop sleeps and
  -- goes on), else the messages that it returned.
  abbrev pub Receives : Type 0
  Receives = List (Option (List QueueMessage))

  unfoldable pub poll_sqs :
      Settings F → Services F → (String → Option ℕ) → ℕ → Receives → Batch → Batch
  poll_sqs settings services parse_uuid now [] b = b
  poll_sqs settings services parse_uuid now (none ∷ rest) b =
      poll_sqs settings services parse_uuid now rest b
  poll_sqs settings services parse_uuid now (some messages ∷ rest) b =
      poll_sqs settings services parse_uuid now rest
        (poll_batch settings services parse_uuid now messages b)
