-- ===== src/Ingest/Queue.antt =====
-- apps/api/app/queue.py: the body of a job message, and the choice of the producer. Publishing is
-- an argument: it answers a message id, or the text of an exception.
use multimodal_content_moder.Common.{ℕ, String, str_eq, if◌then◌else◌, codes, text_eq, lower}
use multimodal_content_moder.Common.Exec.{Result, err}
use multimodal_content_moder.Envelope.{Text}

-- the settings of config.py that the producers and the ingest service read
pub record ApiSettings : Type 0 where
  pub storage_provider : Text
  pub queue_provider : Text
  pub s3_bucket : String
  pub gcs_bucket : String
  pub gcp_project : String
  pub policy_version : Text
  pub pipeline_version : String
  pub max_upload_bytes : ℕ
  pub allowed_content_types : Text

-- `_job_body`; `trace` are the attributes of the trace context, which travel beside it
pub record JobBody : Type 0 where
  pub job_id : ℕ
  pub content_id : ℕ
  pub content_hash : String
  pub object_key : String
  pub caption : Text
  pub policy_version : Text
  pub pipeline_version : String

unfoldable pub job_body : ApiSettings → ℕ → ℕ → String → String → Text → JobBody
job_body settings job_id content_id content_hash object_key caption = record {
  job_id = job_id;
  content_id = content_id;
  content_hash = content_hash;
  object_key = object_key;
  caption = caption;
  policy_version = settings.policy_version;
  pipeline_version = settings.pipeline_version;
}

-- a published message: its body and the two attributes that both producers set
pub record Published : Type 0 where
  pub body : JobBody
  pub content_hash : String
  pub job_id : ℕ

-- the answer of the broker's client
abbrev pub Publish : Type 0
Publish = Published → Result String String

unfoldable pub enqueue_sqs : Publish → JobBody → Result String String
enqueue_sqs publish body =
    publish (record { body = body; content_hash = body.content_hash; job_id = body.job_id })

unfoldable pub enqueue_pubsub : ApiSettings → Publish → JobBody → Result String String
enqueue_pubsub settings publish body =
    if str_eq settings.gcp_project ""
    then err "GCP_PROJECT is required when QUEUE_PROVIDER=pubsub"
    else publish (record { body = body; content_hash = body.content_hash; job_id = body.job_id })

unfoldable pub enqueue_job : ApiSettings → Publish → JobBody → Result String String
unfolding enqueue_sqs enqueue_pubsub
enqueue_job settings publish body =
    if text_eq (lower settings.queue_provider) (codes "pubsub")
    then enqueue_pubsub settings publish body
    else enqueue_sqs publish body
