-- ===== src/Examples/Ingest.antt =====
-- One upload that comes twice: after a success, and after failures of the queue and of storage.
use multimodal_content_moder.Common.{
  ℕ, ◌≡◌, refl, String, str_eq, str_append, true, false, none, [], ◌∷◌, any, find_where, codes,
  strip, lstrip, is_space, arith, text_eq, lower, select_where,
}
use multimodal_content_moder.Common.Exec.{ok, err}
use multimodal_content_moder.Schema.{empty_db}
use multimodal_content_moder.Ingest.Queue.{ApiSettings, enqueue_job}
use multimodal_content_moder.Ingest.Service.{
  Upload, http, dedup, check_upload, digest_of, allowed_types, split_commas,
}
use multimodal_content_moder.Ingest.Accept.{
  accepted, message_of, find_by_hash, find_ingested, hash_taken, is_refused, IngestState,
  accept_image, ingest_digest, store_image, persist_job, enqueue_or_fail,
}
use multimodal_content_moder.Ingest.Idempotency.{failed_job}
use multimodal_content_moder.Ingest.Stored.{IsStored, accept-IsStored}
use multimodal_content_moder.Ingest.Resubmission.{
  resubmission, lost_upload, storage_failure_blocks_retry,
}
use multimodal_content_moder.Review.Locks.{LockStore, acquire_ingest_lock}
use multimodal_content_moder.Examples.Instances.{lock_store}

abbrev pub settings : ApiSettings
settings = record {
  storage_provider = codes "s3";
  queue_provider = codes "sqs";
  s3_bucket = "media";
  gcs_bucket = "media";
  gcp_project = "";
  policy_version = codes "policy-v1";
  pipeline_version = "pipeline-v1";
  max_upload_bytes = 100;
  allowed_content_types = codes "image/png, image/jpeg";
}

abbrev pub text_locks : LockStore str_eq
text_locks = lock_store str_eq

abbrev pub State : Type 0
State = IngestState ℕ text_locks

abbrev pub upload : Upload
upload = record {
  body = 1 ∷ 2 ∷ [];
  caption = codes " a tree ";
  content_type = "image/png";
  tenant_id = "acme";
  source = "api";
  content_id = 3;
  job_id = 7;
  sha256_hex = λ bytes. "abcdef";
  uuid_text = λ id. "3";
  put_object = λ key. ok "stored";
  publish = λ message. ok "id-1";
}

-- the same picture, with the UUIDs of the second request
abbrev second : Upload
second = record upload { content_id = 4; job_id = 8 }

abbrev unqueued : Upload
unqueued = record upload { publish = λ message. err "queue is down" }

abbrev unstored : Upload
unstored = record upload { put_object = λ key. err "storage is down" }

abbrev pub idle : ℕ → State → State
idle n s = s

abbrev pub empty_state : State
empty_state = record { db = empty_db ℕ; locks = λ key t. none; published = [] }

checked :
    (u : Upload) (s : State)
    → u.body ≡ upload.body
    → u.content_type ≡ upload.content_type
    → (check_upload settings u s).0 ≡ ok tt
unfolding check_upload allowed_types split_commas strip lstrip is_space codes text_eq any
    select_where
checked u s b c = rw (b, c) refl

abbrev digest : String
digest = digest_of settings upload

accepts :
    (accept_image ℕ text_locks settings idle 100 upload empty_state).0 ≡ ok (accepted upload digest)
unfolding accept_image ingest_digest store_image persist_job enqueue_or_fail check_upload
    allowed_types split_commas strip lstrip is_space codes text_eq any select_where find_ingested
    find_by_hash find_where hash_taken is_refused acquire_ingest_lock enqueue_job lower
accepts = refl

accept-IsStored_example :
    IsStored ℕ text_locks settings 100 upload empty_state
      (accept_image ℕ text_locks settings idle 100 upload empty_state).1
      (accepted upload digest)
accept-IsStored_example =
    accept-IsStored ℕ text_locks settings idle 100 upload empty_state (accepted upload digest)
      (checked upload empty_state refl refl) accepts refl

abbrev accepted_state : State
accepted_state = (accept_image ℕ text_locks settings idle 100 upload empty_state).1

resubmission_example : accept_image ℕ text_locks settings idle 200 second accepted_state ≡ (
  ok (record (accepted upload digest) {
    deduplicated = true;
    message = "idempotent hit — existing job returned";
  }),
  accepted_state,
)
unfolding digest_of
resubmission_example =
    resubmission ℕ text_locks settings idle idle 100 200 upload second empty_state
      (accepted upload digest) (checked upload empty_state refl refl) accepts refl
      (checked second accepted_state refl refl) refl

nothing_there : find_by_hash digest empty_state.db ≡ none
unfolding find_by_hash find_where
nothing_there = refl

nothing_ingested : find_ingested digest empty_state.db ≡ none
unfolding find_ingested find_where
nothing_ingested = refl

nothing_taken : is_refused unqueued digest empty_state.db ≡ false
unfolding is_refused hash_taken any strip lstrip is_space codes
nothing_taken = refl

refused :
    enqueue_job settings unqueued.publish (message_of settings unqueued digest)
    ≡ err "queue is down"
unfolding enqueue_job text_eq lower codes
refused = refl

abbrev unqueued_state : State
unqueued_state = (accept_image ℕ text_locks settings idle 100 unqueued empty_state).1

lost_upload_example :
    ((accept_image ℕ text_locks settings idle 100 unqueued empty_state).0
      ≡ err (http 502 (str_append "Queue enqueue failed: " "queue is down")))
    × (unqueued_state.published ≡ [])
    × (accept_image ℕ text_locks settings idle 200 second unqueued_state ≡ (
      ok (
          dedup
            (failed_job 100 unqueued digest "queue is down")
            digest
            "idempotent hit — existing job returned"),
      unqueued_state,
    ))
unfolding digest_of
lost_upload_example =
    lost_upload ℕ text_locks settings idle idle 100 200 unqueued second empty_state "stored"
      "queue is down" (checked unqueued empty_state refl refl) nothing_ingested nothing_taken refl
      refl refused (checked second unqueued_state refl refl) refl

storage_failure_blocks_retry_example :
    ((accept_image ℕ text_locks settings idle 100 unstored empty_state).0
      ≡ err (http 502 (str_append "Object storage failed: " "storage is down")))
    × ((accept_image ℕ text_locks settings idle 200 second
          (accept_image ℕ text_locks settings idle 100 unstored empty_state).1).0
        ≡ err (http 409 "Concurrent ingest in progress; retry"))
unfolding digest_of
storage_failure_blocks_retry_example =
    storage_failure_blocks_retry ℕ text_locks settings idle idle 100 200 unstored second empty_state
      "storage is down" (checked unstored empty_state refl refl) nothing_there refl refl
      (omega arith) (omega arith)
      (checked second (accept_image ℕ text_locks settings idle 100 unstored empty_state).1 refl
        refl)
      refl (λ k t h. h)
