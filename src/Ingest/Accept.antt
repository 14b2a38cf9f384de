-- ===== src/Ingest/Accept.antt =====
-- apps/api/app/ingest_service.py: `accept_image`, one stage after the other. `meanwhile n` is what
-- other requests and the workers do while this one sleeps, with n polls to go. A statement that
-- Postgres refuses ends the request with 500: in a transaction that has failed Postgres refuses
-- every statement, so the SELECT of the `except` handler is refused too.
use multimodal_content_moder.Common.{
  ℕ, zero, suc, ◌==◌, String, str_eq, str_append, Bool, false, ◌||◌, Option, none, some, List, ◌∷◌,
  length, any, find_where, update_where, if◌then◌else◌, codes, strip,
}
use multimodal_content_moder.Common.Exec.{ok, err, Exec, ◌>>◌}
use multimodal_content_moder.Schema.{
  queued, failed, Job, ContentItem, job_enqueued, Db, insert_audit,
}
use multimodal_content_moder.Http.{HttpError}
use multimodal_content_moder.Review.Locks.{LockStore, acquire_ingest_lock}
use multimodal_content_moder.Ingest.Queue.{ApiSettings, JobBody, Published, job_body, enqueue_job}
use multimodal_content_moder.Ingest.Service.{
  IngestResponse, Upload, http, check_upload, digest_of, dedup, key_of, bucket_of,
}

-- `acquire_ingest_lock(digest)`, whose time to live is the default one
abbrev pub ingest_ttl_seconds : ℕ
ingest_ttl_seconds = 120

-- `for _ in range(20)`
abbrev pub polls : ℕ
polls = 20

abbrev pub content_item : ApiSettings → Upload → String → ContentItem
content_item settings u digest = record {
  id = u.content_id;
  content_hash = digest;
  object_key = key_of u digest;
  bucket = bucket_of settings;
  caption = strip u.caption;
  content_type = u.content_type;
  byte_size = length u.body;
  source = u.source;
}

-- the columns that the INSERT leaves out have the defaults of the table
abbrev pub queued_job : ℕ → Upload → String → Job
queued_job now u digest = record {
  id = u.job_id;
  content_id = u.content_id;
  content_hash = digest;
  status = queued;
  attempts = 0;
  max_attempts = 3;
  last_error = none;
  enqueued_at = now;
  started_at = none;
  finished_at = none;
}

abbrev pub accepted : Upload → String → IngestResponse
accepted u digest = record {
  job_id = u.job_id;
  content_id = u.content_id;
  content_hash = digest;
  status = "queued";
  deduplicated = false;
  message = "accepted";
}

abbrev pub message_of : ApiSettings → Upload → String → JobBody
message_of settings u digest =
    job_body settings u.job_id u.content_id digest (key_of u digest) (strip u.caption)

module _ {F : Type 0} where
  -- `SELECT ... FROM jobs WHERE content_hash = $1`
  unfoldable pub find_by_hash : String → Db F → Option Job
  find_by_hash digest db = find_where (λ j. str_eq j.content_hash digest) db.jobs

  -- the same with `JOIN content_items c ON c.id = j.content_id`
  unfoldable pub find_ingested : String → Db F → Option Job
  unfolding find_by_hash
  find_ingested digest db = elim (find_by_hash digest db) [
    | none ↦ none
    | some j ↦ if any (λ c. c.id == j.content_id) db.content_items then some j else none
  ]

  -- the two UNIQUE constraints on `content_hash`
  unfoldable pub hash_taken : String → Db F → Bool
  hash_taken digest db =
      any (λ c. str_eq c.content_hash digest) db.content_items
      || any (λ j. str_eq j.content_hash digest) db.jobs

  -- what makes Postgres refuse the INSERTs: a taken `content_hash`, or a NUL in the TEXT `caption`
  unfoldable pub is_refused : Upload → String → Db F → Bool
  is_refused u digest db = hash_taken digest db || any (λ c. c == 0) (strip u.caption)

  -- the three INSERTs of the transaction
  unfoldable pub insert_job : ApiSettings → ℕ → Upload → String → Db F → Db F
  insert_job settings now u digest db =
      insert_audit "job" u.job_id "enqueued" "api" (job_enqueued digest u.tenant_id u.source)
        (record db {
          content_items = content_item settings u digest ∷ db.content_items;
          jobs = queued_job now u digest ∷ db.jobs;
        })

  -- `UPDATE jobs SET status = 'failed', last_error = $2 WHERE id = $1`
  unfoldable pub fail_job : ℕ → String → Db F → Db F
  fail_job job_id exc db = record db {
    jobs =
        update_where (λ j. j.id == job_id)
          (λ j. record j {
            status = failed;
            last_error = some (codes (str_append "enqueue failed: " exc));
          })
          db.jobs;
  }

module _ (F : Type 0) (redis : LockStore str_eq) where
  -- `published` holds the messages whose publication the broker confirmed, the newest first
  pub record IngestState : Type 0 where
    pub db : Db F
    pub locks : redis.Store
    pub published : List Published

  abbrev pub Ingest : Type 0
  Ingest = Exec HttpError IngestState IngestResponse

  -- the branch without the lock
  unfoldable pub wait_for : (ℕ → IngestState → IngestState) → String → ℕ → Ingest
  wait_for meanwhile digest zero s = (err (http 409 "Concurrent ingest in progress; retry"), s)
  wait_for meanwhile digest (suc n) s =
      let later = wait_for meanwhile digest n (meanwhile n s) in
      elim (find_by_hash digest s.db) [
        | some j ↦ (ok (dedup j digest "idempotent hit — concurrent ingest"), s)
        | none ↦ later
      ]

  unfoldable pub enqueue_or_fail : ApiSettings → Upload → String → Ingest
  enqueue_or_fail settings u digest s =
      let body = message_of settings u digest in
      elim (enqueue_job settings u.publish body) [
        | err exc ↦ (
          err (http 502 (str_append "Queue enqueue failed: " exc)),
          record s { db = fail_job u.job_id exc s.db },
        )
        | ok message_id ↦ (
          ok (accepted u digest),
          record s {
            published =
                record { body = body; content_hash = body.content_hash; job_id = body.job_id }
                ∷ s.published;
          },
        )
      ]

  unfoldable pub persist_job : ApiSettings → ℕ → Upload → String → Ingest
  persist_job settings now u digest s =
      if is_refused u digest s.db
      then (err (http 500 "Internal Server Error"), s)
      else enqueue_or_fail settings u digest
          (record s { db = insert_job settings now u digest s.db })

  -- the branch with the lock
  unfoldable pub store_image : ApiSettings → ℕ → Upload → String → Ingest
  store_image settings now u digest s = elim (u.put_object (key_of u digest)) [
    | err exc ↦ (err (http 502 (str_append "Object storage failed: " exc)), s)
    | ok stored ↦ persist_job settings now u digest s
  ]

  unfoldable pub ingest_digest :
      ApiSettings → (ℕ → IngestState → IngestState) → ℕ → Upload → String → Ingest
  ingest_digest settings meanwhile now u digest s = elim (find_ingested digest s.db) [
    | some j ↦ (ok (dedup j digest "idempotent hit — existing job returned"), s)
    | none ↦
        let (locks, got_lock) = acquire_ingest_lock redis now digest ingest_ttl_seconds s.locks in
        let s' : IngestState = record s { locks = locks } in
        if got_lock
        then store_image settings now u digest s'
        else wait_for meanwhile digest polls s'
  ]

  unfoldable pub accept_image : ApiSettings → (ℕ → IngestState → IngestState) → ℕ → Upload → Ingest
  accept_image settings meanwhile now u = do
    check_upload settings u
    ingest_digest settings meanwhile now u (digest_of settings u)
