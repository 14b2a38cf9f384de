-- ===== src/Ingest/Idempotency.antt =====
-- What the idempotency key of an upload does: a repeated upload, and an upload after a failure.
use text.Mathlib.TextPositions.{eq_refl}
use multimodal_content_moder.Common.{
  ℕ, zero, suc, ◌≡◌, String, str_eq, str_append, true, false, some, Option-cases, Bool-cases, inl,
  inr, ◌∷◌, any, find_where, update_where, codes, arith, ==_refl,
}
use multimodal_content_moder.Common.Exec.{ok, Result-cases}
use multimodal_content_moder.Schema.{failed, Job, Db, insert_audit}
use multimodal_content_moder.Review.Locks.{LockStore, acquire_ingest_lock}
use multimodal_content_moder.Ingest.Queue.{ApiSettings, job_body, enqueue_job}
use multimodal_content_moder.Ingest.Service.{
  IngestResponse, Upload, check_upload, digest_of, dedup, key_of,
}
use multimodal_content_moder.Ingest.Accept.{
  ingest_ttl_seconds, polls, queued_job, accepted, message_of, find_by_hash, find_ingested,
  is_refused, insert_job, fail_job, IngestState, wait_for, enqueue_or_fail, persist_job,
  store_image, ingest_digest, accept_image,
}

-- the job of an upload whose message was not published
abbrev pub failed_job : ℕ → Upload → String → String → Job
failed_job now u digest exc = record (queued_job now u digest) {
  status = failed;
  last_error = some (codes (str_append "enqueue failed: " exc));
}

module _ {F : Type 0} where
  pub found_after_insert :
      (settings : ApiSettings) (now : ℕ) (u : Upload) (digest : String) (db : Db F)
      → find_ingested digest (insert_job settings now u digest db) ≡ some (queued_job now u digest)
  unfolding find_ingested insert_job insert_audit find_where any
  found_after_insert settings now u digest db = ground (arith, eq_refl digest, ==_refl u.content_id)

  pub found_after_failure :
      (settings : ApiSettings) (now : ℕ) (u : Upload) (digest exc : String) (db : Db F)
      → find_ingested digest (fail_job u.job_id exc (insert_job settings now u digest db))
        ≡ some (failed_job now u digest exc)
  unfolding find_ingested insert_job fail_job insert_audit find_where update_where any
  found_after_failure settings now u digest exc db =
      ground (arith, eq_refl digest, ==_refl u.content_id, ==_refl u.job_id)

module _ (F : Type 0) (redis : LockStore str_eq) (settings : ApiSettings) where
  checks_keep : (u : Upload) (s : IngestState F redis) → (check_upload settings u s).1 ≡ s
  unfolding check_upload
  checks_keep u s = ground arith

  -- an upload that passes the checks goes on with its digest
  pub after_checks :
      (meanwhile : ℕ → IngestState F redis → IngestState F redis) (now : ℕ) (u : Upload)
      (s : IngestState F redis)
      → (check_upload settings u s).0 ≡ ok tt
      → accept_image F redis settings meanwhile now u s
        ≡ ingest_digest F redis settings meanwhile now u (digest_of settings u) s
  unfolding accept_image
  after_checks meanwhile now u s h = ground (arith, checks_keep u s)

  -- a digest that is there is answered with its job
  pub repeated :
      (meanwhile : ℕ → IngestState F redis → IngestState F redis) (now : ℕ) (u : Upload)
      (s : IngestState F redis) (j : Job)
      → (check_upload settings u s).0 ≡ ok tt
      → find_ingested (digest_of settings u) s.db ≡ some j
      → accept_image F redis settings meanwhile now u s
        ≡ (ok (dedup j (digest_of settings u) "idempotent hit — existing job returned"), s)
  unfolding ingest_digest
  repeated meanwhile now u s j h found = ground (arith, after_checks meanwhile now u s h)

  wait_for-deduplicated :
      (meanwhile : ℕ → IngestState F redis → IngestState F redis) (digest : String) (n : ℕ)
      (s : IngestState F redis) (r : IngestResponse)
      → (wait_for F redis meanwhile digest n s).0 ≡ ok r
      → r.deduplicated ≡ true
  unfolding wait_for
  wait_for-deduplicated meanwhile digest zero s r h = absurd (ground arith)
  wait_for-deduplicated meanwhile digest (suc n) s r h =
      elim (Option-cases (find_by_hash digest s.db)) [
        | inl missing ↦ wait_for-deduplicated meanwhile digest n (meanwhile n s) r (ground arith)
        | inr (j, found) ↦ ground arith
      ]

  -- what an accepted upload leaves
  pub record IsAccepted (now : ℕ) (u : Upload) (s s' : IngestState F redis) (r : IngestResponse)
      : Type 0 where
    pub answer : r ≡ accepted u (digest_of settings u)
    pub rows : s'.db ≡ insert_job settings now u (digest_of settings u) s.db
    pub sent :
        s'.published
        ≡ record {
          body = message_of settings u (digest_of settings u);
          content_hash = digest_of settings u;
          job_id = u.job_id;
        }
          ∷ s.published

  accepted_by_queue :
      (u : Upload) (digest : String) (s : IngestState F redis) (r : IngestResponse)
      → (enqueue_or_fail F redis settings u digest s).0 ≡ ok r
      → let s' = (enqueue_or_fail F redis settings u digest s).1 in
        (r ≡ accepted u digest)
        × (s'.db ≡ s.db)
        × (s'.published
            ≡ record {
              body = message_of settings u digest;
              content_hash = digest;
              job_id = u.job_id;
            }
              ∷ s.published)
  unfolding enqueue_or_fail job_body
  accepted_by_queue u digest s r h =
      elim (Result-cases (enqueue_job settings u.publish (message_of settings u digest))) [
        | inr (exc, bad) ↦ absurd (ground arith)
        | inl (message_id, good) ↦ ground arith
      ]

  store_image-IsAccepted :
      (now : ℕ) (u : Upload) (s : IngestState F redis) (r : IngestResponse)
      → (store_image F redis settings now u (digest_of settings u) s).0 ≡ ok r
      → IsAccepted now u s (store_image F redis settings now u (digest_of settings u) s).1 r
  unfolding store_image persist_job
  store_image-IsAccepted now u s r h =
      let digest = digest_of settings u in
      let s' : IngestState F redis = record s { db = insert_job settings now u digest s.db } in
      let sent = accepted_by_queue u digest s' r in
      elim (Result-cases (u.put_object (key_of u digest))) [
        | inr (exc, bad) ↦ absurd (ground arith)
        | inl (stored, good) ↦ elim (Bool-cases (is_refused u digest s.db)) [
          | inl taken ↦ absurd (ground arith)
          | inr free ↦ record {
            answer = ground (arith, sent);
            rows = ground (arith, sent);
            sent = ground (arith, sent);
          }
        ]
      ]

  pub ingest_digest-IsAccepted :
      (meanwhile : ℕ → IngestState F redis → IngestState F redis) (now : ℕ) (u : Upload)
      (s : IngestState F redis) (r : IngestResponse)
      → (ingest_digest F redis settings meanwhile now u (digest_of settings u) s).0 ≡ ok r
      → r.deduplicated ≡ false
      → IsAccepted now u s
          (ingest_digest F redis settings meanwhile now u (digest_of settings u) s).1
          r
  unfolding ingest_digest
  ingest_digest-IsAccepted meanwhile now u s r h fresh =
      let digest = digest_of settings u in
      let lock = acquire_ingest_lock redis now digest ingest_ttl_seconds s.locks in
      let s' : IngestState F redis = record s { locks = lock.0 } in
      elim (Option-cases (find_ingested digest s.db)) [
        | inr (j, found) ↦ absurd (ground arith)
        | inl missing ↦ elim (Bool-cases lock.1) [
          | inl got ↦
              let stored = store_image-IsAccepted now u s' r (ground arith) in
              record {
                answer = stored.answer;
                rows = ground (arith, stored.rows);
                sent = ground (arith, stored.sent);
              }
          | inr held ↦
              absurd
                (ground (arith, wait_for-deduplicated meanwhile digest polls s' r (ground arith)))
        ]
      ]
