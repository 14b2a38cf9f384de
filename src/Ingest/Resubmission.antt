-- ===== src/Ingest/Resubmission.antt =====
-- The same upload a second time: after a success, after a failure of the queue, and after a failure
-- of object storage.
use text.Mathlib.TextPositions.{eq_refl}
use multimodal_content_moder.Common.{
  ℕ, zero, suc, ◌+◌, ◌≡◌, ◌≤◌, ◌<◌, refl, String, str_eq, str_append, true, false, none, some,
  arith,
}
use multimodal_content_moder.Common.Exec.{ok, err}
use multimodal_content_moder.Schema.{job_status_text}
use multimodal_content_moder.Review.Locks.{LockStore, seconds, acquire_ingest_lock}
use multimodal_content_moder.Ingest.Queue.{ApiSettings, enqueue_job}
use multimodal_content_moder.Ingest.Service.{
  IngestResponse, Upload, http, check_upload, digest_of, dedup, key_of,
}
use multimodal_content_moder.Ingest.Accept.{
  ingest_ttl_seconds, polls, queued_job, message_of, find_by_hash, find_ingested, is_refused,
  insert_job, fail_job, IngestState, wait_for, enqueue_or_fail, persist_job, store_image,
  ingest_digest, accept_image,
}
use multimodal_content_moder.Ingest.Idempotency.{
  IsAccepted, found_after_insert, failed_job, found_after_failure, after_checks, repeated,
  ingest_digest-IsAccepted,
}

module _ (F : Type 0) (redis : LockStore str_eq) (settings : ApiSettings) where
  -- an accepted upload that is not a repetition
  pub accept-IsAccepted :
      (meanwhile : ℕ → IngestState F redis → IngestState F redis) (now : ℕ) (u : Upload)
      (s : IngestState F redis) (r : IngestResponse)
      → (check_upload settings u s).0 ≡ ok tt
      → (accept_image F redis settings meanwhile now u s).0 ≡ ok r
      → r.deduplicated ≡ false
      → IsAccepted F redis settings now u s (accept_image F redis settings meanwhile now u s).1 r
  accept-IsAccepted meanwhile now u s r checked h fresh =
      let ran = after_checks F redis settings meanwhile now u s checked in
      rw ran (ingest_digest-IsAccepted F redis settings meanwhile now u s r (rw ran at h) fresh)

  -- Once an upload was accepted, every upload with the same key that passes the checks is answered
  -- with the job of the first one, and changes nothing: no row, no lock, no message.
  pub resubmission :
      (meanwhile meanwhile' : ℕ → IngestState F redis → IngestState F redis) (now later : ℕ)
      (u u' : Upload) (s : IngestState F redis) (r : IngestResponse)
      → (check_upload settings u s).0 ≡ ok tt
      → (accept_image F redis settings meanwhile now u s).0 ≡ ok r
      → r.deduplicated ≡ false
      → (check_upload settings u' (accept_image F redis settings meanwhile now u s).1).0 ≡ ok tt
      → digest_of settings u' ≡ digest_of settings u
      → accept_image F redis settings meanwhile' later u'
          (accept_image F redis settings meanwhile now u s).1
        ≡ (
          ok (record r { deduplicated = true; message = "idempotent hit — existing job returned" }),
          (accept_image F redis settings meanwhile now u s).1,
        )
  unfolding job_status_text
  resubmission meanwhile meanwhile' now later u u' s r checked h fresh checked' same =
      let s' = (accept_image F redis settings meanwhile now u s).1 in
      let first = accept-IsAccepted meanwhile now u s r checked h fresh in
      let digest = digest_of settings u in
      let there : find_ingested (digest_of settings u') s'.db ≡ some (queued_job now u digest) =
        rw (same, first.rows) (found_after_insert settings now u digest s.db) in
      ground (
        arith,
        first.answer,
        same,
        repeated F redis settings meanwhile' later u' s' (queued_job now u digest) checked' there,
      )

  -- Where Postgres takes the rows of a new upload and the queue refuses its message, the request ends with 502 and leaves a job
  -- that has failed and that no message names; the same upload again is answered with that job, as a
  -- success, and publishes nothing.
  pub lost_upload :
      (meanwhile meanwhile' : ℕ → IngestState F redis → IngestState F redis) (now later : ℕ)
      (u u' : Upload) (s : IngestState F redis) (stored exc : String)
      → (check_upload settings u s).0 ≡ ok tt
      → find_ingested (digest_of settings u) s.db ≡ none
      → is_refused u (digest_of settings u) s.db ≡ false
      → redis.get now (digest_of settings u) s.locks ≡ none
      → u.put_object (key_of u (digest_of settings u)) ≡ ok stored
      → enqueue_job settings u.publish (message_of settings u (digest_of settings u)) ≡ err exc
      → (check_upload settings u' (accept_image F redis settings meanwhile now u s).1).0 ≡ ok tt
      → digest_of settings u' ≡ digest_of settings u
      → let s' = (accept_image F redis settings meanwhile now u s).1 in
        ((accept_image F redis settings meanwhile now u s).0
          ≡ err (http 502 (str_append "Queue enqueue failed: " exc)))
        × (s'.published ≡ s.published)
        × (accept_image F redis settings meanwhile' later u' s' ≡ (
          ok (
              dedup
                (failed_job now u (digest_of settings u) exc)
                (digest_of settings u)
                "idempotent hit — existing job returned"),
          s',
        ))
  unfolding ingest_digest store_image persist_job enqueue_or_fail acquire_ingest_lock
  lost_upload meanwhile meanwhile' now later u u' s stored exc checked missing free unlocked put
        refused checked' same =
      let digest = digest_of settings u in
      let s' = (accept_image F redis settings meanwhile now u s).1 in
      let ran = after_checks F redis settings meanwhile now u s checked in
      let got = redis.set_nx_free now digest "1" ingest_ttl_seconds s.locks unlocked in
      let rows : s'.db ≡ fail_job u.job_id exc (insert_job settings now u digest s.db) =
        ground (arith, ran, got) in
      let there : find_ingested (digest_of settings u') s'.db ≡ some (failed_job now u digest exc) =
        rw (same, rows) (found_after_failure settings now u digest exc s.db) in
      (
        ground (arith, ran, got),
        ground (arith, ran, got),
        ground (
          arith,
          same,
          repeated F redis settings meanwhile' later u' s' (failed_job now u digest exc) checked'
              there,
        ),
      )

  still_waiting :
      (meanwhile : ℕ → IngestState F redis → IngestState F redis) (digest : String) (n : ℕ)
      (s : IngestState F redis)
      → ((k : ℕ) (t : IngestState F redis)
          → find_by_hash digest t.db ≡ none
          → find_by_hash digest (meanwhile k t).db ≡ none)
      → find_by_hash digest s.db ≡ none
      → (wait_for F redis meanwhile digest n s).0
        ≡ err (http 409 "Concurrent ingest in progress; retry")
  unfolding wait_for
  still_waiting meanwhile digest zero s keeps missing = refl
  still_waiting meanwhile digest (suc n) s keeps missing =
      ground (arith, still_waiting meanwhile digest n (meanwhile n s) keeps (keeps n s missing))

  -- Where object storage refuses a new upload, the request ends with 502 and keeps the lock: the same
  -- upload again is refused with 409 for two minutes, although no ingest is in progress, unless
  -- another request adds the job meanwhile.
  pub storage_failure_blocks_retry :
      (meanwhile meanwhile' : ℕ → IngestState F redis → IngestState F redis) (now later : ℕ)
      (u u' : Upload) (s : IngestState F redis) (exc : String)
      → (check_upload settings u s).0 ≡ ok tt
      → find_by_hash (digest_of settings u) s.db ≡ none
      → redis.get now (digest_of settings u) s.locks ≡ none
      → u.put_object (key_of u (digest_of settings u)) ≡ err exc
      → now ≤ later
      → later < now + seconds ingest_ttl_seconds
      → (check_upload settings u' (accept_image F redis settings meanwhile now u s).1).0 ≡ ok tt
      → digest_of settings u' ≡ digest_of settings u
      → ((k : ℕ) (t : IngestState F redis)
          → find_by_hash (digest_of settings u) t.db ≡ none
          → find_by_hash (digest_of settings u) (meanwhile' k t).db ≡ none)
      → ((accept_image F redis settings meanwhile now u s).0
          ≡ err (http 502 (str_append "Object storage failed: " exc)))
        × ((accept_image F redis settings meanwhile' later u'
              (accept_image F redis settings meanwhile now u s).1).0
            ≡ err (http 409 "Concurrent ingest in progress; retry"))
  unfolding ingest_digest store_image acquire_ingest_lock find_ingested
  storage_failure_blocks_retry meanwhile meanwhile' now later u u' s exc checked missing unlocked
        broken le lt checked' same keeps =
      let digest = digest_of settings u in
      let s' = (accept_image F redis settings meanwhile now u s).1 in
      let ran = after_checks F redis settings meanwhile now u s checked in
      let got = redis.set_nx_free now digest "1" ingest_ttl_seconds s.locks unlocked in
      let held : redis.get later digest s'.locks ≡ some "1" = ground (
        arith,
        ran,
        got,
        eq_refl digest,
        redis.get-set_nx now later digest digest "1" ingest_ttl_seconds s.locks unlocked le,
      ) in
      let rows : s'.db ≡ s.db = ground (arith, ran, got) in
      let refused = redis.set_nx_held later digest "1" "1" ingest_ttl_seconds s'.locks held in
      (
        ground (arith, ran, got),
        ground (
          arith,
          same,
          rows,
          refused,
          after_checks F redis settings meanwhile' later u' s' checked',
          still_waiting meanwhile' digest polls s' keeps (rw rows missing),
        ),
      )
