-- ===== src/EndToEnd.antt =====
-- An upload from the API to its decision: `accept_image` publishes the message that `handle_message`
-- of the worker receives. JSON and the texts of UUIDs are read back as they were written.
use mathlib.Core.Path.{subst}
use multimodal_content_moder.Common.{
  ℕ, ◌≡◌, refl, ◌∙◌, ap, sym, ==_refl, String, str_eq, true, false, is_some, Option, some, [], ◌∷◌,
  any, find_where, update_where, arith, strip,
}
use multimodal_content_moder.Common.Exec.{Result, ok}
use multimodal_content_moder.Common.Float.{FloatOps}
use multimodal_content_moder.Policy.{default_thresholds}
use multimodal_content_moder.Envelope.{DecisionEnvelope}
use multimodal_content_moder.Schema.{DecisionRow, Db, insert_audit, find_job, find_decision}
use multimodal_content_moder.Review.Locks.{LockStore}
use multimodal_content_moder.Ingest.Queue.{ApiSettings, JobBody as SentBody, job_body}
use multimodal_content_moder.Ingest.Service.{
  IngestResponse, Upload, check_upload, digest_of, key_of,
}
use multimodal_content_moder.Ingest.Accept.{
  IngestState, accept_image, message_of, insert_job, queued_job,
}
use multimodal_content_moder.Ingest.Resubmission.{accept-IsAccepted}
use multimodal_content_moder.Worker.Pipeline.{
  Settings, Services, JobMessage, WorkerError, validate, moderate, build_envelope, start_job,
  decision_row, has_parents, process_job, persist_envelope, thresholds_of,
}
use multimodal_content_moder.Worker.Consumer.{
  JobBody, key_of as field_of, uuid_of, read_body, is_succeeded, handle_job, handle_message,
}
use multimodal_content_moder.Worker.Delivery.{begun, after_decision, moderate-job_id}
use multimodal_content_moder.Worker.Consistency.{IsConsistent}
use multimodal_content_moder.Worker.Preservation.{handle_job-IsConsistent, outcome_decisions}
use multimodal_content_moder.Worker.Adapters.{Backends, services_of}
use multimodal_content_moder.Worker.Adapters.Local.{IsLocal, moderate-evaluate}
use multimodal_content_moder.Eval.{evaluate}

-- the message of `_job_body`, as the worker's `json.loads` gives it
unfoldable pub received : (ℕ → String) → SentBody → JobBody
received uuid_text body = record {
  job_id = some (uuid_text body.job_id);
  content_id = some (uuid_text body.content_id);
  content_hash = some body.content_hash;
  object_key = some body.object_key;
  caption = some body.caption;
}

-- the arguments of `process_job` for an upload
abbrev pub message_for : ApiSettings → Upload → JobMessage
message_for settings u = record {
  job_id = u.job_id;
  content_id = u.content_id;
  content_hash = digest_of settings u;
  object_key = key_of u (digest_of settings u);
  caption = strip u.caption;
}

module _ {S : Type 0} where
  read_received :
      (settings : ApiSettings) (parse_uuid : String → Option ℕ) (u : Upload) (s : S)
      → parse_uuid (u.uuid_text u.job_id) ≡ some u.job_id
      → parse_uuid (u.uuid_text u.content_id) ≡ some u.content_id
      → read_body parse_uuid (received u.uuid_text (message_of settings u (digest_of settings u))) s
        ≡ (ok (message_for settings u), s)
  unfolding read_body field_of uuid_of received job_body
  read_received settings parse_uuid u s job content = ground arith

module _ (fl : FloatOps) (settings : Settings fl.F) (services : Services fl.F) (now : ℕ) where
  moderate-content_id :
      (m : JobMessage) (db : Db fl.F) {e : DecisionEnvelope fl.F}
      → (moderate fl settings services now m db).0 ≡ ok e
      → e.content_id ≡ m.content_id
  unfolding moderate build_envelope
  moderate-content_id m db h = ground arith

  -- a delivery in which nothing raises
  decides :
      (m : JobMessage) (db : Db fl.F) (e : DecisionEnvelope fl.F)
      → is_succeeded (find_job m.job_id db) ≡ false
      → is_some (find_decision m.job_id db) ≡ false
      → moderate fl settings services now m (start_job now m.job_id db)
        ≡ (ok e, start_job now m.job_id db)
      → e.job_id ≡ m.job_id
      → has_parents e (start_job now m.job_id db) ≡ true
      → handle_job fl settings services now m db
        ≡ (ok tt, after_decision fl settings services now m e db)
  unfolding handle_job process_job persist_envelope find_decision start_job
  decides m db e open_job fresh ran own rooted =
      let returned : (moderate fl settings services now m (start_job now m.job_id db)).0 ≡ ok e =
        ap (λ p. p.0) ran in
      let kept : (moderate fl settings services now m (start_job now m.job_id db)).1
          ≡ start_job now m.job_id db =
        ap (λ p. p.1) ran in
      ground arith

  decision_there :
      (m : JobMessage) (db : Db fl.F) (e : DecisionEnvelope fl.F)
      → IsConsistent db
      → e.job_id ≡ m.job_id
      → find_decision m.job_id (after_decision fl settings services now m e db)
        ≡ some (decision_row now db.next_id e)
  unfolding find_decision find_where start_job
  decision_there m db e h own =
      let begun_db = begun fl settings services now m db in
      let rows = outcome_decisions fl now e begun_db h.review_ids in
      ground (arith, rows, ==_refl m.job_id)

module _ {F : Type 0} where
  inserted-IsConsistent :
      (settings : ApiSettings) (now : ℕ) (u : Upload) (digest : String) (db : Db F)
      → is_some (find_decision u.job_id db) ≡ false
      → IsConsistent db
      → IsConsistent (insert_job settings now u digest db)
  unfolding insert_job insert_audit find_job find_decision find_where
  inserted-IsConsistent settings now u digest db fresh h = record {
    decided = λ k. ground (arith, h.decided k);
    one_decision = h.one_decision;
    queued = h.queued;
    decision_ids = h.decision_ids;
    review_ids = h.review_ids;
  }

  fresh_inserted :
      (settings : ApiSettings) (now : ℕ) (u : Upload) (db : Db F)
      → is_some (find_decision u.job_id db) ≡ false
      → is_some (find_decision u.job_id (insert_job settings now u (digest_of settings u) db))
        ≡ false
  unfolding insert_job insert_audit find_decision
  fresh_inserted settings now u db fresh = fresh

  job_inserted :
      (settings : ApiSettings) (now : ℕ) (u : Upload) (digest : String) (db : Db F)
      → find_job u.job_id (insert_job settings now u digest db) ≡ some (queued_job now u digest)
  unfolding insert_job insert_audit find_job find_where
  job_inserted settings now u digest db = ground (arith, ==_refl u.job_id)

  parents_inserted :
      (settings : ApiSettings) (now now' : ℕ) (u : Upload) (digest : String) (db : Db F)
      (e : DecisionEnvelope F)
      → e.job_id ≡ u.job_id
      → e.content_id ≡ u.content_id
      → has_parents e (start_job now' u.job_id (insert_job settings now u digest db)) ≡ true
  unfolding insert_job insert_audit has_parents start_job any update_where
  parents_inserted settings now now' u digest db e own content =
      ground (arith, ==_refl u.job_id, ==_refl u.content_id)

module _ (fl : FloatOps) (redis : LockStore str_eq) (api : ApiSettings) (worker : Settings fl.F)
    (b : Backends fl.F) (parse_uuid : String → Option ℕ) where
  -- how an upload ends at the worker
  abbrev pub IsDecided : Upload → Result WorkerError (Unit {0}) × Db fl.F → Type 0
  IsDecided u (r, db) =
      (r ≡ ok tt)
      × (is_succeeded (find_job u.job_id db) ≡ true)
      × ((row : DecisionRow fl.F) × (find_decision u.job_id db ≡ some row)
          × (row.decision ≡ (evaluate fl b.text_ops b.open_image u.body (strip u.caption)).0)
          × (row.needs_human_review
              ≡ (evaluate fl b.text_ops b.open_image u.body (strip u.caption)).1))

  -- A new upload that `accept_image` accepts is decided by the first delivery of its message, where
  -- the worker uses the local vision adapter, the rules and the default bands, object storage gives
  -- the bytes and the type of the upload back, both pass the worker's validation, UUIDs are read
  -- back, the job's id is fresh, and the tables are consistent. The delivery returns, the job has
  -- succeeded, and its decision is the one that the evaluation harness predicts for the upload.
  pub accepted-IsDecided :
      (meanwhile : ℕ → IngestState fl.F redis → IngestState fl.F redis) (now now' : ℕ) (u : Upload)
      (s : IngestState fl.F redis) (r : IngestResponse)
      → (check_upload api u s).0 ≡ ok tt
      → (accept_image fl.F redis api meanwhile now u s).0 ≡ ok r
      → r.deduplicated ≡ false
      → is_some (find_decision u.job_id s.db) ≡ false
      → IsConsistent s.db
      → parse_uuid (u.uuid_text u.job_id) ≡ some u.job_id
      → parse_uuid (u.uuid_text u.content_id) ≡ some u.content_id
      → b.fetch (key_of u (digest_of api u)) ≡ ok (u.body, u.content_type)
      → ((db : Db fl.F)
          → validate u.body u.content_type worker.max_upload_bytes db
            ≡ (ok ("validation_ok" ∷ []), db))
      → IsLocal fl worker b
      → thresholds_of fl worker ≡ default_thresholds fl
      → let s' = (accept_image fl.F redis api meanwhile now u s).1 in
        let body = message_of api u (digest_of api u) in
        (s'.published
          ≡ record { body = body; content_hash = body.content_hash; job_id = u.job_id }
            ∷ s.published)
        × IsDecided u (
            handle_message fl worker
              (services_of fl worker b)
              parse_uuid
              now'
              (received u.uuid_text body)
              s'.db)
  unfolding handle_message job_body digest_of
  accepted-IsDecided meanwhile now now' u s r checked accepted new fresh h job content stored valid
        local bands =
      let m = message_for api u in
      let services = services_of fl worker b in
      let left = accept-IsAccepted fl.F redis api meanwhile now u s r checked accepted new in
      let db = insert_job api now u (digest_of api u) s.db in
      let consistent = inserted-IsConsistent api now u (digest_of api u) s.db fresh h in
      let begun_db = start_job now' u.job_id db in
      let (e, ran, decision, review) =
        moderate-evaluate fl worker b now' m begun_db u.body u.content_type local bands stored
          (valid begun_db) in
      let own = moderate-job_id fl worker services now' m begun_db (ap (λ p. p.0) ran) in
      let content_kept =
        moderate-content_id fl worker services now' m begun_db (ap (λ p. p.0) ran) in
      let rooted = parents_inserted api now now' u (digest_of api u) s.db e own content_kept in
      let open_job : is_succeeded (find_job u.job_id db) ≡ false =
        ap is_succeeded (job_inserted api now u (digest_of api u) s.db) in
      let ends =
        decides fl worker services now' m db e open_job (fresh_inserted api now u s.db fresh) ran
          own rooted in
      let there = decision_there fl worker services now' m db e consistent own in
      let after = after_decision fl worker services now' m e db in
      let kept : IsConsistent after =
        subst IsConsistent (ap (λ p. p.1) ends)
          (handle_job-IsConsistent fl worker services now' m db consistent) in
      let decided : IsDecided u (ok tt, after) = (
        refl,
        kept.decided u.job_id ∙ ap is_some there,
        (decision_row now' db.next_id e, there, decision, review),
      ) in
      let read = read_received api parse_uuid u db job content in
      (left.sent, rw (left.rows) (rw (read) (subst (IsDecided u) (sym ends) decided)))
