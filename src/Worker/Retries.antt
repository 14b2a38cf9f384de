-- ===== src/Worker/Retries.antt =====
-- Deliveries of the same message: after a success, and after failures.
use multimodal_content_moder.Common.{
  ℕ, ◌+◌, ◌≡◌, refl, ◌∙◌, ◌⊎◌, inl, true, is_some, some, leb, arith, if◌then◌else◌,
}
use multimodal_content_moder.Common.Exec.{ok, err}
use multimodal_content_moder.Common.Float.{FloatOps}
use multimodal_content_moder.Envelope.{DecisionEnvelope}
use multimodal_content_moder.Schema.{failed, dead, Job, Db, find_job, find_decision}
use multimodal_content_moder.Worker.Pipeline.{
  Settings, Services, WorkerError, JobMessage, has_parents, process_job,
}
use multimodal_content_moder.Worker.Consumer.{
  failure_status, failure_text, is_succeeded, handle_job,
}
use multimodal_content_moder.Worker.Effects.{
  marked, started, find_job-start_job, find_job-mark_failed, find_job-has_parents,
  find_job-record_outcome, tables-start_job, tables-mark_failed,
}
use multimodal_content_moder.Worker.Delivery.{
  Delivered, delivery, begun, after_decision, after_failure,
}

module _ (fl : FloatOps) where
  -- A job that has succeeded or has a decision is left alone.
  pub settled :
      (settings : Settings fl.F) (services : Services fl.F) (now : ℕ) (m : JobMessage)
      (db : Db fl.F)
      → (is_succeeded (find_job m.job_id db) ≡ true) ⊎ (is_some (find_decision m.job_id db) ≡ true)
      → handle_job fl settings services now m db ≡ (ok tt, db)
  unfolding handle_job process_job
  settled settings services now m db h = ground arith

  module _ (settings : Settings fl.F) (services : Services fl.F) (now : ℕ) (m : JobMessage)
      (db : Db fl.F) where
    succeeded_after_decision :
        (e : DecisionEnvelope fl.F)
        → e.job_id ≡ m.job_id
        → has_parents e (begun fl settings services now m db) ≡ true
        → is_succeeded (find_job m.job_id (after_decision fl settings services now m e db)) ≡ true
    succeeded_after_decision e own rooted =
        let mid = begun fl settings services now m db in
        ground (
          arith,
          find_job-record_outcome fl now db.next_id m.job_id e mid,
          find_job-has_parents e mid rooted,
        )

    pub settled_after_ok :
        (handle_job fl settings services now m db).0 ≡ ok tt
        → (is_succeeded (find_job m.job_id (handle_job fl settings services now m db).1) ≡ true)
          ⊎ (is_some (find_decision m.job_id (handle_job fl settings services now m db).1) ≡ true)
    settled_after_ok h = elim (delivery fl settings services now m db) [
      | Delivered.skipped _ same why ↦ rw same why
      | Delivered.decided e _ at _ own rooted ↦ inl (rw at (succeeded_after_decision e own rooted))
      | Delivered.failed x bad _ _ _ ↦ cc
    ]

    -- After a delivery that returned, every later delivery of the message, under any settings and
    -- with any answers of the adapters, returns and changes nothing.
    pub redelivery :
        (settings' : Settings fl.F) (services' : Services fl.F) (later : ℕ)
        → (handle_job fl settings services now m db).0 ≡ ok tt
        → handle_job fl settings' services' later m (handle_job fl settings services now m db).1
          ≡ (ok tt, (handle_job fl settings services now m db).1)
    redelivery settings' services' later h =
        settled settings' services' later m (handle_job fl settings services now m db).1
          (settled_after_ok h)

    row_after_failure :
        (x : WorkerError) (j : Job)
        → find_job m.job_id db ≡ some j
        → find_job m.job_id (after_failure fl settings services now m x db)
          ≡ some (marked now (failure_text x) (started now j))
    row_after_failure x j found =
        let mid = begun fl settings services now m db in
        ground (
          arith,
          find_job-mark_failed now m.job_id m.job_id (failure_text x) mid,
          find_job-start_job now m.job_id m.job_id db,
        )

    -- A delivery that raises, of a job that is in the table, counts one attempt, marks the job dead once the attempts reach the
    -- maximum and failed before that, and leaves decisions, reviews and metrics as they were.
    pub failed_delivery :
        (x : WorkerError) (j : Job)
        → (handle_job fl settings services now m db).0 ≡ err x
        → find_job m.job_id db ≡ some j
        → (j' : Job) × (find_job m.job_id (handle_job fl settings services now m db).1 ≡ some j')
          × (j'.attempts ≡ j.attempts + 1)
          × (j'.max_attempts ≡ j.max_attempts)
          × (j'.status ≡ (if leb j.max_attempts (j.attempts + 1) then dead else failed))
          × ((handle_job fl settings services now m db).1.decisions ≡ db.decisions)
          × ((handle_job fl settings services now m db).1.review_queue ≡ db.review_queue)
          × ((handle_job fl settings services now m db).1.metrics_events ≡ db.metrics_events)
    unfolding failure_status
    failed_delivery x j h found = elim (delivery fl settings services now m db) [
      | Delivered.skipped good _ _ ↦ cc
      | Delivered.decided _ good _ _ _ _ ↦ cc
      | Delivered.failed y bad at _ _ ↦
          let mid = begun fl settings services now m db in
          let t = tables-mark_failed now m.job_id (failure_text y) mid in
          let u = tables-start_job now m.job_id db in
          (
            marked now (failure_text y) (started now j),
            rw at (row_after_failure y j found),
            refl,
            refl,
            refl,
            rw at (t.0 ∙ u.0),
            rw at (t.1 ∙ u.1),
            rw at (t.2 ∙ u.2),
          )
    ]
