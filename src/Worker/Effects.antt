-- ===== src/Worker/Effects.antt =====
-- What each statement of the worker does to a job's row and to the decision of a job.
use mathlib.Core.Option
use multimodal_content_moder.Common.{
  ℕ, ◌+◌, ◌==◌, ◌≡◌, refl, inl, inr, true, Option-cases, is_some, none, some, any-eq-is_some, take,
  arith, if◌then◌else◌,
}
use multimodal_content_moder.Common.Float.{FloatOps}
use multimodal_content_moder.Envelope.{Text, DecisionEnvelope}
use multimodal_content_moder.Schema.{
  JobStatus, processing, succeeded, Job, Db, insert_audit, find_job,
}
use multimodal_content_moder.Schema.Jobs.{job_in-update}
use multimodal_content_moder.Worker.Pipeline.{
  start_job, finish_job, insert_decision, record_outcome, has_parents,
}
use multimodal_content_moder.Worker.Consumer.{failure_status, write_failure, mark_failed}

-- the changes of a job's row
abbrev pub started : ℕ → Job → Job
started now j = record j {
  status = processing;
  started_at = if is_some j.started_at then j.started_at else some now;
  attempts = j.attempts + 1;
}

abbrev pub finished : ℕ → Job → Job
finished now j = record j { status = succeeded; finished_at = some now; last_error = none }

abbrev pub marked_as : ℕ → JobStatus → Text → Job → Job
marked_as now status error j = record j {
  status = status;
  last_error = some (take 2000 error);
  finished_at = some now;
}

abbrev pub marked : ℕ → Text → Job → Job
marked now error j = marked_as now (failure_status j) error j

module _ {F : Type 0} where
  pub find_job-start_job :
      (now i k : ℕ) (db : Db F)
      → find_job k (start_job now i db)
        ≡ (if k == i then Option.map (started now) (find_job k db) else find_job k db)
  unfolding find_job start_job
  find_job-start_job now i k db = job_in-update i k (started now) db.jobs (λ j. refl)

  pub find_job-finish_job :
      (now i k : ℕ) (db : Db F)
      → find_job k (finish_job now i db)
        ≡ (if k == i then Option.map (finished now) (find_job k db) else find_job k db)
  unfolding find_job finish_job
  find_job-finish_job now i k db = job_in-update i k (finished now) db.jobs (λ j. refl)

  find_job-write_failure :
      (now i k : ℕ) (status : JobStatus) (error : Text) (db : Db F)
      → find_job k (write_failure now i status error db) ≡ (
          if k == i then Option.map (marked_as now status error) (find_job k db) else find_job k db)
  unfolding write_failure insert_audit find_job
  find_job-write_failure now i k status error db =
      job_in-update i k (marked_as now status error) db.jobs (λ j. refl)

  pub find_job-mark_failed :
      (now i k : ℕ) (error : Text) (db : Db F)
      → find_job k (mark_failed now i error db)
        ≡ (if k == i then Option.map (marked now error) (find_job k db) else find_job k db)
  unfolding mark_failed
  find_job-mark_failed now i k error db = elim (Option-cases (find_job i db)) [
    | inl missing ↦ rw (missing, mark_failed) (ground arith)
    | inr (j, found) ↦
        rw (found, mark_failed)
          (ground (arith, find_job-write_failure now i k (failure_status j) error db))
  ]

  -- nothing but the row of the job and the audit log changes
  pub tables-start_job :
      (now i : ℕ) (db : Db F)
      → ((start_job now i db).decisions ≡ db.decisions)
        × ((start_job now i db).review_queue ≡ db.review_queue)
        × ((start_job now i db).metrics_events ≡ db.metrics_events)
        × ((start_job now i db).next_id ≡ db.next_id)
  unfolding start_job
  tables-start_job now i db = (refl, refl, refl, refl)

  pub tables-mark_failed :
      (now i : ℕ) (error : Text) (db : Db F)
      → ((mark_failed now i error db).decisions ≡ db.decisions)
        × ((mark_failed now i error db).review_queue ≡ db.review_queue)
        × ((mark_failed now i error db).metrics_events ≡ db.metrics_events)
        × ((mark_failed now i error db).next_id ≡ db.next_id)
  unfolding mark_failed insert_audit
  tables-mark_failed now i error db = ground arith

  pub find_job-has_parents :
      (e : DecisionEnvelope F) (db : Db F)
      → has_parents e db ≡ true
      → is_some (find_job e.job_id db) ≡ true
  unfolding has_parents find_job
  find_job-has_parents e db h = ground (arith, any-eq-is_some (λ j. j.id == e.job_id) db.jobs)

module _ (fl : FloatOps) where
  pub find_job-record_outcome :
      (now d k : ℕ) (e : DecisionEnvelope fl.F) (db : Db fl.F)
      → find_job k (record_outcome fl now d e (insert_decision now e db))
        ≡ (if k == e.job_id then Option.map (finished now) (find_job k db) else find_job k db)
  unfolding record_outcome insert_decision insert_audit find_job
  find_job-record_outcome now d k e db =
      ground (arith, job_in-update e.job_id k (finished now) db.jobs (λ j. refl))
