-- ===== src/Worker/Race.antt =====
-- Two workers on one job: the queue hands a message out again while the first is still at work.
use multimodal_content_moder.Common.{
  ℕ, ◌≡◌, refl, inr, true, is_some, some, arith, leb, if◌then◌else◌,
}
use multimodal_content_moder.Common.Exec.{ok}
use multimodal_content_moder.Common.Float.{FloatOps}
use multimodal_content_moder.Envelope.{Text}
use multimodal_content_moder.Schema.{succeeded, failed, dead, Job, Db, find_job, find_decision}
use multimodal_content_moder.Worker.Pipeline.{Settings, Services, JobMessage}
use multimodal_content_moder.Worker.Consumer.{failure_status, mark_failed, handle_job}
use multimodal_content_moder.Worker.Effects.{marked, find_job-mark_failed, tables-mark_failed}
use multimodal_content_moder.Worker.Retries.{settled}

module _ (fl : FloatOps) where
  -- A worker that fails after another one has decided the job overwrites the job's `succeeded` with
  -- `failed` or `dead`, and no later delivery of the message mends it: each returns, so that the
  -- message is acknowledged, and changes nothing.
  pub late_failure_sticks :
      (settings : Settings fl.F) (services : Services fl.F) (now later : ℕ) (error : Text)
      (m : JobMessage) (db : Db fl.F) (j : Job)
      → find_job m.job_id db ≡ some j
      → j.status ≡ succeeded
      → is_some (find_decision m.job_id db) ≡ true
      → let db' = mark_failed now m.job_id error db in
        (j' : Job) × (find_job m.job_id db' ≡ some j')
        × (j'.status ≡ (if leb j.max_attempts j.attempts then dead else failed))
        × (handle_job fl settings services later m db' ≡ (ok tt, db'))
  unfolding failure_status find_decision
  late_failure_sticks settings services now later error m db j found done decided =
      let db' = mark_failed now m.job_id error db in
      let same = (tables-mark_failed now m.job_id error db).0 in
      (
        marked now error j,
        ground (arith, find_job-mark_failed now m.job_id m.job_id error db),
        refl,
        settled fl settings services later m db' (inr (rw same decided)),
      )
