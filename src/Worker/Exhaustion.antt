-- ===== src/Worker/Exhaustion.antt =====
-- A message that is delivered again and again, and fails each time.
use multimodal_content_moder.Common.{
  ℕ, ◌+◌, ◌≡◌, some, List, [], ◌∷◌, length, leb, arith, if◌then◌else◌,
}
use multimodal_content_moder.Common.Exec.{err}
use multimodal_content_moder.Common.Float.{FloatOps}
use multimodal_content_moder.Schema.{failed, dead, Job, Db, find_job}
use multimodal_content_moder.Worker.Pipeline.{Settings, Services, WorkerError, JobMessage}
use multimodal_content_moder.Worker.Consumer.{handle_job}
use multimodal_content_moder.Worker.Retries.{failed_delivery}

module _ (fl : FloatOps) (settings : Settings fl.F) (now : ℕ) (m : JobMessage) where
  -- the queue delivers the message once for each answer of the services
  pub deliveries : List (Services fl.F) → Db fl.F → Db fl.F
  deliveries [] db = db
  deliveries (services ∷ rest) db = deliveries rest (handle_job fl settings services now m db).1

  -- each of the deliveries raises
  abbrev pub AllRaise : List (Services fl.F) → Db fl.F → Type 0
  AllRaise [] db = Unit
  AllRaise (services ∷ rest) db =
      ((x : WorkerError) × ((handle_job fl settings services now m db).0 ≡ err x))
      × AllRaise rest (handle_job fl settings services now m db).1

  -- After n > 0 deliveries that all raised, of a job that is in the table, the job has n more attempts, no decision was written,
  -- and the job is dead exactly if its attempts have reached the maximum.
  pub retries_exhausted :
      (services : Services fl.F) (rest : List (Services fl.F)) (db : Db fl.F) (j : Job)
      → find_job m.job_id db ≡ some j
      → AllRaise (services ∷ rest) db
      → (j' : Job) × (find_job m.job_id (deliveries (services ∷ rest) db) ≡ some j')
        × (j'.attempts ≡ j.attempts + (length rest + 1))
        × (j'.max_attempts ≡ j.max_attempts)
        × (j'.status
            ≡ (if leb j.max_attempts (j.attempts + (length rest + 1)) then dead else failed))
        × ((deliveries (services ∷ rest) db).decisions ≡ db.decisions)
        × ((deliveries (services ∷ rest) db).review_queue ≡ db.review_queue)
  unfolding deliveries
  retries_exhausted services [] db j found ((x, bad), _) =
      let one = failed_delivery fl settings services now m db x j bad found in
      (one.0, one.1, ground (arith, one), one.3, ground (arith, one), one.5, one.6)
  retries_exhausted services (next ∷ rest) db j found ((x, bad), more) =
      let one = failed_delivery fl settings services now m db x j bad found in
      let all =
        retries_exhausted next rest (handle_job fl settings services now m db).1 one.0 one.1 more in
      (
        all.0,
        all.1,
        ground (arith, one, all),
        ground (arith, one, all),
        ground (arith, one.2, one.3, all.4),
        cc (one.5, all.5),
        cc (one.6, all.6),
      )
