-- ===== src/Worker/Delivery.antt =====
-- One delivery of a job message: `handle_message` of main.py behind the parsing of the body.
use multimodal_content_moder.Common.{
  ℕ, ◌≡◌, refl, ◌⊎◌, inl, inr, true, false, Bool-cases, Option-cases, is_some, arith,
}
use multimodal_content_moder.Common.Exec.{Result, ok, err, Result-cases}
use multimodal_content_moder.Common.Float.{FloatOps}
use multimodal_content_moder.Envelope.{DecisionEnvelope}
use multimodal_content_moder.Schema.{Db, find_job, find_decision}
use multimodal_content_moder.Worker.Pipeline.{
  Settings, Services, WorkerError, other_error, JobMessage, start_job, insert_decision,
  record_outcome, has_parents, build_envelope, moderate, persist_envelope, process_job,
}
use multimodal_content_moder.Worker.Consumer.{failure_text, mark_failed, is_succeeded, handle_job}

module _ (fl : FloatOps) (settings : Settings fl.F) (services : Services fl.F) (now : ℕ) where
  -- `moderate` reads no table.
  moderate-state : (m : JobMessage) (db : Db fl.F) → (moderate fl settings services now m db).1 ≡ db
  unfolding moderate
  moderate-state m db = ground arith

  pub moderate-job_id :
      (m : JobMessage) (db : Db fl.F) {e : DecisionEnvelope fl.F}
      → (moderate fl settings services now m db).0 ≡ ok e
      → e.job_id ≡ m.job_id
  unfolding moderate build_envelope
  moderate-job_id m db h = ground arith

  -- the database after `UPDATE jobs SET status = 'processing'`
  abbrev pub begun : JobMessage → Db fl.F → Db fl.F
  begun m db = start_job now m.job_id db

  abbrev pub after_decision : JobMessage → DecisionEnvelope fl.F → Db fl.F → Db fl.F
  after_decision m e db = record_outcome fl now db.next_id e (insert_decision now e (begun m db))

  abbrev pub after_failure : JobMessage → WorkerError → Db fl.F → Db fl.F
  after_failure m x db = mark_failed now m.job_id (failure_text x) (begun m db)

  -- The four ways in which a delivery ends.
  pub data Delivered (m : JobMessage) (db : Db fl.F) (r : Result WorkerError (Unit {0}))
      (db' : Db fl.F) : Type 0 where
    skipped :
        r ≡ ok tt
        → db' ≡ db
        → (is_succeeded (find_job m.job_id db) ≡ true)
          ⊎ (is_some (find_decision m.job_id db) ≡ true)
        → Delivered m db r db'
    decided :
        (e : DecisionEnvelope fl.F)
        → r ≡ ok tt
        → db' ≡ after_decision m e db
        → is_some (find_decision m.job_id db) ≡ false
        → e.job_id ≡ m.job_id
        → has_parents e (begun m db) ≡ true
        → Delivered m db r db'
    failed :
        (x : WorkerError)
        → r ≡ err x
        → db' ≡ after_failure m x db
        → is_some (find_decision m.job_id db) ≡ false
        → is_succeeded (find_job m.job_id db) ≡ false
        → Delivered m db r db'

  find_decision-begun :
      (m : JobMessage) (db : Db fl.F)
      → find_decision m.job_id (begun m db) ≡ find_decision m.job_id db
  unfolding find_decision start_job
  find_decision-begun m db = refl

  next_id-begun : (m : JobMessage) (db : Db fl.F) → (begun m db).next_id ≡ db.next_id
  unfolding start_job
  next_id-begun m db = refl

  pub delivery :
      (m : JobMessage) (db : Db fl.F)
      → Delivered m db
          (handle_job fl settings services now m db).0
          (handle_job fl settings services now m db).1
  unfolding handle_job process_job persist_envelope
  delivery m db = elim (Bool-cases (is_succeeded (find_job m.job_id db))) [
    | inl done ↦ skipped (ground arith) (ground arith) (inl done)
    | inr open_job ↦ elim (Option-cases (find_decision m.job_id db)) [
      | inr (row, found) ↦ skipped (ground arith) (ground arith) (inr (ground arith))
      | inl fresh ↦
          let ran = moderate fl settings services now m (begun m db) in
          let kept = moderate-state m (begun m db) in
          let same = find_decision-begun m db in
          elim (Result-cases ran.0) [
            | inr (x, raised) ↦ failed x (ground arith) (ground arith) (ground arith) open_job
            | inl (e, built) ↦
                let own = moderate-job_id m (begun m db) built in
                elim (Bool-cases (has_parents e (begun m db))) [
                  | inl rooted ↦
                      decided e (ground arith) (ground (arith, next_id-begun m db)) (ground arith)
                        own rooted
                  | inr orphan ↦
                      failed (other_error services.foreign_key_text) (ground arith) (ground arith)
                        (ground arith) open_job
                ]
          ]
    ]
  ]
