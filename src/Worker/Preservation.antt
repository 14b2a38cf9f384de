-- ===== src/Worker/Preservation.antt =====
-- Every delivery keeps the tables consistent, and one that returns leaves a decision.
use mathlib.Core.Path.{subst₃}
use multimodal_content_moder.Common.{
  ℕ, ◌==◌, ◌<◌, ◌≤◌, ◌≡◌, sym, ◌∙◌, ◌↔◌, inl, inr, true, false, Bool-cases, is_some, ◌∷◌, All,
  count_where, find_where, arith,
}
use multimodal_content_moder.Common.Exec.{ok}
use multimodal_content_moder.Common.Float.{FloatOps}
use multimodal_content_moder.Envelope.{DecisionEnvelope}
use multimodal_content_moder.Schema.{Db, find_job, find_decision}
use multimodal_content_moder.Worker.Pipeline.{
  Settings, Services, WorkerError, JobMessage, start_job, insert_decision, record_outcome,
  has_parents, decision_row,
}
use multimodal_content_moder.Worker.Consumer.{
  failure_text, failure_status, is_succeeded, handle_job,
}
use multimodal_content_moder.Worker.Effects.{
  find_job-start_job, find_job-mark_failed, find_job-has_parents, find_job-record_outcome,
  tables-start_job, tables-mark_failed,
}
use multimodal_content_moder.Worker.Delivery.{
  Delivered, delivery, begun, after_decision, after_failure,
}
use multimodal_content_moder.Worker.Retries.{settled_after_ok}
use multimodal_content_moder.Worker.Consistency.{
  IsConsistent, outcome-TablesAgree, outcome_auto, outcome_human, no_decision_counts_zero,
  TablesAgree, not_in_review,
}

module _ (fl : FloatOps) where
  open fl use {F}

  -- the decisions after a delivery that wrote one
  pub outcome_decisions :
      (now : ℕ) (e : DecisionEnvelope F) (db : Db F)
      → All (λ r. r.decision_id < db.next_id) db.review_queue
      → (record_outcome fl now db.next_id e (insert_decision now e db)).decisions
        ≡ decision_row now db.next_id e ∷ db.decisions
  outcome_decisions now e db h = elim (Bool-cases e.needs_human_review) [
    | inl human ↦ (outcome_human fl now e db human (not_in_review db.next_id db.review_queue h)).1
    | inr auto ↦ (outcome_auto fl now e db auto).0
  ]

  outcome-IsConsistent :
      (now : ℕ) (e : DecisionEnvelope F) (db : Db F)
      → TablesAgree fl db.decisions db.review_queue db.next_id
      → ((k : ℕ) → count_where (λ d. d.job_id == k) db.decisions ≤ 1)
      → is_some (find_decision e.job_id db) ≡ false
      → is_some (find_job e.job_id db) ≡ true
      → ((k : ℕ)
          → (k == e.job_id) ≡ false
          → is_succeeded (find_job k db) ≡ is_some (find_decision k db))
      → IsConsistent (record_outcome fl now db.next_id e (insert_decision now e db))
  unfolding find_decision find_where count_where
  outcome-IsConsistent now e db agree one fresh rooted others =
      let written = outcome_decisions now e db agree.2 in
      let tables = outcome-TablesAgree fl now e db agree in
      record {
        decided = λ k. ground (
          arith,
          written,
          find_job-record_outcome fl now db.next_id k e db,
          others k,
          fresh,
          rooted,
        );
        one_decision =
            λ k. rw written (ground (arith, one k, no_decision_counts_zero k db.decisions, fresh));
        queued = tables.0;
        decision_ids = tables.1;
        review_ids = tables.2;
      }

module _ (fl : FloatOps) (settings : Settings fl.F) (services : Services fl.F) (now : ℕ) where
  decided-IsConsistent :
      (m : JobMessage) (db : Db fl.F) (e : DecisionEnvelope fl.F)
      → IsConsistent db
      → is_some (find_decision m.job_id db) ≡ false
      → e.job_id ≡ m.job_id
      → has_parents e (begun fl settings services now m db) ≡ true
      → IsConsistent (after_decision fl settings services now m e db)
  unfolding start_job find_decision
  decided-IsConsistent m db e h fresh own rooted =
      let mid = begun fl settings services now m db in
      outcome-IsConsistent fl now e mid (h.queued, h.decision_ids, h.review_ids) h.one_decision
        (rw own fresh) (find_job-has_parents e mid rooted)
        (λ k other. ground (arith, find_job-start_job now m.job_id k db, h.decided k))

  failed-IsConsistent :
      (m : JobMessage) (db : Db fl.F) (x : WorkerError)
      → IsConsistent db
      → is_some (find_decision m.job_id db) ≡ false
      → IsConsistent (after_failure fl settings services now m x db)
  unfolding find_decision failure_status
  failed-IsConsistent m db x h fresh =
      let mid = begun fl settings services now m db in
      let t = tables-mark_failed now m.job_id (failure_text x) mid in
      let u = tables-start_job now m.job_id db in
      let tables =
        subst₃ (TablesAgree fl) (sym (t.0 ∙ u.0)) (sym (t.1 ∙ u.1)) (sym (t.3 ∙ u.3))
          (h.queued, h.decision_ids, h.review_ids) in
      record {
        decided = λ k. ground (
          arith,
          t.0,
          u.0,
          h.decided k,
          fresh,
          find_job-start_job now m.job_id k db,
          find_job-mark_failed now m.job_id k (failure_text x) mid,
        );
        one_decision = λ k. rw (t.0 ∙ u.0) (h.one_decision k);
        queued = tables.0;
        decision_ids = tables.1;
        review_ids = tables.2;
      }

  -- Every delivery, whatever the adapters answer and whether it returns or raises, keeps the tables
  -- consistent.
  pub handle_job-IsConsistent :
      (m : JobMessage) (db : Db fl.F)
      → IsConsistent db
      → IsConsistent (handle_job fl settings services now m db).1
  handle_job-IsConsistent m db h = elim (delivery fl settings services now m db) [
    | Delivered.skipped _ same _ ↦ rw same h
    | Delivered.decided e _ at fresh own rooted ↦
        rw at (decided-IsConsistent m db e h fresh own rooted)
    | Delivered.failed x _ at fresh _ ↦ rw at (failed-IsConsistent m db x h fresh)
  ]

  decision_after_failure :
      (m : JobMessage) (db : Db fl.F) (x : WorkerError)
      → find_decision m.job_id (after_failure fl settings services now m x db)
        ≡ find_decision m.job_id db
  unfolding find_decision
  decision_after_failure m db x =
      let mid = begun fl settings services now m db in
      let t = tables-mark_failed now m.job_id (failure_text x) mid in
      rw (t.0 ∙ (tables-start_job now m.job_id db).0)

  -- On consistent tables, a delivery that returned leaves a decision for its job, and one that
  -- raised leaves none.
  pub decided_iff_returned :
      (m : JobMessage) (db : Db fl.F)
      → IsConsistent db
      → ((handle_job fl settings services now m db).0 ≡ ok tt)
        ↔ (is_some (find_decision m.job_id (handle_job fl settings services now m db).1) ≡ true)
  decided_iff_returned m db h = (
    forward,
    elim (delivery fl settings services now m db) [
      | Delivered.skipped good _ _ ↦ λ _. good
      | Delivered.decided _ good _ _ _ _ ↦ λ _. good
      | Delivered.failed x _ at fresh _ ↦ λ there. absurd (no_decision x at fresh there)
    ],
  )
    where
      forward :
          (handle_job fl settings services now m db).0 ≡ ok tt
          → is_some (find_decision m.job_id (handle_job fl settings services now m db).1) ≡ true
      forward good =
          let agree = (handle_job-IsConsistent m db h).decided m.job_id in
          ground (arith, agree, settled_after_ok fl settings services now m db good)

      no_decision :
          (x : WorkerError)
          → (handle_job fl settings services now m db).1
            ≡ after_failure fl settings services now m x db
          → is_some (find_decision m.job_id db) ≡ false
          → is_some (find_decision m.job_id (handle_job fl settings services now m db).1) ≡ true
          → ⊥
      no_decision x at fresh there = ground (arith, at, decision_after_failure m db x)
