-- ===== src/Worker/Consistency.antt =====
-- The tables stay consistent: what `handle_message` keeps of jobs, decisions and the review queue.
use mathlib.Core.Path.{subst₃}
use multimodal_content_moder.Common.{
  ℕ, suc, ◌==◌, ◌<◌, ◌≤◌, ◌≡◌, refl, sym, inl, inr, Bool, true, false, Bool-cases, is_some, List,
  [], ◌∷◌, All, any, count_where, find_where, arith,
}
use multimodal_content_moder.Common.Float.{FloatOps}
use multimodal_content_moder.Policy.{decision_value}
use multimodal_content_moder.Envelope.{DecisionEnvelope}
use multimodal_content_moder.Schema.{
  DecisionRow, ReviewRow, Db, insert_audit, find_job, find_decision,
}
use multimodal_content_moder.Worker.Pipeline.{
  insert_decision, record_outcome, decision_row, review_row, review_priority,
}
use multimodal_content_moder.Worker.Consumer.{is_succeeded}

abbrev pub in_review : ℕ → List ReviewRow → Bool
in_review d = any (λ r. r.decision_id == d)

module _ {F : Type 0} where
  -- a decision waits in the review queue exactly if it needs a human
  abbrev pub IsQueued : List ReviewRow → DecisionRow F → Type 0
  IsQueued reviews d = in_review d.id reviews ≡ d.needs_human_review

  pub record IsConsistent (db : Db F) : Type 0 where
    -- a job has succeeded exactly if it has a decision
    pub decided : (k : ℕ) → is_succeeded (find_job k db) ≡ is_some (find_decision k db)
    -- `UNIQUE (job_id)`
    pub one_decision : (k : ℕ) → count_where (λ d. d.job_id == k) db.decisions ≤ 1
    pub queued : All (IsQueued db.review_queue) db.decisions
    pub decision_ids : All (λ d. d.id < db.next_id) db.decisions
    pub review_ids : All (λ r. r.decision_id < db.next_id) db.review_queue

  All-weaken_decisions :
      (n n' : ℕ) (ds : List (DecisionRow F))
      → n ≤ n'
      → All (λ d. d.id < n) ds
      → All (λ d. d.id < n') ds
  All-weaken_decisions n n' [] le h = tt
  All-weaken_decisions n n' (d ∷ ds) le h = (omega arith, All-weaken_decisions n n' ds le h.1)

  -- a new row for a decision `n` leaves the older decisions where they were
  IsQueued-cons :
      (n : ℕ) (r : ReviewRow) (rs : List ReviewRow) (ds : List (DecisionRow F))
      → r.decision_id ≡ n
      → All (λ d. d.id < n) ds
      → All (IsQueued rs) ds
      → All (IsQueued (r ∷ rs)) ds
  unfolding any
  IsQueued-cons n r rs [] e fresh h = tt
  IsQueued-cons n r rs (d ∷ ds) e fresh h =
      let old = fresh.0 in (ground arith, IsQueued-cons n r rs ds e fresh.1 h.1)

  pub no_decision_counts_zero :
      (k : ℕ) (ds : List (DecisionRow F))
      → is_some (find_where (λ d. d.job_id == k) ds) ≡ false
      → count_where (λ d. d.job_id == k) ds ≡ 0
  unfolding find_where count_where
  no_decision_counts_zero k [] h = refl
  no_decision_counts_zero k (d ∷ ds) h = ground (arith, no_decision_counts_zero k ds)

All-weaken_reviews :
    (n n' : ℕ) (rs : List ReviewRow)
    → n ≤ n'
    → All (λ r. r.decision_id < n) rs
    → All (λ r. r.decision_id < n') rs
All-weaken_reviews n n' [] le h = tt
All-weaken_reviews n n' (r ∷ rs) le h = (omega arith, All-weaken_reviews n n' rs le h.1)

pub not_in_review :
    (n : ℕ) (rs : List ReviewRow) → All (λ r. r.decision_id < n) rs → in_review n rs ≡ false
unfolding any
not_in_review n [] h = refl
not_in_review n (r ∷ rs) h = ground (arith, not_in_review n rs h.1)

module _ (fl : FloatOps) where
  open fl use {F}

  -- the tables after the writes that follow a decision
  pub outcome_auto :
      (now : ℕ) (e : DecisionEnvelope F) (db : Db F)
      → e.needs_human_review ≡ false
      → let new = record_outcome fl now db.next_id e (insert_decision now e db) in
        (new.decisions ≡ decision_row now db.next_id e ∷ db.decisions)
        × (new.review_queue ≡ db.review_queue)
        × (new.next_id ≡ suc db.next_id)
  unfolding record_outcome insert_decision insert_audit
  outcome_auto now e db auto = (ground arith, ground arith, ground arith)

  pub outcome_human :
      (now : ℕ) (e : DecisionEnvelope F) (db : Db F)
      → e.needs_human_review ≡ true
      → in_review db.next_id db.review_queue ≡ false
      → let new = record_outcome fl now db.next_id e (insert_decision now e db) in
        (p : ℕ) × (new.decisions ≡ decision_row now db.next_id e ∷ db.decisions)
        × (new.review_queue ≡ review_row now (suc db.next_id) db.next_id e p ∷ db.review_queue)
        × (new.next_id ≡ suc (suc db.next_id))
  unfolding record_outcome insert_decision insert_audit
  outcome_human now e db human fresh = (
    review_priority fl (decision_value e.decision) e.confidence,
    ground arith,
    ground arith,
    ground arith,
  )

  -- what the consistency of the tables says of `decisions`, `review_queue` and the next id
  abbrev pub TablesAgree : List (DecisionRow F) → List ReviewRow → ℕ → Type 0
  TablesAgree ds rs n =
      All (IsQueued rs) ds × All (λ d. d.id < n) ds × All (λ r. r.decision_id < n) rs

  pub outcome-TablesAgree :
      (now : ℕ) (e : DecisionEnvelope F) (db : Db F)
      → TablesAgree db.decisions db.review_queue db.next_id
      → let new = record_outcome fl now db.next_id e (insert_decision now e db) in
        TablesAgree new.decisions new.review_queue new.next_id
  unfolding any
  outcome-TablesAgree now e db h =
      let n = db.next_id in
      let fresh = not_in_review n db.review_queue h.2 in
      elim (Bool-cases e.needs_human_review) [
        | inl human ↦
            let o = outcome_human now e db human fresh in
            let rs = review_row now (suc n) n e o.0 ∷ db.review_queue in
            subst₃ TablesAgree (sym o.1) (sym o.2) (sym o.3) (
              (
                ground arith,
                IsQueued-cons n (review_row now (suc n) n e o.0) db.review_queue db.decisions refl
                    h.1 h.0,
              ),
              (omega arith, All-weaken_decisions n (suc (suc n)) db.decisions (omega arith) h.1),
              (omega arith, All-weaken_reviews n (suc (suc n)) db.review_queue (omega arith) h.2),
            )
        | inr auto ↦
            let o = outcome_auto now e db auto in
            subst₃ TablesAgree (sym o.0) (sym o.1) (sym o.2) (
              (ground arith, h.0),
              (omega arith, All-weaken_decisions n (suc n) db.decisions (omega arith) h.1),
              All-weaken_reviews n (suc n) db.review_queue (omega arith) h.2,
            )
      ]
