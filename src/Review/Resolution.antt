-- ===== src/Review/Resolution.antt =====
-- What a resolved review went through, and that a resolution is final.
use multimodal_content_moder.Common.{
  ℕ, ◌==◌, ◌≤◌, ◌≡◌, refl, ap, ◌⊎◌, inl, inr, String, eq_iff, true, Bool, Bool-cases, Option-cases,
  not, Option, none, some, ◌∷◌, arith, length, strip,
}
use multimodal_content_moder.Common.Exec.{ok}
use multimodal_content_moder.Policy.{Decision, allow, block, decision_eq}
use multimodal_content_moder.Schema.{
  AuditDetail, claimed, approved, rejected, insert_audit, Db, ReviewRow, resolution, find_review,
}
use multimodal_content_moder.Review.Locks.{
  LockStore, is_owner, release_review_claim, get_review_claim_owner,
}
use multimodal_content_moder.Review.Handlers.{
  ReviewState, ResolveRequest, is_resolvable, to_resolved, resolved_status, update_review,
  model_decision, resolve_row, resolve_review,
}
use multimodal_content_moder.Review.Rows.{find_review-update_review, find_review-insert_audit}

owner_eq : (o : Option String) (reviewer : String) → is_owner o reviewer ≡ true → o ≡ some reviewer
owner_eq none reviewer h = cc
owner_eq (some name) reviewer h = ap some ((eq_iff name reviewer).0 h)

log-update_review :
    {F : Type 0} (id : ℕ) (test : ReviewRow → Bool) (change : ReviewRow → ReviewRow) (db : Db F)
    → (update_review id test change db).audit_log ≡ db.audit_log
unfolding update_review
log-update_review id test change db = refl

module _ (F : Type 0) (redis : LockStore ◌==◌) where
  -- what a successful resolution rests on, and what it leaves
  pub record IsResolved (now id : ℕ) (body : ResolveRequest) (s s' : ReviewState F redis)
      (r : ReviewRow) : Type 0 where
    pub model : Decision
    pub model_said : model_decision id s.db ≡ some model
    pub held_lock : redis.get now id s.locks ≡ some body.reviewer
    pub before : ReviewRow
    pub was : find_review id s.db ≡ some before
    pub was_claimed : before.status ≡ claimed
    pub was_claimed_by : before.claimed_by ≡ some body.reviewer
    pub notes_given :
        (decision_eq body.reviewer_decision model ≡ true) ⊎ (3 ≤ length (strip body.notes))
    pub row : find_review id s'.db ≡ some r
    pub approved_on_allow : body.reviewer_decision ≡ allow → r.status ≡ approved
    pub rejected_on_block : body.reviewer_decision ≡ block → r.status ≡ rejected
    pub decision_kept : r.reviewer_decision ≡ some body.reviewer_decision
    pub notes_kept : r.notes ≡ some (strip body.notes)
    pub resolver_kept : r.resolved_by ≡ some body.reviewer
    pub time_kept : r.resolved_at ≡ some now
    pub same_review : (r.id ≡ before.id) × (r.decision_id ≡ before.decision_id)
    pub same_claim :
        (r.claimed_by ≡ before.claimed_by) × (r.claim_expires_at ≡ before.claim_expires_at)
    pub log :
        s'.db.audit_log
        ≡ record {
          entity_type = "review";
          entity_id = id;
          action = "resolved";
          actor = body.reviewer;
          detail =
              resolution body.reviewer_decision model
                (not (decision_eq body.reviewer_decision model))
                (strip body.notes)
                r.status;
        }
          ∷ s.db.audit_log
    pub lock_gone : redis.get now id s'.locks ≡ none

  resolve_by_owner :
      (now id : ℕ) (body : ResolveRequest) (s : ReviewState F redis) {r : ReviewRow}
      → (resolve_review F redis now id body s).0 ≡ ok r
      → (redis.get now id s.locks ≡ some body.reviewer)
        × (resolve_review F redis now id body s ≡ resolve_row F redis now id body s)
  unfolding resolve_review get_review_claim_owner
  resolve_by_owner now id body s h = elim (Option-cases (redis.get now id s.locks)) [
    | inl free ↦ absurd (ground arith)
    | inr (owner, held) ↦
        (ground (arith, eq_iff owner body.reviewer), ground (arith, eq_iff owner body.reviewer))
  ]

  row_after_resolve :
      (now id : ℕ) (body : ResolveRequest) (s : ReviewState F redis) {r : ReviewRow}
      → redis.get now id s.locks ≡ some body.reviewer
      → (resolve_row F redis now id body s).0 ≡ ok r
      → IsResolved now id body s (resolve_row F redis now id body s).1 r
  unfolding resolve_row release_review_claim insert_audit
  row_after_resolve now id body s {r} lock h = elim (Option-cases (model_decision id s.db)) [
    | inl missing ↦ absurd (ground arith)
    | inr (model, said) ↦ elim (Option-cases (find_review id s.db)) [
      | inl missing ↦ absurd (ground arith)
      | inr (before, was) ↦
          let test = is_resolvable body.reviewer in
          let db' = update_review id test (to_resolved body now) s.db in
          let detail : AuditDetail F =
            resolution body.reviewer_decision model (not (decision_eq body.reviewer_decision model))
              (strip body.notes) (resolved_status body.reviewer_decision) in
          let written =
            find_review-update_review id id test (to_resolved body now) s.db (λ r. refl) in
          let audited =
            find_review-insert_audit id id "review" "resolved" body.reviewer detail db' in
          let kept = log-update_review id test (to_resolved body now) s.db in
          let result : r ≡ to_resolved body now before = ground (arith, written, audited) in
          record {
            model = model;
            model_said = said;
            held_lock = lock;
            before = before;
            was = was;
            was_claimed = ground arith;
            was_claimed_by = ground (arith, owner_eq before.claimed_by body.reviewer);
            notes_given = elim (Bool-cases (decision_eq body.reviewer_decision model)) [
              | inl same ↦ inl same
              | inr differs ↦ inr (ground arith)
            ];
            row = ground (arith, written, audited);
            approved_on_allow = λ said. rw (result) (rw said refl);
            rejected_on_block = λ said. rw (result) (rw said refl);
            decision_kept = rw (result) refl;
            notes_kept = rw (result) refl;
            resolver_kept = rw (result) refl;
            time_kept = rw (result) refl;
            same_review = rw (result) (refl, refl);
            same_claim = rw (result) (refl, refl);
            log = rw (result) (ground (arith, kept));
            lock_gone =
                ground
                  (arith, eq_iff body.reviewer body.reviewer, redis.get-delete now id id s.locks);
          }
    ]
  ]

  -- A resolution that succeeds was made by the reviewer who holds the lock and has the row claimed,
  -- with notes of three characters or more if it overrides the model. It sets the row to approved on
  -- ALLOW and to rejected on BLOCK, with the reviewer's decision, the stripped notes, the reviewer and
  -- the time, and keeps its review and its claim; it logs the resolution, with the status of the row,
  -- and gives the lock back.
  pub resolve-IsResolved :
      (now id : ℕ) (body : ResolveRequest) (s : ReviewState F redis) (r : ReviewRow)
      → (resolve_review F redis now id body s).0 ≡ ok r
      → IsResolved now id body s (resolve_review F redis now id body s).1 r
  resolve-IsResolved now id body s r h =
      let resolves : (redis.get now id s.locks ≡ some body.reviewer)
          × (resolve_review F redis now id body s ≡ resolve_row F redis now id body s) =
        resolve_by_owner now id body s h in
      rw (resolves.1) (row_after_resolve now id body s resolves.0 (rw (resolves.1) at h))
