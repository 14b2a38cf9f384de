-- ===== src/Review/Refinement.antt =====
-- Every request to the API moves each review by steps of its machine, or leaves it where it is.
use mathlib.Core.Path.{subst}
use multimodal_content_moder.Common.{
  ℕ, ◌==◌, ◌≡◌, refl, ◌∙◌, ◌⊎◌, String, Bool, Bool-cases, Option-cases, inl, inr, true, some, List,
  [], ◌∷◌, arith, strip, not,
}
use multimodal_content_moder.Policy.{Decision, decision_eq}
use multimodal_content_moder.Schema.{
  ReviewRow, AuditDetail, Db, find_review, insert_audit, claim_ttl, resolution,
}
use multimodal_content_moder.Review.Locks.{LockStore, claim_ttl_seconds}
use multimodal_content_moder.Review.Claims.{is_expired_row, to_pending, release_expired_claims}
use multimodal_content_moder.Review.Handlers.{
  ReviewState, ResolveRequest, is_claimable, to_claimed, is_resolvable, to_resolved,
  resolved_status, update_review, model_decision, claim_row, claim_review, resolve_row,
  resolve_review,
}
use multimodal_content_moder.Review.Rows.{
  changed, find_review-update_review, find_review-release, find_review-insert_audit,
}
use multimodal_content_moder.Review.Finality.{Request, Requests}
use multimodal_content_moder.Review.Machine.{
  Phase, phase, Act, list_at, claim_at, resolve_at, ReleasesAt, Steps, here, Run, Steps-trans,
  released-Steps, claimed-Steps, resolved-Steps,
}

-- the row of a review, and the steps to it from some phase on one request
pub record Stepped {F : Type 0} (k : ℕ) (a : Act) (x : Phase) (db : Db F) : Type 0 where
  pub row : ReviewRow
  pub found : find_review k db ≡ some row
  pub steps : Steps k a x (phase row)

-- the row of a review, and the steps to it on some requests
pub record Moved {F : Type 0} (k : ℕ) (acts : List Act) (r : ReviewRow) (db : Db F) : Type 0 where
  pub row : ReviewRow
  pub found : find_review k db ≡ some row
  pub run : Run k (phase r) acts (phase row)

module _ {F : Type 0} where
  changed-Stepped :
      (i k : ℕ) (a : Act) (test : ReviewRow → Bool) (change : ReviewRow → ReviewRow) (db : Db F)
      (x : Phase)
      → ((r : ReviewRow) → (change r).id ≡ r.id)
      → ((k == i) ≡ true → (r : ReviewRow) → Steps k a (phase r) (phase (changed test change r)))
      → Stepped k a x db
      → Stepped k a x (update_review i test change db)
  changed-Stepped i k a test change db x keep steps m = elim (Bool-cases (k == i)) [
    | inl same ↦ record {
      row = changed test change m.row;
      found = ground (arith, find_review-update_review i k test change db keep, m.found);
      steps = Steps-trans m.steps (steps same m.row);
    }
    | inr other ↦ record {
      row = m.row;
      found = ground (arith, find_review-update_review i k test change db keep, m.found);
      steps = m.steps;
    }
  ]

  released-Stepped :
      (now k : ℕ) (a : Act) (db : Db F) (x : Phase)
      → ReleasesAt now a
      → Stepped k a x db
      → Stepped k a x (release_expired_claims now db).0
  released-Stepped now k a db x releases m = record {
    row = changed (is_expired_row now) to_pending m.row;
    found = ground (arith, find_review-release now k db, m.found);
    steps = Steps-trans m.steps (released-Steps k now a m.row releases);
  }

  audited-Stepped :
      (k n : ℕ) (act : Act) (a b c : String) (d : AuditDetail F) (db : Db F) (x : Phase)
      → Stepped k act x db
      → Stepped k act x (insert_audit a n b c d db)
  audited-Stepped k n act a b c d db x m = record {
    row = m.row;
    found = find_review-insert_audit k n a b c d db ∙ m.found;
    steps = m.steps;
  }

module _ (F : Type 0) (redis : LockStore ◌==◌) where
  -- the database after the claim of a row that can be claimed
  abbrev claimed_db : ℕ → ℕ → String → Db F → Db F
  claimed_db now id reviewer db =
      insert_audit "review" id "claimed" reviewer (claim_ttl claim_ttl_seconds)
        (update_review id (is_claimable reviewer now) (to_claimed reviewer now) db)

  abbrev resolved_db : ℕ → ℕ → ResolveRequest → Decision → Db F → Db F
  resolved_db now id body model db =
      insert_audit "review" id "resolved" body.reviewer
        (resolution body.reviewer_decision model (not (decision_eq body.reviewer_decision model))
          (strip body.notes) (resolved_status body.reviewer_decision))
        (update_review id (is_resolvable body.reviewer) (to_resolved body now) db)

  db_of_claim :
      (now id : ℕ) (reviewer : String) (s : ReviewState F redis)
      → let db = (release_expired_claims now s.db).0 in
        let db' = (claim_review F redis now id reviewer s).1.db in
        (db' ≡ s.db) ⊎ (db' ≡ db) ⊎ (db' ≡ claimed_db now id reviewer db)
  unfolding claim_review claim_row
  db_of_claim now id reviewer s = ground arith

  db_of_resolve :
      (now id : ℕ) (body : ResolveRequest) (s : ReviewState F redis)
      → let db' = (resolve_review F redis now id body s).1.db in
        (db' ≡ s.db) ⊎ ((model : Decision) × (db' ≡ resolved_db now id body model s.db))
  unfolding resolve_review resolve_row
  db_of_resolve now id body s = elim (Option-cases (model_decision id s.db)) [
    | inl missing ↦ inl (ground arith)
    | inr (model, said) ↦
        let db' = (resolve_review F redis now id body s).1.db in
        let outcome : (db' ≡ s.db) ⊎ (db' ≡ resolved_db now id body model s.db) = ground arith in
        elim outcome [ inl same ↦ inl same | inr changed ↦ inr (model, changed) ]
  ]

  -- what a request asks for
  unfoldable pub act_of : {s u : ReviewState F redis} → Request F redis s u → Act
  act_of (Request.claim now id reviewer e) = claim_at now id reviewer
  act_of (Request.resolve now id body e) = resolve_at now id body.reviewer body.reviewer_decision
  act_of (Request.list_reviews now e) = list_at now

  -- the last request first
  unfoldable pub acts_of : {s u : ReviewState F redis} → Requests F redis s u → List Act
  unfolding act_of
  acts_of Requests.here = []
  acts_of (Requests.next rs q) = act_of q ∷ acts_of rs

  claim_of_this :
      (now id k : ℕ) (reviewer : String)
      → (k == id) ≡ true
      → (r : ReviewRow)
      → Steps k
          (claim_at now id reviewer)
          (phase r)
          (phase (changed (is_claimable reviewer now) (to_claimed reviewer now) r))
  claim_of_this now id k reviewer same r =
      let this : k ≡ id = ground (arith, same) in
      subst
        (λ i.
          Steps k (claim_at now i reviewer) (phase r)
            (phase (changed (is_claimable reviewer now) (to_claimed reviewer now) r)))
        this (claimed-Steps k now reviewer r)

  resolution_of_this :
      (now id k : ℕ) (body : ResolveRequest)
      → (k == id) ≡ true
      → (r : ReviewRow)
      → Steps k
          (resolve_at now id body.reviewer body.reviewer_decision)
          (phase r)
          (phase (changed (is_resolvable body.reviewer) (to_resolved body now) r))
  resolution_of_this now id k body same r =
      let this : k ≡ id = ground (arith, same) in
      subst
        (λ i.
          Steps k (resolve_at now i body.reviewer body.reviewer_decision) (phase r)
            (phase (changed (is_resolvable body.reviewer) (to_resolved body now) r)))
        this (resolved-Steps k now body r)

  request-Stepped :
      {s u : ReviewState F redis} (k : ℕ) (r : ReviewRow) (q : Request F redis s u)
      → find_review k s.db ≡ some r
      → Stepped k (act_of q) (phase r) u.db
  unfolding act_of
  request-Stepped {s} k r (Request.claim now id reviewer e) at =
      let a = claim_at now id reviewer in
      let m : Stepped k a (phase r) s.db = record { row = r; found = at; steps = here } in
      let db = (release_expired_claims now s.db).0 in
      let released =
        released-Stepped now k a s.db (phase r) (ReleasesAt.by_claim now id reviewer) m in
      let taken =
        audited-Stepped k id a "review" "claimed" reviewer (claim_ttl claim_ttl_seconds) _ (phase r)
          (changed-Stepped id k a (is_claimable reviewer now) (to_claimed reviewer now) db (phase r)
            (λ x. refl) (claim_of_this now id k reviewer) released) in
      elim (db_of_claim now id reviewer s) [
        | inl same ↦ rw (e, same) m
        | inr (inl only_released) ↦ rw (e, only_released) released
        | inr (inr all) ↦ rw (e, all) taken
      ]
  request-Stepped {s} k r (Request.resolve now id body e) at =
      let a = resolve_at now id body.reviewer body.reviewer_decision in
      let m : Stepped k a (phase r) s.db = record { row = r; found = at; steps = here } in
      elim (db_of_resolve now id body s) [
        | inl same ↦ rw (e, same) m
        | inr (model, all) ↦
            rw (e, all)
              (audited-Stepped k id a "review" "resolved" body.reviewer _ _ (phase r) (
                changed-Stepped id k a (is_resolvable body.reviewer) (to_resolved body now) s.db
                  (phase r) (λ x. refl) (resolution_of_this now id k body) m))
      ]
  request-Stepped {s} k r (Request.list_reviews now e) at =
      let m : Stepped k (list_at now) (phase r) s.db = record {
        row = r;
        found = at;
        steps = here;
      } in
      rw e (released-Stepped now k (list_at now) s.db (phase r) (ReleasesAt.by_list now) m)

  -- Whatever requests follow, a review keeps its row, and the row moves only by the steps that the
  -- machine has on these requests, each at its time.
  pub Requests-Moved :
      {s u : ReviewState F redis} (k : ℕ) (r : ReviewRow) (rs : Requests F redis s u)
      → find_review k s.db ≡ some r
      → Moved k (acts_of rs) r u.db
  unfolding acts_of
  Requests-Moved k r Requests.here at = record { row = r; found = at; run = Run.start }
  Requests-Moved k r (Requests.next {t} rs q) at =
      let m = Requests-Moved k r rs at in
      let stepped = request-Stepped k m.row q m.found in
      record {
        row = stepped.row;
        found = stepped.found;
        run = Run.on (act_of q) m.run stepped.steps;
      }
