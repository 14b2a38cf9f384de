-- ===== src/Examples/Review.antt =====
-- Two reviewers and one review: a claim, a claim that is refused, a resolution.
use multimodal_content_moder.Common.{
  ℕ, ◌≡◌, refl, ◌≢◌, eq_iff, String, true, none, some, [], ◌∷◌, All, find_where, update_where,
  select_where, arith, codes, strip,
}
use multimodal_content_moder.Common.Exec.{ok, err}
use multimodal_content_moder.Policy.{allow, flag}
use multimodal_content_moder.Schema.{pending, ReviewRow, DecisionRow, insert_audit, find_review}
use multimodal_content_moder.Review.Locks.{
  acquire_review_claim, release_review_claim, get_review_claim_owner,
}
use multimodal_content_moder.Review.Claims.{release_expired_claims, audit_expired}
use multimodal_content_moder.Review.Handlers.{
  ReviewState, ResolveRequest, held_by_other, to_claimed, to_resolved, update_review,
  model_decision, claim_row, claim_review, resolve_row, resolve_review,
}
use multimodal_content_moder.Review.Exclusion.{claim_excludes}
use multimodal_content_moder.Review.Resolution.{IsResolved, resolve-IsResolved}
use multimodal_content_moder.Review.Finality.{Request, Requests, resolution-IsFinal}
use multimodal_content_moder.Review.Refinement.{act_of, acts_of, Moved, Requests-Moved}
use multimodal_content_moder.Review.Machine.{phase, phase_by, held, claim_end}
use multimodal_content_moder.Review.Holding.{time_of, IsWithin, StaysOwned, Requests-StaysOwned}
use multimodal_content_moder.Examples.Instances.{locks, db}
use multimodal_content_moder.Examples.Worker.{clean_envelope}

-- a flagged decision that waits for a human
abbrev pub row : ReviewRow
row = record {
  id = 11;
  decision_id = 10;
  content_id = 3;
  job_id = 7;
  status = pending;
  priority = 50;
  claimed_by = none;
  claimed_at = none;
  claim_expires_at = none;
  resolved_by = none;
  resolved_at = none;
  reviewer_decision = none;
  notes = none;
  created_at = 100;
}

abbrev pub decision : DecisionRow ℕ
decision = record {
  id = 10;
  job_id = 7;
  content_id = 3;
  decision = flag;
  latency_ms = 12;
  needs_human_review = true;
  envelope = clean_envelope;
  created_at = 100;
}

abbrev pub waiting : ReviewState ℕ locks
waiting = record {
  db = record db { decisions = decision ∷ []; review_queue = row ∷ []; next_id = 12 };
  locks = λ key t. none;
}

abbrev claimed_row : ReviewRow
claimed_row = to_claimed "ann" 1000 row

abbrev pub claimed_state : ReviewState ℕ locks
claimed_state = (claim_review ℕ locks 1000 11 "ann" waiting).1

claim_succeeds : (claim_review ℕ locks 1000 11 "ann" waiting).0 ≡ ok claimed_row
unfolding claim_review acquire_review_claim claim_row release_expired_claims audit_expired
    find_review find_where update_where select_where update_review insert_audit
claim_succeeds = refl

abbrev ann : String
ann = "ann"

ann_not_bob : ann ≢ "bob"
ann_not_bob e = ground (arith, eq_iff ann "bob")

claim_excludes_example :
    claim_review ℕ locks 5000 11 "bob" claimed_state
    ≡ (err (held_by_other (some "ann")), claimed_state)
claim_excludes_example =
    claim_excludes ℕ locks 1000 5000 11 "ann" "bob" waiting claimed_row claim_succeeds (omega arith)
      (omega arith) ann_not_bob

abbrev resolution_body : ResolveRequest
resolution_body = record {
  reviewer = "ann";
  reviewer_decision = allow;
  notes = codes " fine picture ";
}

abbrev resolved_row : ReviewRow
resolved_row = to_resolved resolution_body 5000 claimed_row

abbrev resolved_state : ReviewState ℕ locks
resolved_state = (resolve_review ℕ locks 5000 11 resolution_body claimed_state).1

resolve_succeeds :
    ((resolve_review ℕ locks 5000 11 resolution_body claimed_state).0 ≡ ok resolved_row)
    × (find_review 11 resolved_state.db ≡ some resolved_row)
unfolding claim_review acquire_review_claim claim_row release_expired_claims audit_expired
    find_review find_where update_where select_where update_review insert_audit resolve_review
    resolve_row get_review_claim_owner release_review_claim model_decision strip codes
resolve_succeeds = (refl, refl)

resolve-IsResolved_example :
    IsResolved ℕ locks 5000 11 resolution_body claimed_state resolved_state resolved_row
resolve-IsResolved_example =
    resolve-IsResolved ℕ locks 5000 11 resolution_body claimed_state resolved_row resolve_succeeds.0

abbrev claimed_again : ReviewState ℕ locks
claimed_again = (claim_review ℕ locks 9000 11 "bob" resolved_state).1

later-Requests : Requests ℕ locks resolved_state claimed_again
later-Requests = Requests.next Requests.here (Request.claim 9000 11 "bob" refl)

resolution-IsFinal_example : find_review 11 claimed_again.db ≡ some resolved_row
resolution-IsFinal_example =
    resolution-IsFinal ℕ locks {s = resolved_state} {t = claimed_again} 11 resolved_row
      later-Requests tt resolve_succeeds.1

abbrev taken_over : ReviewState ℕ locks
taken_over = (claim_review ℕ locks 950000000 11 "bob" claimed_state).1

takes_over : Requests ℕ locks claimed_state taken_over
takes_over = Requests.next Requests.here (Request.claim 950000000 11 "bob" refl)

claimed_there : find_review 11 claimed_state.db ≡ some claimed_row
unfolding claim_review acquire_review_claim claim_row release_expired_claims audit_expired
    find_review find_where update_where select_where update_review insert_audit
claimed_there = refl

Requests-Moved_example : Moved 11 (acts_of ℕ locks takes_over) claimed_row taken_over.db
Requests-Moved_example =
    Requests-Moved ℕ locks {s = claimed_state} {u = taken_over} 11 claimed_row takes_over
      claimed_there

-- bob tries to claim the review in the 15 minutes of ann's claim, and ann resolves it
abbrev after_bob : ReviewState ℕ locks
after_bob = (claim_review ℕ locks 5000 11 "bob" claimed_state).1

abbrev after_ann : ReviewState ℕ locks
after_ann = (resolve_review ℕ locks 6000 11 resolution_body after_bob).1

abbrev both_request : Requests ℕ locks claimed_state after_ann
both_request =
    Requests.next (Requests.next Requests.here (Request.claim 5000 11 "bob" refl))
      (Request.resolve 6000 11 resolution_body refl)

both-IsWithin : All (IsWithin 1000) (acts_of ℕ locks both_request)
unfolding acts_of act_of time_of
both-IsWithin = ((omega arith, omega arith), ((omega arith, omega arith), tt))

claimed_phase : phase claimed_row ≡ held (some "ann") (claim_end 1000)
unfolding phase_by
claimed_phase = refl

Requests-StaysOwned_example : StaysOwned ℕ locks 1000 "ann" 11 after_ann
Requests-StaysOwned_example =
    Requests-StaysOwned ℕ locks {s = claimed_state} {u = after_ann} 11 1000 "ann" claimed_row
      both_request claimed_there claimed_phase both-IsWithin
