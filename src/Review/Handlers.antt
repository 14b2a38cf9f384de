-- ===== src/Review/Handlers.antt =====
-- apps/api/app/routes/review.py: claiming and resolving a review. The answer of a handler is the
-- row of the review; its columns of other tables and its signed link are left out. A handler reads
-- the clock once, and Redis at the same time.
use multimodal_content_moder.Common.{
  ℕ, ◌+◌, ◌==◌, ltb, String, str_eq, str_append, Bool, false, ◌&&◌, ◌||◌, not, Option, none, some,
  length, find_where, update_where, if◌then◌else◌, strip,
}
use multimodal_content_moder.Common.Exec.{ok, err, Exec}
use multimodal_content_moder.Policy.{Decision, allow, decision_eq}
use multimodal_content_moder.Envelope.{Text}
use multimodal_content_moder.Schema.{
  ReviewStatus, pending, claimed, approved, rejected, escalated, ReviewRow, claim_ttl, resolution,
  Db, insert_audit, find_review,
}
use multimodal_content_moder.Http.{HttpError, show_option}
use multimodal_content_moder.Review.Locks.{
  LockStore, seconds, claim_ttl_seconds, is_owner, acquire_review_claim, release_review_claim,
  get_review_claim_owner,
}
use multimodal_content_moder.Review.Claims.{is_claimed, is_pending, lapsed, release_expired_claims}

-- the bodies of the two requests; `reviewer_decision` is ALLOW or BLOCK by its pattern
pub record ResolveRequest : Type 0 where
  pub reviewer : String
  pub reviewer_decision : Decision
  pub notes : Text

unfoldable pub review_status_text : ReviewStatus → String
review_status_text pending = "pending"
review_status_text claimed = "claimed"
review_status_text approved = "approved"
review_status_text rejected = "rejected"
review_status_text escalated = "escalated"

abbrev pub held_by_other : Option String → HttpError
held_by_other owner = record {
  status_code = 409;
  detail = str_append "Review claimed by another reviewer (" (str_append (show_option owner) ")");
}

abbrev pub review_not_found : HttpError
review_not_found = record { status_code = 404; detail = "Review not found" }

abbrev pub lock_expired : HttpError
lock_expired = record {
  status_code = 409;
  detail = "Claim lock expired — re-claim before resolving";
}

abbrev pub notes_required : HttpError
notes_required = record {
  status_code = 400;
  detail = "notes required when overriding the model decision";
}

abbrev pub not_claimed_by_reviewer : HttpError
not_claimed_by_reviewer = record {
  status_code = 409;
  detail = "Review must be claimed by this reviewer before resolve";
}

abbrev pub not_claimable : ReviewRow → HttpError
not_claimable row = record {
  status_code = 409;
  detail = str_append "Review not claimable (status=" (
      str_append (review_status_text row.status)
        (str_append ", claimed_by=" (str_append (show_option row.claimed_by) ")")));
}

-- the WHERE of the claiming UPDATE, on the row of the id
abbrev pub is_claimable : String → ℕ → ReviewRow → Bool
is_claimable reviewer now r =
    is_pending r.status
    || (is_claimed r.status && lapsed r.claim_expires_at now)
    || (is_claimed r.status && is_owner r.claimed_by reviewer)

abbrev pub to_claimed : String → ℕ → ReviewRow → ReviewRow
to_claimed reviewer now r = record r {
  status = claimed;
  claimed_by = some reviewer;
  claimed_at = some now;
  claim_expires_at = some (now + seconds claim_ttl_seconds);
}

-- the WHERE of the resolving UPDATE
abbrev pub is_resolvable : String → ReviewRow → Bool
is_resolvable reviewer r = is_claimed r.status && is_owner r.claimed_by reviewer

-- `"approved" if body.reviewer_decision == "ALLOW" else "rejected"`
abbrev pub resolved_status : Decision → ReviewStatus
resolved_status allow = approved
resolved_status _ = rejected

abbrev pub to_resolved : ResolveRequest → ℕ → ReviewRow → ReviewRow
to_resolved body now r = record r {
  status = resolved_status body.reviewer_decision;
  reviewer_decision = some body.reviewer_decision;
  notes = some (strip body.notes);
  resolved_by = some body.reviewer;
  resolved_at = some now;
}

module _ {F : Type 0} where
  -- `UPDATE review_queue SET ... WHERE id = $1 AND ... RETURNING id`: the change, and whether a row
  -- was changed
  unfoldable pub update_review : ℕ → (ReviewRow → Bool) → (ReviewRow → ReviewRow) → Db F → Db F
  update_review review_id test change db = record db {
    review_queue = update_where (λ r. r.id == review_id && test r) change db.review_queue;
  }

  abbrev pub matches : ℕ → (ReviewRow → Bool) → Db F → Bool
  matches review_id test db = elim (find_review review_id db) [ none ↦ false | some r ↦ test r ]

  -- `SELECT d.decision FROM review_queue rq JOIN decisions d ON d.id = rq.decision_id`
  unfoldable pub model_decision : ℕ → Db F → Option Decision
  model_decision review_id db = elim (find_review review_id db) [
    | none ↦ none
    | some r ↦ elim (find_where (λ d. d.id == r.decision_id) db.decisions) [
      | none ↦ none
      | some d ↦ some d.decision
    ]
  ]

module _ (F : Type 0) (redis : LockStore ◌==◌) where
  -- what the handlers share: Postgres and Redis
  pub record ReviewState : Type 0 where
    pub db : Db F
    pub locks : redis.Store

  -- the row after the UPDATE, as the last SELECT returns it
  abbrev answer : ℕ → Exec HttpError ReviewState ReviewRow
  answer review_id s = elim (find_review review_id s.db) [
    | none ↦ (err review_not_found, s)
    | some r ↦ (ok r, s)
  ]

  -- `if not row:` of `claim_review`
  abbrev refuse_claim : ℕ → ℕ → String → Exec HttpError ReviewState ReviewRow
  refuse_claim now review_id reviewer s =
      let s' : ReviewState = record s {
        locks = release_review_claim redis now review_id reviewer s.locks;
      } in
      elim (find_review review_id s'.db) [
        | none ↦ (err review_not_found, s')
        | some row ↦ (err (not_claimable row), s')
      ]

  -- `claim_review` behind the lock
  unfoldable pub claim_row : ℕ → ℕ → String → Exec HttpError ReviewState ReviewRow
  claim_row now review_id reviewer s =
      let (db, released) = release_expired_claims now s.db in
      let s' : ReviewState = record s { db = db } in
      if matches review_id (is_claimable reviewer now) db
      then (let db' =
            update_review review_id (is_claimable reviewer now) (to_claimed reviewer now) db in
          answer review_id (record s' {
            db =
                insert_audit "review" review_id "claimed" reviewer (claim_ttl claim_ttl_seconds)
                  db';
          }))
      else refuse_claim now review_id reviewer s'

  unfoldable pub claim_review : ℕ → ℕ → String → Exec HttpError ReviewState ReviewRow
  claim_review now review_id reviewer s =
      let (acquired, owner, locks) =
        acquire_review_claim redis now review_id reviewer claim_ttl_seconds s.locks in
      let s' : ReviewState = record s { locks = locks } in
      if acquired then claim_row now review_id reviewer s' else (err (held_by_other owner), s')

  -- `resolve_review` behind the checks of the lock
  unfoldable pub resolve_row : ℕ → ℕ → ResolveRequest → Exec HttpError ReviewState ReviewRow
  resolve_row now review_id body s =
      let notes = strip body.notes in
      elim (model_decision review_id s.db) [
        | none ↦ (err review_not_found, s)
        | some model ↦
            let is_override = not (decision_eq body.reviewer_decision model) in
            if is_override && ltb (length notes) 3
            then (err notes_required, s)
            else if matches review_id (is_resolvable body.reviewer) s.db
            then (let db' =
                  update_review review_id (is_resolvable body.reviewer) (to_resolved body now)
                    s.db in
                answer review_id (record {
                  db =
                      insert_audit "review" review_id "resolved" body.reviewer
                        (resolution body.reviewer_decision model is_override notes
                          (resolved_status body.reviewer_decision))
                        db';
                  locks = release_review_claim redis now review_id body.reviewer s.locks;
                }))
            else (err not_claimed_by_reviewer, s)
      ]

  unfoldable pub resolve_review : ℕ → ℕ → ResolveRequest → Exec HttpError ReviewState ReviewRow
  resolve_review now review_id body s = elim (get_review_claim_owner redis now review_id s.locks) [
    | none ↦ (err lock_expired, s)
    | some owner ↦
        if str_eq owner body.reviewer
        then resolve_row now review_id body s
        else (err (held_by_other (some owner)), s)
  ]
