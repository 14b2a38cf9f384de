-- ===== src/Review/Machine.antt =====
-- What a review is to its reviewers: it waits, somebody holds it until some time, or it is closed.
-- The steps of this machine, and what the statements of review_claims.py and routes/review.py
-- do to the row of a review in its terms.
use multimodal_content_moder.Common.{
  ℕ, ◌+◌, ◌≡◌, refl, ◌∙◌, ap, String, eq_iff, true, Bool-cases, inl, inr, Option, some, none, List,
  [], ◌∷◌, arith,
}
use multimodal_content_moder.Policy.{Decision, allow, flag, block}
use multimodal_content_moder.Schema.{
  ReviewStatus, pending, claimed, approved, rejected, escalated, ReviewRow,
}
use multimodal_content_moder.Review.Locks.{seconds, claim_ttl_seconds, is_owner}
use multimodal_content_moder.Review.Claims.{
  is_claimed, is_pending, lapsed, is_expired_row, to_pending,
}
use multimodal_content_moder.Review.Handlers.{
  ResolveRequest, is_claimable, to_claimed, is_resolvable, to_resolved, resolved_status,
}
use multimodal_content_moder.Review.Rows.{changed}

pub data Phase : Type 0 where
  waiting : Phase
  held : Option String → Option ℕ → Phase
  closed : Option Decision → Phase

-- what a row shows of its review
unfoldable pub phase_by : ReviewStatus → ReviewRow → Phase
phase_by pending r = waiting
phase_by claimed r = held r.claimed_by r.claim_expires_at
phase_by approved r = closed r.reviewer_decision
phase_by rejected r = closed r.reviewer_decision
phase_by escalated r = closed r.reviewer_decision

abbrev pub phase : ReviewRow → Phase
phase r = phase_by r.status r

-- the end of a claim that is made now
abbrev pub claim_end : ℕ → Option ℕ
claim_end now = some (now + seconds claim_ttl_seconds)

-- What a request asks for, at its time: the listing of reviews, the claim of a review, or a
-- resolution.
pub data Act : Type 0 where
  list_at : ℕ → Act
  claim_at : ℕ → ℕ → String → Act
  resolve_at : ℕ → ℕ → String → Decision → Act

-- Requests that release expired claims, at a time.
pub data ReleasesAt : ℕ → Act → Type 0 where
  by_list : (now : ℕ) → ReleasesAt now (list_at now)
  by_claim : (now id : ℕ) (reviewer : String) → ReleasesAt now (claim_at now id reviewer)

-- One step of the review k on a request. A claim expires only at the time of a request, and if it
-- has lapsed by then; only a claim of this review takes it, for the reviewer who makes the claim,
-- while it waits or while the same reviewer holds it; only a resolution of this review, by the
-- holder, closes it; and nothing leaves a closed review.
pub data Step (k : ℕ) : Act → Phase → Phase → Type 0 where
  expire :
      {a : Act} (now : ℕ) (by : Option String) (until : Option ℕ)
      → ReleasesAt now a
      → lapsed until now ≡ true
      → Step k a (held by until) waiting
  take :
      (now : ℕ) (reviewer : String)
      → Step k (claim_at now k reviewer) waiting (held (some reviewer) (claim_end now))
  renew :
      (now : ℕ) (reviewer : String) (until : Option ℕ)
      → Step k
          (claim_at now k reviewer)
          (held (some reviewer) until)
          (held (some reviewer) (claim_end now))
  close :
      (now : ℕ) (reviewer : String) (until : Option ℕ) (decision : Decision)
      → Step k
          (resolve_at now k reviewer decision)
          (held (some reviewer) until)
          (closed (some decision))

-- the steps on one request
pub data Steps (k : ℕ) (a : Act) (x : Phase) : Phase → Type 0 where
  here : Steps k a x x
  next : {y z : Phase} → Steps k a x y → Step k a y z → Steps k a x z

-- the steps on one request after the other, the last request first
pub data Run (k : ℕ) (x : Phase) : List Act → Phase → Type 0 where
  start : Run k x [] x
  on :
      {y z : Phase} {acts : List Act} (a : Act)
      → Run k x acts y
      → Steps k a y z
      → Run k x (a ∷ acts) z

pub Steps-trans : {k : ℕ} {a : Act} {x y z : Phase} → Steps k a x y → Steps k a y z → Steps k a x z
Steps-trans xs here = xs
Steps-trans xs (next ys y) = next (Steps-trans xs ys) y

claimed_phase :
    (status : ReviewStatus) (r : ReviewRow)
    → is_claimed status ≡ true
    → phase_by status r ≡ held r.claimed_by r.claim_expires_at
unfolding phase_by
claimed_phase pending r h = absurd (cc)
claimed_phase claimed r h = refl
claimed_phase approved r h = absurd (cc)
claimed_phase rejected r h = absurd (cc)
claimed_phase escalated r h = absurd (cc)

pending_phase :
    (status : ReviewStatus) (r : ReviewRow) → is_pending status ≡ true → phase_by status r ≡ waiting
unfolding phase_by
pending_phase pending r h = refl
pending_phase claimed r h = absurd (cc)
pending_phase approved r h = absurd (cc)
pending_phase rejected r h = absurd (cc)
pending_phase escalated r h = absurd (cc)

resolved_phase :
    (body : ResolveRequest) (now : ℕ) (decision : Decision) (r : ReviewRow)
    → phase_by (resolved_status decision) (to_resolved body now r)
      ≡ closed (some body.reviewer_decision)
unfolding phase_by
resolved_phase body now allow r = refl
resolved_phase body now flag r = refl
resolved_phase body now block r = refl

owner_is :
    (owner : Option String) (reviewer : String)
    → is_owner owner reviewer ≡ true
    → owner ≡ some reviewer
owner_is none reviewer h = absurd (cc)
owner_is (some owner) reviewer h = ap some ((eq_iff owner reviewer).0 h)

-- one step between the phases of two rows
moved : {k : ℕ} {act : Act} {x a b y : Phase} → x ≡ a → Step k act a b → y ≡ b → Steps k act x y
moved e step f = rw (e, f) (next here step)

pub released-Steps :
    (k now : ℕ) (a : Act) (r : ReviewRow)
    → ReleasesAt now a
    → Steps k a (phase r) (phase (changed (is_expired_row now) to_pending r))
unfolding phase_by
released-Steps k now a r releases = elim (Bool-cases (is_expired_row now r)) [
  | inr live ↦ rw live here
  | inl over ↦
      let held_now = claimed_phase r.status r (ground arith) in
      rw over (
        moved held_now (Step.expire now r.claimed_by r.claim_expires_at releases (ground arith))
          refl)
]

pub claimed-Steps :
    (k now : ℕ) (reviewer : String) (r : ReviewRow)
    → Steps k
        (claim_at now k reviewer)
        (phase r)
        (phase (changed (is_claimable reviewer now) (to_claimed reviewer now) r))
unfolding phase_by
claimed-Steps k now reviewer r = elim (Bool-cases (is_claimable reviewer now r)) [
  | inr refused ↦ rw refused here
  | inl free ↦ elim (Bool-cases (is_pending r.status)) [
    | inl waits ↦ rw free (moved (pending_phase r.status r waits) (Step.take now reviewer) refl)
    | inr busy ↦
        let is_held = claimed_phase r.status r (ground arith) in
        elim (Bool-cases (lapsed r.claim_expires_at now)) [
          | inl over ↦ rw free (
              Steps-trans
                (moved is_held
                  (Step.expire now r.claimed_by r.claim_expires_at
                    (ReleasesAt.by_claim now k reviewer) over)
                  refl)
                (next here (Step.take now reviewer)))
          | inr live ↦
              let own = owner_is r.claimed_by reviewer (ground arith) in
              rw free (
                moved (is_held ∙ ap (λ by. held by r.claim_expires_at) own)
                  (Step.renew now reviewer r.claim_expires_at) refl)
        ]
  ]
]

pub resolved-Steps :
    (k now : ℕ) (body : ResolveRequest) (r : ReviewRow)
    → Steps k
        (resolve_at now k body.reviewer body.reviewer_decision)
        (phase r)
        (phase (changed (is_resolvable body.reviewer) (to_resolved body now) r))
resolved-Steps k now body r = elim (Bool-cases (is_resolvable body.reviewer r)) [
  | inr refused ↦ rw refused here
  | inl allowed ↦
      let is_held = claimed_phase r.status r (ground arith) in
      let own = owner_is r.claimed_by body.reviewer (ground arith) in
      rw allowed (
        moved (is_held ∙ ap (λ by. held by r.claim_expires_at) own)
          (Step.close now body.reviewer r.claim_expires_at body.reviewer_decision)
          (resolved_phase body now body.reviewer_decision r))
]
