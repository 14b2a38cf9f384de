-- ===== src/Review/Exclusion.antt =====
-- A claim holds the review for its reviewer until it runs out.
use multimodal_content_moder.Common.{
  ℕ, ◌+◌, ◌==◌, ◌≤◌, ◌<◌, ◌≡◌, refl, ◌≢◌, inl, inr, String, eq_iff, true, Bool-cases, Option-cases,
  some, arith,
}
use multimodal_content_moder.Common.Exec.{ok, err}
use multimodal_content_moder.Schema.{claimed, ReviewRow, claim_ttl, find_review}
use multimodal_content_moder.Review.Locks.{
  LockStore, seconds, claim_ttl_seconds, acquire_review_claim,
}
use multimodal_content_moder.Review.Claims.{release_expired_claims}
use multimodal_content_moder.Review.Handlers.{
  ReviewState, held_by_other, is_claimable, to_claimed, update_review, claim_row, claim_review,
}
use multimodal_content_moder.Review.Rows.{find_review-update_review, find_review-insert_audit}

module _ (F : Type 0) (redis : LockStore ◌==◌) where
  -- A reviewer whom another one keeps out by a live lock gets 409, and nothing changes.
  pub locked_out :
      (now id : ℕ) (reviewer other : String) (s : ReviewState F redis)
      → redis.get now id s.locks ≡ some other
      → other ≢ reviewer
      → claim_review F redis now id reviewer s ≡ (err (held_by_other (some other)), s)
  unfolding claim_review acquire_review_claim
  locked_out now id reviewer other s held ne = ground (arith, eq_iff other reviewer)

  -- a claim that gets the lock has it until the time to live has passed
  lock_after_acquire :
      (now t id ttl : ℕ) (reviewer : String) (l : redis.Store)
      → (acquire_review_claim redis now id reviewer ttl l).0 ≡ true
      → now ≤ t
      → t < now + seconds ttl
      → redis.get t id (acquire_review_claim redis now id reviewer ttl l).2 ≡ some reviewer
  unfolding acquire_review_claim
  lock_after_acquire now t id ttl reviewer l got le lt = elim (Option-cases (redis.get now id l)) [
    | inl free ↦ ground (
      arith,
      redis.set_nx_free now id reviewer ttl l,
      redis.get-set_nx now t id id reviewer ttl l,
    )
    | inr (owner, held) ↦
        ground (arith, eq_iff owner reviewer, redis.get-expire now t id id owner ttl l)
  ]

  -- what a successful claim leaves: the lock, and the row
  pub record IsHeld (now id : ℕ) (reviewer : String) (s : ReviewState F redis) (r : ReviewRow)
      : Type 0 where
    pub row : find_review id s.db ≡ some r
    pub is_claimed : r.status ≡ claimed
    pub by : r.claimed_by ≡ some reviewer
    pub until : r.claim_expires_at ≡ some (now + seconds claim_ttl_seconds)
    pub lock :
        (t : ℕ)
        → now ≤ t
        → t < now + seconds claim_ttl_seconds
        → redis.get t id s.locks ≡ some reviewer

  row_after_claim :
      (now id : ℕ) (reviewer : String) (s : ReviewState F redis) {r : ReviewRow}
      → (claim_row F redis now id reviewer s).0 ≡ ok r
      → (find_review id (claim_row F redis now id reviewer s).1.db ≡ some r)
        × (r.status ≡ claimed)
        × (r.claimed_by ≡ some reviewer)
        × (r.claim_expires_at ≡ some (now + seconds claim_ttl_seconds))
        × ((claim_row F redis now id reviewer s).1.locks ≡ s.locks)
  unfolding claim_row
  row_after_claim now id reviewer s {r} h =
      let db = (release_expired_claims now s.db).0 in
      let test = is_claimable reviewer now in
      let db' = update_review id test (to_claimed reviewer now) db in
      ground (
        arith,
        find_review-update_review id id test (to_claimed reviewer now) db (λ r. refl),
        find_review-insert_audit id id "review" "claimed" reviewer (claim_ttl claim_ttl_seconds)
            db',
      )

  -- After a successful claim the row is claimed by the reviewer until the claim's time to live, and
  -- so is the lock.
  pub claim-IsHeld :
      (now id : ℕ) (reviewer : String) (s : ReviewState F redis) (r : ReviewRow)
      → (claim_review F redis now id reviewer s).0 ≡ ok r
      → IsHeld now id reviewer (claim_review F redis now id reviewer s).1 r
  claim-IsHeld now id reviewer s r h =
      elim (Bool-cases (acquire_review_claim redis now id reviewer claim_ttl_seconds s.locks).0) [
        | inr refused ↦ absurd (unfold claim_review in ground arith)
        | inl got ↦
            let s' : ReviewState F redis = record s {
              locks = (acquire_review_claim redis now id reviewer claim_ttl_seconds s.locks).2;
            } in
            let ran : claim_review F redis now id reviewer s
                ≡ claim_row F redis now id reviewer s' =
              unfold claim_review in rw got in
            let row = row_after_claim now id reviewer s' (rw ran at h) in
            rw ran (record {
              row = row.0;
              is_claimed = row.1;
              by = row.2;
              until = row.3;
              lock = λ t le lt.
                  rw row.4
                    (lock_after_acquire now t id claim_ttl_seconds reviewer s.locks got le lt);
            })
      ]

  -- While a claim lasts, every other reviewer who tries to claim the review gets 409 and changes
  -- nothing.
  pub claim_excludes :
      (now t id : ℕ) (reviewer other : String) (s : ReviewState F redis) (r : ReviewRow)
      → (claim_review F redis now id reviewer s).0 ≡ ok r
      → now ≤ t
      → t < now + seconds claim_ttl_seconds
      → reviewer ≢ other
      → claim_review F redis t id other (claim_review F redis now id reviewer s).1
        ≡ (err (held_by_other (some reviewer)), (claim_review F redis now id reviewer s).1)
  claim_excludes now t id reviewer other s r h le lt ne =
      locked_out t id other reviewer (claim_review F redis now id reviewer s).1
        ((claim-IsHeld now id reviewer s r h).lock t le lt) ne
