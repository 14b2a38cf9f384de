-- ===== src/Review/Finality.antt =====
-- The life of a review row under any interleaving of requests: a resolved review stays as it is.
use multimodal_content_moder.Common.{
  ℕ, ◌==◌, ◌≡◌, refl, inl, inr, String, Bool, false, Option-cases, ◌||◌, not, some, arith, strip,
}
use multimodal_content_moder.Policy.{Decision, decision_eq}
use multimodal_content_moder.Schema.{
  ReviewStatus, pending, claimed, approved, rejected, escalated, ReviewRow, claim_ttl, resolution,
  Db, find_review,
}
use multimodal_content_moder.Review.Locks.{LockStore, claim_ttl_seconds}
use multimodal_content_moder.Review.Claims.{is_claimed, is_pending, release_expired_claims}
use multimodal_content_moder.Review.Handlers.{
  ReviewState, ResolveRequest, is_claimable, to_claimed, is_resolvable, to_resolved,
  resolved_status, update_review, model_decision, claim_row, claim_review, resolve_row,
  resolve_review,
}
use multimodal_content_moder.Review.Rows.{
  find_review-update_review, find_review-release, find_review-insert_audit,
}

-- the statuses that are neither pending nor claimed
abbrev pub IsFinal : ReviewStatus → Type 0
IsFinal pending = ⊥
IsFinal claimed = ⊥
IsFinal _ = Unit

abbrev is_open : ReviewStatus → Bool
is_open s = is_pending s || is_claimed s

final_not_open : (status : ReviewStatus) → IsFinal status → (is_open status ≡ false)
final_not_open pending h = elim h [ ]
final_not_open claimed h = elim h [ ]
final_not_open approved h = refl
final_not_open rejected h = refl
final_not_open escalated h = refl

module _ (F : Type 0) (redis : LockStore ◌==◌) where
  -- One request to the API, by anybody at any time: `GET /reviews` releases expired claims.
  pub data Request (s u : ReviewState F redis) : Type 0 where
    claim :
        (now id : ℕ) (reviewer : String)
        → u ≡ (claim_review F redis now id reviewer s).1
        → Request s u
    resolve :
        (now id : ℕ) (body : ResolveRequest)
        → u ≡ (resolve_review F redis now id body s).1
        → Request s u
    list_reviews :
        (now : ℕ) → u ≡ record s { db = (release_expired_claims now s.db).0 } → Request s u

  pub data Requests (s : ReviewState F redis) : ReviewState F redis → Type 0 where
    here : Requests s s
    next : {t u : ReviewState F redis} → Requests s t → Request t u → Requests s u

  abbrev Stays : ℕ → ReviewRow → ReviewState F redis → Type 0
  Stays k r s = find_review k s.db ≡ some r

  update_stays :
      (i k : ℕ) (test : ReviewRow → Bool) (change : ReviewRow → ReviewRow) (db : Db F)
      (r : ReviewRow)
      → ((x : ReviewRow) → (change x).id ≡ x.id)
      → test r ≡ false
      → find_review k db ≡ some r
      → find_review k (update_review i test change db) ≡ some r
  update_stays i k test change db r keep closed at =
      ground (arith, find_review-update_review i k test change db keep)

  release_stays :
      (now k : ℕ) (db : Db F) (r : ReviewRow)
      → is_open r.status ≡ false
      → find_review k db ≡ some r
      → find_review k (release_expired_claims now db).0 ≡ some r
  release_stays now k db r closed at = ground (arith, find_review-release now k db)

  claim-Stays :
      (now id k : ℕ) (reviewer : String) (s : ReviewState F redis) (r : ReviewRow)
      → is_open r.status ≡ false
      → Stays k r s
      → Stays k r (claim_review F redis now id reviewer s).1
  unfolding claim_review claim_row
  claim-Stays now id k reviewer s r closed at =
      let db = (release_expired_claims now s.db).0 in
      let test = is_claimable reviewer now in
      let db' = update_review id test (to_claimed reviewer now) db in
      let released = release_stays now k s.db r closed at in
      let written =
        update_stays id k test (to_claimed reviewer now) db r (λ x. refl) (ground arith) released in
      ground (
        arith,
        released,
        written,
        find_review-insert_audit k id "review" "claimed" reviewer (claim_ttl claim_ttl_seconds) db',
      )

  resolve-Stays :
      (now id k : ℕ) (body : ResolveRequest) (s : ReviewState F redis) (r : ReviewRow)
      → is_open r.status ≡ false
      → Stays k r s
      → Stays k r (resolve_review F redis now id body s).1
  unfolding resolve_review resolve_row
  resolve-Stays now id k body s r closed at =
      let test = is_resolvable body.reviewer in
      let db' = update_review id test (to_resolved body now) s.db in
      let written =
        update_stays id k test (to_resolved body now) s.db r (λ x. refl) (ground arith) at in
      let audited = λ (model : Decision).
        find_review-insert_audit k id "review" "resolved" body.reviewer
          (resolution body.reviewer_decision model (not (decision_eq body.reviewer_decision model))
            (strip body.notes) (resolved_status body.reviewer_decision))
          db' in
      elim (Option-cases (model_decision id s.db)) [
        | inl missing ↦ ground (arith, written)
        | inr (model, said) ↦ ground (arith, written, audited model)
      ]

  -- Whatever requests follow, a review that is approved, rejected or escalated keeps its row.
  pub resolution-IsFinal :
      {s t : ReviewState F redis} (k : ℕ) (r : ReviewRow)
      → Requests s t
      → IsFinal r.status
      → find_review k s.db ≡ some r
      → find_review k t.db ≡ some r
  resolution-IsFinal k r here final at = at
  resolution-IsFinal k r (next {t} rs (Request.claim now id reviewer e)) final at =
      let closed = final_not_open r.status final in
      rw e (claim-Stays now id k reviewer t r closed (resolution-IsFinal k r rs final at))
  resolution-IsFinal k r (next {t} rs (Request.resolve now id body e)) final at =
      let closed = final_not_open r.status final in
      rw e (resolve-Stays now id k body t r closed (resolution-IsFinal k r rs final at))
  resolution-IsFinal k r (next {t} rs (Request.list_reviews now e)) final at =
      let closed = final_not_open r.status final in
      rw e (release_stays now k t.db r closed (resolution-IsFinal k r rs final at))
