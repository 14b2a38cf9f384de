-- ===== src/Review/Rows.antt =====
-- Reading one row of the review queue after the statements that write to it.
use mathlib.Core.Option
use multimodal_content_moder.Common.{
  ℕ, ◌==◌, ◌≡◌, refl, Bool, ◌&&◌, String, Option, List, [], ◌∷◌, find_where, update_where,
  select_where, arith, if◌then◌else◌,
}
use multimodal_content_moder.Schema.{ReviewRow, AuditDetail, Db, insert_audit, find_review}
use multimodal_content_moder.Review.Claims.{
  is_expired_row, to_pending, audit_expired, release_expired_claims,
}
use multimodal_content_moder.Review.Handlers.{update_review}

abbrev pub review_in : ℕ → List ReviewRow → Option ReviewRow
review_in k = find_where (λ r. r.id == k)

-- a row under `UPDATE ... WHERE test`
abbrev pub changed : (ReviewRow → Bool) → (ReviewRow → ReviewRow) → ReviewRow → ReviewRow
changed test change r = if test r then change r else r

review_in-update :
    (k : ℕ) (test : ReviewRow → Bool) (change : ReviewRow → ReviewRow) (rs : List ReviewRow)
    → ((r : ReviewRow) → (change r).id ≡ r.id)
    → review_in k (update_where test change rs) ≡ Option.map (changed test change) (review_in k rs)
unfolding find_where update_where
review_in-update k test change [] keep = refl
review_in-update k test change (r ∷ rs) keep =
    ground (arith, keep r, review_in-update k test change rs keep)

review_in-update_id :
    (i k : ℕ) (test : ReviewRow → Bool) (change : ReviewRow → ReviewRow) (rs : List ReviewRow)
    → ((r : ReviewRow) → (change r).id ≡ r.id)
    → review_in k (update_where (λ r. r.id == i && test r) change rs)
      ≡ (if k == i then Option.map (changed test change) (review_in k rs) else review_in k rs)
unfolding find_where update_where
review_in-update_id i k test change [] keep = ground arith
review_in-update_id i k test change (r ∷ rs) keep =
    ground (arith, keep r, review_in-update_id i k test change rs keep)

module _ {F : Type 0} where
  pub find_review-update_review :
      (i k : ℕ) (test : ReviewRow → Bool) (change : ReviewRow → ReviewRow) (db : Db F)
      → ((r : ReviewRow) → (change r).id ≡ r.id)
      → find_review k (update_review i test change db)
        ≡ (if k == i then Option.map (changed test change) (find_review k db) else find_review k db)
  unfolding find_review update_review
  find_review-update_review i k test change db keep =
      review_in-update_id i k test change db.review_queue keep

  queue-audit_expired :
      (rs : List ReviewRow) (db : Db F) → (audit_expired rs db).review_queue ≡ db.review_queue
  unfolding audit_expired insert_audit
  queue-audit_expired [] db = refl
  queue-audit_expired (r ∷ rs) db =
      queue-audit_expired rs (insert_audit "review" r.id "claim_expired" _ _ db)

  pub queue-release :
      (now : ℕ) (db : Db F)
      → (release_expired_claims now db).0.review_queue
        ≡ update_where (is_expired_row now) to_pending db.review_queue
  unfolding release_expired_claims
  queue-release now db =
      queue-audit_expired (select_where (is_expired_row now) db.review_queue)
        (record db { review_queue = update_where (is_expired_row now) to_pending db.review_queue })

  pub find_review-release :
      (now k : ℕ) (db : Db F)
      → find_review k (release_expired_claims now db).0
        ≡ Option.map (changed (is_expired_row now) to_pending) (find_review k db)
  unfolding find_review
  find_review-release now k db =
      rw (queue-release now db)
        (review_in-update k (is_expired_row now) to_pending db.review_queue (λ r. refl))

  pub find_review-insert_audit :
      (k n : ℕ) (a b c : String) (d : AuditDetail F) (db : Db F)
      → find_review k (insert_audit a n b c d db) ≡ find_review k db
  unfolding find_review insert_audit
  find_review-insert_audit k n a b c d db = refl
