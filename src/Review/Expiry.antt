-- ===== src/Review/Expiry.antt =====
-- Expired claims: the release, and its boundary against `is_claim_expired`.
use multimodal_content_moder.Common.{
  ℕ, ◌≡◌, refl, ◌↔◌, some, List, [], ◌∷◌, arith, not, select_where, update_where,
}
use multimodal_content_moder.Schema.{claimed, ReviewRow, Db}
use multimodal_content_moder.Review.Claims.{
  is_claim_expired, is_expired_row, to_pending, release_expired_claims,
}
use multimodal_content_moder.Review.Rows.{queue-release}

-- The Python test `is_claim_expired` and the SQL test of the rows that `release_expired_claims`
-- releases disagree exactly on a claimed row at the instant of its expiry.
pub expiry_boundary :
    (r : ReviewRow) (now : ℕ)
    → (is_claim_expired r.status r.claim_expires_at now ≡ not (is_expired_row now r))
      ↔ ((r.status ≡ claimed) × (r.claim_expires_at ≡ some now))
unfolding is_claim_expired
expiry_boundary r now = (ground arith, ground arith)

none_expired :
    (now : ℕ) (rs : List ReviewRow)
    → select_where (is_expired_row now) (update_where (is_expired_row now) to_pending rs) ≡ []
unfolding select_where update_where
none_expired now [] = refl
none_expired now (r ∷ rs) = ground (arith, none_expired now rs)

update_none :
    (now : ℕ) (rs : List ReviewRow)
    → select_where (is_expired_row now) rs ≡ []
    → update_where (is_expired_row now) to_pending rs ≡ rs
unfolding select_where update_where
update_none now [] h = refl
update_none now (r ∷ rs) h = ground (arith, update_none now rs)

module _ {F : Type 0} where
  release_nothing :
      (now : ℕ) (db : Db F)
      → select_where (is_expired_row now) db.review_queue ≡ []
      → release_expired_claims now db ≡ (db, [])
  unfolding release_expired_claims
  release_nothing now db h = ground (arith, update_none now db.review_queue h)

  -- A second release at the same time releases nothing and changes nothing.
  pub release_twice :
      (now : ℕ) (db : Db F)
      → release_expired_claims now (release_expired_claims now db).0
        ≡ ((release_expired_claims now db).0, [])
  release_twice now db =
      release_nothing now (release_expired_claims now db).0
        (rw (queue-release now db) (none_expired now db.review_queue))
