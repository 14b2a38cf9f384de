-- ===== src/Review/Claims.antt =====
-- apps/api/app/review_claims.py: when a claim has expired, and the release of expired claims.
use multimodal_content_moder.Common.{
  ℕ, ltb, leb, String, str_eq, Bool, true, false, ◌&&◌, not, Option, none, some, List, [], ◌∷◌, map,
  select_where, update_where, if◌then◌else◌,
}
use multimodal_content_moder.Schema.{
  ReviewStatus, pending, claimed, ReviewRow, claim_ttl, Db, insert_audit,
}
use multimodal_content_moder.Review.Locks.{claim_ttl_seconds}

-- `status == "claimed"`
abbrev pub is_claimed : ReviewStatus → Bool
is_claimed claimed = true
is_claimed _ = false

abbrev pub is_pending : ReviewStatus → Bool
is_pending pending = true
is_pending _ = false

-- `is_claim_expired`; the times are aware datetimes in UTC
unfoldable pub is_claim_expired : ReviewStatus → Option ℕ → ℕ → Bool
is_claim_expired status claim_expires_at now =
    if not (is_claimed status)
    then false
    else elim claim_expires_at [ none ↦ true | some t ↦ leb t now ]

unfoldable pub claim_is_active : ReviewStatus → Option ℕ → ℕ → Bool
unfolding is_claim_expired
claim_is_active status claim_expires_at now =
    is_claimed status && not (is_claim_expired status claim_expires_at now)

-- `claim_expires_at IS NULL OR claim_expires_at < $1`
abbrev pub lapsed : Option ℕ → ℕ → Bool
lapsed none now = true
lapsed (some t) now = ltb t now

-- the rows of `WITH expired AS (...)`
abbrev pub is_expired_row : ℕ → ReviewRow → Bool
is_expired_row now r = is_claimed r.status && lapsed r.claim_expires_at now

abbrev pub to_pending : ReviewRow → ReviewRow
to_pending r = record r {
  status = pending;
  claimed_by = none;
  claimed_at = none;
  claim_expires_at = none;
}

-- `row["claimed_by"] or "system"`
abbrev pub actor_of : Option String → String
actor_of none = "system"
actor_of (some name) = if str_eq name "" then "system" else name

module _ {F : Type 0} where
  unfoldable pub audit_expired : List ReviewRow → Db F → Db F
  audit_expired [] db = db
  audit_expired (r ∷ rs) db = audit_expired rs (
      insert_audit "review" r.id "claim_expired" (actor_of r.claimed_by)
        (claim_ttl claim_ttl_seconds) db)

  -- the released rows, each with the reviewer who held it
  unfoldable pub release_expired_claims : ℕ → Db F → Db F × List (ℕ × Option String)
  unfolding audit_expired
  release_expired_claims now db =
      let rows = select_where (is_expired_row now) db.review_queue in
      (
        audit_expired rows (record db {
          review_queue = update_where (is_expired_row now) to_pending db.review_queue;
        }),
        map (λ r. (r.id, r.claimed_by)) rows,
      )
