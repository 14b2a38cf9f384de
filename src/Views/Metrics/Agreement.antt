-- ===== src/Views/Metrics/Agreement.antt =====
-- The summary agrees with the queue that the review routes work on.
use multimodal_content_moder.Common.{
  ℕ, ◌+◌, ◌≤◌, ◌<◌, ◌≡◌, refl, not, Option, List, [], ◌∷◌, length, count_where,
  count_where-le-length, update_where, arith, Bool-cases, inl, inr, ◌==◌,
}
use multimodal_content_moder.Common.Float.{FloatOps}
use multimodal_content_moder.Common.Unit.{IsScore, lit-IsScore, round4-IsScore}
use multimodal_content_moder.Policy.{allow, flag, block}
use multimodal_content_moder.Schema.{ReviewRow, DecisionRow, Db}
use multimodal_content_moder.Review.Claims.{
  is_claimed, is_pending, is_expired_row, to_pending, release_expired_claims,
}
use multimodal_content_moder.Review.Rows.{queue-release}
use multimodal_content_moder.Views.Metrics.{
  counts_as_pending, counts_as_claimed, has_decision, is_within, one_minute, fetch_metrics_summary,
}

pending-count :
    (now : ℕ) (rs : List ReviewRow)
    → count_where (counts_as_pending now) rs
      ≡ count_where (λ r. is_pending r.status) (update_where (is_expired_row now) to_pending rs)
unfolding count_where update_where
pending-count now [] = refl
pending-count now (r ∷ rs) = ground (arith, pending-count now rs)

claimed-count :
    (now : ℕ) (rs : List ReviewRow)
    → count_where (counts_as_claimed now) rs
      ≡ count_where (λ r. is_claimed r.status) (update_where (is_expired_row now) to_pending rs)
unfolding count_where update_where
claimed-count now [] = refl
claimed-count now (r ∷ rs) = ground (arith, claimed-count now rs)

decisions-add_up :
    {F : Type 0} (ds : List (DecisionRow F))
    → count_where (has_decision allow) ds
        + count_where (has_decision flag) ds
        + count_where (has_decision block) ds
      ≡ length ds
unfolding count_where
decisions-add_up [] = refl
decisions-add_up (d ∷ ds) = ground (arith, decisions-add_up ds)

module _ (fl : FloatOps) (ratio : ℕ → ℕ → fl.F) (percentile : List ℕ → Option fl.F) where
  open fl use {F, lit}

  -- The summary counts as pending and as claimed what `release_expired_claims` would leave pending
  -- and claimed at the same time; the three decisions are all the decisions; and the rate of
  -- automatic ones is from 0 to 1, if the division of two ints is from 0 to 1 where the first is not
  -- larger and the second is not 0.
  pub summary_agrees :
      (now : ℕ) (db : Db F)
      → ((a n : ℕ) → a ≤ n → 0 < n → IsScore fl (ratio a n))
      → let s = fetch_metrics_summary fl ratio percentile now db in
        let queue = (release_expired_claims now db).0.review_queue in
        (s.pending_reviews ≡ count_where (λ r. is_pending r.status) queue)
        × (s.claimed_reviews ≡ count_where (λ r. is_claimed r.status) queue)
        × (s.decisions_allow + s.decisions_flag + s.decisions_block ≡ s.decisions_total)
        × (s.auto_resolved ≤ s.decisions_total)
        × (s.decisions_last_minute ≤ s.decisions_total)
        × IsScore fl s.auto_resolve_rate
  unfolding fetch_metrics_summary
  summary_agrees now db divides =
      let total = length db.decisions in
      let auto = count_where (λ (d : DecisionRow F). not d.needs_human_review) db.decisions in
      let fits =
        count_where-le-length (λ (d : DecisionRow F). not d.needs_human_review) db.decisions in
      (
        rw (queue-release now db) (pending-count now db.review_queue),
        rw (queue-release now db) (claimed-count now db.review_queue),
        decisions-add_up db.decisions,
        fits,
        count_where-le-length (is_within one_minute now) db.decisions,
        round4-IsScore fl _ (elim (Bool-cases (total == 0)) [
          | inl none_yet ↦ rw none_yet (lit-IsScore fl 0 (omega arith))
          | inr some_yet ↦ rw some_yet (divides auto total fits (ground arith))
        ]),
      )
