-- ===== src/Examples/Views.antt =====
-- A review that is listed, decisions, an audit log, and the summary of a small database.
use mathlib.Core.List.{Perm}
use multimodal_content_moder.Common.{
  ℕ, ◌+◌, ◌≤◌, ◌<◌, ◌≡◌, refl, min, String, none, some, Option, List, [], ◌∷◌, ◌++◌, All, length,
  take, select_where, count_where, le→leb,
}
use multimodal_content_moder.Common.Sorting.{order_by, IsSorted}
use multimodal_content_moder.Common.Unit.{IsScore}
use multimodal_content_moder.Schema.{Db, empty}
use multimodal_content_moder.Review.Claims.{release_expired_claims, is_pending, is_claimed}
use multimodal_content_moder.Views.Reviews.{
  JoinedReview, list_reviews, out_rows, join_all, has_status, by_priority,
}
use multimodal_content_moder.Views.Reviews.Order.{lists_worklist_head}
use multimodal_content_moder.Views.Audit.{AuditRow, list_audit, by_newest}
use multimodal_content_moder.Views.Audit.Filter.{is_wanted, list_audit-eq-filter}
use multimodal_content_moder.Views.Decisions.{list_decisions}
use multimodal_content_moder.Views.Decisions.Agreement.{IsAnswered, list_decisions-IsAnswered}
use multimodal_content_moder.Views.Metrics.{fetch_metrics_summary}
use multimodal_content_moder.Views.Metrics.Agreement.{summary_agrees}
use multimodal_content_moder.Examples.Instances.{fixed, div-unit}
use multimodal_content_moder.Examples.Review as Review

abbrev db : Db ℕ
db = Review.claimed_state.db

abbrev link : String → String
link key = key

lists_worklist_head_example :
    let released = (release_expired_claims 950000000 db).0 in
    (listed others : List (JoinedReview ℕ)) × (list_reviews 950000000 link (some "pending") 50 db
      ≡ (out_rows link listed, released))
    × Perm
        (listed ++ others)
        (select_where (has_status "pending") (join_all released.review_queue released))
    × IsSorted by_priority (listed ++ others)
    × (length listed ≡ min 50 (length (listed ++ others)))
lists_worklist_head_example = lists_worklist_head 950000000 link "pending" 50 db refl

list_decisions-IsAnswered_example :
    All (IsAnswered link Review.waiting.db) (list_decisions link 50 Review.waiting.db)
list_decisions-IsAnswered_example = list_decisions-IsAnswered link 50 Review.waiting.db (tt, tt)

abbrev audit_row : ℕ → String → ℕ → AuditRow ℕ
audit_row id actor created_at = record {
  id = id;
  event = record {
    entity_type = "review";
    entity_id = 11;
    action = "claimed";
    actor = actor;
    detail = empty;
  };
  created_at = created_at;
}

abbrev log : List (AuditRow ℕ)
log = audit_row 1 "ann" 10 ∷ audit_row 2 "bob" 20 ∷ audit_row 3 "ann" 30 ∷ []

list_audit-eq-filter_example :
    list_audit none (some 11) (some "ann") 50 log
    ≡ some (take 50 (order_by by_newest (select_where (is_wanted none (some 11) (some "ann")) log)))
list_audit-eq-filter_example = list_audit-eq-filter none (some 11) (some "ann") 50 log

-- a division in ten-thousandths
abbrev ratio : ℕ → ℕ → ℕ
ratio a n = fixed.div a n

ratio-IsScore : (a n : ℕ) → a ≤ n → 0 < n → IsScore fixed (ratio a n)
ratio-IsScore a n le pos = div-unit a n pos (le→leb a n le)

abbrev percentile : List ℕ → Option ℕ
percentile [] = none
percentile (n ∷ ns) = some n

summary_agrees_example :
    let s = fetch_metrics_summary fixed ratio percentile 950000000 db in
    let queue = (release_expired_claims 950000000 db).0.review_queue in
    (s.pending_reviews ≡ count_where (λ r. is_pending r.status) queue)
    × (s.claimed_reviews ≡ count_where (λ r. is_claimed r.status) queue)
    × (s.decisions_allow + s.decisions_flag + s.decisions_block ≡ s.decisions_total)
    × (s.auto_resolved ≤ s.decisions_total)
    × (s.decisions_last_minute ≤ s.decisions_total)
    × IsScore fixed s.auto_resolve_rate
summary_agrees_example = summary_agrees fixed ratio percentile 950000000 db ratio-IsScore
