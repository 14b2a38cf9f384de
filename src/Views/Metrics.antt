-- ===== src/Views/Metrics.antt =====
-- apps/api/app/routes/metrics.py and prometheus_export.py: the summary of the tables, and its gauges.
-- The division of two ints, the float of an int and `percentile_cont` are arguments.
pub mod Agreement
use multimodal_content_moder.Common.{
  ℕ, ◌+◌, ◌*◌, ◌==◌, ltb, leb, String, Bool, true, false, ◌&&◌, ◌||◌, not, Option, none, some, List,
  [], ◌∷◌, ◌++◌, map, length, count_where, select_where, if◌then◌else◌,
}
use multimodal_content_moder.Common.Float.{FloatOps}
use multimodal_content_moder.Policy.{Decision, allow, flag, block, decision_eq}
use multimodal_content_moder.Schema.{JobStatus, queued, processing, Job, DecisionRow, ReviewRow, Db}
use multimodal_content_moder.Review.Claims.{is_claimed, is_pending, lapsed}

pub record MetricsSummary (F : Type 0) : Type 0 where
  pub queue_depth : ℕ
  pub pending_reviews : ℕ
  pub claimed_reviews : ℕ
  pub decisions_total : ℕ
  pub decisions_allow : ℕ
  pub decisions_flag : ℕ
  pub decisions_block : ℕ
  pub auto_resolved : ℕ
  pub auto_resolve_rate : F
  pub p95_latency_ms : Option F
  pub decisions_last_minute : ℕ

-- `status IN ('queued', 'processing')`
abbrev pub is_waiting : JobStatus → Bool
is_waiting queued = true
is_waiting processing = true
is_waiting _ = false

-- the two WHERE clauses on `review_queue`
abbrev pub counts_as_pending : ℕ → ReviewRow → Bool
counts_as_pending now r =
    is_pending r.status || (is_claimed r.status && lapsed r.claim_expires_at now)

abbrev pub not_before : Option ℕ → ℕ → Bool
not_before none now = false
not_before (some t) now = leb now t

abbrev pub counts_as_claimed : ℕ → ReviewRow → Bool
counts_as_claimed now r = is_claimed r.status && not_before r.claim_expires_at now

-- `created_at > now() - interval`, in microseconds
abbrev pub is_within : {F : Type 0} → ℕ → ℕ → DecisionRow F → Bool
is_within interval now d = ltb now (d.created_at + interval)

abbrev pub one_minute : ℕ
one_minute = 60000000

abbrev pub one_day : ℕ
one_day = 86400000000

abbrev pub has_decision : {F : Type 0} → Decision → DecisionRow F → Bool
has_decision decision d = decision_eq d.decision decision

module _ (fl : FloatOps) (ratio : ℕ → ℕ → fl.F) (percentile : List ℕ → Option fl.F) where
  open fl use {F, lit, round4}

  -- `fetch_metrics_summary`
  unfoldable pub fetch_metrics_summary : ℕ → Db F → MetricsSummary F
  fetch_metrics_summary now db =
      let total = length db.decisions in
      let auto = count_where (λ d. not d.needs_human_review) db.decisions in
      record {
        queue_depth = count_where (λ j. is_waiting j.status) db.jobs;
        pending_reviews = count_where (counts_as_pending now) db.review_queue;
        claimed_reviews = count_where (counts_as_claimed now) db.review_queue;
        decisions_total = total;
        decisions_allow = count_where (has_decision allow) db.decisions;
        decisions_flag = count_where (has_decision flag) db.decisions;
        decisions_block = count_where (has_decision block) db.decisions;
        auto_resolved = auto;
        auto_resolve_rate = round4 (if total == 0 then lit 0 else ratio auto total);
        p95_latency_ms =
            percentile
              (map (λ d. d.latency_ms) (select_where (is_within one_day now) db.decisions));
        decisions_last_minute = count_where (is_within one_minute now) db.decisions;
      }

  -- a gauge with its name and value
  abbrev pub Gauge : Type 0
  Gauge = String × F

  abbrev pub latency_gauge : Option F → List Gauge
  latency_gauge none = []
  latency_gauge (some p95) = ("moderation_p95_latency_ms", p95) ∷ []

  -- `gauges` of `prometheus_payload`
  unfoldable pub gauges_of : (ℕ → F) → MetricsSummary F → List Gauge
  gauges_of to_float s =
      (("moderation_queue_depth", to_float s.queue_depth)
        ∷ ("moderation_pending_reviews", to_float s.pending_reviews)
        ∷ ("moderation_claimed_reviews", to_float s.claimed_reviews)
        ∷ ("moderation_decisions_total", to_float s.decisions_total)
        ∷ ("moderation_decisions_allow", to_float s.decisions_allow)
        ∷ ("moderation_decisions_flag", to_float s.decisions_flag)
        ∷ ("moderation_decisions_block", to_float s.decisions_block)
        ∷ ("moderation_auto_resolved", to_float s.auto_resolved)
        ∷ ("moderation_auto_resolve_rate", s.auto_resolve_rate)
        ∷ ("moderation_decisions_last_minute", to_float s.decisions_last_minute)
        ∷ [])
      ++ latency_gauge s.p95_latency_ms
