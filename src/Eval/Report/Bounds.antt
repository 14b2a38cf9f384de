-- ===== src/Eval/Report/Bounds.antt =====
-- The report of a run of the harness: it adds up, and its rates are scores.
use multimodal_content_moder.Common.{
  ℕ, ◌+◌, ◌==◌, ◌≤◌, ◌<◌, ◌≡◌, String, Bool-cases, inl, inr, Option, List, length,
  count_where-le-length, str_eq, arith,
}
use multimodal_content_moder.Common.Exec.{Result, ok}
use multimodal_content_moder.Common.Float.{FloatOps}
use multimodal_content_moder.Common.Unit.{IsScore, lit-IsScore, round4-IsScore}
use multimodal_content_moder.Envelope.{Text}
use multimodal_content_moder.Worker.Classifier.{TextOps}
use multimodal_content_moder.Worker.Vision.{OpenedImage}
use multimodal_content_moder.Eval.{Sample, Pair, Tally, correct, class_counts, run_harness}
use multimodal_content_moder.Eval.Counts.{AddsUp, report-AddsUp}
use multimodal_content_moder.Eval.Report.{ClassReport, Report, rate, class_report, report_of}

module _ (fl : FloatOps) (ratio : ℕ → ℕ → fl.F) where
  abbrev pub HasRates : ClassReport fl.F → Type 0
  HasRates c = IsScore fl c.precision × IsScore fl c.recall

  abbrev pub HasReportScores : Report fl.F → Type 0
  HasReportScores r =
      IsScore fl r.accuracy
      × IsScore fl r.auto_resolve_rate
      × HasRates r.for_allow
      × HasRates r.for_flag
      × HasRates r.for_block

  -- what IEEE division says of a quotient of counts
  abbrev pub IsQuotient : Type 0
  IsQuotient = (a n : ℕ) → a ≤ n → 0 < n → IsScore fl (ratio a n)

  rate-IsScore : IsQuotient → (a n : ℕ) → a ≤ n → IsScore fl (fl.round4 (rate fl ratio a n))
  rate-IsScore quotient a n le = elim (Bool-cases (n == 0)) [
    | inl none_there ↦ rw none_there (round4-IsScore fl (fl.lit 0) (lit-IsScore fl 0 (omega arith)))
    | inr some_there ↦
        rw some_there (round4-IsScore fl (ratio a n) (quotient a n le (ground (arith, some_there))))
  ]

  class_report-HasRates :
      IsQuotient
      → (label : String) (pairs : List Pair) → HasRates (class_report fl ratio label pairs)
  unfolding class_report
  class_report-HasRates quotient label pairs =
      let c = class_counts label pairs in
      (
        rate-IsScore quotient c.tp (c.tp + c.fp) (omega arith),
        rate-IsScore quotient c.tp (c.tp + c.fn) (omega arith),
      )

  -- Where the quotient of two counts, the first at most the second, is from 0 to 1: when the harness
  -- reports, its counts add up, and the report's accuracy, its automatic rate, and the precision and
  -- the recall of each label are from 0 to 1.
  pub report-HasReportScores :
      (ops : TextOps) (open_image : List ℕ → Result Text (OpenedImage fl.F)) (limit : Option ℕ)
      (min_n : ℕ) (samples : List Sample) (t : Tally)
      → IsQuotient
      → run_harness fl ops open_image limit min_n samples ≡ ok t
      → AddsUp limit min_n samples t × HasReportScores (report_of fl ratio t)
  unfolding report_of correct
  report-HasReportScores ops open_image limit min_n samples t quotient h =
      let adds = report-AddsUp fl ops open_image limit min_n samples t h in
      (
        adds,
        (
          rate-IsScore quotient (correct t.pairs) (length t.pairs)
              (count_where-le-length (λ p. str_eq p.actual p.predicted) t.pairs),
          rate-IsScore quotient t.auto_resolved (length t.pairs) adds.2,
          class_report-HasRates quotient "ALLOW" t.pairs,
          class_report-HasRates quotient "FLAG" t.pairs,
          class_report-HasRates quotient "BLOCK" t.pairs,
        ),
      )
