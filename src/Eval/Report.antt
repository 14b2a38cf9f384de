-- ===== src/Eval/Report.antt =====
-- eval/harness.py: the report of the evaluation, from its counts. The quotient of two integers as a
-- float is an argument.
pub mod Bounds
use multimodal_content_moder.Common.{
  ℕ, ◌+◌, ◌==◌, String, ◌&&◌, List, length, count_where, str_eq, if◌then◌else◌,
}
use multimodal_content_moder.Common.Float.{FloatOps}
use multimodal_content_moder.Eval.{Pair, Tally, class_counts, correct}

-- an entry of `per_class`
pub record ClassReport (F : Type 0) : Type 0 where
  pub precision : F
  pub recall : F
  pub f1 : F
  pub support : ℕ

-- The entries of `per_class` are `for_allow`, `for_flag` and `for_block`; the two counters of
-- `confusion` are functions of the label.
pub record Report (F : Type 0) : Type 0 where
  pub n : ℕ
  pub accuracy : F
  pub macro_precision : F
  pub macro_recall : F
  pub macro_f1 : F
  pub for_allow : ClassReport F
  pub for_flag : ClassReport F
  pub for_block : ClassReport F
  pub true_counts : String → ℕ
  pub pred_counts : String → ℕ
  pub pairs : List Pair
  pub auto_resolve_rate : F
  pub manual_review_reduction : F

module _ (fl : FloatOps) (ratio : ℕ → ℕ → fl.F) where
  open fl use {F, leb, lit, add, mul, div, round4}

  -- `a / n if n else 0.0`
  abbrev pub rate : ℕ → ℕ → F
  rate a n = if n == 0 then lit 0 else ratio a n

  -- `_f1`
  unfoldable pub f1_score : F → F → F
  f1_score precision recall =
      let total = add precision recall in
      if leb total (lit 0) && leb (lit 0) total
      then lit 0
      else div (mul (mul (lit 20000) precision) recall) total

  unfoldable pub class_report : String → List Pair → ClassReport F
  class_report label pairs =
      let c = class_counts label pairs in
      let precision = rate c.tp (c.tp + c.fp) in
      let recall = rate c.tp (c.tp + c.fn) in
      record {
        precision = round4 precision;
        recall = round4 recall;
        f1 = round4 (f1_score precision recall);
        support = c.support;
      }

  -- `sum(...) / len(labels)` over the three labels
  abbrev pub average : F → F → F → F
  average a b c = div (add (add a b) c) (lit 30000)

  unfoldable pub report_of : Tally → Report F
  unfolding class_report
  report_of t =
      let size = length t.pairs in
      let a = class_report "ALLOW" t.pairs in
      let f = class_report "FLAG" t.pairs in
      let b = class_report "BLOCK" t.pairs in
      let auto_rate = rate t.auto_resolved size in
      record {
        n = size;
        accuracy = round4 (rate (correct t.pairs) size);
        macro_precision = round4 (average a.precision f.precision b.precision);
        macro_recall = round4 (average a.recall f.recall b.recall);
        macro_f1 = round4 (average a.f1 f.f1 b.f1);
        for_allow = a;
        for_flag = f;
        for_block = b;
        true_counts = λ label. count_where (λ p. str_eq p.actual label) t.pairs;
        pred_counts = λ label. count_where (λ p. str_eq p.predicted label) t.pairs;
        pairs = t.pairs;
        auto_resolve_rate = round4 auto_rate;
        manual_review_reduction = round4 auto_rate;
      }
