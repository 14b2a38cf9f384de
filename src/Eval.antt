-- ===== src/Eval.antt =====
-- eval/harness.py and `predict` of scripts/build_labeled_set.py: the offline evaluation of the local
-- vision adapter and the rules classifier on labelled samples. Reading the files, printing and the
-- report's file are left out; a sample has the bytes of its image, where the file exists.
pub mod Counts
pub mod Report
use multimodal_content_moder.Common.{
  ℕ, zero, suc, ◌+◌, ◌==◌, ltb, String, str_eq, Bool, not, ◌&&◌, Option, none, some, List, [], ◌∷◌,
  length, take, if◌then◌else◌, count_where,
}
use multimodal_content_moder.Common.Exec.{Result, ok, err}
use multimodal_content_moder.Common.Float.{FloatOps}
use multimodal_content_moder.Policy.{Decision, decision_value, default_thresholds, route_decision}
use multimodal_content_moder.Envelope.{Text, VisionSignals}
use multimodal_content_moder.Worker.Classifier.{TextOps, rules_classify}
use multimodal_content_moder.Worker.Vision.{OpenedImage, local_analyze}

pub record Sample : Type 0 where
  pub image : Option (List ℕ)
  pub caption : Text
  pub label : String

-- an entry of `zip(y_true, y_pred)`
pub record Pair : Type 0 where
  pub actual : String
  pub predicted : String

-- `y_true` and `y_pred` as one list, and `auto`
pub record Tally : Type 0 where
  pub pairs : List Pair
  pub auto_resolved : ℕ

-- `tp`, `fp`, `fn` and the support of a label
pub record ClassCounts : Type 0 where
  pub tp : ℕ
  pub fp : ℕ
  pub fn : ℕ
  pub support : ℕ

-- `samples[: args.limit]`, or the exit code 2
unfoldable pub limited_samples : Option ℕ → List Sample → Result ℕ (List Sample)
limited_samples none samples = ok samples
limited_samples (some limit) samples = if ltb limit 1 then err 2 else ok (take limit samples)

-- `sum(1 for a, b in zip(y_true, y_pred) if a == b)`
unfoldable pub correct : List Pair → ℕ
correct pairs = count_where (λ p. str_eq p.actual p.predicted) pairs

unfoldable pub class_counts : String → List Pair → ClassCounts
class_counts label pairs = record {
  tp = count_where (λ p. str_eq p.actual label && str_eq p.predicted label) pairs;
  fp = count_where (λ p. not (str_eq p.actual label) && str_eq p.predicted label) pairs;
  fn = count_where (λ p. str_eq p.actual label && not (str_eq p.predicted label)) pairs;
  support = count_where (λ p. str_eq p.actual label) pairs;
}

module _ (fl : FloatOps) (ops : TextOps)
    (open_image : List ℕ → Result Text (OpenedImage fl.F)) where
  open fl use {F, add, mul, div, lit, leb, round4}

  -- the routed decision of an image and its caption
  unfoldable pub evaluate : List ℕ → Text → Decision × Bool × List String
  evaluate image_bytes caption =
      let v = local_analyze fl ops open_image image_bytes caption in
      let (suggested, signals) = rules_classify fl ops caption v in
      route_decision fl suggested signals.score v.nsfw_score v.violence_score
        (some (default_thresholds fl))

  -- `predict` of build_labeled_set.py
  unfoldable pub predict : List ℕ → Text → String
  predict image_bytes caption = decision_value (evaluate image_bytes caption).0

  abbrev pub tally : Sample → List ℕ → Tally → Tally
  tally sample image_bytes t =
      let (final, needs_review, _) = evaluate image_bytes sample.caption in
      record {
        pairs = record { actual = sample.label; predicted = decision_value final } ∷ t.pairs;
        auto_resolved = if not needs_review then suc t.auto_resolved else t.auto_resolved;
      }

  -- The loop over the samples; a missing image ends the program with the exit code 1. The first
  -- sample comes first.
  unfoldable pub evaluate_all : List Sample → Result ℕ Tally
  evaluate_all [] = ok (record { pairs = []; auto_resolved = 0 })
  evaluate_all (sample ∷ samples) =
      let rest = evaluate_all samples in
      elim sample.image [
        | none ↦ err 1
        | some image_bytes ↦ elim rest [
          | err code ↦ err code
          | ok t ↦ ok (tally sample image_bytes t)
        ]
      ]

  -- `main` up to the report: the exit code of a run that fails, or what the report counts
  unfoldable pub run_harness : Option ℕ → ℕ → List Sample → Result ℕ Tally
  unfolding limited_samples
  run_harness limit min_n samples = elim (limited_samples limit samples) [
    | err code ↦ err code
    | ok chosen ↦ elim (evaluate_all chosen) [
      | err code ↦ err code
      | ok t ↦ if ltb (length t.pairs) min_n then err 1 else ok t
    ]
  ]
