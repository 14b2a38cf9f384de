-- ===== src/Eval/Counts.antt =====
-- What the counts of a report add up to.
use mathlib.Core.Path.{subst}
use multimodal_content_moder.Common.{
  ℕ, suc, ◌+◌, ◌≤◌, ◌≡◌, ◌⊎◌, refl, ap, sym, ◌∙◌, ltb, String, str_eq, eq_iff, true, false,
  Bool-cases, inl, inr, Option, none, some, List, [], ◌∷◌, length, take, length-take, min,
  count_where, All, arith, Option-cases,
}
use multimodal_content_moder.Common.Exec.{Result, ok, Result-cases}
use multimodal_content_moder.Common.Float.{FloatOps}
use multimodal_content_moder.Policy.{Decision, allow, flag, block, decision_value}
use multimodal_content_moder.Envelope.{Text}
use multimodal_content_moder.Worker.Classifier.{TextOps}
use multimodal_content_moder.Worker.Vision.{OpenedImage}
use multimodal_content_moder.Eval.{
  Sample, Pair, Tally, limited_samples, correct, class_counts, evaluate, tally, evaluate_all,
  run_harness,
}

-- the prediction is one of the three labels
abbrev pub IsPrediction : Pair → Type 0
IsPrediction p = (d : Decision) × (p.predicted ≡ decision_value d)

-- the predictions of a label, right or wrong
abbrev pub predicted_as : String → List Pair → ℕ
predicted_as label pairs = (class_counts label pairs).tp + (class_counts label pairs).fp

three_labels :
    (d : Decision)
    → let s = decision_value d in
      ((str_eq s "ALLOW" ≡ true) × (str_eq s "FLAG" ≡ false) × (str_eq s "BLOCK" ≡ false))
      ⊎ ((str_eq s "ALLOW" ≡ false) × (str_eq s "FLAG" ≡ true) × (str_eq s "BLOCK" ≡ false))
      ⊎ ((str_eq s "ALLOW" ≡ false) × (str_eq s "FLAG" ≡ false) × (str_eq s "BLOCK" ≡ true))
unfolding decision_value
three_labels allow = inl (refl, refl, refl)
three_labels flag = inr (inl (refl, refl, refl))
three_labels block = inr (inr (refl, refl, refl))

-- a label's samples are found or missed
found_or_missed :
    (label : String) (pairs : List Pair)
    → (class_counts label pairs).tp + (class_counts label pairs).fn
      ≡ (class_counts label pairs).support
unfolding class_counts count_where
found_or_missed label [] = refl
found_or_missed label (p ∷ pairs) = ground (arith, found_or_missed label pairs)

predictions_add_up :
    (pairs : List Pair)
    → All IsPrediction pairs
    → predicted_as "ALLOW" pairs + predicted_as "FLAG" pairs + predicted_as "BLOCK" pairs
      ≡ length pairs
unfolding class_counts count_where
predictions_add_up [] known = refl
predictions_add_up (p ∷ pairs) ((d, eq), known) =
    ground (arith, three_labels d, predictions_add_up pairs known)

correct_add_up :
    (pairs : List Pair)
    → All IsPrediction pairs
    → (class_counts "ALLOW" pairs).tp
        + (class_counts "FLAG" pairs).tp
        + (class_counts "BLOCK" pairs).tp
      ≡ correct pairs
unfolding class_counts count_where correct
correct_add_up [] known = refl
correct_add_up (p ∷ pairs) ((d, eq), known) = ground (
  arith,
  three_labels d,
  correct_add_up pairs known,
  eq_iff p.actual p.predicted,
  eq_iff p.actual "ALLOW",
  eq_iff p.actual "FLAG",
  eq_iff p.actual "BLOCK",
  eq_iff p.predicted "ALLOW",
  eq_iff p.predicted "FLAG",
  eq_iff p.predicted "BLOCK",
)

the_same : {E A : Type 0} (a b : A) → ◌≡◌ {A = Result E A} (ok a) (ok b) → a ≡ b
the_same a b h = cc

-- the number of samples that `--limit` leaves
unfoldable pub sample_count : Option ℕ → ℕ → ℕ
sample_count none n = n
sample_count (some limit) n = min limit n

-- what a tally of the samples that `--limit` leaves adds up to
abbrev pub AddsUp : Option ℕ → ℕ → List Sample → Tally → Type 0
AddsUp limit min_n samples t =
    let count = class_counts in
    let pairs = t.pairs in
    (length pairs ≡ sample_count limit (length samples))
    × (min_n ≤ length pairs)
    × (t.auto_resolved ≤ length pairs)
    × ((label : String)
        → (count label pairs).tp + (count label pairs).fn ≡ (count label pairs).support)
    × ((count "ALLOW" pairs).tp + (count "FLAG" pairs).tp + (count "BLOCK" pairs).tp
        ≡ correct pairs)
    × (predicted_as "ALLOW" pairs + predicted_as "FLAG" pairs + predicted_as "BLOCK" pairs
        ≡ length pairs)

module _ (fl : FloatOps) (ops : TextOps)
    (open_image : List ℕ → Result Text (OpenedImage fl.F)) where
  -- a tally of some number of samples
  abbrev pub IsTally : ℕ → Tally → Type 0
  IsTally n t = (length t.pairs ≡ n) × (t.auto_resolved ≤ n) × All IsPrediction t.pairs

  tally-IsTally :
      (sample : Sample) (image_bytes : List ℕ) (n : ℕ) (t : Tally)
      → IsTally n t
      → IsTally (suc n) (tally fl ops open_image sample image_bytes t)
  tally-IsTally sample image_bytes n t (size, auto, known) = (
    omega (arith, size),
    ground (arith, auto),
    (((evaluate fl ops open_image image_bytes sample.caption).0, refl), known),
  )

  evaluate_all-IsTally :
      (samples : List Sample) (t : Tally)
      → evaluate_all fl ops open_image samples ≡ ok t
      → IsTally (length samples) t
  unfolding evaluate_all
  evaluate_all-IsTally [] t h = subst (IsTally 0) (the_same _ _ h) (refl, omega arith, tt)
  evaluate_all-IsTally (sample ∷ samples) t h = elim (Option-cases sample.image) [
    | inl missing ↦ absurd (ground arith)
    | inr (image_bytes, there) ↦ elim (Result-cases (evaluate_all fl ops open_image samples)) [
      | inr (code, bad) ↦ absurd (ground arith)
      | inl (t', good) ↦
          let same : tally fl ops open_image sample image_bytes t' ≡ t = ground arith in
          subst (IsTally (suc (length samples))) same (
            tally-IsTally sample image_bytes (length samples) t'
              (evaluate_all-IsTally samples t' good))
    ]
  ]

  limited-length :
      (limit : Option ℕ) (samples chosen : List Sample)
      → limited_samples limit samples ≡ ok chosen
      → length chosen ≡ sample_count limit (length samples)
  unfolding limited_samples sample_count
  limited-length none samples chosen h = ap length (sym (the_same _ _ h))
  limited-length (some limit) samples chosen h = elim (Bool-cases (ltb limit 1)) [
    | inl small ↦ absurd (ground arith)
    | inr fits ↦
        ap length (sym (the_same {E = ℕ} (take limit samples) chosen (ground arith)))
        ∙ length-take limit samples
  ]

  -- When the harness reports, it has evaluated each sample that `--limit` leaves, and at least
  -- `--min-n` of them. Then the automatic decisions are no more than the samples; each label's hits
  -- and misses are its support; the hits of the three labels are the correct predictions, and their
  -- hits and false alarms are all the predictions.
  pub report-AddsUp :
      (limit : Option ℕ) (min_n : ℕ) (samples : List Sample) (t : Tally)
      → run_harness fl ops open_image limit min_n samples ≡ ok t
      → AddsUp limit min_n samples t
  unfolding run_harness
  report-AddsUp limit min_n samples t h = elim (Result-cases (limited_samples limit samples)) [
    | inr (code, bad) ↦ absurd (ground arith)
    | inl (chosen, picked) ↦ elim (Result-cases (evaluate_all fl ops open_image chosen)) [
      | inr (code, bad) ↦ absurd (ground arith)
      | inl (t', good) ↦
          let (enough, same) : (min_n ≤ length t'.pairs) × (t' ≡ t) =
            (ground arith, ground arith) in
          let (size, auto, known) =
            subst (IsTally (length chosen)) same (evaluate_all-IsTally chosen t' good) in
          (
            size ∙ limited-length limit samples chosen picked,
            subst (λ u. min_n ≤ length u.pairs) same enough,
            omega (arith, size, auto),
            λ label. found_or_missed label t.pairs,
            correct_add_up t.pairs known,
            predictions_add_up t.pairs known,
          )
    ]
  ]
