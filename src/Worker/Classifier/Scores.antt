-- ===== src/Worker/Classifier/Scores.antt =====
-- The scores of the rules classifier are from 0 to 1.
use multimodal_content_moder.Common.{Bool-cases, Option-cases, inl, inr, arith}
use multimodal_content_moder.Common.Float.{FloatOps}
use multimodal_content_moder.Common.Unit.{
  IsScore, lit-IsScore, max-IsScore, min-IsScore, linear-IsScore,
}
use multimodal_content_moder.Envelope.{Text, VisionSignals}
use multimodal_content_moder.Worker.Classifier.{
  TextOps, block_patterns, flag_patterns, first_match, text_of, risk_of, classify_caption,
  classify_risk, rules_classify,
}
use multimodal_content_moder.Worker.Vision.Bounds.{HasScores}

module _ (fl : FloatOps) where
  open fl use {F, leb, lit, add, mul}

  classify_caption-IsScore :
      (caption text : Text) → IsScore fl (classify_caption fl caption text).1.score
  unfolding classify_caption
  classify_caption-IsScore caption text =
      let uncertain = lit-IsScore fl 6200 (omega arith) in
      let long = lit-IsScore fl 9100 (omega arith) in
      let short = lit-IsScore fl 7800 (omega arith) in ground (arith, uncertain, long, short)

  classify_risk-IsScore :
      (caption text : Text) (vision : VisionSignals F)
      → HasScores fl vision
      → IsScore fl (classify_risk fl caption text vision).1.score
  unfolding classify_risk
  classify_risk-IsScore caption text vision scores =
      let risk = risk_of fl vision in
      let bounded = max-IsScore fl vision.nsfw_score vision.violence_score scores.0 scores.1 in
      let high =
        min-IsScore fl (lit 9900) (add (lit 7000) (mul risk (lit 2500)))
          (lit-IsScore fl 9900 (omega arith))
          (linear-IsScore fl 7000 2500 risk (omega arith) bounded) in
      let middle = linear-IsScore fl 5500 2000 risk (omega arith) bounded in
      elim (Bool-cases (leb (lit 8500) risk)) [
        | inl above ↦ rw above high
        | inr below ↦ elim (Bool-cases (leb (lit 4500) risk)) [
          | inl elevated ↦ rw (below, elevated) middle
          | inr low ↦ rw (below, low) (classify_caption-IsScore caption text)
        ]
      ]

  -- the rules keep the scores of the vision adapter within their bounds
  pub rules_classify-IsScore :
      (ops : TextOps) (caption : Text) (vision : VisionSignals F)
      → HasScores fl vision
      → IsScore fl (rules_classify fl ops caption vision).1.score
  unfolding rules_classify
  rules_classify-IsScore ops caption vision scores =
      let matched = lit-IsScore fl 9700 (omega arith) in
      let softly = lit-IsScore fl 7200 (omega arith) in
      let rest = classify_risk-IsScore caption (text_of ops caption vision) vision scores in
      elim (Option-cases (first_match ops (text_of ops caption vision) block_patterns)) [
        | inr (pat, found) ↦ ground (arith, matched)
        | inl missing ↦
            elim (Option-cases (first_match ops (text_of ops caption vision) flag_patterns)) [
              | inr (pat, found) ↦ ground (arith, softly)
              | inl clean ↦ ground (arith, rest)
            ]
      ]
