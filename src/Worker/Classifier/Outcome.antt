-- ===== src/Worker/Classifier/Outcome.antt =====
-- What the rules classifier and the default bands decide together.
use multimodal_content_moder.Common.{
  ◌≡◌, ◌↔◌, String, Bool, true, false, Bool-cases, none, Option-cases, inl, inr, List, is_some,
  if◌then◌else◌, arith,
}
use multimodal_content_moder.Common.Float.{FloatOps}
use multimodal_content_moder.Policy.{
  Decision, allow, flag, block, route_decision, effective, default_thresholds, is_hard, is_soft,
}
use multimodal_content_moder.Envelope.{Text, VisionSignals}
use multimodal_content_moder.Worker.Classifier.{
  TextOps, block_patterns, flag_patterns, first_match, text_of, is_ambiguous, is_long, risk_of,
  classify_caption, classify_risk, rules_classify,
}

module _ (fl : FloatOps) (ops : TextOps) where
  open fl use {F, leb, lit}

  -- the outcome of a caption and its vision signals under the default bands
  abbrev pub outcome : Text → VisionSignals F → Decision × Bool × List String
  outcome caption vision =
      let (suggested, llm) = rules_classify fl ops caption vision in
      route_decision fl suggested llm.score vision.nsfw_score vision.violence_score none

  abbrev pub is_hit : List String → Text → VisionSignals F → Bool
  is_hit patterns caption vision = is_some (first_match ops (text_of ops caption vision) patterns)

  -- Under the default bands an item whose caption or OCR text matches a block pattern is never
  -- published: it is blocked without a human, unless the vision scores are in the soft band only,
  -- which sends it to a human as FLAG.
  pub block_pattern_outcome :
      (caption : Text) (vision : VisionSignals F)
      → is_hit block_patterns caption vision ≡ true
      → let t = default_thresholds fl in
        let hard = is_hard fl t vision.nsfw_score vision.violence_score in
        let soft = is_soft fl t vision.nsfw_score vision.violence_score in
        ((outcome caption vision).0 ≡ (if hard then block else if soft then flag else block))
        × ((outcome caption vision).1 ≡ (if hard then false else soft))
  unfolding rules_classify route_decision effective default_thresholds
  block_pattern_outcome caption vision hit =
      elim (Option-cases (first_match ops (text_of ops caption vision) block_patterns)) [
        | inl missing ↦ absurd (ground arith)
        | inr (pat, found) ↦ ground (arith, fl.leb-lit 9000 9700 (omega arith) (omega arith))
      ]

  -- low scores are below the two bands of the fused risk
  low_risk :
      (vision : VisionSignals F)
      → is_soft fl (default_thresholds fl) vision.nsfw_score vision.violence_score ≡ false
      → (leb (lit 8500) (risk_of fl vision) ≡ false) × (leb (lit 4500) (risk_of fl vision) ≡ false)
  unfolding default_thresholds
  low_risk vision low =
      let n = vision.nsfw_score in
      let v = vision.violence_score in
      ground (
        arith,
        fl.leb-lit 4500 8500 (omega arith) (omega arith),
        fl.leb-lit 4000 4500 (omega arith) (omega arith),
        fl.leb-lit 4000 8500 (omega arith) (omega arith),
        fl.leb_trans (lit 4500) (lit 8500) n,
        fl.leb_trans (lit 4000) (lit 4500) v,
        fl.leb_trans (lit 4000) (lit 8500) v,
      )

  -- scores below the soft band are below the hard one
  not_hard :
      (vision : VisionSignals F)
      → is_soft fl (default_thresholds fl) vision.nsfw_score vision.violence_score ≡ false
      → is_hard fl (default_thresholds fl) vision.nsfw_score vision.violence_score ≡ false
  unfolding default_thresholds
  not_hard vision low = ground (
    arith,
    fl.leb-lit 4500 8500 (omega arith) (omega arith),
    fl.leb-lit 4000 8000 (omega arith) (omega arith),
    fl.leb_trans (lit 4500) (lit 8500) vision.nsfw_score,
    fl.leb_trans (lit 4000) (lit 8000) vision.violence_score,
  )

  -- the two scores of an ALLOW, against the default band
  allow_scores :
      (leb (default_thresholds fl).auto_allow (lit 9100) ≡ true)
      × (leb (default_thresholds fl).auto_allow (lit 7800) ≡ false)
  unfolding default_thresholds
  allow_scores = (
    fl.leb-lit 8500 9100 (omega arith) (omega arith),
    fl.leb-lit 8500 7800 (omega arith) (omega arith),
  )

  -- what the classifier lets pass
  abbrev pub IsClean : Text → VisionSignals F → Type 0
  IsClean caption vision =
      (is_hit block_patterns caption vision ≡ false)
      × (is_hit flag_patterns caption vision ≡ false)
      × (is_ambiguous (text_of ops caption vision) ≡ false)
      × (is_long caption ≡ true)
      × (is_soft fl (default_thresholds fl) vision.nsfw_score vision.violence_score ≡ false)

  IsClean-published :
      (caption : Text) (vision : VisionSignals F)
      → IsClean caption vision
      → (outcome caption vision).0 ≡ allow
  unfolding rules_classify classify_risk classify_caption route_decision effective
  IsClean-published caption vision clean =
      let low = low_risk vision clean.4 in
      let hard = not_hard vision clean.4 in ground (arith, low, hard, allow_scores)

  published-IsClean :
      (caption : Text) (vision : VisionSignals F)
      → (outcome caption vision).0 ≡ allow
      → IsClean caption vision
  unfolding rules_classify classify_risk classify_caption route_decision effective
  published-IsClean caption vision h =
      elim (Bool-cases
        (is_soft fl (default_thresholds fl) vision.nsfw_score vision.violence_score)) [
          | inl soft ↦ absurd (ground arith)
          | inr low ↦ ground (arith, low_risk vision low, not_hard vision low, allow_scores)
        ]

  -- Under the default bands the rules classifier publishes exactly the items whose text matches no
  -- pattern and is not ambiguous, whose caption is longer than eight characters, and whose vision
  -- scores are below the soft band.
  pub publishes_iff :
      (caption : Text) (vision : VisionSignals F)
      → ((outcome caption vision).0 ≡ allow) ↔ (
          (is_hit block_patterns caption vision ≡ false)
          × (is_hit flag_patterns caption vision ≡ false)
          × (is_ambiguous (text_of ops caption vision) ≡ false)
          × (is_long caption ≡ true)
          × (is_soft fl (default_thresholds fl) vision.nsfw_score vision.violence_score ≡ false))
  publishes_iff caption vision =
      (published-IsClean caption vision, IsClean-published caption vision)
