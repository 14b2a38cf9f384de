-- ===== src/Policy.antt =====
-- packages/moderation_shared/src/moderation_shared/thresholds.py and the `Decision` of envelope.py:
-- the bands that route a classified item to an automatic decision or to a human.
pub mod Routing
use multimodal_content_moder.Common.{
  ℕ, String, Bool, true, false, ◌||◌, Option, none, some, List, [], ◌∷◌, ◌++◌, if◌then◌else◌,
}
use multimodal_content_moder.Common.Float.{FloatOps}

pub data Decision : Type 0 where
  allow flag block : Decision

-- `decision.value`
unfoldable pub decision_value : Decision → String
decision_value allow = "ALLOW"
decision_value flag = "FLAG"
decision_value block = "BLOCK"

-- `d == Decision.X`
abbrev pub decision_eq : Decision → Decision → Bool
decision_eq allow allow = true
decision_eq flag flag = true
decision_eq block block = true
decision_eq _ _ = false

pub record ThresholdConfig (F : Type 0) : Type 0 where
  pub policy_version : String
  pub auto_allow : F
  pub auto_block : F
  pub nsfw_block : F
  pub nsfw_flag : F
  pub violence_block : F
  pub violence_flag : F

module _ (fl : FloatOps) where
  open fl use {F, leb, lit}

  -- `ThresholdConfig()`
  unfoldable pub default_thresholds : ThresholdConfig F
  default_thresholds = record {
    policy_version = "policy-v1";
    auto_allow = lit 8500;
    auto_block = lit 9000;
    nsfw_block = lit 8500;
    nsfw_flag = lit 4500;
    violence_block = lit 8000;
    violence_flag = lit 4000;
  }

  -- `thresholds or ThresholdConfig()`
  unfoldable pub effective : Option (ThresholdConfig F) → ThresholdConfig F
  effective none = default_thresholds
  effective (some t) = t

  -- `nsfw_score >= t.nsfw_block or violence_score >= t.violence_block`
  abbrev pub is_hard : ThresholdConfig F → F → F → Bool
  is_hard t nsfw violence = leb t.nsfw_block nsfw || leb t.violence_block violence

  -- `nsfw_score >= t.nsfw_flag or violence_score >= t.violence_flag`
  abbrev pub is_soft : ThresholdConfig F → F → F → Bool
  is_soft t nsfw violence = leb t.nsfw_flag nsfw || leb t.violence_flag violence

  -- (final decision, needs human review, extra reasons)
  unfoldable pub route_decision :
      Decision → F → F → F → Option (ThresholdConfig F) → Decision × Bool × List String
  route_decision suggested confidence nsfw violence thresholds =
      let t = effective thresholds in
      if is_hard t nsfw violence
      then (if leb t.auto_block confidence
          then (block, false, "hard_signal_block_threshold" ∷ [])
          else (
            block,
            true,
            ("hard_signal_block_threshold" ∷ []) ++ ("low_confidence_block_needs_review" ∷ []),
          ))
      else if is_soft t nsfw violence
      then (flag, true, "soft_signal_flag_band" ∷ [])
      else if decision_eq suggested block
      then (if leb t.auto_block confidence
          then (block, false, [])
          else (flag, true, "block_below_auto_threshold" ∷ []))
      else if decision_eq suggested allow
      then (if leb t.auto_allow confidence
          then (allow, false, [])
          else (flag, true, "allow_below_auto_threshold" ∷ []))
      else (flag, true, [] ++ ("classifier_flagged" ∷ []))
