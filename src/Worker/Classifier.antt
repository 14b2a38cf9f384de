-- ===== src/Worker/Classifier.antt =====
-- apps/worker/worker/adapters/llm.py: `RulesPolicyClassifier`. Regular expressions and the lower case
-- of Unicode are Python's: an argument.
pub mod Outcome
pub mod Openai
pub mod Scores
use multimodal_content_moder.Common.{
  ℕ, ltb, String, str_append, Bool, ◌||◌, Option, none, some, List, [], ◌∷◌, ◌++◌, length,
  if◌then◌else◌, codes, contains, strip,
}
use multimodal_content_moder.Common.Float.{FloatOps, float_max, float_min}
use multimodal_content_moder.Policy.{Decision, allow, flag, block}
use multimodal_content_moder.Envelope.{Text, RawValue, VisionSignals, LlmSignals}

-- `re.search(pat, text, re.I)`, `text.lower()`, `text.upper()` and `str(n)`
pub record TextOps : Type 0 where
  pub search : String → Text → Bool
  pub lower : Text → Text
  pub upper : Text → Text
  pub show_int : ℕ → String

abbrev pub block_patterns : List String
block_patterns =
    "\\b(kill yourself|kys)\\b" ∷ "\\b(nazi|white power)\\b" ∷ "\\b(child porn|csam)\\b" ∷ []

abbrev pub flag_patterns : List String
flag_patterns =
    "\\b(hate|racist|slur)\\b" ∷ "\\b(threat|bomb|terror)\\b"
    ∷ "\\b(drugs? for sale|buy cocaine)\\b" ∷ []

-- the pattern at which a loop over the patterns returns
unfoldable pub first_match : TextOps → Text → List String → Option String
first_match ops text [] = none
first_match ops text (pat ∷ pats) =
    let later = first_match ops text pats in if ops.search pat text then some pat else later

-- `f"{caption}\n{vision.ocr_text}".lower()`
abbrev pub text_of : {F : Type 0} → TextOps → Text → VisionSignals F → Text
text_of ops caption vision = ops.lower (caption ++ (10 ∷ vision.ocr_text))

-- `"uncertain" in text or "maybe" in text`
abbrev pub is_ambiguous : Text → Bool
is_ambiguous text = contains text (codes "uncertain") || contains text (codes "maybe")

-- `len(caption.strip()) > 8`
abbrev pub is_long : Text → Bool
is_long caption = ltb 8 (length (strip caption))

module _ (fl : FloatOps) where
  open fl use {F, leb, lit, add, mul}

  abbrev pub rules_signals : String → F → String → List (String × RawValue F) → LlmSignals F
  rules_signals label score rationale raw = record {
    label = label;
    score = score;
    rationale = rationale;
    provider = "rules";
    model_version = "rules-v1";
    raw = raw;
  }

  abbrev pub risk_of : VisionSignals F → F
  risk_of vision = float_max fl vision.nsfw_score vision.violence_score

  -- the end of `classify`, from `conf = ...`
  unfoldable pub classify_caption : Text → Text → Decision × LlmSignals F
  classify_caption caption text =
      if is_ambiguous text
      then (flag, rules_signals "FLAG" (lit 6200) "Ambiguous language — route to human" [])
      else (
        allow,
        rules_signals "ALLOW" (if is_long caption then lit 9100 else lit 7800)
            "No policy hits; vision risk low" [],
      )

  -- the part of `classify` from `risk = ...`
  unfoldable pub classify_risk : Text → Text → VisionSignals F → Decision × LlmSignals F
  classify_risk caption text vision =
      let risk = risk_of vision in
      let raw : List (String × RawValue F) = ("vision_risk", RawValue.number risk) ∷ [] in
      if leb (lit 8500) risk
      then (
        block,
        rules_signals "BLOCK" (float_min fl (lit 9900) (add (lit 7000) (mul risk (lit 2500))))
            "High vision risk fused into block" raw,
      )
      else if leb (lit 4500) risk
      then (
        flag,
        rules_signals "FLAG" (add (lit 5500) (mul risk (lit 2000)))
            "Elevated vision risk needs human review" raw,
      )
      else classify_caption caption text

  abbrev pub pattern_hit : String → String → List (String × RawValue F)
  pattern_hit kind pat = ("reasons", RawValue.names (str_append kind pat ∷ [])) ∷ []

  unfoldable pub rules_classify : TextOps → Text → VisionSignals F → Decision × LlmSignals F
  unfolding classify_risk classify_caption
  rules_classify ops caption vision =
      let text = text_of ops caption vision in
      elim (first_match ops text block_patterns) [
        | some pat ↦ (
          block,
          rules_signals "BLOCK" (lit 9700) "Matched hard policy block pattern"
              (pattern_hit "block_pattern:" pat),
        )
        | none ↦ elim (first_match ops text flag_patterns) [
          | some pat ↦ (
            flag,
            rules_signals "FLAG" (lit 7200) "Matched soft policy flag pattern"
                (pattern_hit "flag_pattern:" pat),
          )
          | none ↦ classify_risk caption text vision
        ]
      ]
