-- ===== src/Envelope.antt =====
-- packages/moderation_shared/src/moderation_shared/envelope.py: the signals of the two adapters and
-- the decision envelope. `F` is the type of floats. Pydantic's check of the confidence is
-- `is_confidence`.
use multimodal_content_moder.Common.{ℕ, String, Bool, ◌&&◌, List}
use multimodal_content_moder.Common.Float.{FloatOps}
use multimodal_content_moder.Policy.{Decision}

-- A text of code points, where the program looks into it; `String` elsewhere.
abbrev pub Text : Type 0
Text = List ℕ

-- A value in a `raw` dictionary.
pub data RawValue (F : Type 0) : Type 0 where
  missing : RawValue F
  number : F → RawValue F
  message : Text → RawValue F
  names : List String → RawValue F
  scored : List (String × F) → RawValue F
  fields : List (String × String) → RawValue F

pub record VisionSignals (F : Type 0) : Type 0 where
  pub labels : List String
  pub nsfw_score : F
  pub violence_score : F
  pub ocr_text : Text
  pub provider : String
  pub model_version : String
  pub raw : List (String × RawValue F)

pub record LlmSignals (F : Type 0) : Type 0 where
  pub label : String
  pub score : F
  pub rationale : String
  pub provider : String
  pub model_version : String
  pub raw : List (String × RawValue F)

pub record DecisionEnvelope (F : Type 0) : Type 0 where
  pub job_id : ℕ
  pub content_id : ℕ
  pub content_hash : String
  pub decision : Decision
  pub confidence : F
  pub reasons : List String
  pub vision : VisionSignals F
  pub llm : LlmSignals F
  pub policy_version : String
  pub pipeline_version : String
  pub latency_ms : ℕ
  pub needs_human_review : Bool
  pub created_at : ℕ

-- `confidence: float = Field(ge=0.0, le=1.0)`: the constructor raises where this is false.
unfoldable pub is_confidence : (fl : FloatOps) → fl.F → Bool
is_confidence fl c = fl.leb (fl.lit 0) c && fl.leb c (fl.lit 10000)
