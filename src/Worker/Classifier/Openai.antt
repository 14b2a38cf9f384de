-- ===== src/Worker/Classifier/Openai.antt =====
-- apps/worker/worker/adapters/llm.py: `OpenAIPolicyClassifier`, its fall back to the rules, and the
-- choice of the classifier. The HTTP request and the JSON parser are an argument.
use multimodal_content_moder.Common.{
  String, str_eq, Option, none, some, List, [], ◌∷◌, ◌++◌, if◌then◌else◌, codes, text_eq,
}
use multimodal_content_moder.Common.Exec.{Result, ok, err}
use multimodal_content_moder.Common.Float.{FloatOps}
use multimodal_content_moder.Policy.{Decision, allow, flag, block, decision_value}
use multimodal_content_moder.Envelope.{Text, RawValue, VisionSignals, LlmSignals}
use multimodal_content_moder.Worker.Classifier.{TextOps, rules_classify}

-- The object in the content of the answer. `decision` is a text, where it is there; `confidence` is
-- what `float` makes of the value, or its exception; `rationale` is the text of the value; `raw` is the
-- whole object.
pub record OpenaiReply (F : Type 0) : Type 0 where
  pub decision : Option Text
  pub confidence : Option (Result Text F)
  pub rationale : Option String
  pub raw : List (String × RawValue F)

-- what the request carries of the item, as the prompt's fields
pub record OpenaiPrompt (F : Type 0) : Type 0 where
  pub caption : Text
  pub ocr_text : Text
  pub vision_labels : List String
  pub nsfw_score : F
  pub violence_score : F

pub record LlmClients (F : Type 0) : Type 0 where
  pub text_ops : TextOps
  -- the model, the key and the prompt; an error is the text of any exception up to the parsed object
  pub chat : String → String → OpenaiPrompt F → Result Text (OpenaiReply F)

-- `Decision(text)`
unfoldable pub parse_decision : Text → Result Text Decision
parse_decision text =
    if text_eq text (codes "ALLOW")
    then ok allow
    else if text_eq text (codes "FLAG")
    then ok flag
    else if text_eq text (codes "BLOCK")
    then ok block
    else err (codes "'" ++ (text ++ codes "' is not a valid Decision"))

module _ (fl : FloatOps) where
  open fl use {F, lit}

  abbrev pub prompt_of : Text → VisionSignals F → OpenaiPrompt F
  prompt_of caption vision = record {
    caption = caption;
    ocr_text = vision.ocr_text;
    vision_labels = vision.labels;
    nsfw_score = vision.nsfw_score;
    violence_score = vision.violence_score;
  }

  -- `float(parsed.get("confidence", 0.7))`
  abbrev pub confidence_of : Option (Result Text F) → Result Text F
  confidence_of none = ok (lit 7000)
  confidence_of (some r) = r

  -- `str(parsed.get("rationale", ""))`
  abbrev pub rationale_of : Option String → String
  rationale_of none = ""
  rationale_of (some s) = s

  -- the end of the `try` block, from `Decision(parsed["decision"].upper())`
  unfoldable pub read_reply :
      TextOps → String → OpenaiReply F → Result Text (Decision × LlmSignals F)
  unfolding parse_decision
  read_reply ops model reply = elim reply.decision [
    | none ↦ err (codes "'decision'")
    | some text ↦ elim (parse_decision (ops.upper text)) [
      | err exc ↦ err exc
      | ok decision ↦ elim (confidence_of reply.confidence) [
        | err exc ↦ err exc
        | ok score ↦ ok (
          decision,
          record {
            label = decision_value decision;
            score = score;
            rationale = rationale_of reply.rationale;
            provider = "openai";
            model_version = model;
            raw = reply.raw;
          },
        )
      ]
    ]
  ]

  -- the `except` clause
  abbrev pub fall_back : Text → Decision × LlmSignals F → Decision × LlmSignals F
  fall_back exc (decision, signals) = (
    decision,
    record signals { raw = signals.raw ++ (("openai_fallback_error", RawValue.message exc) ∷ []) },
  )

  abbrev pub then_read :
      TextOps → String → Result Text (OpenaiReply F) → Result Text (Decision × LlmSignals F)
  then_read ops model (err exc) = err exc
  then_read ops model (ok reply) = read_reply ops model reply

  -- `OpenAIPolicyClassifier.classify`
  unfoldable pub openai_classify :
      LlmClients F → String → String → Text → VisionSignals F → Decision × LlmSignals F
  openai_classify clients api_key model caption vision =
      let rules = rules_classify fl clients.text_ops caption vision in
      if str_eq api_key ""
      then rules
      else elim (then_read clients.text_ops model
          (clients.chat model api_key (prompt_of caption vision))) [
            | err exc ↦ fall_back exc rules
            | ok answer ↦ answer
          ]

  -- `get_llm_adapter(settings).classify`, for the provider in lower case
  unfoldable pub llm_classify :
      LlmClients F → Text → String → String → Text → VisionSignals F → Decision × LlmSignals F
  llm_classify clients provider api_key model caption vision =
      if text_eq provider (codes "openai")
      then openai_classify clients api_key model caption vision
      else rules_classify fl clients.text_ops caption vision
