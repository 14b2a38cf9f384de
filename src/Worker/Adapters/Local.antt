-- ===== src/Worker/Adapters/Local.antt =====
-- The pipeline with the local vision adapter and the rules, which are the defaults of config.py.
use multimodal_content_moder.Common.{
  ℕ, ◌≡◌, refl, ap, String, true, false, ◌||◌, List, [], ◌∷◌, arith, codes, text_eq, lower, some,
}
use multimodal_content_moder.Common.Exec.{ok}
use multimodal_content_moder.Common.Float.{FloatOps}
use multimodal_content_moder.Common.Unit.{round4-IsScore}
use multimodal_content_moder.Policy.{
  Decision, flag, decision_eq, ThresholdConfig, default_thresholds, route_decision,
}
use multimodal_content_moder.Envelope.{
  Text, VisionSignals, LlmSignals, DecisionEnvelope, is_confidence,
}
use multimodal_content_moder.Schema.{Db}
use multimodal_content_moder.Worker.Classifier.{rules_classify}
use multimodal_content_moder.Worker.Classifier.Scores.{rules_classify-IsScore}
use multimodal_content_moder.Worker.Classifier.Openai.{llm_classify}
use multimodal_content_moder.Worker.Vision.{local_analyze}
use multimodal_content_moder.Worker.Vision.Bounds.{local_analyze-HasScores}
use multimodal_content_moder.Worker.Vision.Cloud.{vision_analyze}
use multimodal_content_moder.Worker.Pipeline.{
  Settings, Services, JobMessage, validate, moderate, build_envelope, thresholds_of,
}
use multimodal_content_moder.Worker.Adapters.{Backends, vision_of, llm_of, services_of}
use multimodal_content_moder.Eval.{evaluate}

-- an outcome that is FLAG needs a human
flag_needs_review :
    (fl : FloatOps) (t : ThresholdConfig fl.F) (suggested : Decision) (c n v : fl.F)
    → let (final, needs_review, _) = route_decision fl suggested c n v (some t) in
      (needs_review || decision_eq final flag) ≡ needs_review
unfolding route_decision
flag_needs_review fl t suggested c n v = ground arith

-- a run of `moderate` in which nothing raises
pub moderated :
    (fl : FloatOps) (settings : Settings fl.F) (services : Services fl.F) (now : ℕ) (m : JobMessage)
    (db : Db fl.F) (image_bytes : List ℕ) (content_type : String) (vision : VisionSignals fl.F)
    (suggested : Decision) (llm : LlmSignals fl.F)
    → services.fetch_object m.object_key ≡ ok (image_bytes, content_type)
    → validate image_bytes content_type settings.max_upload_bytes db
      ≡ (ok ("validation_ok" ∷ []), db)
    → services.analyze image_bytes m.caption ≡ ok vision
    → services.classify m.caption vision ≡ ok (suggested, llm)
    → is_confidence fl (fl.round4 llm.score) ≡ true
    → moderate fl settings services now m db
      ≡ (ok (build_envelope fl settings services now m suggested llm vision), db)
unfolding moderate
moderated fl settings services now m db image_bytes content_type vision suggested llm f v a c s =
    ground arith

module _ (fl : FloatOps) (settings : Settings fl.F) (b : Backends fl.F) where
  -- the providers that config.py names as its defaults, or any that are not known
  pub record IsLocal : Type 0 where
    pub not_aws : text_eq (lower settings.vision_provider) (codes "aws") ≡ false
    pub not_gcp : text_eq (lower settings.vision_provider) (codes "gcp") ≡ false
    pub not_openai : text_eq (lower settings.llm_provider) (codes "openai") ≡ false

  abbrev local_vision : List ℕ → Text → VisionSignals fl.F
  local_vision image_bytes caption = local_analyze fl b.text_ops b.open_image image_bytes caption

  vision_of_local :
      IsLocal
      → (image_bytes : List ℕ) (caption : Text)
      → vision_of fl settings b image_bytes caption ≡ local_vision image_bytes caption
  unfolding vision_analyze
  vision_of_local local image_bytes caption = rw (local.not_aws, local.not_gcp) refl

  llm_of_local :
      IsLocal
      → (caption : Text) (vision : VisionSignals fl.F)
      → llm_of fl settings b caption vision ≡ rules_classify fl b.text_ops caption vision
  unfolding llm_classify
  llm_of_local local caption vision = rw local.not_openai refl

  -- With the local vision adapter, the rules classifier and the default bands, a fetched object that
  -- passes the validation always gets an envelope, and the envelope has the decision and the need
  -- for a human that the evaluation harness computes for its bytes and its caption.
  pub moderate-evaluate :
      (now : ℕ) (m : JobMessage) (db : Db fl.F) (image_bytes : List ℕ) (content_type : String)
      → IsLocal
      → thresholds_of fl settings ≡ default_thresholds fl
      → b.fetch m.object_key ≡ ok (image_bytes, content_type)
      → (validate image_bytes content_type settings.max_upload_bytes db)
        ≡ (ok ("validation_ok" ∷ []), db)
      → (e : DecisionEnvelope fl.F) × (moderate fl settings (services_of fl settings b) now m db
          ≡ (ok e, db))
        × (e.decision ≡ (evaluate fl b.text_ops b.open_image image_bytes m.caption).0)
        × (e.needs_human_review ≡ (evaluate fl b.text_ops b.open_image image_bytes m.caption).1)
  unfolding services_of evaluate build_envelope is_confidence
  moderate-evaluate now m db image_bytes content_type local bands fetched valid =
      let v = local_vision image_bytes m.caption in
      let (suggested, llm) = rules_classify fl b.text_ops m.caption v in
      let (low, high) = round4-IsScore fl llm.score (
        rules_classify-IsScore fl b.text_ops m.caption v
          (local_analyze-HasScores fl b.text_ops b.open_image image_bytes m.caption)) in
      let services = services_of fl settings b in
      let t = default_thresholds fl in
      (
        build_envelope fl settings services now m suggested llm v,
        moderated fl settings services now m db image_bytes content_type v suggested llm
            (rw fetched refl) valid (ap ok (vision_of_local local image_bytes m.caption))
            (ap ok (llm_of_local local m.caption v)) (rw (low, high) refl),
        rw bands refl,
        rw bands (flag_needs_review fl t suggested llm.score v.nsfw_score v.violence_score),
      )
