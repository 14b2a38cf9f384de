-- ===== src/Worker/Safety.antt =====
-- What a published item has passed: validation, both vision bands, the classifier.
use multimodal_content_moder.Common.{
  ℕ, ◌<◌, ◌≤◌, ◌≡◌, ◌↔◌, String, str_eq, true, false, any, length, List, arith, [], ◌∷◌, inl, inr,
}
use multimodal_content_moder.Common.Exec.{ok, Result-cases}
use multimodal_content_moder.Common.Float.{FloatOps}
use multimodal_content_moder.Policy.{Decision, allow, is_hard, is_soft}
use multimodal_content_moder.Policy.Routing.{allow_grounds}
use multimodal_content_moder.Envelope.{DecisionEnvelope, VisionSignals, LlmSignals}
use multimodal_content_moder.Schema.{Db}
use multimodal_content_moder.Worker.Pipeline.{
  Settings, Services, JobMessage, validate, allowed_types, moderate, build_envelope, thresholds_of,
}

-- Validation passes exactly the objects of an allowed type, that are not empty, and are not larger
-- than the limit.
pub validate_iff :
    {S : Type 0} (s : S) (bytes : List ℕ) (content_type : String) (limit : ℕ)
    → (((validate bytes content_type limit s).0 ≡ ok ("validation_ok" ∷ [])) ↔ (
        (any (str_eq content_type) allowed_types ≡ true)
        × (0 < length bytes)
        × (length bytes ≤ limit)))
unfolding validate
validate_iff s bytes content_type limit = (ground arith, ground arith)

module _ (fl : FloatOps) (settings : Settings fl.F) (services : Services fl.F) (now : ℕ) where
  -- what an item has passed that the pipeline decides to publish
  pub record IsCleared (m : JobMessage) (e : DecisionEnvelope fl.F) : Type 0 where
    pub bytes : List ℕ
    pub content_type : String
    pub fetched : services.fetch_object m.object_key ≡ ok (bytes, content_type)
    pub allowed : any (str_eq content_type) allowed_types ≡ true
    pub not_empty : 0 < length bytes
    pub not_large : length bytes ≤ settings.max_upload_bytes
    pub seen : services.analyze bytes m.caption ≡ ok e.vision
    pub classified : services.classify m.caption e.vision ≡ ok (allow, e.llm)
    pub confident : fl.leb settings.auto_allow e.llm.score ≡ true
    pub not_hard :
        is_hard fl (thresholds_of fl settings) e.vision.nsfw_score e.vision.violence_score ≡ false
    pub not_soft :
        is_soft fl (thresholds_of fl settings) e.vision.nsfw_score e.vision.violence_score ≡ false
    pub no_review : e.needs_human_review ≡ false

  built_from :
      (m : JobMessage) (db : Db fl.F) (e : DecisionEnvelope fl.F) {bytes : List ℕ}
      {content_type : String} {vision : VisionSignals fl.F} {llm : LlmSignals fl.F}
      {suggested : Decision}
      → (moderate fl settings services now m db).0 ≡ ok e
      → services.fetch_object m.object_key ≡ ok (bytes, content_type)
      → services.analyze bytes m.caption ≡ ok vision
      → services.classify m.caption vision ≡ ok (suggested, llm)
      → ((validate bytes content_type settings.max_upload_bytes db).0 ≡ ok ("validation_ok" ∷ []))
        × (e ≡ build_envelope fl settings services now m suggested llm vision)
  unfolding moderate
  built_from m db e h fetched seen classified = ground arith

  cleared :
      (m : JobMessage) (e : DecisionEnvelope fl.F) (bytes : List ℕ) (content_type : String)
      (vision : VisionSignals fl.F) (llm : LlmSignals fl.F) (suggested : Decision)
      → services.fetch_object m.object_key ≡ ok (bytes, content_type)
      → services.analyze bytes m.caption ≡ ok vision
      → services.classify m.caption vision ≡ ok (suggested, llm)
      → (any (str_eq content_type) allowed_types ≡ true)
        × (0 < length bytes)
        × (length bytes ≤ settings.max_upload_bytes)
      → e ≡ build_envelope fl settings services now m suggested llm vision
      → e.decision ≡ allow
      → IsCleared m e
  unfolding build_envelope thresholds_of
  cleared m e bytes content_type vision llm suggested fetched seen classified valid built d =
      let t = thresholds_of fl settings in
      let grounds =
        allow_grounds fl t suggested llm.score vision.nsfw_score vision.violence_score
          (ground arith) in
      let same_vision : e.vision ≡ vision = ground arith in
      let same_llm : e.llm ≡ llm = ground arith in
      record {
        bytes = bytes;
        content_type = content_type;
        fetched = fetched;
        allowed = valid.0;
        not_empty = valid.1;
        not_large = valid.2;
        seen = ground arith;
        classified = ground (arith, grounds);
        confident = ground (arith, grounds);
        not_hard = ground (arith, grounds);
        not_soft = ground (arith, grounds);
        no_review = ground (arith, grounds);
      }

  -- An envelope with the decision ALLOW is built only for an object that was fetched, passed the
  -- validation, scored below every band of the settings, and that the classifier called ALLOW with
  -- at least the confidence of an automatic ALLOW.
  pub published-IsCleared :
      (m : JobMessage) (db : Db fl.F) (e : DecisionEnvelope fl.F)
      → (moderate fl settings services now m db).0 ≡ ok e
      → e.decision ≡ allow
      → IsCleared m e
  unfolding moderate build_envelope
  published-IsCleared m db e h d = elim (Result-cases (services.fetch_object m.object_key)) [
    | inr (x, bad) ↦ absurd (ground arith)
    | inl ((bytes, content_type), fetched) ↦
        elim (Result-cases (services.analyze bytes m.caption)) [
          | inr (x, bad) ↦ absurd (ground arith)
          | inl (vision, seen) ↦ elim (Result-cases (services.classify m.caption vision)) [
            | inr (x, bad) ↦ absurd (ground arith)
            | inl ((suggested, llm), classified) ↦
                let parts = built_from m db e h fetched seen classified in
                cleared m e bytes content_type vision llm suggested fetched seen classified
                  ((validate_iff db bytes content_type settings.max_upload_bytes).0 parts.0) parts.1
                  d
          ]
        ]
  ]
