-- ===== src/Worker/Pipeline.antt =====
-- apps/worker/worker/pipeline.py, with the settings of config.py that it reads. Postgres statements
-- are functions on `Db`; object storage, the two adapters and the clock are in `Services`.
use multimodal_content_moder.Common.{
  ℕ, min, ◌==◌, ltb, String, str_eq, ◌||◌, not, none, some, List, [], ◌∷◌, ◌++◌, length, take, any,
  if◌then◌else◌, codes,
}
use multimodal_content_moder.Common.Exec.{
  Result, ok, err, Exec, pure, lift, execute, raise_if, ◌>>=◌, ◌>>◌,
}
use multimodal_content_moder.Common.Float.{FloatOps}
use multimodal_content_moder.Policy.{
  Decision, flag, decision_value, decision_eq, ThresholdConfig, route_decision,
}
use multimodal_content_moder.Envelope.{
  Text, VisionSignals, LlmSignals, DecisionEnvelope, is_confidence,
}
use multimodal_content_moder.Schema.{empty, decided, Db, insert_audit, find_decision}
unfoldable pub use multimodal_content_moder.Worker.Statements.{
  start_job, finish_job, decision_row, insert_decision, insert_metrics, review_row, insert_review,
  has_parents,
}

pub record Settings (F : Type 0) : Type 0 where
  pub queue_provider : Text
  pub gcp_project : String
  pub storage_provider : Text
  pub s3_bucket : String
  pub gcs_bucket : String
  pub vision_provider : Text
  pub llm_provider : Text
  pub openai_api_key : String
  pub openai_model : String
  pub policy_version : String
  pub pipeline_version : String
  pub auto_allow : F
  pub auto_block : F
  pub nsfw_block : F
  pub nsfw_flag : F
  pub violence_block : F
  pub violence_flag : F
  pub max_upload_bytes : ℕ

-- `class ValidationError(Exception)` and every other exception, with `str(exc)`.
pub data WorkerError : Type 0 where
  validation_error : Text → WorkerError
  other_error : Text → WorkerError

-- What the worker calls outside of the database: object storage, the adapters, the elapsed time,
-- and the texts of two exceptions of libraries (a foreign key, a model check of pydantic).
pub record Services (F : Type 0) : Type 0 where
  pub fetch_object : String → Result WorkerError (List ℕ × String)
  pub analyze : List ℕ → Text → Result WorkerError (VisionSignals F)
  pub classify : Text → VisionSignals F → Result WorkerError (Decision × LlmSignals F)
  pub latency_ms : ℕ
  pub foreign_key_text : Text
  pub model_check_text : Text

-- The arguments of `process_job`, which a queue message carries.
pub record JobMessage : Type 0 where
  pub job_id : ℕ
  pub content_id : ℕ
  pub content_hash : String
  pub object_key : String
  pub caption : Text

abbrev pub allowed_types : List String
allowed_types = "image/jpeg" ∷ "image/png" ∷ "image/webp" ∷ "image/gif" ∷ []

unfoldable pub validate : {S : Type 0} → List ℕ → String → ℕ → Exec WorkerError S (List String)
validate image_bytes content_type max_upload_bytes = do
  raise_if (not (any (str_eq content_type) allowed_types))
      (validation_error (codes "invalid_content_type:" ++ codes content_type))
  raise_if (length image_bytes == 0) (validation_error (codes "empty_object"))
  raise_if (ltb max_upload_bytes (length image_bytes)) (validation_error (codes "object_too_large"))
  pure ("validation_ok" ∷ [])

-- `decision == "BLOCK"` is asked of the decision's text.
unfoldable pub review_priority : (fl : FloatOps) → String → fl.F → ℕ
review_priority fl decision confidence =
    let priority = if str_eq decision "BLOCK" then 10 else 50 in
    if fl.ltb confidence (fl.lit 6000) then min priority 20 else priority

module _ (fl : FloatOps) where
  open fl use {F}

  -- the writes that follow a fresh row in `decisions`
  unfoldable pub record_outcome : ℕ → ℕ → DecisionEnvelope F → Db F → Db F
  unfolding finish_job insert_metrics insert_review review_priority
  record_outcome now decision_id e db =
      let db = finish_job now e.job_id db in
      let db =
        insert_audit "decision" decision_id "created" "worker"
          (decided e.decision e.confidence e.needs_human_review) db in
      let db = insert_metrics e db in
      if e.needs_human_review
      then (let db =
            insert_review now decision_id e
              (review_priority fl (decision_value e.decision) e.confidence) db in
          insert_audit "review" decision_id "enqueued" "worker" empty db)
      else db

  -- `_parse_envelope` reads back what `model_dump_json` wrote, so a row's envelope is returned as is.
  unfoldable pub persist_envelope :
      Services F → ℕ → DecisionEnvelope F → Exec WorkerError (Db F) (DecisionEnvelope F)
  unfolding insert_decision has_parents
  persist_envelope services now e db = elim (find_decision e.job_id db) [
    | some row ↦ (ok row.envelope, db)
    | none ↦
        if has_parents e db
        then (ok e, record_outcome now db.next_id e (insert_decision now e db))
        else (err (other_error services.foreign_key_text), db)
  ]

  unfoldable pub thresholds_of : Settings F → ThresholdConfig F
  thresholds_of settings = record {
    policy_version = settings.policy_version;
    auto_allow = settings.auto_allow;
    auto_block = settings.auto_block;
    nsfw_block = settings.nsfw_block;
    nsfw_flag = settings.nsfw_flag;
    violence_block = settings.violence_block;
    violence_flag = settings.violence_flag;
  }

  -- `reasons = list(route_reasons)`, the rationale if there is one, `vision.labels[:5]`
  unfoldable pub collect_reasons : List String → LlmSignals F → VisionSignals F → List String
  collect_reasons route_reasons llm vision =
      (if str_eq llm.rationale "" then route_reasons else route_reasons ++ (llm.rationale ∷ []))
      ++ take 5 vision.labels

  -- the envelope that `process_job` builds from the signals
  unfoldable pub build_envelope :
      Settings F
      → Services F
      → ℕ
      → JobMessage
      → Decision
      → LlmSignals F
      → VisionSignals F
      → DecisionEnvelope F
  unfolding route_decision thresholds_of
  build_envelope settings services now m suggested llm vision =
      let (final, needs_review, route_reasons) =
        route_decision fl suggested llm.score vision.nsfw_score vision.violence_score
          (some (thresholds_of settings)) in
      record {
        job_id = m.job_id;
        content_id = m.content_id;
        content_hash = m.content_hash;
        decision = final;
        confidence = fl.round4 llm.score;
        reasons = collect_reasons route_reasons llm vision;
        vision = vision;
        llm = llm;
        policy_version = settings.policy_version;
        pipeline_version = settings.pipeline_version;
        latency_ms = services.latency_ms;
        needs_human_review = needs_review || decision_eq final flag;
        created_at = now;
      }

  -- fetch, validate, vision, classify, route; the constructor of the envelope checks the confidence
  unfoldable pub moderate :
      Settings F → Services F → ℕ → JobMessage → Exec WorkerError (Db F) (DecisionEnvelope F)
  unfolding validate
  moderate settings services now m = do
    (image_bytes, content_type) ← lift (services.fetch_object m.object_key)
    validate image_bytes content_type settings.max_upload_bytes
    vision ← lift (services.analyze image_bytes m.caption)
    (suggested, llm) ← lift (services.classify m.caption vision)
    raise_if (not (is_confidence fl (fl.round4 llm.score))) (other_error services.model_check_text)
    pure (build_envelope settings services now m suggested llm vision)

  unfoldable pub process_job :
      Settings F → Services F → ℕ → JobMessage → Exec WorkerError (Db F) (DecisionEnvelope F)
  process_job settings services now m db = elim (find_decision m.job_id db) [
    | some row ↦ (ok row.envelope, db)
    | none ↦
        (do
          execute (start_job now m.job_id)
          envelope ← moderate settings services now m
          persist_envelope services now envelope)
          db
  ]
