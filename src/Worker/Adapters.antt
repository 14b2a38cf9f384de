-- ===== src/Worker/Adapters.antt =====
-- What `process_job` gets from `get_vision_adapter(settings)`, `get_llm_adapter(settings)` and
-- `fetch_object`: the services of the pipeline, made from the settings and from the clients of the
-- cloud services.
pub mod Local
use multimodal_content_moder.Common.{ℕ, String, List, lower}
use multimodal_content_moder.Common.Exec.{Result, ok, err}
use multimodal_content_moder.Common.Float.{FloatOps}
use multimodal_content_moder.Policy.{Decision}
use multimodal_content_moder.Envelope.{Text, VisionSignals, LlmSignals}
use multimodal_content_moder.Worker.Classifier.{TextOps}
use multimodal_content_moder.Worker.Classifier.Openai.{OpenaiReply, OpenaiPrompt, llm_classify}
use multimodal_content_moder.Worker.Vision.{OpenedImage}
use multimodal_content_moder.Worker.Vision.Cloud.{Rekognition, GcpResponse, vision_analyze}
use multimodal_content_moder.Worker.Pipeline.{Settings, Services, WorkerError, other_error}

-- the libraries and services behind the adapters and behind object storage, the elapsed time and
-- two texts
pub record Backends (F : Type 0) : Type 0 where
  pub text_ops : TextOps
  pub open_image : List ℕ → Result Text (OpenedImage F)
  pub rekognition : Rekognition F
  pub annotate_image : List ℕ → Result Text GcpResponse
  pub chat : String → String → OpenaiPrompt F → Result Text (OpenaiReply F)
  pub fetch : String → Result Text (List ℕ × String)
  pub latency_ms : ℕ
  pub foreign_key_text : Text
  pub model_check_text : Text

-- an exception that is no `ValidationError`
abbrev pub or_other : {A : Type 0} → Result Text A → Result WorkerError A
or_other (ok a) = ok a
or_other (err exc) = err (other_error exc)

module _ (fl : FloatOps) where
  open fl use {F}

  abbrev pub vision_of : Settings F → Backends F → List ℕ → Text → VisionSignals F
  vision_of settings b image_bytes caption =
      vision_analyze fl
        (record {
          text_ops = b.text_ops;
          open_image = b.open_image;
          rekognition = b.rekognition;
          annotate_image = b.annotate_image;
        })
        (lower settings.vision_provider) image_bytes caption

  abbrev pub llm_of : Settings F → Backends F → Text → VisionSignals F → Decision × LlmSignals F
  llm_of settings b caption vision =
      llm_classify fl (record { text_ops = b.text_ops; chat = b.chat })
        (lower settings.llm_provider) settings.openai_api_key settings.openai_model caption vision

  unfoldable pub services_of : Settings F → Backends F → Services F
  services_of settings b = record {
    fetch_object = λ object_key. or_other (b.fetch object_key);
    analyze = λ image_bytes caption. ok (vision_of settings b image_bytes caption);
    classify = λ caption vision. ok (llm_of settings b caption vision);
    latency_ms = b.latency_ms;
    foreign_key_text = b.foreign_key_text;
    model_check_text = b.model_check_text;
  }
