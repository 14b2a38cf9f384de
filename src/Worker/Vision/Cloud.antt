-- ===== src/Worker/Vision/Cloud.antt =====
-- apps/worker/worker/adapters/vision.py: the two cloud adapters, their fall back to the local
-- heuristic, and the choice of the adapter. What the cloud services answer is an argument; an error
-- is the text of any exception that the SDK raises.
use multimodal_content_moder.Common.{
  ℕ, ◌==◌, String, str_append, Bool, false, Option, none, some, List, [], ◌∷◌, ◌++◌, map, take,
  select_where, if◌then◌else◌, codes, text_eq, length,
}
use multimodal_content_moder.Common.Exec.{Result, ok, err}
use multimodal_content_moder.Common.Float.{FloatOps, float_max}
use multimodal_content_moder.Envelope.{Text, RawValue, VisionSignals}
use multimodal_content_moder.Worker.Classifier.{TextOps}
use multimodal_content_moder.Worker.Vision.{OpenedImage, mentions, local_analyze}

-- an entry of `ModerationLabels`, and one of `TextDetections`
pub record ModerationLabel (F : Type 0) : Type 0 where
  pub name : String
  pub confidence : F

pub record TextDetection : Type 0 where
  pub kind : Option Text
  pub detected_text : Text

pub record Rekognition (F : Type 0) : Type 0 where
  pub detect_moderation_labels : List ℕ → Result Text (List (ModerationLabel F))
  pub detect_text : List ℕ → Result Text (List TextDetection)

-- `value: object` of a likelihood: None, an enum member with its name and value, an int, or any
-- other object with its text. An int below 0 is like one that is too large.
pub data Likelihood : Type 0 where
  absent : Likelihood
  member : String → ℕ → Likelihood
  number : ℕ → Likelihood
  named : String → Likelihood

pub record GcpResponse : Type 0 where
  pub error_message : Text
  pub adult : Likelihood
  pub racy : Likelihood
  pub violence : Likelihood
  pub spoof : Likelihood
  pub medical : Likelihood
  pub label_annotations : List String
  pub text_annotations : List Text

-- what the three adapters call
pub record VisionClients (F : Type 0) : Type 0 where
  pub text_ops : TextOps
  pub open_image : List ℕ → Result Text (OpenedImage F)
  pub rekognition : Rekognition F
  pub annotate_image : List ℕ → Result Text GcpResponse

-- `s.split(".")[-1]`
unfoldable pub last_segment : Text → Text → Text
last_segment part [] = part
last_segment part (c ∷ s) =
    let ends = last_segment [] s in
    let goes_on = last_segment (part ++ (c ∷ [])) s in if c == b'.' then ends else goes_on

-- `" ".join(texts)`
unfoldable pub join_spaces : List Text → Text
join_spaces [] = []
join_spaces (t ∷ []) = t
join_spaces (t ∷ u ∷ ts) = t ++ (32 ∷ join_spaces (u ∷ ts))

abbrev pub is_line : TextDetection → Bool
is_line d = elim d.kind [ none ↦ false | some kind ↦ text_eq kind (codes "LINE") ]

-- `x or [fallback]`
abbrev pub or_label : String → List String → List String
or_label fallback [] = fallback ∷ []
or_label fallback (x ∷ xs) = x ∷ xs

abbrev pub explicit_keys : List Text
explicit_keys = codes "explicit" ∷ codes "nudity" ∷ codes "suggestive" ∷ codes "sexual" ∷ []

abbrev pub gore_keys : List Text
gore_keys = codes "violence" ∷ codes "blood" ∷ codes "weapon" ∷ codes "gore" ∷ []

-- `_likeli_name`
unfoldable pub likeli_name : TextOps → Likelihood → String
likeli_name ops absent = "UNKNOWN"
likeli_name ops (member name value) = name
likeli_name ops (number n) = ops.show_int n
likeli_name ops (named text) = text

module _ (fl : FloatOps) where
  open fl use {F, lit, div, round4}

  -- `_GCP_LIKELIHOOD_SCORE.get(value, 0.0)`
  unfoldable pub likelihood_score : ℕ → F
  likelihood_score value =
      if value == 1
      then lit 500
      else if value == 2
      then lit 2000
      else if value == 3
      then lit 4500
      else if value == 4
      then lit 7500
      else if value == 5
      then lit 9500
      else lit 0

  -- `mapping.get(name, 0.0)`
  unfoldable pub name_score : Text → F
  name_score name =
      if text_eq name (codes "VERY_UNLIKELY")
      then lit 500
      else if text_eq name (codes "UNLIKELY")
      then lit 2000
      else if text_eq name (codes "POSSIBLE")
      then lit 4500
      else if text_eq name (codes "LIKELY")
      then lit 7500
      else if text_eq name (codes "VERY_LIKELY")
      then lit 9500
      else lit 0

  unfoldable pub gcp_likelihood_score : TextOps → Likelihood → F
  unfolding likelihood_score name_score last_segment
  gcp_likelihood_score ops absent = lit 0
  gcp_likelihood_score ops (member name value) = likelihood_score value
  gcp_likelihood_score ops (number n) = likelihood_score n
  gcp_likelihood_score ops (named text) = name_score (last_segment [] (ops.upper (codes text)))

  -- `signals.raw[key] = str(exc)`, for a key that is not there
  abbrev pub with_error : String → Text → VisionSignals F → VisionSignals F
  with_error key exc signals = record signals {
    raw = signals.raw ++ ((key, RawValue.message exc) ∷ []);
  }

  -- the loop over `ModerationLabels`, with `nsfw` or `violence`
  unfoldable pub label_score : TextOps → List Text → F → List (ModerationLabel F) → F
  label_score ops keys score [] = score
  label_score ops keys score (item ∷ items) =
      let conf = div item.confidence (lit 1000000) in
      let hit = label_score ops keys (float_max fl score conf) items in
      let other = label_score ops keys score items in
      if mentions keys (ops.lower (codes item.name)) then hit else other

  unfoldable pub aws_signals :
      TextOps → List (ModerationLabel F) → List TextDetection → VisionSignals F
  unfolding label_score
  aws_signals ops labels detections = record {
    labels = or_label "rekognition_clean" (map (λ item. item.name) labels);
    nsfw_score = round4 (label_score ops explicit_keys (lit 0) labels);
    violence_score = round4 (label_score ops gore_keys (lit 0) labels);
    ocr_text =
        take 2000 (join_spaces (map (λ d. d.detected_text) (select_where is_line detections)));
    provider = "aws";
    model_version = "rekognition-moderation-v1";
    raw =
        ("moderation_labels", RawValue.scored (map (λ item. (item.name, item.confidence)) labels))
        ∷ [];
  }

  -- the `except` clause of a cloud adapter
  abbrev pub aws_failed : Text → VisionSignals F → VisionSignals F
  aws_failed exc local = with_error "aws_fallback_error" exc local

  abbrev pub aws_answer :
      TextOps
      → VisionSignals F
      → Result Text (List (ModerationLabel F))
      → Result Text (List TextDetection)
      → VisionSignals F
  aws_answer ops local (err exc) texts = aws_failed exc local
  aws_answer ops local (ok labels) (err exc) = aws_failed exc local
  aws_answer ops local (ok labels) (ok detections) = aws_signals ops labels detections

  -- `AwsRekognitionVision.analyze`
  unfoldable pub aws_analyze : VisionClients F → List ℕ → Text → VisionSignals F
  unfolding local_analyze
  aws_analyze clients image_bytes caption =
      aws_answer clients.text_ops
        (local_analyze fl clients.text_ops clients.open_image image_bytes caption)
        (clients.rekognition.detect_moderation_labels image_bytes)
        (clients.rekognition.detect_text image_bytes)

  -- the five pairs of a likelihood's key and name
  abbrev pub safe_search : TextOps → GcpResponse → List (String × String)
  safe_search ops r =
      ("adult", likeli_name ops r.adult)
      ∷ ("racy", likeli_name ops r.racy)
      ∷ ("violence", likeli_name ops r.violence)
      ∷ ("spoof", likeli_name ops r.spoof)
      ∷ ("medical", likeli_name ops r.medical)
      ∷ []

  -- `texts[0].description if texts else ""`
  abbrev pub first_text : List Text → Text
  first_text [] = []
  first_text (t ∷ ts) = t

  unfoldable pub gcp_signals : TextOps → GcpResponse → VisionSignals F
  unfolding gcp_likelihood_score
  gcp_signals ops r = record {
    labels = or_label "gcp_clean" (
        map (λ (key, name). str_append key (str_append ":" name)) (safe_search ops r)
        ++ r.label_annotations);
    nsfw_score =
        round4 (float_max fl (gcp_likelihood_score ops r.adult) (gcp_likelihood_score ops r.racy));
    violence_score = round4 (gcp_likelihood_score ops r.violence);
    ocr_text = take 2000 (first_text r.text_annotations);
    provider = "gcp";
    model_version = "gcp-vision-safe-search-v1";
    raw =
        ("safe_search", RawValue.fields (safe_search ops r))
        ∷ ("label_annotations", RawValue.names r.label_annotations)
        ∷ [];
  }

  abbrev pub gcp_failed : Text → VisionSignals F → VisionSignals F
  gcp_failed exc local = with_error "gcp_fallback_error" exc local

  abbrev pub gcp_answer : TextOps → VisionSignals F → Result Text GcpResponse → VisionSignals F
  gcp_answer ops local (err exc) = gcp_failed exc local
  gcp_answer ops local (ok response) =
      if length response.error_message == 0
      then gcp_signals ops response
      else gcp_failed response.error_message local

  -- `GcpVisionAdapter.analyze`
  unfoldable pub gcp_analyze : VisionClients F → List ℕ → Text → VisionSignals F
  unfolding gcp_signals
  gcp_analyze clients image_bytes caption =
      gcp_answer clients.text_ops
        (local_analyze fl clients.text_ops clients.open_image image_bytes caption)
        (clients.annotate_image image_bytes)

  -- `get_vision_adapter(settings).analyze`, for the provider in lower case
  unfoldable pub vision_analyze : VisionClients F → Text → List ℕ → Text → VisionSignals F
  vision_analyze clients provider image_bytes caption =
      if text_eq provider (codes "aws")
      then aws_analyze clients image_bytes caption
      else if text_eq provider (codes "gcp")
      then gcp_analyze clients image_bytes caption
      else local_analyze fl clients.text_ops clients.open_image image_bytes caption
