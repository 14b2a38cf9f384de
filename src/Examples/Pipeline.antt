-- ===== src/Examples/Pipeline.antt =====
-- The pipeline with its adapters: a clean picture through the local vision adapter and the rules, a
-- run of the evaluation harness, and an upload from the API to its decision.
use multimodal_content_moder.Common.{
  ℕ, ◌==◌, ◌≡◌, refl, le→leb, String, str_eq, any, false, is_some, Option, none, some, List, [],
  ◌∷◌, arith, codes, lower, text_eq, strip, lstrip, is_space, count_where, if◌then◌else◌,
  find_where, select_where,
}
use multimodal_content_moder.Common.Exec.{Result, ok, err}
use multimodal_content_moder.Policy.{default_thresholds}
use multimodal_content_moder.Envelope.{Text, DecisionEnvelope}
use multimodal_content_moder.Schema.{Db, empty_db, find_decision, find_job}
use multimodal_content_moder.Worker.Pipeline.{validate, moderate, thresholds_of}
use multimodal_content_moder.Worker.Classifier.Openai.{OpenaiReply}
use multimodal_content_moder.Worker.Vision.{OpenedImage}
use multimodal_content_moder.Worker.Vision.Cloud.{Rekognition, VisionClients, vision_analyze}
use multimodal_content_moder.Worker.Vision.Bounds.{HasScores, vision_analyze-HasScores}
use multimodal_content_moder.Worker.Adapters.{Backends, services_of}
use multimodal_content_moder.Worker.Adapters.Local.{IsLocal, moderate-evaluate}
use multimodal_content_moder.Worker.Consumer.{handle_message}
use multimodal_content_moder.Worker.Consistency.{IsConsistent}
use multimodal_content_moder.Ingest.Service.{Upload, digest_of, key_of, check_upload, split_commas}
use multimodal_content_moder.Ingest.Service as Service
use multimodal_content_moder.Ingest.Accept.{
  accepted, message_of, accept_image, ingest_digest, store_image, persist_job, enqueue_or_fail,
  find_ingested, find_by_hash, hash_taken, is_refused,
}
use multimodal_content_moder.Ingest.Queue.{enqueue_job}
use multimodal_content_moder.Review.Locks.{acquire_ingest_lock}
use multimodal_content_moder.Eval.{
  Sample, Tally, evaluate, evaluate_all, run_harness, limited_samples, tally,
}
use multimodal_content_moder.Eval.Counts.{AddsUp}
use multimodal_content_moder.Eval.Report.{report_of}
use multimodal_content_moder.Eval.Report.Bounds.{
  IsQuotient, HasReportScores, report-HasReportScores,
}
use multimodal_content_moder.EndToEnd.{received, IsDecided, accepted-IsDecided}
use multimodal_content_moder.Examples.Instances.{fixed, div-unit, settings, message, db}
use multimodal_content_moder.Examples.Classifier.{ops}
use multimodal_content_moder.Examples.Ingest as Ingest

-- grey pixels
abbrev grey : OpenedImage ℕ
grey = record {
  width = 320;
  height = 240;
  stat = ok (record {
    mean_r = 1200000;
    mean_g = 1200000;
    mean_b = 1200000;
    var_r = 10000;
    var_g = 10000;
    var_b = 10000;
  });
}

abbrev rekognition : Rekognition ℕ
rekognition = record {
  detect_moderation_labels =
      λ bytes. ok (record { name = "Explicit Nudity"; confidence = 985000 } ∷ []);
  detect_text = λ bytes. ok [];
}

abbrev clients : VisionClients ℕ
clients = record {
  text_ops = ops;
  open_image = λ bytes. ok grey;
  rekognition = rekognition;
  annotate_image = λ bytes. err (codes "no credentials");
}

vision_analyze-HasScores_example :
    HasScores fixed (vision_analyze fixed clients (codes "aws") (1 ∷ []) (codes "a tree"))
vision_analyze-HasScores_example =
    vision_analyze-HasScores fixed clients (codes "aws") (1 ∷ []) (codes "a tree")
      ((le→leb 0 985000 (omega arith), le→leb 985000 1000000 (omega arith)), tt)

-- a model that is sure to 170 percent
abbrev reply : OpenaiReply ℕ
reply = record {
  decision = some (codes "ALLOW");
  confidence = some (ok 17000);
  rationale = none;
  raw = [];
}

abbrev backends : Backends ℕ
backends = record {
  text_ops = ops;
  open_image = λ bytes. ok grey;
  rekognition = rekognition;
  annotate_image = λ bytes. err (codes "no credentials");
  chat = λ model key prompt. ok reply;
  fetch = λ key. ok (1 ∷ 2 ∷ [], "image/png");
  latency_ms = 12;
  foreign_key_text = codes "foreign key";
  model_check_text = codes "confidence";
}

is_local : IsLocal fixed settings backends
unfolding lower codes text_eq
is_local = record { not_aws = refl; not_gcp = refl; not_openai = refl }

default_bands : thresholds_of fixed settings ≡ default_thresholds fixed
unfolding thresholds_of default_thresholds
default_bands = refl

is_valid :
    (d : Db ℕ)
    → validate (1 ∷ 2 ∷ []) "image/png" settings.max_upload_bytes d ≡ (ok ("validation_ok" ∷ []), d)
unfolding validate any
is_valid d = refl

moderate-evaluate_example :
    (e : DecisionEnvelope ℕ) × (moderate fixed settings
        (services_of fixed settings backends)
        100
        message
        db
      ≡ (ok e, db))
    × (e.decision ≡ (evaluate fixed ops (λ bytes. ok grey) (1 ∷ 2 ∷ []) message.caption).0)
    × (e.needs_human_review
        ≡ (evaluate fixed ops (λ bytes. ok grey) (1 ∷ 2 ∷ []) message.caption).1)
moderate-evaluate_example =
    moderate-evaluate fixed settings backends 100 message db (1 ∷ 2 ∷ []) "image/png" is_local
      default_bands refl (is_valid db)

abbrev samples : List Sample
samples =
    record { image = some (1 ∷ []); caption = codes "a tree in a field"; label = "ALLOW" }
    ∷ record { image = some (2 ∷ []); caption = codes "kys"; label = "BLOCK" }
    ∷ record { image = none; caption = []; label = "FLAG" }
    ∷ []

abbrev open_grey : List ℕ → Result Text (OpenedImage ℕ)
open_grey bytes = ok grey

-- what the first two samples give
abbrev report : Tally
report =
    tally fixed ops open_grey
      (record { image = some (1 ∷ []); caption = codes "a tree in a field"; label = "ALLOW" })
      (1 ∷ [])
      (tally fixed ops open_grey
        (record { image = some (2 ∷ []); caption = codes "kys"; label = "BLOCK" }) (2 ∷ [])
        (record { pairs = []; auto_resolved = 0 }))

reported : run_harness fixed ops open_grey (some 2) 1 samples ≡ ok report
unfolding run_harness limited_samples evaluate_all
reported = refl

-- the quotient in ten-thousandths
abbrev ratio : ℕ → ℕ → ℕ
ratio a n = fixed.div a n

ratio-IsQuotient : IsQuotient fixed ratio
ratio-IsQuotient a n le pos = div-unit a n pos (le→leb a n le)

report-HasReportScores_example :
    AddsUp (some 2) 1 samples report × HasReportScores fixed ratio (report_of fixed ratio report)
report-HasReportScores_example =
    report-HasReportScores fixed ratio ops open_grey (some 2) 1 samples report ratio-IsQuotient
      reported

-- the upload, with texts of its two UUIDs that differ
abbrev upload : Upload
upload = record Ingest.upload { uuid_text = λ id. if id == 7 then "7" else "3" }

abbrev parse_uuid : String → Option ℕ
parse_uuid text = if str_eq text "7" then some 7 else if str_eq text "3" then some 3 else none

abbrev accepted_state : Ingest.State
accepted_state =
    (accept_image ℕ Ingest.text_locks Ingest.settings Ingest.idle 100 upload Ingest.empty_state).1

empty-IsConsistent : IsConsistent (empty_db ℕ)
unfolding find_job find_decision find_where count_where
empty-IsConsistent = record {
  decided = λ k. refl;
  one_decision = λ k. omega arith;
  queued = tt;
  decision_ids = tt;
  review_ids = tt;
}

upload_passes : (check_upload Ingest.settings upload Ingest.empty_state).0 ≡ ok tt
unfolding check_upload Service.allowed_types split_commas strip lstrip is_space codes text_eq any
    select_where
upload_passes = refl

upload-accepted :
    (accept_image ℕ Ingest.text_locks Ingest.settings Ingest.idle 100 upload Ingest.empty_state).0
    ≡ ok (accepted upload (digest_of Ingest.settings upload))
unfolding accept_image ingest_digest store_image persist_job enqueue_or_fail check_upload
    Service.allowed_types split_commas strip lstrip is_space codes text_eq any select_where
    find_ingested find_by_hash find_where hash_taken is_refused acquire_ingest_lock enqueue_job
    lower
upload-accepted = refl

no_decision : is_some (find_decision 7 (empty_db ℕ)) ≡ false
unfolding find_decision find_where
no_decision = refl

accepted-IsDecided_example :
    let body = message_of Ingest.settings upload (digest_of Ingest.settings upload) in
    (accepted_state.published
      ≡ record { body = body; content_hash = body.content_hash; job_id = 7 } ∷ [])
    × IsDecided fixed Ingest.text_locks Ingest.settings settings backends parse_uuid upload (
        handle_message fixed settings
          (services_of fixed settings backends)
          parse_uuid
          200
          (received upload.uuid_text body)
          accepted_state.db)
accepted-IsDecided_example =
    accepted-IsDecided fixed Ingest.text_locks Ingest.settings settings backends parse_uuid
      Ingest.idle 100 200 upload Ingest.empty_state
      (accepted upload (digest_of Ingest.settings upload)) upload_passes upload-accepted refl
      no_decision empty-IsConsistent refl refl refl is_valid is_local default_bands
