-- ===== src/Worker/Vision/Bounds.antt =====
-- Every vision adapter answers scores from 0 to 1.
use multimodal_content_moder.Common.{
  ℕ, String, ◌==◌, ◌≤◌, ◌≡◌, true, false, Bool, Bool-cases, inl, inr, List, [], ◌∷◌, All, arith,
  if◌then◌else◌, codes, contains, text_eq, length,
}
use multimodal_content_moder.Common.Exec.{Result, ok, err}
use multimodal_content_moder.Common.Float.{FloatOps}
use multimodal_content_moder.Common.Unit.{
  IsScore, lit-IsScore, max-IsScore, min-IsScore, round4-IsScore,
}
use multimodal_content_moder.Envelope.{Text, VisionSignals}
use multimodal_content_moder.Worker.Classifier.{TextOps}
use multimodal_content_moder.Worker.Vision.{
  ImageStats, OpenedImage, Cues, first_cues, brightness_of, image_cues, caption_cues, forced_cues,
  local_signals, read_stat, read_image, local_analyze, raise_violence, raise_nsfw, calm, set_nsfw,
  set_violence, add_label, is_warm, variance_of, mentions, nsfw_terms, violence_terms, safe_terms,
}
use multimodal_content_moder.Worker.Vision.Cloud.{
  ModerationLabel, TextDetection, Likelihood, GcpResponse, VisionClients, likelihood_score,
  name_score, gcp_likelihood_score, label_score, aws_signals, aws_answer, aws_analyze, gcp_signals,
  gcp_answer, gcp_analyze, vision_analyze, absent, member, number, named, explicit_keys, gore_keys,
}

module _ (fl : FloatOps) where
  open fl use {F, lit, leb}

  abbrev IsBounded : Cues F → Type 0
  IsBounded cues = IsScore fl cues.nsfw × IsScore fl cues.violence

  -- both scores of an adapter's answer
  abbrev pub HasScores : VisionSignals F → Type 0
  HasScores v = IsScore fl v.nsfw_score × IsScore fl v.violence_score

  -- a step under a test
  step_if :
      (test : Bool) (c d : Cues F) → IsBounded c → IsBounded d → IsBounded (if test then d else c)
  step_if true c d hc hd = hd
  step_if false c d hc hd = hc

  raise_violence-IsBounded :
      (n : ℕ) (label : String) (c : Cues F)
      → n ≤ 10000
      → IsBounded c
      → IsBounded (raise_violence fl n label c)
  raise_violence-IsBounded n label c le h =
      (h.0, max-IsScore fl c.violence (lit n) h.1 (lit-IsScore fl n le))

  raise_nsfw-IsBounded :
      (n : ℕ) (label : String) (c : Cues F)
      → n ≤ 10000
      → IsBounded c
      → IsBounded (raise_nsfw fl n label c)
  raise_nsfw-IsBounded n label c le h =
      (max-IsScore fl c.nsfw (lit n) h.0 (lit-IsScore fl n le), h.1)

  image_cues-IsBounded :
      (stat : ImageStats F) (c : Cues F) → IsBounded c → IsBounded (image_cues fl stat c)
  unfolding image_cues
  image_cues-IsBounded stat c0 h0 =
      let c1 = if is_warm fl stat then raise_violence fl 2500 "warm_tones" c0 else c0 in
      let h1 : IsBounded c1 =
        step_if (is_warm fl stat) c0 _ h0
          (raise_violence-IsBounded 2500 "warm_tones" c0 (omega arith) h0) in
      let dark = fl.ltb (brightness_of fl stat) (lit 500000) in
      let c2 = if dark then raise_violence fl 3500 "dark_scene" c1 else c1 in
      let h2 : IsBounded c2 =
        step_if dark c1 _ h1 (raise_violence-IsBounded 3500 "dark_scene" c1 (omega arith) h1) in
      let bright = fl.ltb (lit 2000000) (brightness_of fl stat) in
      let c3 = if bright then add_label "bright_scene" c2 else c2 in
      let h3 : IsBounded c3 = step_if bright c2 _ h2 h2 in
      step_if (fl.ltb (lit 40000000) (variance_of fl stat)) c3 (add_label "high_contrast" c3) h3 h3

  caption_cues-IsBounded :
      (cap : Text) (c : Cues F) → IsBounded c → IsBounded (caption_cues fl cap c)
  unfolding caption_cues
  caption_cues-IsBounded cap c0 h0 =
      let c1 = if mentions nsfw_terms cap then raise_nsfw fl 9200 "caption_nsfw_cue" c0 else c0 in
      let h1 : IsBounded c1 =
        step_if (mentions nsfw_terms cap) c0 _ h0
          (raise_nsfw-IsBounded 9200 "caption_nsfw_cue" c0 (omega arith) h0) in
      let c2 =
        if mentions violence_terms cap
        then raise_violence fl 8800 "caption_violence_cue" c1
        else c1 in
      let h2 : IsBounded c2 =
        step_if (mentions violence_terms cap) c1 _ h1
          (raise_violence-IsBounded 8800 "caption_violence_cue" c1 (omega arith) h1) in
      let low = lit-IsScore fl 800 (omega arith) in
      step_if (mentions safe_terms cap) c2 (calm fl c2) h2
        (min-IsScore fl c2.nsfw (lit 800) h2.0 low, min-IsScore fl c2.violence (lit 800) h2.1 low)

  forced_cues-IsBounded : (cap : Text) (c : Cues F) → IsBounded c → IsBounded (forced_cues fl cap c)
  unfolding forced_cues
  forced_cues-IsBounded cap c0 h0 =
      let c1 = if contains cap (codes "force_nsfw") then set_nsfw fl c0 else c0 in
      let h1 : IsBounded c1 =
        step_if (contains cap (codes "force_nsfw")) c0 _ h0
          (lit-IsScore fl 9500 (omega arith), h0.1) in
      step_if (contains cap (codes "force_violence")) c1 (set_violence fl c1) h1
        (h1.0, lit-IsScore fl 9300 (omega arith))

  local_signals-HasScores :
      (brightness : F) (cap : Text) (c : Cues F)
      → IsBounded c
      → HasScores (local_signals fl brightness cap c)
  unfolding local_signals
  local_signals-HasScores brightness cap c h =
      let cues = forced_cues fl cap (caption_cues fl cap c) in
      let bounded =
        forced_cues-IsBounded cap (caption_cues fl cap c) (caption_cues-IsBounded cap c h) in
      (round4-IsScore fl cues.nsfw bounded.0, round4-IsScore fl cues.violence bounded.1)

  read_stat-HasScores :
      (ops : TextOps) (img : OpenedImage F) (caption : Text) (r : Result Text (ImageStats F))
      → HasScores (read_stat fl ops img caption r)
  unfolding read_stat
  read_stat-HasScores ops img caption (err exc) =
      (lit-IsScore fl 5000 (omega arith), lit-IsScore fl 5000 (omega arith))
  read_stat-HasScores ops img caption (ok stat) =
      local_signals-HasScores (brightness_of fl stat) (ops.lower caption) _ (
        image_cues-IsBounded stat (first_cues fl ops img)
          (lit-IsScore fl 500 (omega arith), lit-IsScore fl 500 (omega arith)))

  read_image-HasScores :
      (ops : TextOps) (caption : Text) (r : Result Text (OpenedImage F))
      → HasScores (read_image fl ops caption r)
  unfolding read_image
  read_image-HasScores ops caption (err exc) =
      (lit-IsScore fl 5000 (omega arith), lit-IsScore fl 5000 (omega arith))
  read_image-HasScores ops caption (ok img) = read_stat-HasScores ops img caption img.stat

  pub local_analyze-HasScores :
      (ops : TextOps) (open_image : List ℕ → Result Text (OpenedImage F)) (image_bytes : List ℕ)
      (caption : Text)
      → HasScores (local_analyze fl ops open_image image_bytes caption)
  unfolding local_analyze
  local_analyze-HasScores ops open_image image_bytes caption =
      read_image-HasScores ops caption (open_image image_bytes)

  choose-IsScore :
      (test : Bool) (x y : F) → IsScore fl x → IsScore fl y → IsScore fl (if test then x else y)
  choose-IsScore true x y hx hy = hx
  choose-IsScore false x y hx hy = hy

  or_lit-IsScore :
      (test : Bool) (n : ℕ) (y : F)
      → n ≤ 10000
      → IsScore fl y
      → IsScore fl (if test then lit n else y)
  or_lit-IsScore test n y le h = choose-IsScore test (lit n) y (lit-IsScore fl n le) h

  -- a chain of tests over the five likelihoods
  chain-IsScore :
      (t1 t2 t3 t4 t5 : Bool)
      → IsScore fl (
          if t1
          then lit 500
          else if t2
          then lit 2000
          else if t3
          then lit 4500
          else if t4
          then lit 7500
          else if t5
          then lit 9500
          else lit 0)
  chain-IsScore t1 t2 t3 t4 t5 = or_lit-IsScore t1 500 _ (omega arith) (
      or_lit-IsScore t2 2000 _ (omega arith) (
        or_lit-IsScore t3 4500 _ (omega arith) (
          or_lit-IsScore t4 7500 _ (omega arith)
            (or_lit-IsScore t5 9500 _ (omega arith) (lit-IsScore fl 0 (omega arith))))))

  gcp_likelihood-IsScore :
      (ops : TextOps) (l : Likelihood) → IsScore fl (gcp_likelihood_score fl ops l)
  unfolding gcp_likelihood_score likelihood_score name_score
  gcp_likelihood-IsScore ops absent = lit-IsScore fl 0 (omega arith)
  gcp_likelihood-IsScore ops (member name value) = chain-IsScore _ _ _ _ _
  gcp_likelihood-IsScore ops (number n) = chain-IsScore _ _ _ _ _
  gcp_likelihood-IsScore ops (named text) = chain-IsScore _ _ _ _ _

  -- a percentage, as Rekognition documents its confidences
  abbrev pub IsPercentage : ModerationLabel F → Type 0
  IsPercentage item =
      (leb (lit 0) item.confidence ≡ true) × (leb item.confidence (lit 1000000) ≡ true)

  label_score-IsScore :
      (ops : TextOps) (keys : List Text) (items : List (ModerationLabel F)) (score : F)
      → All IsPercentage items
      → IsScore fl score
      → IsScore fl (label_score fl ops keys score items)
  unfolding label_score
  label_score-IsScore ops keys [] score percents h = h
  label_score-IsScore ops keys (item ∷ items) score (percent, percents) h =
      choose-IsScore (mentions keys (ops.lower (codes item.name))) _ _
        (label_score-IsScore ops keys items _ percents (
          max-IsScore fl score _ h
            (fl.div-unit item.confidence 1000000 (omega arith) (omega arith) percent.0 percent.1)))
        (label_score-IsScore ops keys items score percents h)

  abbrev pub ArePercentages : Result Text (List (ModerationLabel F)) → Type 0
  ArePercentages (ok labels) = All IsPercentage labels
  ArePercentages (err exc) = Unit

  aws_answer-HasScores :
      (ops : TextOps) (local : VisionSignals F) (labels : Result Text (List (ModerationLabel F)))
      (texts : Result Text (List TextDetection))
      → ArePercentages labels
      → HasScores local
      → HasScores (aws_answer fl ops local labels texts)
  unfolding aws_signals
  aws_answer-HasScores ops local (err exc) texts percents h = h
  aws_answer-HasScores ops local (ok labels) (err exc) percents h = h
  aws_answer-HasScores ops local (ok labels) (ok detections) percents h = (
    round4-IsScore fl _
        (label_score-IsScore ops explicit_keys labels _ percents (lit-IsScore fl 0 (omega arith))),
    round4-IsScore fl _
        (label_score-IsScore ops gore_keys labels _ percents (lit-IsScore fl 0 (omega arith))),
  )

  gcp_answer-HasScores :
      (ops : TextOps) (local : VisionSignals F) (r : Result Text GcpResponse)
      → HasScores local
      → HasScores (gcp_answer fl ops local r)
  unfolding gcp_signals
  gcp_answer-HasScores ops local (err exc) h = h
  gcp_answer-HasScores ops local (ok r) h = elim (Bool-cases (length r.error_message == 0)) [
    | inl empty ↦ rw empty (
      round4-IsScore fl _ (
          max-IsScore fl _ _ (gcp_likelihood-IsScore ops r.adult)
            (gcp_likelihood-IsScore ops r.racy)),
      round4-IsScore fl _ (gcp_likelihood-IsScore ops r.violence),
    )
    | inr filled ↦ rw filled h
  ]

  -- Whatever the provider is, and whether its service answers or fails, the vision adapter that
  -- `get_vision_adapter` chooses gives scores from 0 to 1, if the confidences in a Rekognition answer
  -- are percentages.
  pub vision_analyze-HasScores :
      (clients : VisionClients F) (provider : Text) (image_bytes : List ℕ) (caption : Text)
      → ArePercentages (clients.rekognition.detect_moderation_labels image_bytes)
      → HasScores (vision_analyze fl clients provider image_bytes caption)
  unfolding vision_analyze aws_analyze gcp_analyze
  vision_analyze-HasScores clients provider image_bytes caption percents =
      let local = local_analyze-HasScores clients.text_ops clients.open_image image_bytes caption in
      let aws =
        aws_answer-HasScores clients.text_ops _ _ (clients.rekognition.detect_text image_bytes)
          percents local in
      let gcp =
        gcp_answer-HasScores clients.text_ops _ (clients.annotate_image image_bytes) local in
      elim (Bool-cases (text_eq provider (codes "aws"))) [
        | inl is_aws ↦ rw is_aws aws
        | inr not_aws ↦ elim (Bool-cases (text_eq provider (codes "gcp"))) [
          | inl is_gcp ↦ rw (not_aws, is_gcp) gcp
          | inr not_gcp ↦ rw (not_aws, not_gcp) local
        ]
      ]
