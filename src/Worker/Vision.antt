-- ===== src/Worker/Vision.antt =====
-- apps/worker/worker/adapters/vision.py: the local heuristic, and the choice of the adapter. Pillow's
-- reading of an image is an argument.
pub mod Cloud
pub mod Bounds
use multimodal_content_moder.Common.{
  ℕ, String, str_append, Bool, ◌&&◌, Option, none, some, List, [], ◌∷◌, ◌++◌, take, drop, length,
  any, if◌then◌else◌, codes, contains, starts_with, strip,
}
use multimodal_content_moder.Common.Exec.{Result, ok, err}
use multimodal_content_moder.Common.Float.{FloatOps, float_max, float_min}
use multimodal_content_moder.Envelope.{Text, RawValue, VisionSignals}
use multimodal_content_moder.Worker.Classifier.{TextOps}

-- `stat.mean` and `stat.var` of an RGB image
pub record ImageStats (F : Type 0) : Type 0 where
  pub mean_r : F
  pub mean_g : F
  pub mean_b : F
  pub var_r : F
  pub var_g : F
  pub var_b : F

-- An image that `Image.open(...).convert("RGB")` has read: its size, and its statistics or the
-- exception of `ImageStat.Stat`.
pub record OpenedImage (F : Type 0) : Type 0 where
  pub width : ℕ
  pub height : ℕ
  pub stat : Result Text (ImageStats F)

-- the variables of `analyze` that the cues change
pub record Cues (F : Type 0) : Type 0 where
  pub labels : List String
  pub nsfw : F
  pub violence : F

-- `cap.split(sep, 1)[1]`, where `sep in cap`
unfoldable pub after_first : Text → Text → Text
after_first sep [] = []
after_first sep (c ∷ s) =
    let later = after_first sep s in
    if starts_with (c ∷ s) sep then drop (length sep) (c ∷ s) else later

abbrev pub add_label : {F : Type 0} → String → Cues F → Cues F
add_label label cues = record cues { labels = cues.labels ++ (label ∷ []) }

abbrev pub nsfw_terms : List Text
nsfw_terms = codes "nsfw" ∷ codes "nude" ∷ codes "explicit" ∷ codes "porn" ∷ codes "xxx" ∷ []

abbrev pub violence_terms : List Text
violence_terms =
    codes "violence"
    ∷ codes "blood"
    ∷ codes "weapon"
    ∷ codes "gun"
    ∷ codes "kill"
    ∷ codes "fight"
    ∷ []

abbrev pub safe_terms : List Text
safe_terms =
    codes "nature"
    ∷ codes "landscape"
    ∷ codes "food"
    ∷ codes "cat"
    ∷ codes "dog"
    ∷ codes "family"
    ∷ codes "sunset"
    ∷ []

-- `any(t in cap for t in terms)`
abbrev pub mentions : List Text → Text → Bool
mentions terms cap = any (contains cap) terms

module _ (fl : FloatOps) where
  open fl use {F, ltb, lit, add, div, round4}

  -- `(r + g + b) / 3.0` and `sum(stat.var) / 3.0`
  abbrev pub brightness_of : ImageStats F → F
  brightness_of stat = div (add (add stat.mean_r stat.mean_g) stat.mean_b) (lit 30000)

  abbrev pub variance_of : ImageStats F → F
  variance_of stat = div (add (add stat.var_r stat.var_g) stat.var_b) (lit 30000)

  -- `r > g + 25 and r > b + 25`
  abbrev pub is_warm : ImageStats F → Bool
  is_warm stat =
      ltb (add stat.mean_g (lit 250000)) stat.mean_r
      && ltb (add stat.mean_b (lit 250000)) stat.mean_r

  abbrev pub raise_violence : ℕ → String → Cues F → Cues F
  raise_violence n label cues = record (add_label label cues) {
    violence = float_max fl cues.violence (lit n);
  }

  abbrev pub raise_nsfw : ℕ → String → Cues F → Cues F
  raise_nsfw n label cues = record (add_label label cues) { nsfw = float_max fl cues.nsfw (lit n) }

  -- the `try` block behind `Image.open`, without the exception
  unfoldable pub image_cues : ImageStats F → Cues F → Cues F
  image_cues stat c0 =
      let brightness = brightness_of stat in
      let c1 = if is_warm stat then raise_violence 2500 "warm_tones" c0 else c0 in
      let c2 = if ltb brightness (lit 500000) then raise_violence 3500 "dark_scene" c1 else c1 in
      let c3 = if ltb (lit 2000000) brightness then add_label "bright_scene" c2 else c2 in
      if ltb (lit 40000000) (variance_of stat) then add_label "high_contrast" c3 else c3

  abbrev pub calm : Cues F → Cues F
  calm cues = record (add_label "caption_safe_cue" cues) {
    nsfw = float_min fl cues.nsfw (lit 800);
    violence = float_min fl cues.violence (lit 800);
  }

  -- the terms of the caption
  unfoldable pub caption_cues : Text → Cues F → Cues F
  caption_cues cap c0 =
      let c1 = if mentions nsfw_terms cap then raise_nsfw 9200 "caption_nsfw_cue" c0 else c0 in
      let c2 =
        if mentions violence_terms cap then raise_violence 8800 "caption_violence_cue" c1 else c1 in
      if mentions safe_terms cap then calm c2 else c2

  abbrev pub set_nsfw : Cues F → Cues F
  set_nsfw cues = record (add_label "force_nsfw" cues) { nsfw = lit 9500 }

  abbrev pub set_violence : Cues F → Cues F
  set_violence cues = record (add_label "force_violence" cues) { violence = lit 9300 }

  unfoldable pub forced_cues : Text → Cues F → Cues F
  forced_cues cap c0 =
      let c1 = if contains cap (codes "force_nsfw") then set_nsfw c0 else c0 in
      if contains cap (codes "force_violence") then set_violence c1 else c1

  abbrev pub unreadable : List String → Text → VisionSignals F
  unreadable labels exc = record {
    labels = labels ++ ("unreadable_image" ∷ []);
    nsfw_score = lit 5000;
    violence_score = lit 5000;
    ocr_text = [];
    provider = "local";
    model_version = "local-heuristic-v1";
    raw = ("error", RawValue.message exc) ∷ [];
  }

  -- `cap.split("ocr:", 1)[1].strip()[:500]`
  unfoldable pub simulated_ocr : Text → Text
  unfolding after_first
  simulated_ocr cap =
      if contains cap (codes "ocr:") then take 500 (strip (after_first (codes "ocr:") cap)) else []

  -- `analyze` behind the `try`
  unfoldable pub local_signals : F → Text → Cues F → VisionSignals F
  unfolding caption_cues forced_cues simulated_ocr
  local_signals brightness cap c0 =
      let cues = forced_cues cap (caption_cues cap c0) in
      record {
        labels = cues.labels;
        nsfw_score = round4 cues.nsfw;
        violence_score = round4 cues.violence;
        ocr_text = simulated_ocr cap;
        provider = "local";
        model_version = "local-heuristic-v1";
        raw = ("brightness", RawValue.number brightness) ∷ [];
      }

  -- `labels.append(f"resolution:{w}x{h}")`
  abbrev pub resolution : TextOps → OpenedImage F → String
  resolution ops img =
      str_append "resolution:"
        (str_append (ops.show_int img.width) (str_append "x" (ops.show_int img.height)))

  abbrev pub first_cues : TextOps → OpenedImage F → Cues F
  first_cues ops img = record {
    labels = resolution ops img ∷ [];
    nsfw = lit 500;
    violence = lit 500;
  }

  -- the `try` block behind `Image.open`, and its `except`
  unfoldable pub read_stat :
      TextOps → OpenedImage F → Text → Result Text (ImageStats F) → VisionSignals F
  unfolding local_signals image_cues
  read_stat ops img caption (err exc) = unreadable (resolution ops img ∷ []) exc
  read_stat ops img caption (ok stat) =
      local_signals (brightness_of stat) (ops.lower caption) (image_cues stat (first_cues ops img))

  unfoldable pub read_image : TextOps → Text → Result Text (OpenedImage F) → VisionSignals F
  unfolding read_stat
  read_image ops caption (err exc) = unreadable [] exc
  read_image ops caption (ok img) = read_stat ops img caption img.stat

  -- `LocalHeuristicVision.analyze`; `open_image` is Pillow's
  unfoldable pub local_analyze :
      TextOps → (List ℕ → Result Text (OpenedImage F)) → List ℕ → Text → VisionSignals F
  unfolding read_image
  local_analyze ops open_image image_bytes caption = read_image ops caption (open_image image_bytes)
