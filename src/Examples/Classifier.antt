-- ===== src/Examples/Classifier.antt =====
-- The rules classifier on two captions of a clean picture.
use multimodal_content_moder.Common.{
  ◌==◌, ◌≡◌, refl, ◌↔◌, str_eq, true, false, ◌&&◌, codes, contains, starts_with, lower,
  if◌then◌else◌,
}
use multimodal_content_moder.Policy.{allow, flag, block, default_thresholds, is_hard, is_soft}
use multimodal_content_moder.Worker.Classifier.{
  TextOps, block_patterns, flag_patterns, first_match, text_of, is_ambiguous, is_long,
}
use multimodal_content_moder.Worker.Classifier.Outcome.{
  outcome, is_hit, block_pattern_outcome, publishes_iff,
}
use multimodal_content_moder.Examples.Instances.{fixed, vision}

-- of the patterns, this search knows one word of the first
abbrev pub ops : TextOps
ops = record {
  search = λ pat text. str_eq pat "\\b(kill yourself|kys)\\b" && contains text (codes "kys");
  lower = lower;
  upper = λ text. text;
  show_int = λ n. if n == 320 then "320" else "240";
}

hit : is_hit fixed ops block_patterns (codes "Kys now") vision ≡ true
unfolding first_match contains starts_with lower codes
hit = refl

block_pattern_outcome_example :
    let t = default_thresholds fixed in
    let hard = is_hard fixed t vision.nsfw_score vision.violence_score in
    let soft = is_soft fixed t vision.nsfw_score vision.violence_score in
    ((outcome fixed ops (codes "Kys now") vision).0
      ≡ (if hard then block else if soft then flag else block))
    × ((outcome fixed ops (codes "Kys now") vision).1 ≡ (if hard then false else soft))
block_pattern_outcome_example = block_pattern_outcome fixed ops (codes "Kys now") vision hit

publishes_iff_example : ((outcome fixed ops (codes "a tree in a field") vision).0 ≡ allow) ↔ (
    (is_hit fixed ops block_patterns (codes "a tree in a field") vision ≡ false)
    × (is_hit fixed ops flag_patterns (codes "a tree in a field") vision ≡ false)
    × (is_ambiguous (text_of ops (codes "a tree in a field") vision) ≡ false)
    × (is_long (codes "a tree in a field") ≡ true)
    × (is_soft fixed (default_thresholds fixed) vision.nsfw_score vision.violence_score ≡ false))
publishes_iff_example = publishes_iff fixed ops (codes "a tree in a field") vision
