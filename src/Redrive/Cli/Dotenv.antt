-- ===== src/Redrive/Cli/Dotenv.antt =====
-- The environment of the redrive script goes before its `.env` file.
use multimodal_content_moder.Common.{
  ◌==◌, ◌≡◌, refl, ap, ◌∙◌, true, false, Bool-cases, Option-cases, inl, inr, some, List, [], ◌∷◌,
  arith, text_eq, text_eq_iff, codes, length, starts_with, contains, strip, ◌||◌, not, lower,
}
use multimodal_content_moder.Envelope.{Text}
use multimodal_content_moder.Redrive.Cli.{
  Environ, lookup_env, env, set_default, load_line, load_dotenv, partition_eq, set_entry,
  strip_char, provider_of,
}

keeps_default :
    (name key value old : Text) (environ : Environ)
    → lookup_env name environ ≡ some old
    → lookup_env name (set_default key value environ) ≡ some old
unfolding set_default lookup_env
keeps_default name key value old environ h = elim (Option-cases (lookup_env key environ)) [
  | inr (w, there) ↦ rw (there, set_default) h
  | inl missing ↦ elim (Bool-cases (text_eq key name)) [
    | inr other ↦ rw (missing, set_default) (rw (other, lookup_env) h)
    | inl same ↦ absurd (ground (arith, (text_eq_iff key name).0 same, h, missing))
  ]
]

keeps_entry :
    (name old : Text) (entry : Text × Text) (environ : Environ)
    → lookup_env name environ ≡ some old
    → lookup_env name (set_entry entry environ) ≡ some old
keeps_entry name old (key, value) environ h =
    keeps_default name (strip key) (strip_char 34 (strip_char 39 (strip value))) old environ h

keeps_line :
    (name line old : Text) (environ : Environ)
    → lookup_env name environ ≡ some old
    → lookup_env name (load_line line environ) ≡ some old
unfolding load_line
keeps_line name line old environ h =
    let entry = partition_eq [] (strip line) in
    let kept = keeps_entry name old entry environ h in
    elim (Bool-cases (
      length (strip line) == 0
      || starts_with (strip line) (codes "#")
      || not (contains (strip line) (codes "=")))) [
        | inl skipped ↦ rw (skipped, load_line) h
        | inr used ↦ rw (used, load_line) kept
      ]

-- a variable of the environment is not overwritten by the `.env` file, whatever its lines are.
pub load_dotenv_keeps :
    (name old : Text) (lines : List Text) (environ : Environ)
    → lookup_env name environ ≡ some old
    → lookup_env name (load_dotenv lines environ) ≡ some old
unfolding load_dotenv
load_dotenv_keeps name old [] environ h = h
load_dotenv_keeps name old (line ∷ lines) environ h =
    load_dotenv_keeps name old lines (load_line line environ) (keeps_line name line old environ h)

-- a queue provider that is not SQS, set in the environment itself
abbrev pub HasOtherProvider : Environ → Type 0
HasOtherProvider environ =
    (p : Text) × (lookup_env (codes "QUEUE_PROVIDER") environ ≡ some p)
    × (text_eq (lower p) (codes "sqs") ≡ false)

env_of :
    (name default value : Text) (environ : Environ)
    → lookup_env name environ ≡ some value
    → env name default environ ≡ value
unfolding env
env_of name default value environ there = rw (there, env) refl

pub other_provider :
    (lines : List Text) (environ : Environ)
    → HasOtherProvider environ
    → not (text_eq (provider_of (load_dotenv lines environ)) (codes "sqs")) ≡ true
other_provider lines environ (p, set, other) =
    let name = codes "QUEUE_PROVIDER" in
    let kept = load_dotenv_keeps name p lines environ set in
    ap (λ t. not (text_eq (lower t) (codes "sqs")))
      (env_of name (codes "sqs") p (load_dotenv lines environ) kept)
    ∙ ap not other
