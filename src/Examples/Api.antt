-- ===== src/Examples/Api.antt =====
-- Requests of a tenant in one window, two uploads, and runs of the redrive script.
use multimodal_content_moder.Common.{
  ℕ, ◌-◌, ◌/◌, ◌==◌, ◌≡◌, refl, str_eq, String, true, false, Option, none, some, List, [], ◌∷◌,
  ◌++◌, inr, lower, text_eq, find_where, length, take, arith, codes, strip, lstrip, is_space,
  if◌then◌else◌,
}
use multimodal_content_moder.Common.Exec.{Result, ok, err}
use multimodal_content_moder.Schema.{find_job}
use multimodal_content_moder.RateLimit.{window_of}
use multimodal_content_moder.RateLimit.Window.{decisions, InWindow, Grants, window-Grants}
use multimodal_content_moder.Ingest.Hashing.{utf8, utf8_char, preimage, content_hash}
use multimodal_content_moder.Ingest.Hashing.Injectivity.{preimage-injective, hash_collision}
use multimodal_content_moder.Redrive.{Decoded, RawMessage, parse_dlq_message, plan_redrive}
use multimodal_content_moder.Redrive.Loop.{RunOptions, RunState, redrive_batch, redrive, start}
use multimodal_content_moder.Redrive.Guarantees.{redrive_keeps_live_jobs}
use multimodal_content_moder.Redrive.Cli.{Environ, lookup_env, Arguments, Outside, main}
use multimodal_content_moder.Redrive.Cli.Refusals.{ChangesNothing, main-ChangesNothing}
use multimodal_content_moder.Envelope.{Text}
use multimodal_content_moder.Redrive.Termination.{redrive-take}
use multimodal_content_moder.Redrive.Plan.{malformed_id_ends_run}
use multimodal_content_moder.Examples.Instances.{counters, db, job}

abbrev later : List ℕ
later = 130 ∷ 131 ∷ 179 ∷ []

in_window : InWindow counters (codes "acme") 2 60 (125 / window_of 60) 125 later
in_window = (omega arith, refl, (omega arith, refl, (omega arith, refl, tt)))

window-Grants_example :
    Grants counters
      (codes "acme")
      2
      60
      0
      (decisions counters (codes "acme") 2 60 (125 ∷ later) (λ key t. 0))
window-Grants_example =
    window-Grants counters (codes "acme") 2 60 125 later (λ key t. 0) (omega arith) refl in_window

-- a picture, and the same picture with a NUL and an `A` behind it
abbrev picture : List ℕ
picture = 1 ∷ 2 ∷ []

abbrev longer : List ℕ
longer = 1 ∷ 2 ∷ 0 ∷ 65 ∷ []

abbrev caption : List ℕ
caption = 66 ∷ 32 ∷ []

abbrev policy : List ℕ
policy = 118 ∷ 49 ∷ []

caption_texts :
    (preimage picture caption policy ≡ preimage picture (32 ∷ caption) policy)
    × (strip caption ≡ 66 ∷ [])
    × (strip (32 ∷ caption) ≡ 66 ∷ [])
unfolding preimage strip lstrip is_space utf8 utf8_char
caption_texts = (refl, refl, refl)

preimage-injective_example :
    (picture ≡ picture) × (strip caption ≡ strip (32 ∷ caption)) × (policy ≡ policy)
preimage-injective_example =
    preimage-injective picture picture caption (32 ∷ caption) policy policy
      (rw caption_texts.1 ((omega arith, tt), (omega arith, tt)))
      (rw caption_texts.2 ((omega arith, tt), (omega arith, tt)))
      ((omega arith, (omega arith, tt)), (omega arith, (omega arith, tt)))
      ((omega arith, (omega arith, tt)), (omega arith, (omega arith, tt))) caption_texts.0

-- a function in place of SHA-256
abbrev digest : List ℕ → String
digest bytes = if length bytes == 7 then "seven" else "other"

stripped : (strip (65 ∷ 0 ∷ 66 ∷ []) ≡ 65 ∷ 0 ∷ 66 ∷ []) × (strip (66 ∷ []) ≡ 66 ∷ [])
unfolding strip lstrip is_space
stripped = (refl, refl)

hash_collision_example :
    content_hash digest picture (65 ∷ 0 ∷ 66 ∷ []) policy
    ≡ content_hash digest (picture ++ (0 ∷ utf8 (65 ∷ []))) (66 ∷ []) policy
hash_collision_example =
    hash_collision digest picture (65 ∷ []) (66 ∷ []) policy stripped.0 stripped.1

-- one body that names job 7, and one whose job id is no UUID
abbrev decode : String → Decoded
decode text =
    if str_eq text "good"
    then Decoded.object (some "7") (some "3") (some "abc")
    else Decoded.object (some "seven") none none

abbrev uuid : String → Option ℕ
uuid text = if str_eq text "7" then some 7 else none

abbrev raw_of : String → RawMessage
raw_of text = record {
  message_id = some "m";
  receipt_handle = some "r";
  body = some text;
  job_id_attribute = none;
  content_hash_attribute = none;
  send_error = none;
  delete_error = none;
}

abbrev wet : RunOptions
wet = record { dry_run = false; job_id_filter = none; with_db = true }

abbrev received : List (Result String (List RawMessage))
received = ok (raw_of "good" ∷ raw_of "good" ∷ []) ∷ []

abbrev arguments : Arguments
arguments = record { limit = 10; dry_run = false; job_id = none; stats = false; skip_db = false }

abbrev outside : Outside
outside = record {
  main_attributes =
      ok (record { messages = some "0"; not_visible = none; messages_delayed = none });
  dlq_attributes = ok (record { messages = some "0"; not_visible = none; messages_delayed = none });
  connect = ok tt;
  receives = received;
  parse_int = λ s. ok 0;
  parse_uuid = uuid;
  decode = decode;
}

-- the `.env` file names SQS and the environment does not
abbrev dotenv : List Text
dotenv = codes "# queue" ∷ codes "QUEUE_PROVIDER='sqs'" ∷ []

abbrev environ : Environ
environ = (codes "QUEUE_PROVIDER", codes "PubSub") ∷ []

provider_there : lookup_env (codes "QUEUE_PROVIDER") environ ≡ some (codes "PubSub")
unfolding lookup_env text_eq codes
provider_there = refl

other_name : text_eq (lower (codes "PubSub")) (codes "sqs") ≡ false
unfolding lower text_eq codes
other_name = refl

main-ChangesNothing_example : ChangesNothing db (main 100 arguments dotenv environ outside db).1
main-ChangesNothing_example =
    main-ChangesNothing 100 arguments dotenv environ outside db
      (inr (inr (codes "PubSub", provider_there, other_name)))

job_there : find_job 7 db ≡ some job
unfolding find_job find_where
job_there = refl

redrive_keeps_live_jobs_example :
    find_job 7 (redrive uuid decode wet 100 10 received db).1.db ≡ some job
redrive_keeps_live_jobs_example =
    redrive_keeps_live_jobs uuid decode wet 100 10 received db 7 job refl job_there

bad_message :
    ((parse_dlq_message decode (raw_of "bad")).job_id ≡ some "seven")
    × (str_eq (parse_dlq_message decode (raw_of "bad")).body_raw "" ≡ false)
unfolding parse_dlq_message
bad_message = (refl, refl)

abbrev begin_state : RunState ℕ
begin_state = start uuid decode wet 100 10 db

malformed_id_ends_run_example :
    (redrive_batch uuid decode wet 100 (raw_of "bad" ∷ raw_of "good" ∷ []) begin_state
      ≡ (err "invalid input for query argument $1", record begin_state { remaining = 10 - 1 }))
    × ((plan_redrive uuid (parse_dlq_message decode (raw_of "bad")) none none).skip_reason
        ≡ some "invalid_job_id")
malformed_id_ends_run_example =
    malformed_id_ends_run uuid decode wet 100 (raw_of "bad") (raw_of "good" ∷ []) begin_state
      "seven" none refl bad_message.0 refl bad_message.1 refl

redrive-take_example :
    redrive uuid decode wet 100 1 (received ++ received) db
    ≡ redrive uuid decode wet 100 1 (take 1 (received ++ received)) db
redrive-take_example = redrive-take uuid decode wet 100 1 (received ++ received) db
