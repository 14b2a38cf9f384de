-- ===== src/Redrive/Cli.antt =====
-- scripts/redrive.py around the loop: the `.env` file, the environment, the depths of the queues, and
-- `main` with the refusals of `redrive`, which answers the exit code or the exception. Printing is
-- left out. A negative limit is refused as 0 is.
pub mod Dotenv
pub mod Refusals
use multimodal_content_moder.Common.{
  ℕ, ◌==◌, ltb, String, str_eq, Bool, true, false, ◌&&◌, ◌||◌, not, Option, none, some, List, [],
  ◌∷◌, ◌++◌, length, if◌then◌else◌, codes, text_eq, lower, strip, starts_with, contains,
}
use multimodal_content_moder.Common.Exec.{Result, ok, err}
use multimodal_content_moder.Envelope.{Text}
use multimodal_content_moder.Schema.{Db}
use multimodal_content_moder.Redrive.{Decoded, RawMessage}
use multimodal_content_moder.Redrive.Loop.{RunOptions, RunState, start, redrive}

-- `os.environ`
abbrev pub Environ : Type 0
Environ = List (Text × Text)

unfoldable pub lookup_env : Text → Environ → Option Text
lookup_env name [] = none
lookup_env name ((key, value) ∷ environ) =
    let later = lookup_env name environ in if text_eq key name then some value else later

-- `env(name, default)`
unfoldable pub env : Text → Text → Environ → Text
unfolding lookup_env
env name default environ = elim (lookup_env name environ) [ none ↦ default | some value ↦ value ]

-- `line.partition("=")`: what is before the first `=`, and what is behind it
unfoldable pub partition_eq : Text → Text → Text × Text
partition_eq before [] = (before, [])
partition_eq before (c ∷ s) =
    let later = partition_eq (before ++ (c ∷ [])) s in if c == b'=' then (before, s) else later

-- `s.lstrip(chars)` and `s.rstrip(chars)` for one character
unfoldable pub lstrip_char : ℕ → Text → Text
lstrip_char c [] = []
lstrip_char c (x ∷ s) = let rest = lstrip_char c s in if x == c then rest else x ∷ s

unfoldable pub rstrip_char : ℕ → Text → Text
rstrip_char c [] = []
rstrip_char c (x ∷ s) =
    let rest = rstrip_char c s in if x == c && length rest == 0 then [] else x ∷ rest

abbrev pub strip_char : ℕ → Text → Text
strip_char c s = rstrip_char c (lstrip_char c s)

-- `os.environ.setdefault(key, value)`
unfoldable pub set_default : Text → Text → Environ → Environ
set_default key value environ = elim (lookup_env key environ) [
  | none ↦ (key, value) ∷ environ
  | some old ↦ environ
]

abbrev pub set_entry : Text × Text → Environ → Environ
set_entry (key, value) environ =
    set_default (strip key) (strip_char 34 (strip_char 39 (strip value))) environ

-- one line of the file
unfoldable pub load_line : Text → Environ → Environ
unfolding set_default partition_eq lstrip_char rstrip_char
load_line text environ =
    let line = strip text in
    if length line == 0 || starts_with line (codes "#") || not (contains line (codes "="))
    then environ
    else set_entry (partition_eq [] line) environ

-- `_load_dotenv`, on the lines of the file if there is one
unfoldable pub load_dotenv : List Text → Environ → Environ
unfolding load_line
load_dotenv [] environ = environ
load_dotenv (line ∷ lines) environ = load_dotenv lines (load_line line environ)

pub record QueueStats : Type 0 where
  pub available : ℕ
  pub in_flight : ℕ
  pub delayed : ℕ

-- the three attributes of an answer of `get_queue_attributes`
pub record QueueAttributes : Type 0 where
  pub messages : Option String
  pub not_visible : Option String
  pub messages_delayed : Option String

abbrev pub or_zero : Option String → String
or_zero none = "0"
or_zero (some s) = s

-- the three calls of `int`, in order
abbrev pub stats_of : Result String ℕ → Result String ℕ → Result String ℕ → Result String QueueStats
stats_of (err e) _ _ = err e
stats_of (ok a) (err e) _ = err e
stats_of (ok a) (ok b) (err e) = err e
stats_of (ok a) (ok b) (ok c) = ok (record { available = a; in_flight = b; delayed = c })

abbrev pub read_stats :
    (String → Result String ℕ) → Result String QueueAttributes → Result String QueueStats
read_stats parse_int (err e) = err e
read_stats parse_int (ok a) =
    stats_of (parse_int (or_zero a.messages)) (parse_int (or_zero a.not_visible))
      (parse_int (or_zero a.messages_delayed))

-- the parsed arguments
pub record Arguments : Type 0 where
  pub limit : ℕ
  pub dry_run : Bool
  pub job_id : Option String
  pub stats : Bool
  pub skip_db : Bool

-- What the script gets from outside: the two answers on the queues, the connection to Postgres, and
-- what the receive calls return.
pub record Outside : Type 0 where
  pub main_attributes : Result String QueueAttributes
  pub dlq_attributes : Result String QueueAttributes
  pub connect : Result String (Unit {0})
  pub receives : List (Result String (List RawMessage))
  pub parse_int : String → Result String ℕ
  pub parse_uuid : String → Option ℕ
  pub decode : String → Decoded

abbrev pub options_of : Arguments → RunOptions
options_of args = record {
  dry_run = args.dry_run;
  job_id_filter = args.job_id;
  with_db = not args.skip_db;
}

abbrev pub provider_of : Environ → Text
provider_of environ = lower (env (codes "QUEUE_PROVIDER") (codes "sqs") environ)

abbrev pub printed : Result String QueueStats → Result String QueueStats → Result String ℕ
printed (err e) _ = err e
printed (ok m) (err e) = err e
printed (ok m) (ok d) = ok 0

module _ {F : Type 0} where
  -- the state in which nothing has been done yet
  abbrev pub untouched : ℕ → Arguments → Outside → Db F → RunState F
  untouched now args o db = start o.parse_uuid o.decode (options_of args) now args.limit db

  abbrev pub exit_zero : Result String (Unit {0}) × RunState F → Result String ℕ × RunState F
  exit_zero (ok _, s) = (ok 0, s)
  exit_zero (err e, s) = (err e, s)

  abbrev pub run_connected :
      ℕ → Arguments → Outside → Db F → Result String (Unit {0}) → Result String ℕ × RunState F
  run_connected now args o db (err e) = (ok 2, untouched now args o db)
  run_connected now args o db (ok _) =
      exit_zero (redrive o.parse_uuid o.decode (options_of args) now args.limit o.receives db)

  abbrev pub after_stats :
      ℕ
      → Arguments
      → Outside
      → Db F
      → Result String QueueStats
      → Result String QueueStats
      → Result String ℕ × RunState F
  after_stats now args o db (err e) _ = (err e, untouched now args o db)
  after_stats now args o db (ok m) (err e) = (err e, untouched now args o db)
  after_stats now args o db (ok m) (ok d) =
      run_connected now args o db (if args.skip_db then ok tt else o.connect)

  -- `redrive` with its refusals: the code that it returns, or the exception
  unfoldable pub redrive_command :
      ℕ → Arguments → Environ → Outside → Db F → Result String ℕ × RunState F
  unfolding redrive env
  redrive_command now args environ o db =
      if not (text_eq (provider_of environ) (codes "sqs"))
      then (ok 2, untouched now args o db)
      else after_stats now args o db (read_stats o.parse_int o.main_attributes)
          (read_stats o.parse_int o.dlq_attributes)

  -- `main`, with the lines of the `.env` file
  unfoldable pub main :
      ℕ → Arguments → List Text → Environ → Outside → Db F → Result String ℕ × RunState F
  unfolding redrive_command
  main now args lines environ o db =
      let loaded = load_dotenv lines environ in
      if ltb args.limit 1
      then (ok 2, untouched now args o db)
      else if args.stats
      then (
        if not (text_eq (provider_of loaded) (codes "sqs"))
            then ok 2
            else printed (read_stats o.parse_int o.main_attributes)
                (read_stats o.parse_int o.dlq_attributes),
        untouched now args o db,
      )
      else redrive_command now args loaded o db
