-- ===== src/Worker/Pubsub.antt =====
-- apps/worker/worker/main.py: `poll_pubsub`, which collects the ids of a pull and acknowledges them at
-- its end, and `poll_loop`, which chooses the consumer. As for SQS, a call that acknowledges messages
-- is taken to succeed.
use multimodal_content_moder.Common.{
  ℕ, String, str_eq, Option, none, some, List, [], ◌∷◌, ◌++◌, if◌then◌else◌, codes, text_eq, lower,
}
use multimodal_content_moder.Common.Exec.{Result, ok, err, Exec, raise}
use multimodal_content_moder.Common.Float.{FloatOps}
use multimodal_content_moder.Schema.{Db}
use multimodal_content_moder.Worker.Pipeline.{
  Settings, WorkerError, validation_error, other_error, Services,
}
use multimodal_content_moder.Worker.Consumer.{
  QueueMessage, handle_message, Batch, Receives, poll_sqs,
}

module _ (fl : FloatOps) where
  open fl use {F}

  -- `ack_ids` and `nack_ids` of a pull, and the database
  pub record Pull : Type 0 where
    pub db : Db F
    pub ack_ids : List String
    pub nack_ids : List String

  -- the body of the `try`: the message's data is decoded, parsed and handled
  unfoldable pub consume_pulled :
      Settings F
      → Services F
      → (String → Option ℕ)
      → ℕ
      → QueueMessage
      → Exec WorkerError (Db F) (Unit {0})
  consume_pulled settings services parse_uuid now msg = elim msg.body [
    | none ↦ raise (other_error (codes "Expecting value"))
    | some body ↦ handle_message fl settings services parse_uuid now body
  ]

  -- `ack_ids.append` behind the `try`, and the two `except` clauses
  unfoldable pub note_pulled : String → Result WorkerError (Unit {0}) × Db F → Pull → Pull
  note_pulled ack_id (ok _, db) p = record p { db = db; ack_ids = p.ack_ids ++ (ack_id ∷ []) }
  note_pulled ack_id (err (validation_error _), db) p = record p {
    db = db;
    ack_ids = p.ack_ids ++ (ack_id ∷ []);
  }
  note_pulled ack_id (err (other_error _), db) p = record p {
    db = db;
    nack_ids = p.nack_ids ++ (ack_id ∷ []);
  }

  -- `for msg in received`
  unfoldable pub pull_batch :
      Settings F → Services F → (String → Option ℕ) → ℕ → List QueueMessage → Pull → Pull
  unfolding consume_pulled note_pulled
  pull_batch settings services parse_uuid now [] p = p
  pull_batch settings services parse_uuid now (msg ∷ rest) p =
      pull_batch settings services parse_uuid now rest
        (note_pulled msg.receipt (consume_pulled settings services parse_uuid now msg p.db) p)

  -- `if ack_ids: acknowledge(...)`, `if nack_ids: modify_ack_deadline(...)`
  unfoldable pub acknowledge : Pull → Batch fl → Batch fl
  acknowledge p b = record {
    db = p.db;
    acked = elim p.ack_ids [ [] ↦ b.acked | r ∷ rs ↦ b.acked ++ (r ∷ rs) ];
    left = elim p.nack_ids [ [] ↦ b.left | r ∷ rs ↦ b.left ++ (r ∷ rs) ];
  }

  -- `while not _shutdown.is_set()`
  unfoldable pub pull_loop :
      Settings F → Services F → (String → Option ℕ) → ℕ → Receives fl → Batch fl → Batch fl
  unfolding acknowledge pull_batch
  pull_loop settings services parse_uuid now [] b = b
  pull_loop settings services parse_uuid now (none ∷ rest) b =
      pull_loop settings services parse_uuid now rest b
  pull_loop settings services parse_uuid now (some received ∷ rest) b =
      pull_loop settings services parse_uuid now rest (
        acknowledge
          (pull_batch settings services parse_uuid now received
            (record { db = b.db; ack_ids = []; nack_ids = [] }))
          b)

  abbrev pub Polled : Type 0
  Polled = Result WorkerError (Unit {0}) × Batch fl

  unfoldable pub poll_pubsub :
      Settings F → Services F → (String → Option ℕ) → ℕ → Receives fl → Batch fl → Polled
  unfolding pull_loop
  poll_pubsub settings services parse_uuid now receives b =
      if str_eq settings.gcp_project ""
      then (err (other_error (codes "GCP_PROJECT is required when QUEUE_PROVIDER=pubsub")), b)
      else (ok tt, pull_loop settings services parse_uuid now receives b)

  unfoldable pub poll_loop :
      Settings F → Services F → (String → Option ℕ) → ℕ → Receives fl → Batch fl → Polled
  unfolding poll_pubsub
  poll_loop settings services parse_uuid now receives b =
      if text_eq (lower settings.queue_provider) (codes "pubsub")
      then poll_pubsub settings services parse_uuid now receives b
      else (ok tt, poll_sqs fl settings services parse_uuid now receives b)
