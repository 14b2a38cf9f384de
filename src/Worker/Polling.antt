-- ===== src/Worker/Polling.antt =====
-- Batches of messages: SQS deletes each handled message at once, Pub/Sub collects the ids of a pull.
use mathlib.Core.List.{Perm, perm_middle, perm_append_singleton, append-nil, append_assoc}
use mathlib.Core.List.Perm
use mathlib.Core.Path.{subst}
use multimodal_content_moder.Common.{
  ℕ, ◌≡◌, refl, sym, ap, ◌∙◌, String, str_eq, false, Option, none, some, Option-cases, inl, inr,
  List, [], ◌∷◌, ◌++◌, map, arith, ◌⊎◌, Bool-cases, codes, lower, text_eq,
}
use multimodal_content_moder.Common.Exec.{Result, ok, err, Result-cases}
use multimodal_content_moder.Common.Float.{FloatOps}
use multimodal_content_moder.Schema.{Db}
use multimodal_content_moder.Worker.Pipeline.{
  Settings, Services, WorkerError, validation_error, other_error, JobMessage,
}
use multimodal_content_moder.Worker.Consumer.{
  JobBody, QueueMessage, Batch, settle, consume, handle_message, read_body, poll_batch, poll_sqs,
  handle_job,
}
use multimodal_content_moder.Worker.Pubsub.{
  Pull, consume_pulled, note_pulled, pull_batch, acknowledge, pull_loop, poll_pubsub, poll_loop,
}
use multimodal_content_moder.Worker.Consistency.{IsConsistent}
use multimodal_content_moder.Worker.Preservation.{handle_job-IsConsistent}

module _ (fl : FloatOps) (settings : Settings fl.F) (services : Services fl.F)
    (parse_uuid : String → Option ℕ) (now : ℕ) where
  -- A batch adds its receipts behind those that are there, and they do not depend on them.
  abbrev pub behind : Batch fl → Batch fl → Batch fl
  behind b new = record { db = new.db; acked = b.acked ++ new.acked; left = b.left ++ new.left }

  abbrev pub from_db : Db fl.F → Batch fl
  from_db db = record { db = db; acked = []; left = [] }

  settle-behind :
      (receipt : String) (r : Result WorkerError (Unit {0})) (db : Db fl.F) (b c : Batch fl)
      → settle fl receipt (r, db) (behind b c) ≡ behind b (settle fl receipt (r, db) c)
  unfolding settle
  settle-behind receipt (ok _) db b c = simp append_assoc
  settle-behind receipt (err (validation_error _)) db b c = simp append_assoc
  settle-behind receipt (err (other_error _)) db b c = simp append_assoc

  poll_batch-behind :
      (msgs : List QueueMessage) (b c : Batch fl)
      → poll_batch fl settings services parse_uuid now msgs (behind b c)
        ≡ behind b (poll_batch fl settings services parse_uuid now msgs c)
  unfolding poll_batch
  poll_batch-behind [] b c = refl
  poll_batch-behind (msg ∷ rest) b c =
      let (r, db) = consume fl settings services parse_uuid now msg c.db in
      rw (settle-behind msg.receipt r db b c)
        (poll_batch-behind rest b (settle fl msg.receipt (r, db) c))

  -- a pull as a batch
  abbrev pub batch_of : Pull fl → Batch fl
  batch_of p = record { db = p.db; acked = p.ack_ids; left = p.nack_ids }

  note_pulled-eq-settle :
      (ack_id : String) (r : Result WorkerError (Unit {0})) (db : Db fl.F) (p : Pull fl)
      → batch_of (note_pulled fl ack_id (r, db) p) ≡ settle fl ack_id (r, db) (batch_of p)
  unfolding note_pulled settle
  note_pulled-eq-settle ack_id (ok _) db p = refl
  note_pulled-eq-settle ack_id (err (validation_error _)) db p = refl
  note_pulled-eq-settle ack_id (err (other_error _)) db p = refl

  consume_pulled-eq-consume :
      (msg : QueueMessage) (db : Db fl.F)
      → consume_pulled fl settings services parse_uuid now msg db
        ≡ consume fl settings services parse_uuid now msg db
  unfolding consume_pulled consume
  consume_pulled-eq-consume msg db = refl

  pull_batch-eq-poll_batch :
      (msgs : List QueueMessage) (p : Pull fl)
      → batch_of (pull_batch fl settings services parse_uuid now msgs p)
        ≡ poll_batch fl settings services parse_uuid now msgs (batch_of p)
  unfolding pull_batch poll_batch
  pull_batch-eq-poll_batch [] p = refl
  pull_batch-eq-poll_batch (msg ∷ rest) p =
      let r = consume_pulled fl settings services parse_uuid now msg p.db in
      pull_batch-eq-poll_batch rest (note_pulled fl msg.receipt r p)
      ∙ ap (poll_batch fl settings services parse_uuid now rest) (
          note_pulled-eq-settle msg.receipt r.0 r.1 p
          ∙ ap (λ x. settle fl msg.receipt x (batch_of p)) (consume_pulled-eq-consume msg p.db))

  acknowledge-eq-behind : (p : Pull fl) (b : Batch fl) → acknowledge fl p b ≡ behind b (batch_of p)
  unfolding acknowledge
  acknowledge-eq-behind p b = ground (arith, append-nil b.acked, append-nil b.left)

  pull_batch-acknowledge :
      (msgs : List QueueMessage) (b : Batch fl)
      → acknowledge fl
          (pull_batch fl settings services parse_uuid now msgs
            (record { db = b.db; ack_ids = []; nack_ids = [] }))
          b
        ≡ poll_batch fl settings services parse_uuid now msgs b
  pull_batch-acknowledge msgs b =
      let none_yet : Pull fl = record { db = b.db; ack_ids = []; nack_ids = [] } in
      acknowledge-eq-behind (pull_batch fl settings services parse_uuid now msgs none_yet) b
      ∙ ap (behind b) (pull_batch-eq-poll_batch msgs none_yet)
      ∙ sym (poll_batch-behind msgs b (from_db b.db))
      ∙ ap (poll_batch fl settings services parse_uuid now msgs) (simp append-nil)

  pull_loop-eq-poll_sqs :
      (receives : List (Option (List QueueMessage))) (b : Batch fl)
      → pull_loop fl settings services parse_uuid now receives b
        ≡ poll_sqs fl settings services parse_uuid now receives b
  unfolding pull_loop poll_sqs
  pull_loop-eq-poll_sqs [] b = refl
  pull_loop-eq-poll_sqs (none ∷ rest) b = pull_loop-eq-poll_sqs rest b
  pull_loop-eq-poll_sqs (some msgs ∷ rest) b =
      rw (pull_batch-acknowledge msgs b)
        (pull_loop-eq-poll_sqs rest (poll_batch fl settings services parse_uuid now msgs b))

  -- Where a project is configured, the Pub/Sub consumer, which acknowledges at the end of a pull, and
  -- the SQS consumer, which deletes each message at once, do the same with the same messages: the same
  -- database, and the same messages acknowledged and left, in the same order.
  pub poll_pubsub-eq-poll_sqs :
      (receives : List (Option (List QueueMessage))) (b : Batch fl)
      → str_eq settings.gcp_project "" ≡ false
      → poll_pubsub fl settings services parse_uuid now receives b
        ≡ (ok tt, poll_sqs fl settings services parse_uuid now receives b)
  unfolding poll_pubsub
  poll_pubsub-eq-poll_sqs receives b project =
      rw project (ap (λ x. (ok tt, x)) (pull_loop-eq-poll_sqs receives b))

  read_body-state : (body : JobBody) (db : Db fl.F) → (read_body parse_uuid body db).1 ≡ db
  unfolding read_body
  read_body-state body db = ground arith

  -- a body that cannot be read changes nothing, and any other is a delivery
  consume_cases :
      (msg : QueueMessage) (db : Db fl.F)
      → ((consume fl settings services parse_uuid now msg db).1 ≡ db)
        ⊎ ((m : JobMessage) × ((consume fl settings services parse_uuid now msg db).1
              ≡ (handle_job fl settings services now m db).1))
  unfolding consume handle_message
  consume_cases msg db = elim (Option-cases msg.body) [
    | inl broken ↦ inl (ground arith)
    | inr (body, parsed) ↦
        let kept = read_body-state body db in
        elim (Result-cases (read_body parse_uuid body db).0) [
          | inr (x, bad) ↦ inl (ground arith)
          | inl (m, good) ↦ inr (m, ground arith)
        ]
  ]

  consume-IsConsistent :
      (msg : QueueMessage) (db : Db fl.F)
      → IsConsistent db
      → IsConsistent (consume fl settings services parse_uuid now msg db).1
  consume-IsConsistent msg db h = elim (consume_cases msg db) [
    | inl same ↦ rw same h
    | inr (m, ran) ↦ rw ran (handle_job-IsConsistent fl settings services now m db h)
  ]

  db-settle :
      (receipt : String) (r : Result WorkerError (Unit {0})) (db : Db fl.F) (b : Batch fl)
      → (settle fl receipt (r, db) b).db ≡ db
  unfolding settle
  db-settle receipt (ok _) db b = refl
  db-settle receipt (err (validation_error _)) db b = refl
  db-settle receipt (err (other_error _)) db b = refl

  poll_batch-IsConsistent :
      (msgs : List QueueMessage) (b : Batch fl)
      → IsConsistent b.db
      → IsConsistent (poll_batch fl settings services parse_uuid now msgs b).db
  unfolding poll_batch
  poll_batch-IsConsistent [] b h = h
  poll_batch-IsConsistent (msg ∷ rest) b h =
      let (r, db) = consume fl settings services parse_uuid now msg b.db in
      poll_batch-IsConsistent rest (settle fl msg.receipt (r, db) b)
        (rw (db-settle msg.receipt r db b) (consume-IsConsistent msg b.db h))

  poll_sqs-IsConsistent :
      (receives : List (Option (List QueueMessage))) (b : Batch fl)
      → IsConsistent b.db
      → IsConsistent (poll_sqs fl settings services parse_uuid now receives b).db
  unfolding poll_sqs
  poll_sqs-IsConsistent [] b h = h
  poll_sqs-IsConsistent (none ∷ rest) b h = poll_sqs-IsConsistent rest b h
  poll_sqs-IsConsistent (some msgs ∷ rest) b h =
      poll_sqs-IsConsistent rest (poll_batch fl settings services parse_uuid now msgs b)
        (poll_batch-IsConsistent msgs b h)

  poll_pubsub-IsConsistent :
      (receives : List (Option (List QueueMessage))) (b : Batch fl)
      → IsConsistent b.db
      → IsConsistent (poll_pubsub fl settings services parse_uuid now receives b).1.db
  unfolding poll_pubsub
  poll_pubsub-IsConsistent receives b h = elim (Bool-cases (str_eq settings.gcp_project "")) [
    | inl missing ↦ rw missing h
    | inr project ↦
        rw project (rw (pull_loop-eq-poll_sqs receives b) (poll_sqs-IsConsistent receives b h))
  ]

  -- The polling loop keeps the tables consistent, under either queue and whatever it receives.
  pub poll_loop-IsConsistent :
      (receives : List (Option (List QueueMessage))) (b : Batch fl)
      → IsConsistent b.db
      → IsConsistent (poll_loop fl settings services parse_uuid now receives b).1.db
  unfolding poll_loop
  poll_loop-IsConsistent receives b h =
      elim (Bool-cases (text_eq (lower settings.queue_provider) (codes "pubsub"))) [
        | inl pubsub ↦ rw pubsub (poll_pubsub-IsConsistent receives b h)
        | inr sqs ↦ rw sqs (poll_sqs-IsConsistent receives b h)
      ]

  -- the receipts that a batch has dealt with
  abbrev pub dealt_with : Batch fl → List String
  dealt_with b = b.acked ++ b.left

  settle-perm :
      (receipt : String) (r : Result WorkerError (Unit {0})) (db : Db fl.F) (b : Batch fl)
      → Perm (dealt_with (settle fl receipt (r, db) b)) (receipt ∷ dealt_with b)
  unfolding settle
  settle-perm receipt (ok _) db b = rw append_assoc (perm_middle b.acked b.left)
  settle-perm receipt (err (validation_error _)) db b = rw append_assoc (perm_middle b.acked b.left)
  settle-perm receipt (err (other_error _)) db b =
      subst (λ l. Perm l (receipt ∷ dealt_with b)) (append_assoc b.acked b.left (receipt ∷ []))
        (perm_append_singleton receipt (dealt_with b))

  -- Every message of a batch is acknowledged or left, exactly once, and no other is.
  pub poll_batch_partition :
      (msgs : List QueueMessage) (b : Batch fl)
      → Perm
          (dealt_with (poll_batch fl settings services parse_uuid now msgs b))
          (dealt_with b ++ map (λ msg. msg.receipt) msgs)
  unfolding poll_batch
  poll_batch_partition [] b = rw append-nil (Perm.refl (dealt_with b))
  poll_batch_partition (msg ∷ rest) b =
      let (r, db) = consume fl settings services parse_uuid now msg b.db in
      let receipts = map (λ (x : QueueMessage). x.receipt) rest in
      Perm.trans (poll_batch_partition rest (settle fl msg.receipt (r, db) b)) (
        Perm.trans (Perm.append_right receipts (settle-perm msg.receipt r db b))
          (Perm.symm (perm_middle (dealt_with b) receipts)))
