-- ===== src/Examples/Worker.antt =====
-- The worker on one queued job: a clean picture, a picture that goes to a human, and a storage that
-- is down.
use mathlib.Core.List.{Perm}
use multimodal_content_moder.Common.{
  ℕ, ◌+◌, ◌≡◌, refl, ◌↔◌, leb, String, str_eq, any, true, false, is_some, Option, none, some, List,
  [], ◌∷◌, ◌++◌, map, find_where, update_where, count_where, arith, codes, if◌then◌else◌,
}
use multimodal_content_moder.Common.Exec.{ok, err}
use multimodal_content_moder.Policy.{
  allow, flag, block, route_decision, effective, default_thresholds,
}
use multimodal_content_moder.Policy.Routing.{AutoGrounds, auto_resolved_iff}
use multimodal_content_moder.Envelope.{DecisionEnvelope, is_confidence}
use multimodal_content_moder.Schema.{
  Job, succeeded, dead, failed, Db, insert_audit, find_job, find_decision,
}
use multimodal_content_moder.Worker.Pipeline.{
  WorkerError, other_error, validate, moderate, build_envelope, thresholds_of, process_job,
  persist_envelope, start_job, finish_job, insert_decision, insert_metrics, record_outcome,
  has_parents,
}
use multimodal_content_moder.Worker.Consumer.{
  JobBody, QueueMessage, Batch, is_succeeded, handle_job, mark_failed, write_failure,
  failure_status, poll_batch, poll_sqs,
}
use multimodal_content_moder.Worker.Retries.{redelivery}
use multimodal_content_moder.Worker.Exhaustion.{deliveries, retries_exhausted}
use multimodal_content_moder.Worker.Consistency.{IsConsistent}
use multimodal_content_moder.Worker.Preservation.{handle_job-IsConsistent, decided_iff_returned}
use multimodal_content_moder.Worker.Pubsub.{poll_pubsub, poll_loop}
use multimodal_content_moder.Worker.Polling.{
  dealt_with, poll_pubsub-eq-poll_sqs, poll_loop-IsConsistent, poll_batch_partition,
}
use multimodal_content_moder.Worker.Race.{late_failure_sticks}
use multimodal_content_moder.Worker.Safety.{IsCleared, published-IsCleared}
use multimodal_content_moder.Examples.Instances.{
  fixed, settings, services_of, broken, message, job, db, vision, llm,
}

-- the database after the delivery of a clean picture
abbrev decided_db : Db ℕ
decided_db = (handle_job fixed settings (services_of allow) 100 message db).1

abbrev decided_job : Job
decided_job = record job {
  status = succeeded;
  attempts = 1;
  started_at = some 100;
  finished_at = some 100;
}

abbrev timeout : WorkerError
timeout = other_error (codes "timeout")

delivery_returns : (handle_job fixed settings (services_of allow) 100 message db).0 ≡ ok tt
unfolding handle_job process_job moderate validate build_envelope persist_envelope find_job
    find_decision find_where any update_where start_job has_parents is_confidence
delivery_returns = refl

decided_there :
    (find_job 7 decided_db ≡ some decided_job) × (is_some (find_decision 7 decided_db) ≡ true)
unfolding handle_job process_job moderate validate build_envelope persist_envelope find_job
    find_decision find_where any update_where start_job has_parents is_confidence record_outcome
    insert_decision finish_job insert_audit insert_metrics effective
decided_there = (refl, refl)

delivery_raises :
    (now : ℕ) (db : Db ℕ)
    → is_succeeded (find_job 7 db) ≡ false
    → is_some (find_decision 7 db) ≡ false
    → (handle_job fixed settings broken now message db).0 ≡ err timeout
unfolding handle_job process_job moderate
delivery_raises now db open_job fresh = ground arith

job_there : find_job 7 db ≡ some job
unfolding find_job find_where
job_there = refl

db-IsConsistent : IsConsistent db
unfolding find_job find_decision find_where count_where
db-IsConsistent = record {
  decided = λ k. ground arith;
  one_decision = λ k. omega arith;
  queued = tt;
  decision_ids = tt;
  review_ids = tt;
}

redelivery_example : handle_job fixed settings broken 200 message decided_db ≡ (ok tt, decided_db)
redelivery_example =
    redelivery fixed settings (services_of allow) 100 message db settings broken 200
      delivery_returns

handle_job-IsConsistent_example : IsConsistent decided_db
handle_job-IsConsistent_example =
    handle_job-IsConsistent fixed settings (services_of allow) 100 message db db-IsConsistent

decided_iff_returned_example :
    ((handle_job fixed settings (services_of allow) 100 message db).0 ≡ ok tt)
    ↔ (is_some (find_decision 7 decided_db) ≡ true)
decided_iff_returned_example =
    decided_iff_returned fixed settings (services_of allow) 100 message db db-IsConsistent

late_failure_sticks_example :
    let db' = mark_failed 300 7 (codes "timeout") decided_db in
    (j' : Job) × (find_job 7 db' ≡ some j')
    × (j'.status ≡ (if leb 3 1 then dead else failed))
    × (handle_job fixed settings (services_of allow) 400 message db' ≡ (ok tt, db'))
late_failure_sticks_example =
    late_failure_sticks fixed settings (services_of allow) 300 400 (codes "timeout") message
      decided_db decided_job decided_there.0 refl decided_there.1

abbrev failed_db : Db ℕ
failed_db = (handle_job fixed settings broken 100 message db).1

raises_now : (handle_job fixed settings broken 100 message db).0 ≡ err timeout
unfolding find_job find_decision find_where
raises_now = delivery_raises 100 db refl refl

-- the second of two deliveries raises as the first did
raises_again : (handle_job fixed settings broken 100 message failed_db).0 ≡ err timeout
unfolding handle_job process_job moderate find_job find_decision find_where start_job update_where
    mark_failed write_failure failure_status insert_audit
raises_again = refl

abbrev failed_twice : Db ℕ
failed_twice = deliveries fixed settings 100 message (broken ∷ broken ∷ []) db

retries_exhausted_example :
    (j' : Job) × (find_job 7 failed_twice ≡ some j')
    × (j'.attempts ≡ 0 + (1 + 1))
    × (j'.max_attempts ≡ 3)
    × (j'.status ≡ (if leb 3 (0 + (1 + 1)) then dead else failed))
    × (failed_twice.decisions ≡ db.decisions)
    × (failed_twice.review_queue ≡ db.review_queue)
retries_exhausted_example =
    retries_exhausted fixed settings 100 message broken (broken ∷ []) db job job_there
      ((timeout, raises_now), ((timeout, raises_again), tt))

abbrev pub clean_envelope : DecisionEnvelope ℕ
clean_envelope = build_envelope fixed settings (services_of allow) 100 message allow llm vision

clean_built : (moderate fixed settings (services_of allow) 100 message db).0 ≡ ok clean_envelope
unfolding moderate validate any is_confidence
clean_built = refl

clean_allowed : clean_envelope.decision ≡ allow
unfolding build_envelope route_decision effective thresholds_of
clean_allowed = refl

published-IsCleared_example :
    IsCleared fixed settings (services_of allow) 100 message clean_envelope
published-IsCleared_example =
    published-IsCleared fixed settings (services_of allow) 100 message db clean_envelope clean_built
      clean_allowed

abbrev picture : List ℕ
picture = 1 ∷ 2 ∷ []

auto_resolved_iff_example :
    ((route_decision fixed block 9500 100 100 (some (thresholds_of fixed settings))).1 ≡ false)
    ↔ AutoGrounds fixed
        (thresholds_of fixed settings)
        block
        9500
        100
        100
        (route_decision fixed block 9500 100 100 (some (thresholds_of fixed settings))).0
auto_resolved_iff_example =
    auto_resolved_iff fixed (thresholds_of fixed settings) block 9500 100 100

routed_allow : (route_decision fixed allow 9500 4000 3000 none).0 ≡ allow
unfolding route_decision effective default_thresholds
routed_allow = refl

-- one message that can be read and one that cannot
abbrev body : JobBody
body = record {
  job_id = some "7";
  content_id = some "3";
  content_hash = some "abc";
  object_key = some "content/ab/abc/3.png";
  caption = none;
}

abbrev batch : List QueueMessage
batch = record { receipt = "r1"; body = some body } ∷ record { receipt = "r2"; body = none } ∷ []

abbrev uuid : String → Option ℕ
uuid text = if str_eq text "7" then some 7 else if str_eq text "3" then some 3 else none

abbrev before : Batch fixed
before = record { db = db; acked = []; left = [] }

poll_pubsub-eq-poll_sqs_example :
    poll_pubsub fixed settings (services_of allow) uuid 100 (some batch ∷ none ∷ []) before
    ≡ (ok tt, poll_sqs fixed settings (services_of allow) uuid 100 (some batch ∷ none ∷ []) before)
poll_pubsub-eq-poll_sqs_example =
    poll_pubsub-eq-poll_sqs fixed settings (services_of allow) uuid 100 (some batch ∷ none ∷ [])
      before refl

poll_loop-IsConsistent_example :
    IsConsistent
      (poll_loop fixed settings
        (services_of flag)
        uuid
        100
        (some batch ∷ some batch ∷ [])
        before).1.db
poll_loop-IsConsistent_example =
    poll_loop-IsConsistent fixed settings (services_of flag) uuid 100 (some batch ∷ some batch ∷ [])
      before db-IsConsistent

poll_batch_partition_example :
    Perm
      (dealt_with fixed settings
        (services_of allow)
        uuid
        100
        (poll_batch fixed settings (services_of allow) uuid 100 batch before))
      ([] ++ map (λ (msg : QueueMessage). msg.receipt) batch)
poll_batch_partition_example =
    poll_batch_partition fixed settings (services_of allow) uuid 100 batch before
