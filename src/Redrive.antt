-- ===== src/Redrive.antt =====
-- scripts/redrive.py: moving messages of the dead-letter queue back to the main queue. What the
-- queue hands out, the JSON parser and the UUID parser are arguments; printing is left out.
pub mod Loop
pub mod Guarantees
pub mod Plan
pub mod Termination
pub mod Cli
use multimodal_content_moder.Common.{
  ℕ, suc, ◌==◌, String, str_eq, str_append, Bool, true, false, ◌&&◌, ◌||◌, not, is_some, Option,
  none, some, List, [], ◌∷◌, update_where, any, if◌then◌else◌,
}
use multimodal_content_moder.Schema.{
  JobStatus, queued, processing, succeeded, failed, dead, job_status_text, Job, redriven, Db,
  insert_audit, find_job,
}

-- `json.loads(body_raw)`: an error, a value that is no dict, or the three fields of a dict as texts.
-- A value that Python takes for false is the empty text.
pub data Decoded : Type 0 where
  malformed : Decoded
  not_object : Decoded
  object : (job_id content_id content_hash : Option String) → Decoded

-- A message of `receive_message`, with the `StringValue` of its two attributes, and what
-- `send_message` and `delete_message` raise for it.
pub record RawMessage : Type 0 where
  pub message_id : Option String
  pub receipt_handle : Option String
  pub body : Option String
  pub job_id_attribute : Option String
  pub content_hash_attribute : Option String
  pub send_error : Option String
  pub delete_error : Option String

pub record DlqMessage : Type 0 where
  pub message_id : String
  pub receipt_handle : String
  pub body_raw : String
  pub job_id : Option String
  pub content_id : Option String
  pub content_hash : Option String

pub record RedriveAction : Type 0 where
  pub reset_job : Bool
  pub skip_reason : Option String

-- `x or ""`
abbrev pub or_empty : Option String → String
or_empty none = ""
or_empty (some s) = s

-- `x if x else None`
abbrev pub or_none : Option String → Option String
or_none none = none
or_none (some s) = if str_eq s "" then none else some s

-- `if not x and key in attrs: x = attrs[key].get("StringValue")`
abbrev pub or_attribute : Option String → Option String → Option String
or_attribute value attribute = elim (or_none value) [ none ↦ or_none attribute | some s ↦ some s ]

abbrev pub fields_of : Decoded → Option String × Option String × Option String
fields_of malformed = (none, none, none)
fields_of not_object = (none, none, none)
fields_of (object job_id content_id content_hash) = (job_id, content_id, content_hash)

unfoldable pub parse_dlq_message : (String → Decoded) → RawMessage → DlqMessage
parse_dlq_message decode raw =
    let body_raw = or_empty raw.body in
    let (job_id, content_id, content_hash) = fields_of (decode body_raw) in
    record {
      message_id = or_empty raw.message_id;
      receipt_handle = or_empty raw.receipt_handle;
      body_raw = body_raw;
      job_id = or_attribute job_id raw.job_id_attribute;
      content_id = or_none content_id;
      content_hash = or_attribute content_hash raw.content_hash_attribute;
    }

abbrev skip : String → RedriveAction
skip reason = record { reset_job = false; skip_reason = some reason }

abbrev reset : RedriveAction
reset = record { reset_job = true; skip_reason = none }

-- `if job_id_filter and message.job_id != job_id_filter`
abbrev pub filtered_out : Option String → String → Bool
filtered_out none job_id = false
filtered_out (some wanted) job_id = not (str_eq wanted "") && not (str_eq job_id wanted)

-- the end of `plan_redrive`, on the status
unfoldable pub plan_by_status : Option String → RedriveAction
plan_by_status none = reset
plan_by_status (some status) =
    if str_eq status "dead" || str_eq status "failed"
    then reset
    else if str_eq status "succeeded"
    then skip "job_already_succeeded"
    else if str_eq status "queued" || str_eq status "processing"
    then skip (str_append "job_status_" status)
    else skip (str_append "unknown_status_" status)

unfoldable pub plan_redrive :
    (String → Option ℕ) → DlqMessage → Option String → Option String → RedriveAction
plan_redrive parse_uuid message job_id_filter job_status =
    if str_eq message.body_raw "" then skip "empty_body" else elim (or_none message.job_id) [
      | none ↦ skip "missing_job_id"
      | some job_id ↦
          if not (is_some (parse_uuid job_id))
          then skip "invalid_job_id"
          else if filtered_out job_id_filter job_id
          then skip "job_id_filter"
          else plan_by_status job_status
    ]

-- the reasons for which the loop goes on to the next message
abbrev pub is_skip : Option String → Bool
is_skip none = false
is_skip (some reason) =
    str_eq reason "job_id_filter"
    || str_eq reason "empty_body"
    || str_eq reason "missing_job_id"
    || str_eq reason "invalid_job_id"
    || str_eq reason "job_already_succeeded"

-- `status IN ('dead', 'failed')`
abbrev pub is_dead_or_failed : JobStatus → Bool
is_dead_or_failed dead = true
is_dead_or_failed failed = true
is_dead_or_failed _ = false

abbrev pub to_queued : ℕ → Job → Job
to_queued now j = record j {
  status = queued;
  attempts = 0;
  last_error = none;
  started_at = none;
  finished_at = none;
  enqueued_at = now;
}

module _ {F : Type 0} where
  -- `UPDATE jobs ... WHERE id = $1 AND status IN (...) RETURNING id`, and the audit row if there is one
  unfoldable pub reset_job_for_redrive : ℕ → ℕ → Db F → Db F × Bool
  reset_job_for_redrive now job_id db =
      if any (λ j. j.id == job_id && is_dead_or_failed j.status) db.jobs
      then (
        insert_audit "job" job_id "redrive" "redrive-cli" (redriven "dlq" "main_queue") (record db {
          jobs =
              update_where (λ j. j.id == job_id && is_dead_or_failed j.status) (to_queued now)
                db.jobs;
        }),
        true,
      )
      else (db, false)

  -- `SELECT status FROM jobs WHERE id = $1::uuid`
  unfoldable pub fetch_job_status : ℕ → Db F → Option String
  fetch_job_status job_id db = elim (find_job job_id db) [
    | none ↦ none
    | some j ↦ some (job_status_text j.status)
  ]
