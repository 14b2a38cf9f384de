-- ===== src/Redrive/Loop.antt =====
-- The loop of `redrive` in scripts/redrive.py, behind the connection to the queue and to Postgres.
-- `with_db` is false under `--skip-db`. asyncpg raises on a text that is no UUID: the run ends then,
-- with what it has done so far.
use multimodal_content_moder.Common.{
  ℕ, suc, ◌-◌, leb, String, Bool, ◌&&◌, Option, none, some, List, [], ◌∷◌, ◌++◌, if◌then◌else◌,
}
use multimodal_content_moder.Common.Exec.{Result, ok, err}
use multimodal_content_moder.Schema.{Db}
use multimodal_content_moder.Redrive.{
  Decoded, RawMessage, DlqMessage, RedriveAction, parse_dlq_message, plan_redrive, is_skip,
  reset_job_for_redrive, fetch_job_status,
}

-- `client.send_message(...)`: the body, and the attributes `job_id` and `content_hash`
pub record Sent : Type 0 where
  pub body : String
  pub job_id : Option String
  pub content_hash : Option String

pub record RunOptions : Type 0 where
  pub dry_run : Bool
  pub job_id_filter : Option String
  pub with_db : Bool

-- The variables of the loop, the database, and the two queues: what was sent to the main queue and
-- the receipts deleted from the dead-letter queue.
pub record RunState (F : Type 0) : Type 0 where
  pub db : Db F
  pub sent : List Sent
  pub deleted : List String
  pub moved : ℕ
  pub skipped : ℕ
  pub reset : ℕ
  pub remaining : ℕ

-- how a part of a run ends, and its state then
abbrev pub Ended : Type 0 → Type 0
Ended F = Result String (Unit {0}) × RunState F

module _ {F : Type 0} (parse_uuid : String → Option ℕ) (decode : String → Decoded)
    (options : RunOptions) (now : ℕ) where
  -- the status that `plan_redrive` is told; an error is the exception of the database driver
  unfoldable pub status_of : DlqMessage → Db F → Result String (Option String)
  status_of msg db =
      if options.with_db
      then elim msg.job_id [
        | none ↦ ok none
        | some job_id ↦ elim (parse_uuid job_id) [
          | none ↦ err "invalid input for query argument $1"
          | some id ↦ ok (fetch_job_status id db)
        ]
      ]
      else ok none

  -- `if action.reset_job and conn and msg.job_id: if await reset_job_for_redrive(...): reset += 1`
  unfoldable pub apply_reset : RedriveAction → DlqMessage → RunState F → RunState F
  apply_reset action msg s =
      if action.reset_job && options.with_db
      then elim msg.job_id [
        | none ↦ s
        | some job_id ↦ elim (parse_uuid job_id) [
          | none ↦ s
          | some id ↦
              let (db, done) = reset_job_for_redrive now id s.db in
              record s { db = db; reset = if done then suc s.reset else s.reset }
        ]
      ]
      else s

  abbrev pub add_sent : DlqMessage → RunState F → RunState F
  add_sent msg s = record s {
    sent =
        s.sent
        ++ (record { body = msg.body_raw; job_id = msg.job_id; content_hash = msg.content_hash }
            ∷ []);
  }

  -- `delete_message`, `moved += 1`
  abbrev pub delete_moved : Option String → DlqMessage → RunState F → Ended F
  delete_moved (some e) msg s = (err e, s)
  delete_moved none msg s =
      (ok tt, record s { deleted = s.deleted ++ (msg.receipt_handle ∷ []); moved = suc s.moved })

  -- `send_message` before them; an exception of either ends the run
  abbrev pub send_moved : Option String → Option String → DlqMessage → RunState F → Ended F
  send_moved (some e) delete_error msg s = (err e, s)
  send_moved none delete_error msg s = delete_moved delete_error msg (add_sent msg s)

  unfoldable pub move_message : RawMessage → DlqMessage → RunState F → Ended F
  move_message raw msg s = send_moved raw.send_error raw.delete_error msg s

  -- the body of `for raw in messages` behind the plan
  unfoldable pub carry_out : RedriveAction → RawMessage → DlqMessage → RunState F → Ended F
  carry_out action raw msg s =
      if is_skip action.skip_reason
      then (ok tt, record s { skipped = suc s.skipped })
      else if options.dry_run
      then (
        ok tt,
        record s { moved = suc s.moved; reset = if action.reset_job then suc s.reset else s.reset },
      )
      else move_message raw msg (apply_reset action msg s)

  unfoldable pub redrive_one : RawMessage → RunState F → Ended F
  redrive_one raw s =
      let s' : RunState F = record s { remaining = s.remaining - 1 } in
      let msg = parse_dlq_message decode raw in
      elim (status_of msg s'.db) [
        | err e ↦ (err e, s')
        | ok status ↦
            carry_out (plan_redrive parse_uuid msg options.job_id_filter status) raw msg s'
      ]

  abbrev pub then_do :
      (RunState F → Result String (Unit {0}) × RunState F)
      → Result String (Unit {0}) × RunState F
      → Result String (Unit {0}) × RunState F
  then_do f (ok _, s) = f s
  then_do f (err e, s) = (err e, s)

  unfoldable pub redrive_batch :
      List RawMessage → RunState F → Result String (Unit {0}) × RunState F
  redrive_batch [] s = (ok tt, s)
  redrive_batch (raw ∷ rest) s = then_do (redrive_batch rest) (redrive_one raw s)

  -- `while remaining > 0`: one entry for each receive call, its messages or its exception, which ends
  -- the run. The queue hands out `min(10, remaining)` messages at most; an empty answer ends the loop, and so does the end of the list.
  unfoldable pub redrive_loop : List (Result String (List RawMessage)) → RunState F → Ended F
  redrive_loop [] s = (ok tt, s)
  redrive_loop (err e ∷ rest) s = if leb s.remaining 0 then (ok tt, s) else (err e, s)
  redrive_loop (ok [] ∷ rest) s = (ok tt, s)
  redrive_loop (ok (raw ∷ raws) ∷ rest) s =
      if leb s.remaining 0
      then (ok tt, s)
      else then_do (redrive_loop rest) (redrive_batch (raw ∷ raws) s)

  -- the state before the loop
  abbrev pub start : ℕ → Db F → RunState F
  start limit db = record {
    db = db;
    sent = [];
    deleted = [];
    moved = 0;
    skipped = 0;
    reset = 0;
    remaining = limit;
  }

  unfoldable pub redrive : ℕ → List (Result String (List RawMessage)) → Db F → Ended F
  unfolding redrive_loop
  redrive limit receives db = redrive_loop receives (start limit db)
