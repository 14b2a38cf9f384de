-- ===== src/Redrive/Plan.antt =====
-- What `plan_redrive` decides, and a message that it never sees.
use multimodal_content_moder.Common.{
  ℕ, ◌-◌, ◌≡◌, ◌↔◌, String, str_eq, true, false, is_some, inl, inr, Option-cases, Option, none,
  some, List, ◌∷◌, arith,
}
use multimodal_content_moder.Common.Exec.{err}
use multimodal_content_moder.Redrive.{
  Decoded, RawMessage, DlqMessage, parse_dlq_message, plan_redrive, plan_by_status, filtered_out,
  or_none,
}
use multimodal_content_moder.Redrive.Loop.{
  RunOptions, RunState, status_of, redrive_one, redrive_batch,
}

plan_id :
    (parse_uuid : String → Option ℕ) (msg : DlqMessage) (filter status : Option String)
    → (plan_redrive parse_uuid msg filter status).reset_job ≡ true
    → (id : String) × (or_none msg.job_id ≡ some id)
      × (is_some (parse_uuid id) ≡ true)
      × (filtered_out filter id ≡ false)
unfolding plan_redrive
plan_id parse_uuid msg filter status h = elim (Option-cases (or_none msg.job_id)) [
  | inl missing ↦ absurd (ground arith)
  | inr (id, there) ↦ (id, there, ground arith, ground arith)
]

-- A job is reset exactly if the message has a body and a valid id that passes the filter, and the
-- job's status is dead, failed or unknown to the script.
pub plan_resets_iff :
    (parse_uuid : String → Option ℕ) (msg : DlqMessage) (filter status : Option String)
    → ((plan_redrive parse_uuid msg filter status).reset_job ≡ true) ↔ (
        (str_eq msg.body_raw "" ≡ false)
        × ((id : String) × (or_none msg.job_id ≡ some id)
            × (is_some (parse_uuid id) ≡ true)
            × (filtered_out filter id ≡ false))
        × ((plan_by_status status).reset_job ≡ true))
unfolding plan_redrive
plan_resets_iff parse_uuid msg filter status =
    (λ h. (ground arith, plan_id parse_uuid msg filter status h, ground arith), λ h. ground arith)

module _ {F : Type 0} (parse_uuid : String → Option ℕ) (decode : String → Decoded)
    (options : RunOptions) (now : ℕ) where
  -- A message with a body whose job id is no UUID ends a run that has the database, before any later
  -- message: the status is asked for before the plan, which would have skipped the message, whatever
  -- the status.
  pub malformed_id_ends_run :
      (raw : RawMessage) (rest : List RawMessage) (s : RunState F) (id : String)
      (status : Option String)
      → options.with_db ≡ true
      → (parse_dlq_message decode raw).job_id ≡ some id
      → str_eq id "" ≡ false
      → str_eq (parse_dlq_message decode raw).body_raw "" ≡ false
      → parse_uuid id ≡ none
      → (redrive_batch parse_uuid decode options now (raw ∷ rest) s
          ≡ (err "invalid input for query argument $1", record s { remaining = s.remaining - 1 }))
        × ((plan_redrive parse_uuid
              (parse_dlq_message decode raw)
              options.job_id_filter
              status).skip_reason
            ≡ some "invalid_job_id")
  unfolding redrive_batch redrive_one status_of plan_redrive
  malformed_id_ends_run raw rest s id status db there named full bad = (ground arith, ground arith)
