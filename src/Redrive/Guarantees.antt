-- ===== src/Redrive/Guarantees.antt =====
-- What a run of the redrive script does to the queues and to the jobs.
use multimodal_content_moder.Common.{
  ℕ, ◌-◌, ◌≡◌, refl, leb, String, true, false, inl, inr, Bool-cases, Option-cases, Option, some,
  List, [], ◌∷◌, arith,
}
use multimodal_content_moder.Common.Exec.{Result, ok, err, Result-cases}
use multimodal_content_moder.Schema.{Job, Db, insert_audit, find_job}
use multimodal_content_moder.Schema.Jobs.{job_in-update_if}
use multimodal_content_moder.Redrive.{
  Decoded, RawMessage, DlqMessage, RedriveAction, parse_dlq_message, plan_redrive,
  is_dead_or_failed, to_queued, reset_job_for_redrive,
}
use multimodal_content_moder.Redrive.Loop.{
  RunOptions, RunState, status_of, apply_reset, move_message, carry_out, redrive_one, then_do,
  redrive_batch, redrive_loop, redrive, start,
}

module _ {F : Type 0} (parse_uuid : String → Option ℕ) (decode : String → Decoded)
    (options : RunOptions) (now : ℕ) where
  -- a property that every message keeps is kept by the run
  module _ (P : RunState F → Type 0)
      (step : (raw : RawMessage) (s : RunState F)
        → P s
        → P (redrive_one parse_uuid decode options now raw s).1) where
    then_keeps :
        (f : RunState F → Result String (Unit {0}) × RunState F)
        → ((s : RunState F) → P s → P (f s).1)
        → (r : Result String (Unit {0}) × RunState F) → P r.1
        → P (then_do parse_uuid decode options now f r).1
    then_keeps f keep (ok u, s) h = keep s h
    then_keeps f keep (err e, s) h = h

    batch_keeps :
        (raws : List RawMessage) (s : RunState F)
        → P s
        → P (redrive_batch parse_uuid decode options now raws s).1
    unfolding redrive_batch
    batch_keeps [] s h = h
    batch_keeps (raw ∷ rest) s h =
        then_keeps (redrive_batch parse_uuid decode options now rest) (batch_keeps rest)
          (redrive_one parse_uuid decode options now raw s) (step raw s h)

    loop_keeps :
        (receives : List (Result String (List RawMessage))) (s : RunState F)
        → P s
        → P (redrive_loop parse_uuid decode options now receives s).1
    unfolding redrive_loop
    loop_keeps [] s h = h
    loop_keeps (err e ∷ rest) s h = elim (Bool-cases (leb s.remaining 0)) [
      | inl done ↦ rw done h
      | inr more ↦ rw more h
    ]
    loop_keeps (ok [] ∷ rest) s h = h
    loop_keeps (ok (raw ∷ raws) ∷ rest) s h =
        let run = redrive_batch parse_uuid decode options now (raw ∷ raws) s in
        let after =
          then_keeps (redrive_loop parse_uuid decode options now rest) (loop_keeps rest) run
            (batch_keeps (raw ∷ raws) s h) in
        elim (Bool-cases (leb s.remaining 0)) [ inl done ↦ rw done h | inr more ↦ rw more after ]

  abbrev IsUntouched : Db F → RunState F → Type 0
  IsUntouched db s = (s.db ≡ db) × (s.sent ≡ []) × (s.deleted ≡ [])

  one-IsUntouched :
      (db : Db F)
      → options.dry_run ≡ true
      → (raw : RawMessage) (s : RunState F) → IsUntouched db s
      → IsUntouched db (redrive_one parse_uuid decode options now raw s).1
  unfolding redrive_one carry_out
  one-IsUntouched db dry raw s h =
      let msg = parse_dlq_message decode raw in
      elim (Result-cases (status_of parse_uuid decode options now msg s.db)) [
        | inr (e, bad) ↦ ground arith
        | inl (status, good) ↦ ground arith
      ]

  -- A dry run leaves the database and both queues as they are.
  pub dry_run_changes_nothing :
      (limit : ℕ) (receives : List (Result String (List RawMessage))) (db : Db F)
      → options.dry_run ≡ true
      → let s = (redrive parse_uuid decode options now limit receives db).1 in
        (s.db ≡ db) × (s.sent ≡ []) × (s.deleted ≡ [])
  unfolding redrive
  dry_run_changes_nothing limit receives db dry =
      loop_keeps (IsUntouched db) (one-IsUntouched db dry) receives
        (start parse_uuid decode options now limit db) (refl, refl, refl)

  -- a job that is neither dead nor failed
  abbrev pub IsKept : ℕ → Job → RunState F → Type 0
  IsKept k j s = find_job k s.db ≡ some j

  reset_keeps :
      (id k : ℕ) (j : Job) (db : Db F)
      → is_dead_or_failed j.status ≡ false
      → find_job k db ≡ some j
      → find_job k (reset_job_for_redrive now id db).0 ≡ some j
  unfolding reset_job_for_redrive insert_audit find_job
  reset_keeps id k j db live at = ground (
    arith,
    job_in-update_if id k (λ x. is_dead_or_failed x.status) (to_queued now) db.jobs (λ x. refl),
  )

  apply_reset_keeps :
      (k : ℕ) (j : Job) (action : RedriveAction) (msg : DlqMessage) (s : RunState F)
      → is_dead_or_failed j.status ≡ false
      → IsKept k j s
      → IsKept k j (apply_reset parse_uuid decode options now action msg s)
  unfolding apply_reset
  apply_reset_keeps k j action msg s live h = elim (Option-cases msg.job_id) [
    | inl missing ↦ ground arith
    | inr (text, there) ↦ elim (Option-cases (parse_uuid text)) [
      | inl bad ↦ ground arith
      | inr (id, good) ↦ ground (arith, reset_keeps id k j s.db live h)
    ]
  ]

  carry_out_keeps :
      (k : ℕ) (j : Job) (action : RedriveAction) (raw : RawMessage) (msg : DlqMessage)
      (s : RunState F)
      → is_dead_or_failed j.status ≡ false
      → IsKept k j s
      → IsKept k j (carry_out parse_uuid decode options now action raw msg s).1
  unfolding carry_out move_message
  carry_out_keeps k j action raw msg s live h =
      ground (arith, apply_reset_keeps k j action msg s live h)

  one-IsKept :
      (k : ℕ) (j : Job)
      → is_dead_or_failed j.status ≡ false
      → (raw : RawMessage) (s : RunState F) → IsKept k j s
      → IsKept k j (redrive_one parse_uuid decode options now raw s).1
  unfolding redrive_one
  one-IsKept k j live raw s h =
      let msg = parse_dlq_message decode raw in
      let s' : RunState F = record s { remaining = s.remaining - 1 } in
      elim (Result-cases (status_of parse_uuid decode options now msg s'.db)) [
        | inr (e, bad) ↦ rw (bad, redrive_one) h
        | inl (status, good) ↦
            rw (good, redrive_one)
              (carry_out_keeps k j (plan_redrive parse_uuid msg options.job_id_filter status) raw
                msg s' live h)
      ]

  -- A run leaves every job alone that is neither dead nor failed.
  pub redrive_keeps_live_jobs :
      (limit : ℕ) (receives : List (Result String (List RawMessage))) (db : Db F) (k : ℕ) (j : Job)
      → is_dead_or_failed j.status ≡ false
      → find_job k db ≡ some j
      → find_job k (redrive parse_uuid decode options now limit receives db).1.db ≡ some j
  unfolding redrive
  redrive_keeps_live_jobs limit receives db k j live at =
      loop_keeps (IsKept k j) (one-IsKept k j live) receives
        (start parse_uuid decode options now limit db) at
