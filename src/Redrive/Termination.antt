-- ===== src/Redrive/Termination.antt =====
-- The loop of scripts/redrive.py ends: each receive call that is not its last uses up the limit.
use multimodal_content_moder.Common.{
  ℕ, zero, suc, ◌-◌, ◌≤◌, ◌≡◌, refl, leb, String, Option, List, [], ◌∷◌, take, Bool-cases, inl, inr,
  arith,
}
use multimodal_content_moder.Common.Exec.{Result, ok, err, Result-cases}
use multimodal_content_moder.Schema.{Db}
use multimodal_content_moder.Redrive.{
  Decoded, RawMessage, DlqMessage, RedriveAction, parse_dlq_message, plan_redrive,
}
use multimodal_content_moder.Redrive.Loop.{
  RunOptions, RunState, status_of, apply_reset, move_message, carry_out, redrive_one, then_do,
  redrive_batch, redrive_loop, start, redrive,
}

module _ {F : Type 0} (parse_uuid : String → Option ℕ) (decode : String → Decoded)
    (options : RunOptions) (now : ℕ) where
  remaining-apply_reset :
      (action : RedriveAction) (msg : DlqMessage) (s : RunState F)
      → (apply_reset parse_uuid decode options now action msg s).remaining ≡ s.remaining
  unfolding apply_reset
  remaining-apply_reset action msg s = ground arith

  remaining-carry_out :
      (action : RedriveAction) (raw : RawMessage) (msg : DlqMessage) (s : RunState F)
      → (carry_out parse_uuid decode options now action raw msg s).1.remaining ≡ s.remaining
  unfolding carry_out move_message
  remaining-carry_out action raw msg s = ground (arith, remaining-apply_reset action msg s)

  remaining-redrive_one :
      (raw : RawMessage) (s : RunState F)
      → (redrive_one parse_uuid decode options now raw s).1.remaining ≡ s.remaining - 1
  unfolding redrive_one
  remaining-redrive_one raw s =
      let s' : RunState F = record s { remaining = s.remaining - 1 } in
      let msg = parse_dlq_message decode raw in
      elim (Result-cases (status_of parse_uuid decode options now msg s'.db)) [
        | inr (e, bad) ↦ rw (bad, redrive_one) refl
        | inl (status, good) ↦
            rw (good, redrive_one)
              (remaining-carry_out (plan_redrive parse_uuid msg options.job_id_filter status) raw
                msg s')
      ]

  remaining-then_do :
      (f : RunState F → Result String (Unit {0}) × RunState F)
      (r : Result String (Unit {0}) × RunState F)
      → ((s : RunState F) → (f s).1.remaining ≤ s.remaining)
      → (then_do parse_uuid decode options now f r).1.remaining ≤ r.1.remaining
  remaining-then_do f (ok _, s) h = h s
  remaining-then_do f (err e, s) h = omega arith

  same-then_do :
      (f g : RunState F → Result String (Unit {0}) × RunState F)
      (r : Result String (Unit {0}) × RunState F)
      → f r.1 ≡ g r.1
      → then_do parse_uuid decode options now f r ≡ then_do parse_uuid decode options now g r
  same-then_do f g (ok _, s) h = h
  same-then_do f g (err e, s) h = refl

  remaining-redrive_batch :
      (raws : List RawMessage) (s : RunState F)
      → (redrive_batch parse_uuid decode options now raws s).1.remaining ≤ s.remaining
  unfolding redrive_batch
  remaining-redrive_batch [] s = omega arith
  remaining-redrive_batch (raw ∷ rest) s = omega (
    arith,
    remaining-then_do (redrive_batch parse_uuid decode options now rest)
        (redrive_one parse_uuid decode options now raw s) (remaining-redrive_batch rest),
    remaining-redrive_one raw s,
  )

  remaining-full_batch :
      (raw : RawMessage) (rest : List RawMessage) (s : RunState F)
      → (redrive_batch parse_uuid decode options now (raw ∷ rest) s).1.remaining ≤ s.remaining - 1
  unfolding redrive_batch
  remaining-full_batch raw rest s = omega (
    arith,
    remaining-then_do (redrive_batch parse_uuid decode options now rest)
        (redrive_one parse_uuid decode options now raw s) (remaining-redrive_batch rest),
    remaining-redrive_one raw s,
  )

  loop_take :
      (receives : List (Result String (List RawMessage))) (n : ℕ) (s : RunState F)
      → s.remaining ≤ n
      → redrive_loop parse_uuid decode options now receives s
        ≡ redrive_loop parse_uuid decode options now (take n receives) s
  unfolding redrive_loop
  loop_take [] zero s le = refl
  loop_take [] (suc n) s le = refl
  loop_take (err e ∷ rest) zero s le = ground arith
  loop_take (err e ∷ rest) (suc n) s le = refl
  loop_take (ok [] ∷ rest) zero s le = refl
  loop_take (ok [] ∷ rest) (suc n) s le = refl
  loop_take (ok (raw ∷ raws) ∷ rest) zero s le = ground arith
  loop_take (ok (raw ∷ raws) ∷ rest) (suc n) s le =
      let r = redrive_batch parse_uuid decode options now (raw ∷ raws) s in
      let less : r.1.remaining ≤ n = omega (arith, le, remaining-full_batch raw raws s) in
      elim (Bool-cases (leb s.remaining 0)) [
        | inl over ↦ rw over refl
        | inr more ↦ rw more (
            same-then_do (redrive_loop parse_uuid decode options now rest)
              (redrive_loop parse_uuid decode options now (take n rest)) r
              (loop_take rest n r.1 less))
      ]

  -- The loop makes at most `limit` receive calls: however many batches the dead-letter queue holds,
  -- the run that sees only the first `limit` of them ends in the same way and in the same state.
  pub redrive-take :
      (limit : ℕ) (receives : List (Result String (List RawMessage))) (db : Db F)
      → redrive parse_uuid decode options now limit receives db
        ≡ redrive parse_uuid decode options now limit (take limit receives) db
  unfolding redrive
  redrive-take limit receives db =
      loop_take receives limit (start parse_uuid decode options now limit db) (omega arith)
