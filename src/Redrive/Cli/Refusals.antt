-- ===== src/Redrive/Cli/Refusals.antt =====
-- When a run of the redrive script changes nothing.
use multimodal_content_moder.Common.{
  ℕ, ltb, ◌≡◌, refl, ◌⊎◌, String, Bool, true, false, inl, inr, List, [], arith, text_eq, codes,
  ◌||◌, not, if◌then◌else◌,
}
use multimodal_content_moder.Common.Exec.{Result, ok, err}
use multimodal_content_moder.Envelope.{Text}
use multimodal_content_moder.Schema.{Db}
use multimodal_content_moder.Redrive.Guarantees.{dry_run_changes_nothing}
use multimodal_content_moder.Redrive.Loop.{RunState, redrive}
use multimodal_content_moder.Redrive.Cli.{
  Environ, load_dotenv, Arguments, Outside, options_of, untouched, exit_zero, main, redrive_command,
  after_stats, run_connected, QueueStats, provider_of,
}
use multimodal_content_moder.Redrive.Cli.Dotenv.{HasOtherProvider, other_provider}

module _ {F : Type 0} where
  not_two : (r : Result String (Unit {0}) × RunState F) → (exit_zero r).0 ≡ ok 2 → ⊥
  not_two (ok _, s) h = ground arith
  not_two (err e, s) h = ground arith

  connected_untouched :
      (now : ℕ) (args : Arguments) (o : Outside) (db : Db F) (c : Result String (Unit {0}))
      → (run_connected now args o db c).0 ≡ ok 2
      → (run_connected now args o db c).1 ≡ untouched now args o db
  connected_untouched now args o db (err e) h = refl
  connected_untouched now args o db (ok _) h =
      absurd
        (not_two (redrive o.parse_uuid o.decode (options_of args) now args.limit o.receives db) h)

  stats_untouched :
      (now : ℕ) (args : Arguments) (o : Outside) (db : Db F) (m d : Result String QueueStats)
      → (after_stats now args o db m d).0 ≡ ok 2
      → (after_stats now args o db m d).1 ≡ untouched now args o db
  stats_untouched now args o db (err e) d h = refl
  stats_untouched now args o db (ok m) (err e) h = refl
  stats_untouched now args o db (ok m) (ok d) h =
      connected_untouched now args o db (if args.skip_db then ok tt else o.connect) h

  if_cases :
      (P : Result String ℕ × RunState F → Type 0) (b : Bool) (x y : Result String ℕ × RunState F)
      → P x
      → (b ≡ false → P y)
      → P (if b then x else y)
  if_cases P true x y stops goes_on = stops
  if_cases P false x y stops goes_on = goes_on refl

  -- a run with the code 2 has done nothing
  refused_untouched :
      (now : ℕ) (args : Arguments) (lines : List Text) (environ : Environ) (o : Outside) (db : Db F)
      → (main now args lines environ o db).0 ≡ ok 2
      → (main now args lines environ o db).1 ≡ untouched now args o db
  unfolding main redrive_command
  refused_untouched now args lines environ o db =
      let P : Result String ℕ × RunState F → Type 0 =
        λ r. r.0 ≡ ok 2 → r.1 ≡ untouched now args o db in
      if_cases P (ltb args.limit 1) _ _ (λ h. refl)
        (λ _.
          if_cases P args.stats _ _ (λ h. refl)
            (λ _.
              if_cases P (not (text_eq (provider_of (load_dotenv lines environ)) (codes "sqs"))) _ _
                (λ h. refl) (λ _. stats_untouched now args o db _ _)))

  -- neither the database nor a queue differs
  abbrev pub ChangesNothing : Db F → RunState F → Type 0
  ChangesNothing db s = (s.db ≡ db) × (s.sent ≡ []) × (s.deleted ≡ [])

  exit_zero_state : (r : Result String (Unit {0}) × RunState F) → (exit_zero r).1 ≡ r.1
  exit_zero_state (ok _, s) = refl
  exit_zero_state (err e, s) = refl

  dry_connected :
      (now : ℕ) (args : Arguments) (o : Outside) (db : Db F) (c : Result String (Unit {0}))
      → args.dry_run ≡ true
      → ChangesNothing db (run_connected now args o db c).1
  dry_connected now args o db (err e) dry = (refl, refl, refl)
  dry_connected now args o db (ok _) dry =
      let run = redrive o.parse_uuid o.decode (options_of args) now args.limit o.receives db in
      rw (exit_zero_state run) (
        dry_run_changes_nothing o.parse_uuid o.decode (options_of args) now args.limit o.receives db
          dry)

  dry_stats :
      (now : ℕ) (args : Arguments) (o : Outside) (db : Db F) (m d : Result String QueueStats)
      → args.dry_run ≡ true
      → ChangesNothing db (after_stats now args o db m d).1
  dry_stats now args o db (err e) d dry = (refl, refl, refl)
  dry_stats now args o db (ok m) (err e) dry = (refl, refl, refl)
  dry_stats now args o db (ok m) (ok d) dry =
      dry_connected now args o db (if args.skip_db then ok tt else o.connect) dry

  asked_for_nothing :
      (now : ℕ) (args : Arguments) (lines : List Text) (environ : Environ) (o : Outside) (db : Db F)
      → (args.dry_run || args.stats) ≡ true
      → ChangesNothing db (main now args lines environ o db).1
  unfolding main redrive_command
  asked_for_nothing now args lines environ o db asked =
      let P : Result String ℕ × RunState F → Type 0 = λ r. ChangesNothing db r.1 in
      if_cases P (ltb args.limit 1) _ _ (refl, refl, refl)
        (λ _.
          if_cases P args.stats _ _ (refl, refl, refl)
            (λ no_stats.
              let dry : args.dry_run ≡ true = ground (arith, asked, no_stats) in
              if_cases P (not (text_eq (provider_of (load_dotenv lines environ)) (codes "sqs"))) _ _
                (refl, refl, refl) (λ _. dry_stats now args o db _ _ dry)))

  provider_refused :
      (now : ℕ) (args : Arguments) (lines : List Text) (environ : Environ) (o : Outside) (db : Db F)
      → HasOtherProvider environ
      → ChangesNothing db (main now args lines environ o db).1
  unfolding main redrive_command
  provider_refused now args lines environ o db other =
      let P : Result String ℕ × RunState F → Type 0 = λ r. ChangesNothing db r.1 in
      if_cases P (ltb args.limit 1) _ _ (refl, refl, refl)
        (λ _.
          if_cases P args.stats _ _ (refl, refl, refl)
            (λ _. rw (other_provider lines environ other) (refl, refl, refl)))

  -- The script leaves the database and both queues as they are when it is called with `--dry-run` or
  -- `--stats`, when it ends with the code 2, and when the environment names a provider other than SQS,
  -- whatever the `.env` file says.
  pub main-ChangesNothing :
      (now : ℕ) (args : Arguments) (lines : List Text) (environ : Environ) (o : Outside) (db : Db F)
      → ((args.dry_run || args.stats) ≡ true)
        ⊎ (((main now args lines environ o db).0 ≡ ok 2) ⊎ HasOtherProvider environ)
      → ChangesNothing db (main now args lines environ o db).1
  main-ChangesNothing now args lines environ o db (inl asked) =
      asked_for_nothing now args lines environ o db asked
  main-ChangesNothing now args lines environ o db (inr (inl refused)) =
      rw (refused_untouched now args lines environ o db refused) (refl, refl, refl)
  main-ChangesNothing now args lines environ o db (inr (inr other)) =
      provider_refused now args lines environ o db other
