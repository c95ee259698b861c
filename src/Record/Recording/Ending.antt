-- ===== src/Record/Recording/Ending.antt =====
-- A recording with a time limit ends.
use cmdtrail.Prelude.{ℕ, List, ◌≡◌, refl, ap, Option, none, some}
use cmdtrail.Text.{Bytes}
use cmdtrail.FilePath.{FilePath}
use cmdtrail.Result.{Result, ok, err}
use cmdtrail.Error.{AppError}
use cmdtrail.Model.{RecordResult}
use cmdtrail.Record.{RecordOptions}
use cmdtrail.Record.Run.{Child, Run}
use cmdtrail.Record.Run.Awaited.{IsAwaitable}
use cmdtrail.Record.Run.Ending.{SleepsTenMs, run_command-Ends}
use cmdtrail.Record.Draft.{Prepared}
use cmdtrail.Record.Recording.{Machine, prepare, observed, finish, after_prepare, record_command}
use cmdtrail.Record.Recording.Verified.{prepare_valid}

module _ {D : Type 0} (machine : Machine D) (o : RecordOptions) where
  -- For every child that the machine starts, a round takes at least 10 ms, and the calls that block
  -- return: a wait after a kill, and the joins of the threads that forward the output.
  abbrev pub Returns : Type 0
  Returns =
      (command : List Bytes) (directory : FilePath) (s : D) (child : Child)
      → machine.start command directory s ≡ ok child
      → SleepsTenMs child × IsAwaitable child

  abbrev pub Answers : Option (D × Result AppError RecordResult) → Type 0
  Answers outcome = (answer : D × Result AppError RecordResult) × (outcome ≡ some answer)

  Answers-from :
      (limit : ℕ) (s : D) (prepared : D × Result AppError Prepared)
      → o.timeout_ms ≡ some limit
      → Returns
      → prepare machine o s ≡ prepared
      → Answers (after_prepare machine o 8640001 prepared)
  unfolding after_prepare
  Answers-from limit s (u, err e) limited tick h = ((u, err e), refl)
  Answers-from limit s (u, ok p) limited tick h =
      let start = machine.start o.command p.working_directory u in
      let (run, ended) =
        run_command-Ends machine.flag_running o limit start (prepare_valid machine o s h) limited
          (tick o.command p.working_directory u) in
      (
        finish machine o p (observed machine o p u run)
            (machine.meanwhile o.command p.working_directory u),
        ap
            (λ (outcome : Option Run). elim outcome [
              | none ↦ none
              | some r ↦ some (
                  finish machine o p (observed machine o p u r)
                    (machine.meanwhile o.command p.working_directory u))
            ])
            ended,
      )

  -- With a time limit, `record` has a result after 8,640,001 rounds of the wait, whatever the options,
  -- the disk and the command are, where a round takes at least 10 ms, the waits after a kill return,
  -- and the threads that forward the output end.
  pub record_command-Answers :
      (limit : ℕ) (s : D)
      → o.timeout_ms ≡ some limit
      → Returns
      → Answers (record_command machine o 8640001 s)
  unfolding record_command
  record_command-Answers limit s limited tick =
      Answers-from limit s (prepare machine o s) limited tick refl
