-- ===== src/Record/Recording/Unspawned.antt =====
-- A recording that is interrupted before its command is started.
use cmdtrail.Prelude.{ℕ, ◌≡◌, refl, sym, ap, ◌∙◌, Bool, true, Option, some, List}
use cmdtrail.Text.{Text, Bytes}
use cmdtrail.FilePath.{FilePath}
use cmdtrail.Result.{Result, ok, err}
use cmdtrail.Error.{AppError}
use cmdtrail.Model.{interrupted, ReceiptSummary, RecordResult}
use cmdtrail.Disk.{IsDisk}
use cmdtrail.Record.{RecordOptions}
use cmdtrail.Record.Run.{Child, Run, run_command, interrupted_before_spawn}
use cmdtrail.Record.Draft.{Prepared, receipt_summary}
use cmdtrail.Record.Recording.{
  Machine, record_result, resolve_working_directory, prepare, observed, events_of, seal, finish,
  after_prepare, record_command,
}
use cmdtrail.Record.Recording.Truthful.{same_summary}
use cmdtrail.Record.Recording.Verified.{record_command-Delivers}

not_started :
    (flag : ℕ → Bool) (timeout_ms : Option ℕ) (fuel : ℕ) (start : Result Text Child)
    → flag 0 ≡ true
    → run_command flag timeout_ms fuel start ≡ some interrupted_before_spawn
unfolding run_command
not_started flag timeout_ms fuel start set = rw set refl

module _ {D : Type 0} (machine : Machine D) (o : RecordOptions)
    (other : List Bytes → FilePath → D → Result Text Child) where
  abbrev with_start : Machine D
  with_start = record machine { start = other }

  after_prepare_unspawned :
      (fuel : ℕ) (answer : D × Result AppError Prepared)
      → machine.flag_running 0 ≡ true
      → after_prepare machine o fuel answer ≡ after_prepare with_start o 0 answer
  unfolding after_prepare observed finish seal events_of
  after_prepare_unspawned fuel (s, err problem) set = refl
  after_prepare_unspawned fuel (s, ok p) set =
      rw
        (
          after_prepare,
          not_started machine.flag_running o.timeout_ms fuel
              (machine.start o.command p.working_directory s) set,
          not_started machine.flag_running o.timeout_ms 0 (other o.command p.working_directory s)
              set,
        )
        refl

  same_recording :
      (fuel : ℕ) (s : D)
      → machine.flag_running 0 ≡ true
      → record_command machine o fuel s ≡ record_command with_start o 0 s
  unfolding record_command prepare resolve_working_directory
  same_recording fuel s set = after_prepare_unspawned fuel (prepare machine o s) set

  -- Where the interrupt flag is set before the command would be started, a recording that succeeds says
  -- that the command was interrupted, and it is the same whatever a start would give: the command is
  -- not started, and nothing is waited for. The disk behaves as documented.
  pub record_command_unspawned :
      (lawful : IsDisk machine.disk) (fuel : ℕ) (s : D) {t : D} {result : RecordResult}
      → machine.flag_running 0 ≡ true
      → record_command machine o fuel s ≡ some (t, ok result)
      → (result.command_state ≡ interrupted)
        × (record_command with_start o 0 s ≡ some (t, ok result))
  unfolding record_result receipt_summary observed interrupted_before_spawn
  record_command_unspawned lawful fuel s {t} {result} set made =
      let d = record_command-Delivers machine o lawful fuel s made in
      let seen = observed machine o d.p s d.run in
      let got = d.receipt_of in
      let run : some d.run ≡ some interrupted_before_spawn =
        sym d.ran
        ∙ not_started machine.flag_running o.timeout_ms fuel
            (machine.start o.command d.p.working_directory s) set in
      let same : d.run ≡ interrupted_before_spawn = cc (run) in
      (
        ap (λ (r : RecordResult). r.command_state) got.result_of
            ∙ ap (λ (x : ReceiptSummary). x.command_state)
                (same_summary machine o d.p seen got.sound)
            ∙ ap (λ (r : Run). r.0.state) same,
        sym (same_recording fuel s set) ∙ made,
      )
