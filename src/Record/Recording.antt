-- ===== src/Record/Recording.antt =====
-- record.rs: `record`, composed of its parts. The rest of the machine is a parameter: the state of
-- its disk, the clock, the environment, and what a child does. A recording is the preparation,
-- then the observation, which cannot fail but may go on (fuel counts the rounds of the wait), and
-- then the receipt.
pub mod Sound
pub mod Truthful
pub mod Complete
pub mod Secret
pub mod Private
pub mod Reproduced
pub mod Disclosed
pub mod Unspawned
pub mod Verified
pub mod Early
pub mod Refused
pub mod Ending
pub mod Samples
pub mod Recorded
mod Tests
mod SecretTests
use cmdtrail.Prelude.{ℕ, Bool, true, false, not, Option, none, some, List, []}
use cmdtrail.Text.{Text, Bytes, codes}
use cmdtrail.FilePath.{FilePath}
use cmdtrail.Result
use cmdtrail.Result.{Result, ok, err, reject_if, or_error}
use cmdtrail.Action.{Action, after, ◌>>=◌, ◌>>◌, look, give}
use cmdtrail.Error.{AppError, usage, execution}
use cmdtrail.Model.{Event, Receipt, RecordResult}
use cmdtrail.System.{Filesystem}
use cmdtrail.Disk.{Disk}
use cmdtrail.ReceiptFile.{ReceiptJson, preflight_new_receipt}
use cmdtrail.Integrity.{Hashing, finalize_receipt}
use cmdtrail.Redact.{Redactor, RedactedCommand, from_environment_names, command}
use cmdtrail.Snapshot.Types.{Snapshot, SnapshotConfig, PreparedRoot}
use cmdtrail.Snapshot.Roots.{prepare_roots}
use cmdtrail.Snapshot.Capture.{capture_cancellable}
use cmdtrail.Snapshot.Compare.{compare}
use cmdtrail.Record.{RecordOptions, validate_options}
use cmdtrail.Record.Run.{Child, Run, run_command}
use cmdtrail.Record.Events.{record_events}
use cmdtrail.Record.Persist.{persist_receipt_with_recovery}
use cmdtrail.Record.Draft.{Build, Prepared, Observed, unix_ms, draft_receipt}

-- `view` is what the snapshots see of a state of the disk; `start` what spawning a command in a
-- directory gives; `meanwhile` what the command, if it is started in that directory, and whatever
-- else runs, make of the disk until the wait ends; `clock` the readings of the clock in nanoseconds; and the flag is what the loads of
-- the interrupt flag give in the first snapshot, in the wait and in the second snapshot.
pub record Machine (D : Type 0) : Type 0 where
  pub disk : Disk D
  pub view : D → Filesystem
  pub env_var : Text → Option Text
  pub current_dir : Result Text FilePath
  pub handler_installed : Bool
  pub start : List Bytes → FilePath → D → Result Text Child
  pub meanwhile : List Bytes → FilePath → D → D
  pub clock : ℕ → Option ℕ
  pub flag_before : ℕ → Bool
  pub flag_running : ℕ → Bool
  pub flag_after : ℕ → Bool
  pub hashing : Hashing
  pub json : ReceiptJson
  pub build : Build

abbrev pub unresolved_directory : AppError
unresolved_directory =
    usage (codes "working_directory_unavailable")
      (codes "the working directory does not exist or cannot be resolved")

abbrev pub no_handler : AppError
no_handler =
    execution (codes "interrupt_handler_unavailable")
      (codes "could not install the cross-platform interruption handler")

-- `map_err(|message| AppError::usage("invalid_redaction_environment", message))`
abbrev pub redaction_error : {A : Type 0} → Result Text A → Result AppError A
redaction_error (ok a) = ok a
redaction_error (err message) = err (usage (codes "invalid_redaction_environment") message)

abbrev pub snapshot_config : RecordOptions → SnapshotConfig
snapshot_config o = record {
  max_entries = o.max_entries;
  max_file_hash_bytes = o.max_file_hash_bytes;
  max_total_hash_bytes = o.max_total_hash_bytes;
}

-- The effect counts and the number of dropped effects are those that the summary was given.
unfoldable pub record_result : Text → Receipt → RecordResult
record_result version receipt = record {
  schema_version = codes "cmdtrail.record-result.v1";
  tool_version = version;
  receipt_id = receipt.receipt_id;
  receipt_sha256 = receipt.receipt_sha256;
  command_state = receipt.summary.command_state;
  command_success = receipt.summary.command_success;
  file_effect_counts = receipt.summary.file_effect_counts;
  dropped_file_effects = receipt.summary.dropped_file_effects;
  observation_complete = false;
}

module _ {D : Type 0} (machine : Machine D) (o : RecordOptions) where
  unfoldable pub resolve_working_directory : D → Result AppError FilePath
  resolve_working_directory s =
      let fs = machine.view s in
      let given : Result Text FilePath = elim o.working_directory [
        | none ↦ machine.current_dir
        | some path ↦ fs.canonicalize path
      ] in
      or_error (Result.◌>>=◌ given fs.canonicalize) unresolved_directory

  unfoldable pub prepare : Action D Prepared
  prepare = do
    give (validate_options o)
    preflight_new_receipt machine.disk o.output
    redactor ←
        give (redaction_error (from_environment_names machine.env_var o.redact_environment_names))
    working_directory ← look resolve_working_directory
    roots ← look (λ s.
        prepare_roots machine.hashing.sha256 (machine.view s) redactor working_directory o.roots)
    give (reject_if (not machine.handler_installed) no_handler)
    give (ok (record { redactor = redactor; working_directory = working_directory; roots = roots }))

  abbrev snapshot_of : Prepared → (ℕ → Bool) → D → Snapshot
  snapshot_of p flag s =
      capture_cancellable machine.hashing.sha256 (machine.view s) (snapshot_config o) p.redactor
        flag p.roots

  -- What is observed from a state of the disk, where the command has run like this.
  unfoldable pub observed : Prepared → D → Run → Observed
  observed p s run = record {
    started_at = unix_ms (machine.clock 0);
    before = snapshot_of p machine.flag_before s;
    command_started_at = unix_ms (machine.clock 1);
    run = run;
    command_finished_at = unix_ms (machine.clock 2);
    after = snapshot_of p machine.flag_after (machine.meanwhile o.command p.working_directory s);
    finished_at = unix_ms (machine.clock 3);
  }

  unfoldable pub events_of : Observed → RedactedCommand → Result AppError (List Event)
  events_of seen shown =
      record_events machine.hashing seen.command_started_at
        (record {
          executable_sha256 = shown.executable_sha256;
          command_sha256 = shown.command_sha256;
        })
        seen.command_finished_at seen.run.0 seen.finished_at o.max_events
        (compare seen.before seen.after)

  unfoldable pub seal : Prepared → Observed → Result AppError Receipt
  unfolding events_of
  seal p seen =
      let shown = command machine.hashing.sha256 p.redactor o.command in
      Result.◌>>=◌ (events_of seen shown) (λ events.
        finalize_receipt machine.hashing
          (draft_receipt machine.hashing.sha256 machine.build o p seen shown events))

  -- From the end of the second snapshot on.
  unfoldable pub finish : Prepared → Observed → Action D RecordResult
  finish p seen = do
    receipt ← give (seal p seen)
    persist_receipt_with_recovery machine.disk machine.json o.output receipt
    give (ok (record_result machine.build.version receipt))

  unfoldable pub after_prepare :
      ℕ → D × Result AppError Prepared → Option (D × Result AppError RecordResult)
  after_prepare fuel (s, err e) = some (s, err e)
  after_prepare fuel (s, ok p) =
      elim (run_command machine.flag_running o.timeout_ms fuel
        (machine.start o.command p.working_directory s)) [
          | none ↦ none
          | some run ↦
              some (finish p (observed p s run) (machine.meanwhile o.command p.working_directory s))
        ]

  -- `record`; `none` where the wait has not ended after `fuel` rounds.
  unfoldable pub record_command : ℕ → D → Option (D × Result AppError RecordResult)
  record_command fuel s = after_prepare fuel (prepare s)
