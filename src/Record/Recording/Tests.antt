-- ===== src/Record/Recording/Tests.antt =====
-- The theorems about a recording, at the recording of the samples.
use cmdtrail.Prelude.{
  ◌⊎◌, true, false, if◌then◌else◌, decided, ◌≡◌, subst, refl, inl, some, List, [], ◌++◌, arith,
}
use cmdtrail.Text.{Bytes, Text, codes, text_eq}
use cmdtrail.FilePath.{FilePath, strip_prefix}
use cmdtrail.Integrity.Samples.{toy}
use cmdtrail.Model.{created, deleted, interrupted}
use cmdtrail.Snapshot.Capture.Handles.{IsUnfound}
use cmdtrail.Integrity.Binding.{Collision}
use cmdtrail.Snapshot.Compare.Reported.{IsTrue}
use cmdtrail.Record.Recording.Truthful.{IsTold, seal-IsTrue}
use cmdtrail.Record.Run.{Child}
use cmdtrail.Record.Recording.Unspawned.{record_command_unspawned}
use cmdtrail.Record.Draft.{fixed_blind_spots}
use cmdtrail.Record.Recording.Disclosed.{AllIn, called_for, seal_discloses}
use cmdtrail.Record.Recording.Complete.{seal_tells_created, seal_tells_deleted}
use cmdtrail.Result.{Result, ok, err}
use cmdtrail.Error.{AppError, usage}
use cmdtrail.Disk.Samples.{Files, put, no_files, sample_disk-IsDisk}
use cmdtrail.Record.{RecordOptions, validate_options}
use cmdtrail.Record.Recording.{record_command, prepare, after_prepare, observed}
use cmdtrail.Record.Recording.Verified.{Delivers, record_command-Delivers}
use cmdtrail.Record.Recording.Refused.{IsRefusal, record_command-IsRefusal}
use cmdtrail.Record.Run.Awaited.{IsAwaitable}
use cmdtrail.Record.Run.Ending.{SleepsTenMs}
use cmdtrail.Record.Recording.Ending.{Returns, Answers, record_command-Answers}
use cmdtrail.Diff.{diff_receipts}
use cmdtrail.Record.Recording.Reproduced.{diff_recordings}
use cmdtrail.Model.{DiffResult, CommandOutcome-discrete}
use cmdtrail.Record.Recording.Samples.{
  new_handle, seen_first, seen_later, machine, options, child, prepared, root, new_file, quick_run,
  deleting_machine, interrupted_machine, taken_machine, cut_machine,
}
use cmdtrail.Record.Recording.Recorded.{
  recorded, failed_late, interrupted_early, sealed_later, sealed_cut, sealed_created, told_new,
  sealed_deleted, valid,
}

record_command-Delivers_example : Delivers machine options 3 no_files recorded.0 recorded.1
record_command-Delivers_example =
    record_command-Delivers machine options sample_disk-IsDisk 3 no_files recorded.2

abbrev nothing_to_run : RecordOptions
nothing_to_run = record options { command = [] }

abbrev missing : AppError
missing =
    usage (codes "missing_command")
      (codes "a direct command is required after the mandatory -- separator")

refused : record_command machine nothing_to_run 0 no_files ≡ some (no_files, err missing)
unfolding record_command prepare after_prepare validate_options
refused = refl

record_command-IsRefusal_example :
    IsRefusal taken_machine options sample_disk-IsDisk no_files failed_late.0 failed_late.1
record_command-IsRefusal_example =
    record_command-IsRefusal taken_machine options sample_disk-IsDisk 3 no_files failed_late.2

takes_time : Returns machine options
takes_time command directory s started e =
    let same : child ≡ started = cc (e) in
    subst (λ c. SleepsTenMs c × IsAwaitable c) same
      (λ n. omega arith, record { waits = λ n h. cc; joins = tt })

record_command-Answers_example :
    Answers machine options (record_command machine options 8640001 no_files)
record_command-Answers_example =
    record_command-Answers machine options 1000 no_files refl takes_time

under_root : strip_prefix new_file root.canonical_path ≡ some (codes "new")
unfolding strip_prefix
under_root = refl

nothing_walked :
    IsUnfound toy.sha256 (machine.view no_files) prepared.roots root.root_id (codes "new")
nothing_walked = record { short = λ k w. absurd w.listed; unfound = λ k w same below. w.listed }

seal_tells_created_example :
    ((told : IsTold
        (observed machine options prepared no_files quick_run)
        sealed_created.receipt
        new_handle)
      × (told.effect.effect ≡ created))
    ⊎ Collision toy.sha256
unfolding text_eq
seal_tells_created_example =
    seal_tells_created machine options prepared no_files quick_run root new_file (codes "new") valid
      sealed_created.sealed sealed_created.whole sealed_created.kept (inl refl) (inl refl)
      under_root refl (omega arith, omega arith) nothing_walked

deletion_told :
    ((told : IsTold
        (observed deleting_machine options prepared (put no_files new_file []) quick_run)
        sealed_deleted.receipt
        new_handle)
      × (told.effect.effect ≡ deleted))
    ⊎ Collision toy.sha256
unfolding text_eq
deletion_told =
    seal_tells_deleted deleting_machine options prepared (put no_files new_file []) quick_run root
      new_file (codes "new") valid sealed_deleted.sealed sealed_deleted.whole sealed_deleted.kept
      (inl refl) (inl refl) under_root refl (omega arith, omega arith) nothing_walked

seal-IsTrue_example :
    IsTrue
      (observed machine options prepared no_files quick_run).before
      (observed machine options prepared no_files quick_run).after
      told_new.effect
seal-IsTrue_example =
    seal-IsTrue machine options prepared (observed machine options prepared no_files quick_run)
      told_new.effect (observed machine options prepared no_files quick_run).finished_at valid
      sealed_created.sealed told_new.one

abbrev cannot_start : List Bytes → FilePath → Files → Result Text Child
cannot_start command directory s = err (codes "NotFound")

record_command_unspawned_example :
    (interrupted_early.1.command_state ≡ interrupted)
    × (record_command (record interrupted_machine { start = cannot_start }) options 0 no_files
        ≡ some (interrupted_early.0, ok interrupted_early.1))
record_command_unspawned_example =
    record_command_unspawned interrupted_machine options cannot_start sample_disk-IsDisk 0 no_files
      refl interrupted_early.2

seal_discloses_example :
    AllIn
      (fixed_blind_spots ++ (quick_run.1 ++ called_for sealed_cut.0.summary))
      sealed_cut.0.observation.known_blind_spots
unfolding observed
seal_discloses_example =
    seal_discloses cut_machine options prepared
      (observed cut_machine options prepared no_files quick_run) valid sealed_cut.1

diff_recordings_example :
    (d : DiffResult) × (diff_receipts machine.hashing machine.build.version sealed_created.receipt
        sealed_later.0
      ≡ ok d)
    × (d.added_effects ≡ [])
    × (d.removed_effects ≡ [])
    × (d.command_outcome_changed
        ≡ (if decided (CommandOutcome-discrete quick_run.0 quick_run.0) then false else true))
    × (d.capability_declaration_changed ≡ false)
unfolding observed
diff_recordings_example =
    diff_recordings machine options options prepared prepared seen_first seen_later valid valid
      sealed_created.sealed sealed_later.1 refl
