-- ===== src/Record/Recording/Recorded.antt =====
-- The recordings of the samples, computed.
use cmdtrail.Prelude.{◌≡◌, ℕ, refl, true, false, some, [], ℕ_discrete}
use cmdtrail.Result.{ok, err}
use cmdtrail.Error.{AppError, post_execution_receipt_class}
use cmdtrail.Model.{Receipt, RecordResult, ContentHashState-discrete}
use cmdtrail.Disk.Samples.{Files, put, no_files}
use cmdtrail.FilePath.{extension, join, parent, strip_prefix}
use cmdtrail.Text.{contains, contains_byte, split_once}
use cmdtrail.Text.Utf8.{to_string_lossy, to_str}
use cmdtrail.Text.Decimal.{to_decimal, to_decimal4}
use cmdtrail.Encoding.{sha256_bytes, u64_be_bytes, append_length_delimited, append_all}
use cmdtrail.BTree.{get, insert, entry_or, collect, key_union}
use cmdtrail.Sort.{sort, dedup}
use cmdtrail.Redact.{
  sensitive_path_component, replace_values, replace_custom_values, any_sensitive, path_is_sensitive,
  custom_value_count, from_environment_names, apply_key, apply_url, command_material,
  show_component, show_components, path_display, show_text, text, argument_step, arguments_loop,
  show_executable, redact_command, command,
}
use cmdtrail.Snapshot.Roots.{
  candidates, check_against, check_pairs, resolve, resolve_all, label, label_from, prepare_roots,
}
use cmdtrail.Snapshot.Entry.{
  kind_of, finish_hash, hash_loop, hashed_content, hash_regular_file, content_hash, entry_state,
}
use cmdtrail.Snapshot.Capture.{
  count_state, initial_state, handle_of, retain, visit, scan, walk_step, walk_loop, skip_root,
  capture_root, capture_loop, capture_internal, capture_cancellable,
}
use cmdtrail.Snapshot.Compare.{compare_key, compare, root_records}
use cmdtrail.Integrity.{envelope, hash_serializable, hash_event, append_event, finalize_receipt}
use cmdtrail.Record.Events.{append_effects, record_events}
use cmdtrail.Record.Run.{finish_run, outcome_from_status, poll, poll_loop, run_command}
use cmdtrail.Record.Draft.{
  unix_ms, dynamic_blind_spots, command_record, receipt_summary, redaction_report, limits_record,
  observation_of, draft_receipt,
}
use cmdtrail.Record.Persist.{
  recovery_receipt_path, post_execution_receipt_error, after_recovery, after_primary,
  persist_receipt_with_recovery_using, persist_receipt_with_recovery,
}
use cmdtrail.ReceiptFile.{
  receipt_parent, check_target, creation_error, preflight_new_receipt, create_output, sync_after,
  write_durably, write_new_receipt,
}
use cmdtrail.Record.{validate_options}
use cmdtrail.Record.Recording.{
  resolve_working_directory, prepare, observed, seal, finish, after_prepare, record_command,
  Machine,
}
use cmdtrail.Snapshot.Capture.Growth.{has_entry}
use cmdtrail.Snapshot.Compare.Reported.{compare_created}
use cmdtrail.Record.Recording.Truthful.{IsTold, told_by_events}
use cmdtrail.Record.Recording.Samples.{
  seen_first, new_handle, seen_later, machine, options, prepared, quick_run, new_file,
  deleting_machine, interrupted_machine, taken_machine, cut_machine,
}

pub valid : validate_options options ≡ ok tt
unfolding validate_options
valid = refl

-- A receipt that a recording of the samples seals, as far as what it says of itself goes.
pub record Sealed (m : Machine Files) (s : Files) : Type 0 where
  pub receipt : Receipt
  pub sealed : seal m options prepared (observed m options prepared s quick_run) ≡ ok receipt
  pub whole : receipt.summary.snapshot_truncated ≡ false
  pub kept : receipt.summary.dropped_file_effects ≡ 0

abbrev Recorded : Machine Files → ℕ → Type 0
Recorded m fuel =
    (t : Files) × (result : RecordResult) × (record_command m options fuel no_files
      ≡ some (t, ok result))

-- A recording that ends with an error.
abbrev Failed : Machine Files → ℕ → Type 0
Failed m fuel =
    (t : Files) × (e : AppError) × (record_command m options fuel no_files ≡ some (t, err e))
    × (e.class ≡ post_execution_receipt_class)

abbrev Cut : Type 0
Cut =
    (receipt : Receipt) × (seal cut_machine options prepared
        (observed cut_machine options prepared no_files quick_run)
      ≡ ok receipt)
    × (receipt.summary.snapshot_truncated ≡ true)

abbrev Later : Type 0
Later = (receipt : Receipt) × (seal machine options prepared seen_later ≡ ok receipt)

record Computed : Type 0 where
  prepared_so : prepare machine options no_files ≡ (no_files, ok prepared)
  of_command : Recorded machine 3
  of_interrupt : Recorded interrupted_machine 0
  of_taken : Failed taken_machine 3
  created : Sealed machine no_files
  cut : Cut
  later : Later
  gone : has_entry seen_first.before.entries new_handle ≡ false
  here : has_entry seen_first.after.entries new_handle ≡ true
  deleted : Sealed deleting_machine (put no_files new_file [])

computed : Computed
unfolding ContentHashState-discrete ℕ_discrete extension parent strip_prefix contains contains_byte
    split_once to_string_lossy to_str to_decimal to_decimal4 sha256_bytes u64_be_bytes
    append_length_delimited append_all get insert entry_or collect key_union sort dedup
    sensitive_path_component replace_values replace_custom_values any_sensitive path_is_sensitive
    custom_value_count from_environment_names apply_key apply_url command_material show_component
    show_components path_display show_text text argument_step arguments_loop show_executable
    redact_command command candidates check_against check_pairs resolve resolve_all label label_from
    prepare_roots kind_of finish_hash hash_loop hashed_content hash_regular_file content_hash
    entry_state count_state initial_state handle_of retain visit scan walk_step walk_loop skip_root
    capture_root capture_loop capture_internal capture_cancellable compare_key compare root_records
    envelope hash_serializable hash_event append_event finalize_receipt append_effects record_events
    finish_run outcome_from_status poll poll_loop run_command unix_ms dynamic_blind_spots
    command_record receipt_summary redaction_report limits_record observation_of draft_receipt
    after_primary persist_receipt_with_recovery_using persist_receipt_with_recovery receipt_parent
    check_target creation_error preflight_new_receipt create_output sync_after write_durably
    write_new_receipt validate_options resolve_working_directory prepare observed seal finish
    after_prepare record_command recovery_receipt_path post_execution_receipt_error after_recovery
    join
computed = record {
  prepared_so = refl;
  of_command = (_, _, refl);
  of_interrupt = (_, _, refl);
  of_taken = (_, _, refl, refl);
  created = record { receipt = _; sealed = refl; whole = refl; kept = refl };
  cut = (_, refl, refl);
  later = (_, refl);
  gone = refl;
  here = refl;
  deleted = record { receipt = _; sealed = refl; whole = refl; kept = refl };
}

pub recorded : Recorded machine 3
recorded = computed.of_command

pub interrupted_early : Recorded interrupted_machine 0
interrupted_early = computed.of_interrupt

pub failed_late : Failed taken_machine 3
failed_late = computed.of_taken

pub sealed_cut : Cut
sealed_cut = computed.cut

pub sealed_later : Later
sealed_later = computed.later

pub sealed_created : Sealed machine no_files
sealed_created = computed.created

pub sealed_deleted : Sealed deleting_machine (put no_files new_file [])
sealed_deleted = computed.deleted

pub told_new : IsTold seen_first sealed_created.receipt new_handle
told_new =
    (told_by_events machine options prepared seen_first valid sealed_created.sealed
      sealed_created.kept
      (compare_created seen_first.before seen_first.after new_handle computed.gone
        computed.here).0).0
