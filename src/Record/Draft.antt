-- ===== src/Record/Draft.antt =====
-- record.rs: the receipt of a recording, before it is sealed. What the machine and the build say of
-- themselves is a parameter.
use cmdtrail.Prelude.{
  ℕ, ◌/◌, Bool, false, ◌||◌, Option, none, some, List, [], ◌∷◌, ◌++◌, min, ltb, u64_max,
  saturating_add, saturating_sub, if◌then◌else◌,
}
use mathlib.Core.List.{foldl}
use cmdtrail.Text.{Text, Bytes, codes}
use cmdtrail.FilePath.{FilePath, file_name}
use cmdtrail.Encoding.{sha256_bytes}
use cmdtrail.Model.{
  CommandOutcome, CommandRecord, FileEffect, Event, RootRecord, ReceiptSummary, RedactionReport,
  Observation, LimitsRecord, Receipt, partial,
}
use cmdtrail.Capability.{portable_capabilities}
use cmdtrail.Integrity.{receipt_schema}
use cmdtrail.Redact.{Redactor, RedactedCommand, path_display, custom_value_count}
use cmdtrail.Snapshot.Types.{Snapshot, PreparedRoot}
use cmdtrail.Snapshot.Compare.{compare, root_records}
use cmdtrail.Record.{RecordOptions}
use cmdtrail.Record.Run.{Run}
use cmdtrail.Record.Events.{file_effect_counts, retained_effect_count, dropped_file_effects}

-- What a receipt says of the build and the machine.
pub record Build : Type 0 where
  pub version : Text
  pub os : Text
  pub architecture : Text
  pub family : Text

-- What is fixed before the command runs.
pub record Prepared : Type 0 where
  pub redactor : Redactor
  pub working_directory : FilePath
  pub roots : List PreparedRoot

-- What is observed from then on.
pub record Observed : Type 0 where
  pub started_at : ℕ
  pub before : Snapshot
  pub command_started_at : ℕ
  pub run : Run
  pub command_finished_at : ℕ
  pub after : Snapshot
  pub finished_at : ℕ

-- `unix_ms`, of the nanoseconds since the epoch, if the time is not before it.
unfoldable pub unix_ms : Option ℕ → ℕ
unix_ms none = 0
unix_ms (some ns) = min (ns / 1000000) u64_max

abbrev pub any_truncated : List RootRecord → Bool
any_truncated [] = false
any_truncated (root ∷ roots) = root.before.truncated || root.after.truncated || any_truncated roots

abbrev total_errors : List RootRecord → ℕ
total_errors =
    foldl
      (λ total root.
        saturating_add (saturating_add total root.before.traversal_errors)
          root.after.traversal_errors)
      0

abbrev pub push_if : Bool → Text → List Text → List Text
push_if test line lines = if test then lines ++ (line ∷ []) else lines

unfoldable pub dynamic_blind_spots : List Text → Bool → ℕ → ℕ → List Text
dynamic_blind_spots of_run snapshot_truncated traversal_errors dropped =
    push_if (ltb 0 dropped)
      (codes "file effects exceeded the event limit; summary counts include dropped events")
      (push_if (ltb 0 traversal_errors)
        (codes "at least one path could not be traversed or read; see per-root error classes")
        (push_if snapshot_truncated
          (codes "at least one snapshot hit the entry limit; omitted path count is unknown")
          of_run))

abbrev pub fixed_blind_spots : List Text
fixed_blind_spots =
    codes "pre/post snapshots cannot observe transient create-write-delete effects"
    ∷ codes "filesystem deltas are not attributed to a specific process"
    ∷ codes "detached descendants may continue after the direct child exits"
    ∷ codes
        "network, listening-port, resource, stdout, stderr, and environment effects are not observed"
    ∷ codes
        "content digests can miss files skipped by sensitivity, size, budget, races, or read errors"
    ∷ codes
        "redaction is pattern-based and cannot guarantee removal of arbitrary positional secrets"
    ∷ []

abbrev limitations_of_redaction : List Text
limitations_of_redaction =
    codes
      "opaque path and executable SHA-256 handles may still be susceptible to dictionary attacks"
    ∷ codes
        "unknown secret forms require --redact-env and may otherwise appear in argument displays"
    ∷ codes
        "redacted argument digests are omitted and command_sha256 binds only the redacted command representation"
    ∷ []

unfoldable pub command_record : RedactedCommand → CommandOutcome → CommandRecord
command_record shown outcome = record {
  executable_display = shown.executable_display;
  executable_sha256 = shown.executable_sha256;
  argument_displays = shown.argument_displays;
  argument_sha256 = shown.argument_sha256;
  command_sha256 = shown.command_sha256;
  environment_captured = false;
  outcome = outcome;
}

unfoldable pub receipt_summary :
    CommandOutcome → ℕ → List FileEffect → List RootRecord → ReceiptSummary
unfolding file_effect_counts retained_effect_count dropped_file_effects
receipt_summary outcome max_events effects roots = record {
  command_state = outcome.state;
  command_success = outcome.success;
  file_effect_counts = file_effect_counts effects;
  retained_file_effects = retained_effect_count max_events effects;
  dropped_file_effects = dropped_file_effects max_events effects;
  snapshot_truncated = any_truncated roots;
  traversal_errors = total_errors roots;
  observation_complete = false;
}

unfoldable pub redaction_report : Redactor → RedactedCommand → Snapshot → Snapshot → RedactionReport
redaction_report r shown before after = record {
  mode = codes "relative_paths_with_sensitive_components_redacted";
  environment_values_captured = false;
  custom_secret_values_loaded = custom_value_count r;
  redacted_arguments = shown.redacted_arguments;
  redacted_path_components =
      saturating_add before.redacted_path_components after.redacted_path_components;
  sensitive_file_hashes_skipped =
      saturating_add before.sensitive_file_hashes_skipped after.sensitive_file_hashes_skipped;
  limitations = limitations_of_redaction;
}

unfoldable pub limits_record : RecordOptions → LimitsRecord
limits_record o = record {
  max_entries_per_snapshot = o.max_entries;
  max_events = o.max_events;
  max_file_hash_bytes = o.max_file_hash_bytes;
  max_total_hash_bytes_per_snapshot = o.max_total_hash_bytes;
  command_timeout_ms = o.timeout_ms;
}

module _ (sha256 : Bytes → Bytes) where
  unfoldable pub observation_of : Prepared → Observed → ReceiptSummary → Observation
  observation_of p seen summary = record {
    backend = codes "portable_pre_post_snapshot";
    started_at_unix_ms = seen.started_at;
    finished_at_unix_ms = seen.finished_at;
    duration_ms = saturating_sub seen.finished_at seen.started_at;
    working_directory_handle = codes "path_" ++ sha256_bytes sha256 p.working_directory;
    working_directory_display =
        (path_display sha256 p.redactor (elim (file_name p.working_directory) [
          | none ↦ p.working_directory
          | some name ↦ name
        ])).0;
    coverage = partial;
    known_blind_spots =
        fixed_blind_spots
        ++ dynamic_blind_spots seen.run.1 summary.snapshot_truncated summary.traversal_errors
            summary.dropped_file_effects;
  }

  -- The receipt that is given to `finalize_receipt`.
  unfoldable pub draft_receipt :
      Build → RecordOptions → Prepared → Observed → RedactedCommand → List Event → Receipt
  unfolding portable_capabilities
  draft_receipt build o p seen shown events =
      let roots = root_records p.roots seen.before seen.after in
      let summary =
        receipt_summary seen.run.0 o.max_events (compare seen.before seen.after) roots in
      record {
        schema_version = receipt_schema;
        tool_version = build.version;
        receipt_id = [];
        receipt_sha256 = [];
        platform = record {
          os = build.os;
          architecture = build.architecture;
          family = build.family;
        };
        command = command_record shown seen.run.0;
        observation = observation_of p seen summary;
        capabilities = portable_capabilities;
        limits = limits_record o;
        roots = roots;
        events = events;
        events_sha256 = [];
        event_chain_head_sha256 = [];
        summary = summary;
        redaction = redaction_report p.redactor shown seen.before seen.after;
      }
