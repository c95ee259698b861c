-- ===== src/Model/Receipts.antt =====
-- model.rs: the receipt as a whole, its other parts, and the verification report.
use cmdtrail.Prelude.{ℕ, Bool, false, Option, List, [], ℕ_discrete}
use cmdtrail.BTree.{BTreeMap}
use cmdtrail.Text.{Text}
use cmdtrail.Model.Effects.{CommandState, CommandOutcome, Event, EffectKey, ChangedEffect}

pub record PlatformInfo : Type 0 where
  pub os : Text
  pub architecture : Text
  pub family : Text

pub record CommandRecord : Type 0 where
  pub executable_display : Text
  pub executable_sha256 : Text
  pub argument_displays : List Text
  pub argument_sha256 : List (Option Text)
  pub command_sha256 : Text
  pub environment_captured : Bool
  pub outcome : CommandOutcome

pub data CoverageLevel : Type 0 where
  full partial unavailable unknown : CoverageLevel

pub record Observation : Type 0 where
  pub backend : Text
  pub started_at_unix_ms : ℕ
  pub finished_at_unix_ms : ℕ
  pub duration_ms : ℕ
  pub working_directory_handle : Text
  pub working_directory_display : Text
  pub coverage : CoverageLevel
  pub known_blind_spots : List Text

pub record Capability : Type 0 where
  pub name : Text
  pub level : CoverageLevel
  pub backend : Text
  pub reason : Text

pub record LimitsRecord : Type 0 where
  pub max_entries_per_snapshot : ℕ
  pub max_events : ℕ
  pub max_file_hash_bytes : ℕ
  pub max_total_hash_bytes_per_snapshot : ℕ
  pub command_timeout_ms : Option ℕ

pub record SnapshotStats : Type 0 where
  pub retained_entries : ℕ
  pub scanned_entries : ℕ
  pub hashed_files : ℕ
  pub hashed_bytes : ℕ
  pub skipped_hashes : ℕ
  pub traversal_errors : ℕ
  pub error_classes : BTreeMap Text ℕ
  pub truncated : Bool
  pub omitted_count_known : Bool

-- `SnapshotStats::default()`
abbrev pub default_stats : SnapshotStats
default_stats = record {
  retained_entries = 0;
  scanned_entries = 0;
  hashed_files = 0;
  hashed_bytes = 0;
  skipped_hashes = 0;
  traversal_errors = 0;
  error_classes = [];
  truncated = false;
  omitted_count_known = false;
}

pub record RootRecord : Type 0 where
  pub root_id : Text
  pub path_handle : Text
  pub display_name : Text
  pub before : SnapshotStats
  pub after : SnapshotStats

pub record ReceiptSummary : Type 0 where
  pub command_state : CommandState
  pub command_success : Bool
  pub file_effect_counts : BTreeMap Text ℕ
  pub retained_file_effects : ℕ
  pub dropped_file_effects : ℕ
  pub snapshot_truncated : Bool
  pub traversal_errors : ℕ
  pub observation_complete : Bool

pub record RedactionReport : Type 0 where
  pub mode : Text
  pub environment_values_captured : Bool
  pub custom_secret_values_loaded : ℕ
  pub redacted_arguments : ℕ
  pub redacted_path_components : ℕ
  pub sensitive_file_hashes_skipped : ℕ
  pub limitations : List Text

pub record Receipt : Type 0 where
  pub schema_version : Text
  pub tool_version : Text
  pub receipt_id : Text
  pub receipt_sha256 : Text
  pub platform : PlatformInfo
  pub command : CommandRecord
  pub observation : Observation
  pub capabilities : List Capability
  pub limits : LimitsRecord
  pub roots : List RootRecord
  pub events : List Event
  pub events_sha256 : Text
  pub event_chain_head_sha256 : Text
  pub summary : ReceiptSummary
  pub redaction : RedactionReport

pub record VerificationReport : Type 0 where
  pub schema_version : Text
  pub tool_version : Text
  pub receipt_id : Option Text
  pub integrity_valid : Bool
  pub receipt_digest_valid : Bool
  pub receipt_id_valid : Bool
  pub events_digest_valid : Bool
  pub event_chain_valid : Bool
  pub schema_supported : Bool
  pub errors : List Text

pub record RecordResult : Type 0 where
  pub schema_version : Text
  pub tool_version : Text
  pub receipt_id : Text
  pub receipt_sha256 : Text
  pub command_state : CommandState
  pub command_success : Bool
  pub file_effect_counts : BTreeMap Text ℕ
  pub dropped_file_effects : ℕ
  pub observation_complete : Bool

pub record ShowResult : Type 0 where
  pub schema_version : Text
  pub tool_version : Text
  pub receipt_id : Text
  pub integrity_valid : Bool
  pub command : CommandRecord
  pub observation : Observation
  pub capabilities : List Capability
  pub summary : ReceiptSummary
  pub roots : List RootRecord

pub record DiffResult : Type 0 where
  pub schema_version : Text
  pub tool_version : Text
  pub before_receipt_id : Text
  pub after_receipt_id : Text
  pub added_effects : List EffectKey
  pub removed_effects : List EffectKey
  pub changed_effects : List ChangedEffect
  pub command_outcome_changed : Bool
  pub capability_declaration_changed : Bool

unfoldable pub Capability-discrete : Discrete Capability
Capability-discrete = hlevel ℕ_discrete

unfoldable pub Capabilities-discrete : Discrete (List Capability)
Capabilities-discrete = hlevel ℕ_discrete
