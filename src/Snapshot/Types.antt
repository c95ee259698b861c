-- ===== src/Snapshot/Types.antt =====
-- The structs of snapshot.rs.
use cmdtrail.Prelude.{ℕ}
use cmdtrail.BTree.{BTreeMap}
use cmdtrail.Text.{Text}
use cmdtrail.FilePath.{FilePath}
use cmdtrail.Model.{EntryState, SnapshotStats}

pub record SnapshotConfig : Type 0 where
  pub max_entries : ℕ
  pub max_file_hash_bytes : ℕ
  pub max_total_hash_bytes : ℕ

pub record PreparedRoot : Type 0 where
  pub root_id : Text
  pub path_handle : Text
  pub display_name : Text
  pub canonical_path : FilePath

pub record SnapshotEntry : Type 0 where
  pub root_id : Text
  pub path_handle : Text
  pub display_path : Text
  pub state : EntryState

pub record Snapshot : Type 0 where
  pub entries : BTreeMap Text SnapshotEntry
  pub stats : BTreeMap Text SnapshotStats
  pub redacted_path_components : ℕ
  pub sensitive_file_hashes_skipped : ℕ
