-- ===== src/Snapshot/Capture.antt =====
-- `capture` and `capture_cancellable`: one bounded walk over the observed roots. The state that the
-- Rust loop mutates is `CaptureState`; the interrupt flag is what its loads give in turn.
pub mod Budget
pub mod Rounds
pub mod Bounds
pub mod Cut
pub mod Growth
pub mod Steps
pub mod Walk
pub mod Loops
pub mod Start
pub mod Found
pub mod Walked
pub mod Handles
pub mod Private
use cmdtrail.Prelude.{
  ℕ, suc, ◌+◌, Bool, true, false, ◌||◌, Option, none, some, List, [], ◌∷◌, ◌++◌, map, leb,
  if◌then◌else◌, saturating_add, wrapping_succ, decided,
}
use cmdtrail.Ord.{list_ord, nat_ord}
use cmdtrail.BTree.{BTreeMap, get, insert, entry_or, collect}
use cmdtrail.Text.{Text, Bytes, codes, to_ascii_lowercase}
use cmdtrail.FilePath.{FilePath, strip_prefix}
use cmdtrail.Encoding.{sha256_bytes, append_all}
use cmdtrail.Result.{Result, ok, err}
use cmdtrail.Model.{
  SnapshotStats, default_stats, EntryState, EntryKind, file, directory, symlink, other,
  ContentHashState, ContentHashState-discrete, hashed, skipped_sensitive_path,
}
use cmdtrail.System.{Metadata, Filesystem, WalkError, WalkItem, found, failed}
use cmdtrail.Redact.{Redactor, path_display, path_is_sensitive}
use cmdtrail.Snapshot.Types.{SnapshotConfig, PreparedRoot, SnapshotEntry, Snapshot}
use cmdtrail.Snapshot.Entry.{is_regular, entry_state}

pub record CaptureState : Type 0 where
  pub entries : BTreeMap Text SnapshotEntry
  pub stats : BTreeMap Text SnapshotStats
  pub retained_total : ℕ
  pub hashed_bytes_total : ℕ
  pub redacted_path_components : ℕ
  pub sensitive_file_hashes_skipped : ℕ
  pub global_truncated : Bool
  -- how often the interrupt flag was loaded
  pub loads : ℕ

-- `interrupted.is_some_and(|flag| flag.load(..))`, for the load of that number.
abbrev pub is_interrupted : Option (ℕ → Bool) → ℕ → Bool
is_interrupted none n = false
is_interrupted (some flag) n = flag n

-- `*stats.error_classes.entry(class).or_default() += 1`, after the count of errors.
unfoldable pub record_error : Text → SnapshotStats → SnapshotStats
record_error class_name stats = record stats {
  traversal_errors = saturating_add stats.traversal_errors 1;
  error_classes = entry_or class_name 0 wrapping_succ stats.error_classes;
}

unfoldable pub io_class_name : Text → Text
io_class_name kind = to_ascii_lowercase (codes "io_" ++ kind)

unfoldable pub walk_error_class : WalkError → Text
walk_error_class e =
    if e.loop_ancestor
    then codes "symlink_loop"
    else elim e.io_kind [ none ↦ codes "walk_error" | some kind ↦ io_class_name kind ]

unfoldable pub record_walk_error : WalkError → SnapshotStats → SnapshotStats
record_walk_error e stats = record_error (walk_error_class e) stats

abbrev pub cut_off : SnapshotStats → SnapshotStats
cut_off stats = record stats { truncated = true; omitted_count_known = false }

-- The counters of a root for a path whose state was captured.
unfoldable pub count_state : EntryState → ℕ → SnapshotStats → SnapshotStats
count_state state len stats =
    if decided (ContentHashState-discrete state.content_hash_state hashed)
    then record stats {
      hashed_files = saturating_add stats.hashed_files 1;
      hashed_bytes = saturating_add stats.hashed_bytes len;
    }
    else if is_regular state.kind
    then record stats { skipped_hashes = saturating_add stats.skipped_hashes 1 }
    else stats

unfoldable pub initial_state : List PreparedRoot → CaptureState
initial_state roots = record {
  entries = [];
  stats = collect (map (λ (r : PreparedRoot). (r.root_id, default_stats)) roots);
  retained_total = 0;
  hashed_bytes_total = 0;
  redacted_path_components = 0;
  sensitive_file_hashes_skipped = 0;
  global_truncated = false;
  loads = 0;
}

-- One round of a loop: go on with the next item, or `break`.
pub data Flow : Type 0 where
  proceed stop : CaptureState → Flow

abbrev pub state_of_flow : Flow → CaptureState
state_of_flow (proceed s) = s
state_of_flow (stop s) = s

abbrev pub put_stats : PreparedRoot → SnapshotStats → CaptureState → CaptureState
put_stats root stats s = record s { stats = insert root.root_id stats s.stats }

-- `path_` and the digest of the root and the relative path.
unfoldable pub handle_of : (Bytes → Bytes) → Text → FilePath → Text
handle_of sha256 root_id relative =
    codes "path_" ++ sha256_bytes sha256 (append_all [] (root_id ∷ relative ∷ []))

module _ (sha256 : Bytes → Bytes) (fs : Filesystem) (config : SnapshotConfig) (r : Redactor)
    (interrupted : Option (ℕ → Bool)) where
  -- A path whose metadata could be read is captured and retained.
  unfoldable pub retain :
      PreparedRoot → FilePath → FilePath → Metadata → SnapshotStats → CaptureState → CaptureState
  retain root path relative m stats s =
      let (captured, total) =
        entry_state sha256 fs path m (path_is_sensitive r relative) config s.hashed_bytes_total in
      let skipped =
        decided (ContentHashState-discrete captured.content_hash_state skipped_sensitive_path) in
      let counted = count_state captured m.len stats in
      let handle = handle_of sha256 root.root_id relative in
      put_stats root
        (record counted { retained_entries = saturating_add counted.retained_entries 1 })
        (record s {
          entries =
              insert handle
                (record {
                  root_id = root.root_id;
                  path_handle = handle;
                  display_path = (path_display sha256 r relative).0;
                  state = captured;
                })
                s.entries;
          retained_total = saturating_add s.retained_total 1;
          hashed_bytes_total = total;
          sensitive_file_hashes_skipped =
              if skipped
              then saturating_add s.sensitive_file_hashes_skipped 1
              else s.sensitive_file_hashes_skipped;
        })

  -- A path below the root: its redactions are counted before its metadata is read.
  unfoldable pub visit :
      PreparedRoot → FilePath → FilePath → SnapshotStats → CaptureState → CaptureState
  visit root path relative stats s =
      let shown : CaptureState = record s {
        redacted_path_components =
            saturating_add s.redacted_path_components (path_display sha256 r relative).1;
      } in
      elim (fs.symlink_metadata path) [
        | err kind ↦ put_stats root (record_error (io_class_name kind) stats) shown
        | ok m ↦ retain root path relative m stats shown
      ]

  -- The round for one item of the walk, once it is counted as scanned.
  unfoldable pub scan : PreparedRoot → WalkItem → SnapshotStats → CaptureState → Flow
  scan root (failed e) stats s = proceed (put_stats root (record_walk_error e stats) s)
  scan root (found path) stats s =
      if leb config.max_entries s.retained_total
      then stop (put_stats root (cut_off stats) (record s { global_truncated = true }))
      else elim (strip_prefix path root.canonical_path) [
        | none ↦ proceed (put_stats root (record_error (codes "path_escape") stats) s)
        | some relative ↦ proceed (visit root path relative stats s)
      ]

  unfoldable pub walk_step : PreparedRoot → WalkItem → CaptureState → Flow
  walk_step root item s = elim (get s.stats root.root_id) [
    | none ↦ proceed s
    | some stats ↦
        let polled : CaptureState = record s { loads = suc s.loads } in
        if is_interrupted interrupted s.loads
        then stop (put_stats root (cut_off stats) (record polled { global_truncated = true }))
        else scan root item
            (record stats { scanned_entries = saturating_add stats.scanned_entries 1 }) polled
  ]

  -- The inner loop.
  unfoldable pub walk_loop : PreparedRoot → List WalkItem → CaptureState → CaptureState
  walk_loop root [] s = s
  walk_loop root (item ∷ items) s = elim (walk_step root item s) [
    | proceed t ↦ walk_loop root items t
    | stop t ↦ t
  ]

  -- A root that is not walked, after a cut or an interrupt.
  unfoldable pub skip_root : PreparedRoot → CaptureState → CaptureState
  skip_root root s = elim (get s.stats root.root_id) [
    | none ↦ s
    | some stats ↦ put_stats root (cut_off stats) s
  ]

  -- One root of the outer loop; the flag is loaded only where nothing was cut off before.
  unfoldable pub capture_root : PreparedRoot → CaptureState → CaptureState
  capture_root root s =
      let polled : CaptureState = record s { loads = suc s.loads } in
      if s.global_truncated
      then skip_root root s
      else if is_interrupted interrupted s.loads
      then skip_root root polled
      else walk_loop root (fs.walk root.canonical_path) polled

  unfoldable pub capture_loop : List PreparedRoot → CaptureState → CaptureState
  capture_loop [] s = s
  capture_loop (root ∷ roots) s = capture_loop roots (capture_root root s)

  unfoldable pub capture_internal : List PreparedRoot → Snapshot
  capture_internal roots =
      let s = capture_loop roots (initial_state roots) in
      record {
        entries = s.entries;
        stats = s.stats;
        redacted_path_components = s.redacted_path_components;
        sensitive_file_hashes_skipped = s.sensitive_file_hashes_skipped;
      }

-- Without an interrupt flag.
unfoldable pub capture :
    (Bytes → Bytes) → Filesystem → SnapshotConfig → Redactor → List PreparedRoot → Snapshot
capture sha256 fs config r roots = capture_internal sha256 fs config r none roots

unfoldable pub capture_cancellable :
    (Bytes → Bytes)
    → Filesystem
    → SnapshotConfig
    → Redactor
    → (ℕ → Bool)
    → List PreparedRoot
    → Snapshot
capture_cancellable sha256 fs config r interrupted roots =
    capture_internal sha256 fs config r (some interrupted) roots
