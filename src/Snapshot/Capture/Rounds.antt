-- ===== src/Snapshot/Capture/Rounds.antt =====
-- The bounds on a snapshot that is being taken, and that each way to handle one path keeps them.
use cmdtrail.Prelude.{
  ℕ, ◌≤◌, ◌<◌, ◌≡◌, refl, Bool, true, false, Bool-cases, inl, inr, Option, none, some, List, [],
  ◌∷◌, map, arith, All, length, leb, if◌then◌else◌, saturating_add, u64_max, decided,
}
use mathlib.Core.List.{foldl}
use cmdtrail.Ord.{list_ord, nat_ord}
use cmdtrail.BTree.{BTreeMap, insert, collect, keys, IsAscending}
use cmdtrail.BTree.Laws.{insert-IsAscending}
use cmdtrail.BTree.Entries.{length-insert, All-insert}
use cmdtrail.Text.{Text, Bytes, codes}
use cmdtrail.FilePath.{FilePath, strip_prefix}
use cmdtrail.Result.{Result, ok, err}
use cmdtrail.Model.{SnapshotStats, default_stats, EntryState, ContentHashState-discrete, hashed}
use cmdtrail.System.{Metadata, Filesystem, WalkItem, found, failed}
use cmdtrail.Redact.{Redactor, path_display, path_is_sensitive}
use cmdtrail.Snapshot.Types.{SnapshotConfig, PreparedRoot, SnapshotEntry}
use cmdtrail.Snapshot.Entry.{is_regular, entry_state}
use cmdtrail.Snapshot.Entry.Laws.{entry_state-budget}
use cmdtrail.Snapshot.Capture.Budget.{IsHashedTotal, insert-IsHashedTotal, entry_state-IsHashedSize}
use cmdtrail.Snapshot.Capture.{
  CaptureState, record_error, io_class_name, record_walk_error, cut_off, count_state, initial_state,
  proceed, state_of_flow, put_stats, handle_of, retain, visit, scan,
}

abbrev pub IsUnknown : SnapshotStats → Type 0
IsUnknown t = t.omitted_count_known ≡ false

-- The bounds and the shape of the collected entries.
pub record IsBounded (config : SnapshotConfig) (s : CaptureState) : Type 0 where
  pub ascending : IsAscending (keys s.entries)
  pub keyed : All (λ e. e.1.path_handle ≡ e.0) s.entries
  pub counted : length s.entries ≤ s.retained_total
  pub limited : s.retained_total ≤ config.max_entries
  pub budgeted : s.hashed_bytes_total ≤ config.max_total_hash_bytes
  pub unknown : All (λ e. IsUnknown e.1) s.stats
  pub paid :
      config.max_total_hash_bytes < u64_max
      → (n : ℕ) × IsHashedTotal s.entries n × (n ≤ s.hashed_bytes_total)

count_state-IsUnknown :
    (state : EntryState) (len : ℕ) (t : SnapshotStats)
    → IsUnknown t
    → IsUnknown (count_state state len t)
unfolding count_state
count_state-IsUnknown state len t h =
    by_test (decided (ContentHashState-discrete state.content_hash_state hashed))
      (is_regular state.kind)
  where
    by_test :
        (a b : Bool)
        → IsUnknown (
            if a
            then record t {
              hashed_files = saturating_add t.hashed_files 1;
              hashed_bytes = saturating_add t.hashed_bytes len;
            }
            else if b
            then record t { skipped_hashes = saturating_add t.skipped_hashes 1 }
            else t)
    by_test true b = h
    by_test false true = h
    by_test false false = h

module _ (config : SnapshotConfig) where
  pub put_stats-IsBounded :
      (root : PreparedRoot) (t : SnapshotStats) (s : CaptureState)
      → IsUnknown t
      → IsBounded config s
      → IsBounded config (put_stats root t s)
  put_stats-IsBounded root t s known b = record {
    ascending = b.ascending;
    keyed = b.keyed;
    counted = b.counted;
    limited = b.limited;
    budgeted = b.budgeted;
    paid = b.paid;
    unknown = All-insert (λ e. IsUnknown e.1) root.root_id t s.stats known b.unknown;
  }

  -- The fields that the bounds do not read.
  pub touched-IsBounded :
      (s : CaptureState) (components : ℕ) (truncated : Bool) (n : ℕ)
      → IsBounded config s
      → IsBounded config (record s {
        redacted_path_components = components;
        global_truncated = truncated;
        loads = n;
      })
  touched-IsBounded s components truncated n b = record {
    ascending = b.ascending;
    keyed = b.keyed;
    counted = b.counted;
    limited = b.limited;
    budgeted = b.budgeted;
    paid = b.paid;
    unknown = b.unknown;
  }

  collect-IsUnknown :
      (roots : List PreparedRoot) (m : BTreeMap Text SnapshotStats)
      → All (λ e. IsUnknown e.1) m
      → All
          (λ e. IsUnknown e.1)
          (foldl {A = Text × SnapshotStats}
            (λ m e. insert e.0 e.1 m)
            m
            (map (λ (r : PreparedRoot). (r.root_id, default_stats)) roots))
  collect-IsUnknown [] m h = h
  collect-IsUnknown (root ∷ roots) m h =
      collect-IsUnknown roots (insert root.root_id default_stats m)
        (All-insert (λ e. IsUnknown e.1) root.root_id default_stats m refl h)

  pub initial-IsBounded : (roots : List PreparedRoot) → IsBounded config (initial_state roots)
  unfolding initial_state collect
  initial-IsBounded roots = record {
    ascending = tt;
    keyed = tt;
    counted = omega arith;
    limited = omega arith;
    budgeted = omega arith;
    unknown = collect-IsUnknown roots [] tt;
    paid = λ fits. (0, refl, omega arith);
  }

module _ (sha256 : Bytes → Bytes) (fs : Filesystem) (config : SnapshotConfig) (r : Redactor)
    (interrupted : Option (ℕ → Bool)) (small : config.max_entries ≤ u64_max) where
  retain-IsBounded :
      (root : PreparedRoot) (path relative : FilePath) (m : Metadata) (t : SnapshotStats)
      (s : CaptureState)
      → s.retained_total < config.max_entries
      → IsUnknown t
      → IsBounded config s
      → IsBounded config (retain sha256 fs config r interrupted root path relative m t s)
  unfolding retain
  retain-IsBounded root path relative m t s room known b =
      let captured =
        entry_state sha256 fs path m (path_is_sensitive r relative) config s.hashed_bytes_total in
      let handle = handle_of sha256 root.root_id relative in
      let entry : SnapshotEntry = record {
        root_id = root.root_id;
        path_handle = handle;
        display_path = (path_display sha256 r relative).0;
        state = captured.0;
      } in
      record {
        ascending = insert-IsAscending handle entry s.entries b.ascending;
        keyed = All-insert (λ e. e.1.path_handle ≡ e.0) handle entry s.entries refl b.keyed;
        counted = omega (arith, length-insert handle entry s.entries, b.counted, room, small);
        limited = omega (arith, room, small);
        budgeted =
            entry_state-budget sha256 fs path m (path_is_sensitive r relative) config
              s.hashed_bytes_total b.budgeted;
        paid = λ fits.
            let (size, is, grown) =
              entry_state-IsHashedSize sha256 fs path m (path_is_sensitive r relative) config
                s.hashed_bytes_total fits in
            let (n, whole, within) = b.paid fits in
            let (sum, inserted, bound) =
              insert-IsHashedTotal handle entry size s.entries n is whole in
            (sum, inserted, omega (arith, grown, within, bound));
        unknown =
            All-insert (λ e. IsUnknown e.1) root.root_id
              (record (count_state captured.0 m.len t) {
                retained_entries =
                    saturating_add (count_state captured.0 m.len t).retained_entries 1;
              })
              s.stats (count_state-IsUnknown captured.0 m.len t known) b.unknown;
      }

  visit-IsBounded :
      (root : PreparedRoot) (path relative : FilePath) (t : SnapshotStats) (s : CaptureState)
      → s.retained_total < config.max_entries
      → IsUnknown t
      → IsBounded config s
      → IsBounded config (visit sha256 fs config r interrupted root path relative t s)
  unfolding visit record_error
  visit-IsBounded root path relative t s room known b = by_metadata (fs.symlink_metadata path)
    where
      shown : CaptureState
      shown = record s {
        redacted_path_components =
            saturating_add s.redacted_path_components (path_display sha256 r relative).1;
      }

      shown-IsBounded : IsBounded config shown
      shown-IsBounded =
          touched-IsBounded config s
            (saturating_add s.redacted_path_components (path_display sha256 r relative).1)
            s.global_truncated s.loads b

      by_metadata :
          (answer : Result Text Metadata)
          → IsBounded config (elim answer [
            | err kind ↦ put_stats root (record_error (io_class_name kind) t) shown
            | ok m ↦ retain sha256 fs config r interrupted root path relative m t shown
          ])
      by_metadata (err kind) =
          put_stats-IsBounded config root (record_error (io_class_name kind) t) shown known
            shown-IsBounded
      by_metadata (ok m) = retain-IsBounded root path relative m t shown room known shown-IsBounded

  pub cut-IsBounded :
      (root : PreparedRoot) (t : SnapshotStats) (s : CaptureState) (n : ℕ)
      → IsBounded config s
      → IsBounded config
          (put_stats root (cut_off t) (record s { global_truncated = true; loads = n }))
  cut-IsBounded root t s n b =
      put_stats-IsBounded config root (cut_off t) (record s { global_truncated = true; loads = n })
        refl (touched-IsBounded config s s.redacted_path_components true n b)

  pub scan-IsBounded :
      (root : PreparedRoot) (item : WalkItem) (t : SnapshotStats) (s : CaptureState)
      → IsUnknown t
      → IsBounded config s
      → IsBounded config (state_of_flow (scan sha256 fs config r interrupted root item t s))
  unfolding scan record_error
  scan-IsBounded root (failed e) t s known b =
      put_stats-IsBounded config root (record_walk_error e t) s
        (unfold record_walk_error record_error in known) b
  scan-IsBounded root (found path) t s known b =
      elim (Bool-cases (leb config.max_entries s.retained_total)) [
        | inl full ↦ rw full (cut-IsBounded root t s s.loads b)
        | inr free ↦ rw free (by_prefix (ground arith) (strip_prefix path root.canonical_path))
      ]
    where
      by_prefix :
          s.retained_total < config.max_entries
          → (o : Option FilePath)
          → IsBounded config (
              state_of_flow (elim o [
                | none ↦ proceed (put_stats root (record_error (codes "path_escape") t) s)
                | some relative ↦
                    proceed (visit sha256 fs config r interrupted root path relative t s)
              ]))
      by_prefix room none =
          put_stats-IsBounded config root (record_error (codes "path_escape") t) s known b
      by_prefix room (some relative) = visit-IsBounded root path relative t s room known b
