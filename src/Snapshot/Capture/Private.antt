-- ===== src/Snapshot/Capture/Private.antt =====
-- The content of a file on a sensitive path has no influence on a snapshot.
use cmdtrail.Prelude.{
  ℕ, suc, ◌≡◌, refl, ap, Bool, true, false, Bool-cases, inl, inr, Option, Option-cases, none, some,
  List, [], ◌∷◌, OneOf, leb, saturating_add,
}
use cmdtrail.Ord.{list_ord, nat_ord}
use cmdtrail.BTree.{get}
use cmdtrail.Text.{Text, Bytes, codes}
use cmdtrail.FilePath.{FilePath, strip_prefix}
use cmdtrail.Result.{Result, ok, err}
use cmdtrail.Model.{SnapshotStats}
use cmdtrail.System.{Metadata, Filesystem, WalkItem, found, failed}
use cmdtrail.Redact.{Redactor, path_is_sensitive, path_display}
use cmdtrail.Snapshot.Types.{SnapshotConfig, PreparedRoot}
use cmdtrail.Snapshot.Entry.{content_hash, entry_state, hash_regular_file}
use cmdtrail.Snapshot.Capture.{
  CaptureState, put_stats, record_error, io_class_name, initial_state, Flow, proceed, stop, retain,
  visit, scan, walk_step, walk_loop, skip_root, capture_root, capture_loop, capture_internal,
}

-- Two file systems that differ at most in what reading the files on sensitive paths gives.
pub record SameButContents (r : Redactor) (roots : List PreparedRoot) (fs other : Filesystem)
    : Type 0 where
  pub metadata : (path : FilePath) → fs.symlink_metadata path ≡ other.symlink_metadata path
  pub links : (path : FilePath) → fs.read_link path ≡ other.read_link path
  pub walks : (path : FilePath) → fs.walk path ≡ other.walk path
  pub contents :
      (root : PreparedRoot) (path relative : FilePath)
      → OneOf root roots
      → strip_prefix path root.canonical_path ≡ some relative
      → path_is_sensitive r relative ≡ false
      → fs.chunks path ≡ other.chunks path

module _ (sha256 : Bytes → Bytes) (config : SnapshotConfig) (r : Redactor)
    (interrupted : Option (ℕ → Bool)) (fs other : Filesystem) where
  content_hash_same :
      (path : FilePath) (m : Metadata) (sensitive : Bool) (total : ℕ)
      → (sensitive ≡ false → fs.chunks path ≡ other.chunks path)
      → content_hash sha256 fs path m sensitive config total
        ≡ content_hash sha256 other path m sensitive config total
  unfolding content_hash hash_regular_file
  content_hash_same path m true total same = refl
  content_hash_same path m false total same = rw (same refl, content_hash, hash_regular_file) refl

  entry_state_same :
      (path : FilePath) (m : Metadata) (sensitive : Bool) (total : ℕ)
      → fs.read_link path ≡ other.read_link path
      → (sensitive ≡ false → fs.chunks path ≡ other.chunks path)
      → entry_state sha256 fs path m sensitive config total
        ≡ entry_state sha256 other path m sensitive config total
  unfolding entry_state
  entry_state_same path m sensitive total links same =
      rw (entry_state, content_hash_same path m sensitive total same, links) refl

  module _ (roots : List PreparedRoot) (agree : SameButContents r roots fs other)
      (root : PreparedRoot) (one : OneOf root roots) where
    retain_same :
        (path relative : FilePath) (m : Metadata) (t : SnapshotStats) (s : CaptureState)
        → strip_prefix path root.canonical_path ≡ some relative
        → retain sha256 fs config r interrupted root path relative m t s
          ≡ retain sha256 other config r interrupted root path relative m t s
    unfolding retain
    retain_same path relative m t s under =
        let same =
          entry_state_same path m (path_is_sensitive r relative) s.hashed_bytes_total
            (agree.links path) (agree.contents root path relative one under) in
        rw (retain, same) refl

    visit_same :
        (path relative : FilePath) (t : SnapshotStats) (s : CaptureState)
        → strip_prefix path root.canonical_path ≡ some relative
        → visit sha256 fs config r interrupted root path relative t s
          ≡ visit sha256 other config r interrupted root path relative t s
    unfolding visit
    visit_same path relative t s under =
        rw (visit, agree.metadata path) (by_metadata (other.symlink_metadata path))
      where
        shown : CaptureState
        shown = record s {
          redacted_path_components =
              saturating_add s.redacted_path_components (path_display sha256 r relative).1;
        }

        by_metadata :
            (answer : Result Text Metadata)
            → ◌≡◌ {A = CaptureState}
                (elim answer [
                  | err kind ↦ put_stats root (record_error (io_class_name kind) t) shown
                  | ok m ↦ retain sha256 fs config r interrupted root path relative m t shown
                ])
                (elim answer [
                  | err kind ↦ put_stats root (record_error (io_class_name kind) t) shown
                  | ok m ↦ retain sha256 other config r interrupted root path relative m t shown
                ])
        by_metadata (err kind) = refl
        by_metadata (ok m) = retain_same path relative m t shown under

    scan_same :
        (item : WalkItem) (t : SnapshotStats) (s : CaptureState)
        → scan sha256 fs config r interrupted root item t s
          ≡ scan sha256 other config r interrupted root item t s
    unfolding scan
    scan_same (failed e) t s = refl
    scan_same (found path) t s = elim (Bool-cases (leb config.max_entries s.retained_total)) [
      | inl full ↦ rw full refl
      | inr free ↦ rw free (by_prefix (strip_prefix path root.canonical_path) refl)
    ]
      where
        by_prefix :
            (o : Option FilePath)
            → strip_prefix path root.canonical_path ≡ o
            → ◌≡◌ {A = Flow}
                (elim o [
                  | none ↦ proceed (put_stats root (record_error (codes "path_escape") t) s)
                  | some relative ↦
                      proceed (visit sha256 fs config r interrupted root path relative t s)
                ])
                (elim o [
                  | none ↦ proceed (put_stats root (record_error (codes "path_escape") t) s)
                  | some relative ↦
                      proceed (visit sha256 other config r interrupted root path relative t s)
                ])
        by_prefix none under = refl
        by_prefix (some relative) under = ap proceed (visit_same path relative t s under)

    walk_step_same :
        (item : WalkItem) (s : CaptureState)
        → walk_step sha256 fs config r interrupted root item s
          ≡ walk_step sha256 other config r interrupted root item s
    unfolding walk_step
    walk_step_same item s = elim (Option-cases (get s.stats root.root_id)) [
      | inl missing ↦ rw (missing, walk_step) refl
      | inr (t, present) ↦
          let counted : SnapshotStats = record t {
            scanned_entries = saturating_add t.scanned_entries 1;
          } in
          let polled : CaptureState = record s { loads = suc s.loads } in
          rw (present, walk_step, scan_same item counted polled) refl
    ]

    walk_loop_same :
        (items : List WalkItem) (s : CaptureState)
        → walk_loop sha256 fs config r interrupted root items s
          ≡ walk_loop sha256 other config r interrupted root items s
    unfolding walk_loop
    walk_loop_same [] s = refl
    walk_loop_same (item ∷ items) s =
        rw (walk_loop, walk_step_same item s)
          (by_flow (walk_step sha256 other config r interrupted root item s) (walk_loop_same items))
      where
        by_flow :
            (flow : Flow)
            → ((t : CaptureState)
                → walk_loop sha256 fs config r interrupted root items t
                  ≡ walk_loop sha256 other config r interrupted root items t)
            → ◌≡◌ {A = CaptureState}
                (elim flow [
                  | proceed t ↦ walk_loop sha256 fs config r interrupted root items t
                  | stop t ↦ t
                ])
                (elim flow [
                  | proceed t ↦ walk_loop sha256 other config r interrupted root items t
                  | stop t ↦ t
                ])
        by_flow (proceed t) rest = rest t
        by_flow (stop t) rest = refl

    capture_root_same :
        (s : CaptureState)
        → capture_root sha256 fs config r interrupted root s
          ≡ capture_root sha256 other config r interrupted root s
    unfolding capture_root skip_root
    capture_root_same s =
        rw
          (
            capture_root,
            agree.walks root.canonical_path,
            walk_loop_same (other.walk root.canonical_path) (record s { loads = suc s.loads }),
          )
          refl

  capture_loop_same :
      (all roots : List PreparedRoot) (s : CaptureState)
      → SameButContents r all fs other
      → ((root : PreparedRoot) → OneOf root roots → OneOf root all)
      → capture_loop sha256 fs config r interrupted roots s
        ≡ capture_loop sha256 other config r interrupted roots s
  unfolding capture_loop
  capture_loop_same all [] s agree part = refl
  capture_loop_same all (root ∷ roots) s agree part =
      rw (capture_loop, capture_root_same all agree root (part root (inl refl)) s)
        (capture_loop_same all roots (capture_root sha256 other config r interrupted root s) agree
          (λ i m. part i (inr m)))

  -- Two file systems that differ only in the contents of files on sensitive paths below the roots have
  -- one snapshot.
  pub capture_internal-hides_contents :
      (roots : List PreparedRoot)
      → SameButContents r roots fs other
      → capture_internal sha256 fs config r interrupted roots
        ≡ capture_internal sha256 other config r interrupted roots
  unfolding capture_internal
  capture_internal-hides_contents roots agree =
      rw (capture_internal, capture_loop_same roots roots (initial_state roots) agree (λ i m. m))
        refl
