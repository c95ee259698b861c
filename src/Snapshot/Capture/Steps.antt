-- ===== src/Snapshot/Capture/Steps.antt =====
-- The rounds of a capture, as growth: what the walk found is entered where nothing is cut off.
use cmdtrail.Prelude.{
  ℕ, suc, ◌≡◌, refl, sym, ap, ◌∙◌, Bool, true, Bool-cases, inl, inr, Option, Option-cases, none,
  some, leb, saturating_add,
}
use cmdtrail.Ord.{list_ord, nat_ord}
use cmdtrail.BTree.{get}
use cmdtrail.BTree.Keys.{is_some-insert-here}
use cmdtrail.Text.{Text, Bytes, codes}
use cmdtrail.FilePath.{FilePath, strip_prefix}
use cmdtrail.Result.{Result, ok, err}
use cmdtrail.Model.{SnapshotStats}
use cmdtrail.System.{Metadata, Filesystem, WalkItem, found, failed}
use cmdtrail.Redact.{Redactor, path_display, path_is_sensitive}
use cmdtrail.Snapshot.Types.{SnapshotConfig, PreparedRoot}
use cmdtrail.Snapshot.Entry.{entry_state}
use cmdtrail.Snapshot.Capture.{
  CaptureState, is_interrupted, record_error, io_class_name, record_walk_error, cut_off,
  count_state, proceed, state_of_flow, put_stats, handle_of, retain, visit, scan, walk_step,
}
use cmdtrail.Snapshot.Capture.Growth.{
  has_entry, marks_cut, is_cut, Grew, Grew-refl, counted-Grows, entered-Grows,
  count_state-truncated,
}

-- What a path is called, if it lies under the root.
abbrev pub IsAllowed : (Text → Type 0) → (Bytes → Bytes) → PreparedRoot → FilePath → Type 0
IsAllowed P sha256 root path =
    (relative : FilePath)
    → strip_prefix path root.canonical_path ≡ some relative
    → P (handle_of sha256 root.root_id relative)

module _ (sha256 : Bytes → Bytes) (fs : Filesystem) (config : SnapshotConfig) (r : Redactor)
    (interrupted : Option (ℕ → Bool)) (P : Text → Type 0) (root : PreparedRoot) where
  -- A cut is marked in the statistics that a round goes on with.
  abbrev Follows : SnapshotStats → CaptureState → Type 0
  Follows t s = is_cut s.stats root.root_id ≡ true → t.truncated ≡ true

  retain-Grew :
      (path relative : FilePath) (m : Metadata) (t : SnapshotStats) (s : CaptureState)
      → P (handle_of sha256 root.root_id relative)
      → Follows t s
      → Grew P s (retain sha256 fs config r interrupted root path relative m t s)
  unfolding retain
  retain-Grew path relative m t s allowed keeps =
      let captured =
        entry_state sha256 fs path m (path_is_sensitive r relative) config s.hashed_bytes_total in
      let handle = handle_of sha256 root.root_id relative in
      entered-Grows P root.root_id handle
        (record (count_state captured.0 m.len t) {
          retained_entries = saturating_add (count_state captured.0 m.len t).retained_entries 1;
        })
        (record {
          root_id = root.root_id;
          path_handle = handle;
          display_path = (path_display sha256 r relative).0;
          state = captured.0;
        })
        s allowed (λ h. count_state-truncated captured.0 m.len t ∙ keeps h)

  visit-Grew :
      (path relative : FilePath) (t : SnapshotStats) (s : CaptureState)
      → P (handle_of sha256 root.root_id relative)
      → Follows t s
      → Grew P s (visit sha256 fs config r interrupted root path relative t s)
  unfolding visit record_error
  visit-Grew path relative t s allowed keeps = by_metadata (fs.symlink_metadata path)
    where
      shown : CaptureState
      shown = record s {
        redacted_path_components =
            saturating_add s.redacted_path_components (path_display sha256 r relative).1;
      }

      by_metadata :
          (answer : Result Text Metadata)
          → Grew P s (elim answer [
            | err kind ↦ put_stats root (record_error (io_class_name kind) t) shown
            | ok m ↦ retain sha256 fs config r interrupted root path relative m t shown
          ])
      by_metadata (err kind) =
          counted-Grows P root.root_id (record_error (io_class_name kind) t) s keeps
      by_metadata (ok m) = retain-Grew path relative m t shown allowed keeps

  -- A path whose metadata can be read gets an entry.
  pub visit_finds :
      (path relative : FilePath) {m : Metadata} (t : SnapshotStats) (s : CaptureState)
      → fs.symlink_metadata path ≡ ok m
      → has_entry
          (visit sha256 fs config r interrupted root path relative t s).entries
          (handle_of sha256 root.root_id relative)
        ≡ true
  unfolding visit retain
  visit_finds path relative t s readable =
      rw (readable, visit)
        (is_some-insert-here (handle_of sha256 root.root_id relative) _ s.entries)

  abbrev pub AllowsItem : WalkItem → Type 0
  AllowsItem item = (path : FilePath) → item ≡ found path → IsAllowed P sha256 root path

  scan-Grew :
      (item : WalkItem) (t : SnapshotStats) (s : CaptureState)
      → AllowsItem item
      → Follows t s
      → Grew P s (state_of_flow (scan sha256 fs config r interrupted root item t s))
  unfolding scan record_error
  scan-Grew (failed e) t s allowed keeps =
      counted-Grows P root.root_id (record_walk_error e t) s
        (unfold record_walk_error record_error in keeps)
  scan-Grew (found path) t s allowed keeps =
      elim (Bool-cases (leb config.max_entries s.retained_total)) [
        | inl full ↦ rw full (counted-Grows P root.root_id (cut_off t) s (λ h. refl))
        | inr free ↦ rw free (
            by_prefix (strip_prefix path root.canonical_path)
              (λ relative h. allowed path refl relative h))
      ]
    where
      by_prefix :
          (o : Option FilePath)
          → ((relative : FilePath) → o ≡ some relative → P (handle_of sha256 root.root_id relative))
          → Grew P s (
              state_of_flow (elim o [
                | none ↦ proceed (put_stats root (record_error (codes "path_escape") t) s)
                | some relative ↦
                    proceed (visit sha256 fs config r interrupted root path relative t s)
              ]))
      by_prefix none named =
          counted-Grows P root.root_id (record_error (codes "path_escape") t) s keeps
      by_prefix (some relative) named = visit-Grew path relative t s (named relative refl) keeps

  pub walk_step-Grew :
      (item : WalkItem) (s : CaptureState)
      → AllowsItem item
      → Grew P s (state_of_flow (walk_step sha256 fs config r interrupted root item s))
  unfolding walk_step
  walk_step-Grew item s allowed = elim (Option-cases (get s.stats root.root_id)) [
    | inl missing ↦ rw (missing, walk_step) (Grew-refl P s)
    | inr (t, present) ↦
        rw (present, walk_step)
          (elim (Bool-cases (is_interrupted interrupted s.loads)) [
            | inl now ↦ rw now (counted-Grows P root.root_id (cut_off t) s (λ h. refl))
            | inr later ↦ rw later (
                scan-Grew item (record t { scanned_entries = saturating_add t.scanned_entries 1 })
                  (record s { loads = suc s.loads }) allowed (λ h. sym (ap marks_cut present) ∙ h))
          ])
  ]
