-- ===== src/Record/Recording/Complete.antt =====
-- From the disk to the receipt: what a sealed receipt that marks no cut and drops no effect does not
-- miss of the paths that come and go.
use cmdtrail.Prelude.{◌≡◌, ◌⊎◌, inl, inr, ap, ◌∙◌, true, false, some, OneOf}
use cmdtrail.FilePath.{FilePath, strip_prefix}
use cmdtrail.Result.{ok}
use cmdtrail.Model.{Receipt, FileEffect, created, deleted}
use cmdtrail.System.{Metadata, found}
use cmdtrail.Snapshot.Types.{PreparedRoot}
use cmdtrail.Snapshot.Capture.{handle_of, capture_cancellable}
use cmdtrail.Snapshot.Capture.Growth.{has_entry}
use cmdtrail.Encoding.Frames.{IsShort}
use cmdtrail.Integrity.Binding.{Collision}
use cmdtrail.Snapshot.Capture.Found.{capture_internal_finds}
use cmdtrail.Snapshot.Capture.Handles.{IsUnfound, unfound_no_entry}
use cmdtrail.Snapshot.Compare.Reported.{compare_created, compare_deleted}
use cmdtrail.Record.{RecordOptions, validate_options}
use cmdtrail.Record.Run.{Run}
use cmdtrail.Record.Draft.{Prepared}
use cmdtrail.Record.Recording.{Machine, snapshot_config, observed, seal}
use cmdtrail.Record.Recording.Truthful.{IsTold, told_by_events, seal_uncut}

module _ {D : Type 0} (machine : Machine D) (o : RecordOptions) (p : Prepared) (s : D) (run : Run)
    {receipt : Receipt} (root : PreparedRoot) (path relative : FilePath) {m : Metadata} where
  -- A recording is sealed, nothing was cut off and no effect dropped. A path below an observed root that
  -- the walk after the command finds, and whose metadata can be read then, but that no walk found below a
  -- root of that identifier before the command, is told of as created; or there is a collision of the
  -- hash function. The options are within their limits, and identifiers and paths no longer than the
  -- largest u64.
  pub seal_tells_created :
      validate_options o ≡ ok tt
      → seal machine o p (observed machine o p s run) ≡ ok receipt
      → receipt.summary.snapshot_truncated ≡ false
      → receipt.summary.dropped_file_effects ≡ 0
      → OneOf root p.roots
      → OneOf (found path) (
          (machine.view (machine.meanwhile o.command p.working_directory s)).walk
            root.canonical_path)
      → strip_prefix path root.canonical_path ≡ some relative
      → (machine.view (machine.meanwhile o.command p.working_directory s)).symlink_metadata path
        ≡ ok m
      → IsShort root.root_id × IsShort relative
      → IsUnfound machine.hashing.sha256 (machine.view s) p.roots root.root_id relative
      → ((told : IsTold
            (observed machine o p s run)
            receipt
            (handle_of machine.hashing.sha256 root.root_id relative))
          × (told.effect.effect ≡ created))
        ⊎ Collision machine.hashing.sha256
  unfolding observed capture_cancellable
  seal_tells_created valid sealed whole kept one listed under readable short new =
      let seen = observed machine o p s run in
      let key = handle_of machine.hashing.sha256 root.root_id relative in
      let uncut = seal_uncut machine o p seen root valid sealed whole one in
      let here : has_entry seen.after.entries key ≡ true =
        capture_internal_finds machine.hashing.sha256
          (machine.view (machine.meanwhile o.command p.working_directory s)) _ p.redactor
          (some machine.flag_after) root path relative under readable p.roots one listed uncut.1 in
      elim (unfound_no_entry machine.hashing.sha256 (machine.view s) (snapshot_config o) p.redactor
        (some machine.flag_before) p.roots root.root_id relative short new) [
          | inr collision ↦ inr collision
          | inl gone ↦
              let (tells, kind) = compare_created seen.before seen.after key gone here in
              let (told, same) = told_by_events machine o p seen valid sealed kept tells in
              inl (told, ap (λ (e : FileEffect). e.effect) same ∙ kind)
        ]

  -- The same of a path that a walk before the command finds, and whose metadata can be read then, but
  -- that no walk finds after the command below a root of that identifier: it is told of as deleted.
  pub seal_tells_deleted :
      validate_options o ≡ ok tt
      → seal machine o p (observed machine o p s run) ≡ ok receipt
      → receipt.summary.snapshot_truncated ≡ false
      → receipt.summary.dropped_file_effects ≡ 0
      → OneOf root p.roots
      → OneOf (found path) ((machine.view s).walk root.canonical_path)
      → strip_prefix path root.canonical_path ≡ some relative
      → (machine.view s).symlink_metadata path ≡ ok m
      → IsShort root.root_id × IsShort relative
      → IsUnfound machine.hashing.sha256
          (machine.view (machine.meanwhile o.command p.working_directory s))
          p.roots
          root.root_id
          relative
      → ((told : IsTold
            (observed machine o p s run)
            receipt
            (handle_of machine.hashing.sha256 root.root_id relative))
          × (told.effect.effect ≡ deleted))
        ⊎ Collision machine.hashing.sha256
  unfolding observed capture_cancellable
  seal_tells_deleted valid sealed whole kept one listed under readable short lost =
      let seen = observed machine o p s run in
      let key = handle_of machine.hashing.sha256 root.root_id relative in
      let uncut = seal_uncut machine o p seen root valid sealed whole one in
      let here : has_entry seen.before.entries key ≡ true =
        capture_internal_finds machine.hashing.sha256 (machine.view s) _ p.redactor
          (some machine.flag_before) root path relative under readable p.roots one listed uncut.0 in
      elim (unfound_no_entry machine.hashing.sha256
        (machine.view (machine.meanwhile o.command p.working_directory s)) (snapshot_config o)
        p.redactor (some machine.flag_after) p.roots root.root_id relative short lost) [
          | inr collision ↦ inr collision
          | inl gone ↦
              let (tells, kind) = compare_deleted seen.before seen.after key here gone in
              let (told, same) = told_by_events machine o p seen valid sealed kept tells in
              inl (told, ap (λ (e : FileEffect). e.effect) same ∙ kind)
        ]
