-- ===== src/Record/Recording/Private.antt =====
-- The content of a file on a sensitive path has no influence on a receipt.
use cmdtrail.Prelude.{◌≡◌, refl, some}
use cmdtrail.System.{Filesystem}
use cmdtrail.Snapshot.Capture.{capture_cancellable}
use cmdtrail.Snapshot.Capture.Private.{SameButContents, capture_internal-hides_contents}
use cmdtrail.Record.{RecordOptions}
use cmdtrail.Record.Run.{Run}
use cmdtrail.Record.Draft.{Prepared}
use cmdtrail.Record.Recording.{Machine, observed, events_of, seal}

module _ {D : Type 0} (machine : Machine D) (o : RecordOptions) (p : Prepared) (s : D) (run : Run)
    (other : D → Filesystem) where
  abbrev with_view : Machine D
  with_view = record machine { view = other }

  -- Two recordings with one preparation and one run, of file systems that differ, before the command
  -- and after it, at most in the contents of files on sensitive paths below the observed roots, seal the
  -- same receipt.
  pub seal-hides_contents :
      SameButContents p.redactor p.roots (machine.view s) (other s)
      → SameButContents p.redactor p.roots
          (machine.view (machine.meanwhile o.command p.working_directory s))
          (other (machine.meanwhile o.command p.working_directory s))
      → seal machine o p (observed machine o p s run)
        ≡ seal with_view o p (observed with_view o p s run)
  unfolding seal events_of observed capture_cancellable
  seal-hides_contents first second =
      rw
        (
          capture_internal-hides_contents machine.hashing.sha256 _ p.redactor
              (some machine.flag_before) (machine.view s) (other s) p.roots first,
          capture_internal-hides_contents machine.hashing.sha256 _ p.redactor
              (some machine.flag_after)
              (machine.view (machine.meanwhile o.command p.working_directory s))
              (other (machine.meanwhile o.command p.working_directory s)) p.roots second,
        )
        refl
