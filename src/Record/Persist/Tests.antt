-- ===== src/Record/Persist/Tests.antt =====
-- A receipt for a path that is taken.
use cmdtrail.Text.{codes}
use cmdtrail.Integrity.Samples.{small}
use cmdtrail.Disk.Samples.{Files, put, no_files, sample_disk, sample_disk-IsDisk}
use cmdtrail.Record.Recording.Samples.{json}
use cmdtrail.Record.Persist.{persist_receipt_with_recovery}
use cmdtrail.Record.Persist.Saved.{IsPersisted, persist_receipt_with_recovery-IsPersisted}

abbrev taken : Files
taken = put no_files (codes "out.json") (codes "old")

persist_receipt_with_recovery-IsPersisted_example :
    let end = persist_receipt_with_recovery sample_disk json (codes "out.json") small taken in
    IsPersisted sample_disk json taken end.0 (codes "out.json") small end.1
persist_receipt_with_recovery-IsPersisted_example =
    persist_receipt_with_recovery-IsPersisted sample_disk sample_disk-IsDisk json taken
      (codes "out.json") small
