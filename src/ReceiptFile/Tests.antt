-- ===== src/ReceiptFile/Tests.antt =====
-- The receipt of a sample, written to an empty disk and read back.
use cmdtrail.Prelude.{◌≡◌, ◌+◌, ◌↔◌, refl, some, [], leb, length, if◌then◌else◌}
use cmdtrail.Text.{Bytes, codes, text_eq}
use cmdtrail.FilePath.{file_name, parent}
use cmdtrail.Result.{ok, err}
use cmdtrail.Disk.{Holds}
use cmdtrail.Disk.Samples.{Files, put, no_files, sample_disk, sample_disk-IsDisk}
use cmdtrail.ReceiptFile.{
  receipt_parent, check_target, preflight_new_receipt, create_output, creation_error, sync_after,
  write_durably, write_new_receipt, read_receipt, max_receipt_bytes, too_large,
}
use cmdtrail.ReceiptFile.Preflight.{IsFree, preflight_new_receipt-IsFree}
use cmdtrail.ReceiptFile.Storage.{write_new_receipt-Holds}
use cmdtrail.ReceiptFile.RoundTrip.{read_receipt-write_new_receipt}
use cmdtrail.Record.Recording.Samples.{json, json_prints, json-ReadsBack, final}
use cmdtrail.Integrity.Samples.{small}

preflight_new_receipt-IsFree_example :
    ((preflight_new_receipt sample_disk (codes "out.json") no_files).0 ≡ no_files)
    × (((preflight_new_receipt sample_disk (codes "out.json") no_files).1 ≡ ok tt)
        ↔ IsFree sample_disk no_files (codes "out.json"))
preflight_new_receipt-IsFree_example =
    preflight_new_receipt-IsFree sample_disk no_files (codes "out.json")

abbrev one_file : Files
one_file = put no_files (codes "a") (codes "x")

held : Holds sample_disk one_file (codes "a") (codes "x")
unfolding text_eq
held = record { found = (_, refl, refl, refl); opens = refl; reads = λ n. refl }

write_new_receipt-Holds_example :
    Holds sample_disk
      (write_new_receipt sample_disk json (codes "a") small one_file).0
      (codes "a")
      (codes "x")
write_new_receipt-Holds_example =
    write_new_receipt-Holds sample_disk sample_disk-IsDisk json one_file (codes "a") (codes "a")
      small (codes "x") held

abbrev with_receipt : Files
with_receipt = put (put no_files (codes "out.json") []) (codes "out.json") (codes "{}\n")

wrote : write_new_receipt sample_disk json (codes "out.json") final no_files ≡ (with_receipt, ok tt)
unfolding write_new_receipt preflight_new_receipt check_target create_output creation_error
    write_durably sync_after receipt_parent file_name parent text_eq
wrote = simp json_prints refl

read_receipt-write_new_receipt_example :
    (document : Bytes) × (json.to_vec_pretty final ≡ some document)
    × (read_receipt sample_disk json (codes "out.json") with_receipt ≡ (
      with_receipt,
      if leb (length document + 1) max_receipt_bytes then ok final else err too_large,
    ))
read_receipt-write_new_receipt_example =
    read_receipt-write_new_receipt sample_disk sample_disk-IsDisk json json-ReadsBack no_files
      (codes "out.json") final wrote
