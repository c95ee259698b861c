-- ===== src/Cli/Execute/RecordVerify.antt =====
-- A recording that ends with exit code 0 is one that `verify` accepts.
use cmdtrail.Prelude.{
  ℕ, ◌+◌, ◌≡◌, refl, ap, Bool, true, false, Option, none, some, if◌then◌else◌, leb, length,
}
use cmdtrail.Text.{Bytes}
use cmdtrail.FilePath.{FilePath}
use cmdtrail.Result.{Result, ok, err}
use cmdtrail.Error.{AppError}
use cmdtrail.Model.{Receipt, RecordResult}
use cmdtrail.Disk.{IsDisk}
use cmdtrail.ReceiptFile.{read_receipt, max_receipt_bytes, too_large}
use cmdtrail.ReceiptFile.RoundTrip.{ReadsBack, read_receipt-printed}
use cmdtrail.Integrity.{verify_receipt}
use cmdtrail.Record.Recording.{Machine}
use cmdtrail.Record.Recording.Verified.{record_command-Delivers}
use cmdtrail.Cli.Execute.{
  RecordArgs, record_it, verify_it, Document, recorded, Session, print, print_json, verify_file,
  after_record, execute, record_options,
}

-- Standard output takes every document.
abbrev pub takes_all : Document → Bool
takes_all document = true

module _ {D : Type 0} (machine : Machine D) where
  after_record-ok :
      (s : Session D) (end : Option (D × Result AppError RecordResult)) {t : Session D} {code : ℕ}
      → after_record machine takes_all s end ≡ some (t, ok code)
      → (result : RecordResult) × (end ≡ some (t.disk, ok result))
  unfolding after_record print_json
  after_record-ok s none h = cc
  after_record-ok s (some (d, err e)) h = cc
  after_record-ok s (some (d, ok result)) {t} h =
      let same : print (recorded result) (record s { disk = d }) ≡ t = cc (h) in
      (result, ap (λ (x : Session D). some (x.disk, ok result)) same)

  verify_read :
      (path : FilePath) (s : Session D) (receipt : Receipt) (test : Bool)
      → read_receipt machine.disk machine.json path s.disk
        ≡ (s.disk, if test then ok receipt else err too_large)
      → (verify_receipt machine.hashing machine.build.version receipt).integrity_valid ≡ true
      → (verify_file machine takes_all path s).1 ≡ (if test then ok 0 else err too_large)
  unfolding verify_file print_json
  verify_read path s receipt true h intact = simp (h, intact) refl
  verify_read path s receipt false h intact = simp h refl

  -- If `record` ends with exit code 0, then `verify` of the path that it was given, right after it, ends
  -- with exit code 0 as well; unless the receipt with its line feed is longer than 64 MiB, which
  -- `verify` refuses as too large. Standard output takes every document, the disk behaves as
  -- documented, and `serde_json` reads back what it prints.
  pub verify_it-record_it :
      (lawful : IsDisk machine.disk) (faithful : ReadsBack machine.json) (fuel : ℕ)
      (args : RecordArgs) (s : Session D) {t : Session D} {code : ℕ}
      → execute machine takes_all fuel (record_it args) s ≡ some (t, ok code)
      → (receipt : Receipt) × (document : Bytes) × (u : Session D) × (machine.json.to_vec_pretty
            receipt
          ≡ some document)
        × (execute machine takes_all fuel (verify_it args.out) t
            ≡ some (u, if leb (length document + 1) max_receipt_bytes then ok 0 else err too_large))
  unfolding execute record_options
  verify_it-record_it lawful faithful fuel args s {t} made =
      let (result, finished) = after_record-ok s _ made in
      let done =
        (record_command-Delivers machine (record_options args) lawful fuel s.disk
          finished).receipt_of in
      let (document, printed, held) = done.saved in
      let reads =
        read_receipt-printed machine.disk lawful machine.json faithful t.disk args.out done.receipt
          document printed held in
      (
        done.receipt,
        document,
        (verify_file machine takes_all args.out t).0,
        printed,
        ap (λ r. some ((verify_file machine takes_all args.out t).0, r))
            (verify_read args.out t done.receipt (leb (length document + 1) max_receipt_bytes) reads
              done.sound.intact),
      )
