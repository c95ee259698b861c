-- ===== src/Record/Persist.antt =====
-- record.rs: a receipt that cannot be written where it was asked for is written beside that path,
-- and the error says what became of it.
pub mod Saved
mod Tests
use cmdtrail.Prelude.{Bool, true, false, Option, none, some, ◌++◌, if◌then◌else◌}
use cmdtrail.Text.{Text, codes}
use cmdtrail.Text.Utf8.{to_string_lossy}
use cmdtrail.FilePath.{FilePath, join}
use cmdtrail.Result.{Result, ok, err}
use cmdtrail.Action.{Action}
use cmdtrail.Error.{AppError, do_not_retry_record, post_execution_receipt}
use cmdtrail.Model.{Receipt}
use cmdtrail.Disk.{Disk}
use cmdtrail.ReceiptFile.{ReceiptJson, receipt_parent, write_new_receipt}

unfoldable pub recovery_receipt_path : FilePath → Receipt → FilePath
recovery_receipt_path path receipt =
    join (receipt_parent path) (codes ".cmdtrail-recovery-" ++ receipt.receipt_id ++ codes ".json")

abbrev recovery_message : Bool → FilePath → Text
recovery_message persisted recovery_path =
    if persisted
    then codes
        "the command was attempted and the requested receipt could not be written; recovery receipt saved to "
      ++ to_string_lossy recovery_path
      ++ codes "; do not retry record"
    else codes "the command was attempted and neither the requested receipt nor recovery receipt "
      ++ to_string_lossy recovery_path
      ++ codes " could be written; do not retry record"

unfoldable pub post_execution_receipt_error :
    Text → FilePath → FilePath → Receipt → Text → Option Text → Bool → AppError
post_execution_receipt_error code requested_path recovery_path receipt primary second persisted =
    post_execution_receipt code (recovery_message persisted recovery_path) (record {
      action = do_not_retry_record;
      receipt_id = receipt.receipt_id;
      receipt_sha256 = receipt.receipt_sha256;
      command_state = receipt.summary.command_state;
      requested_receipt = to_string_lossy requested_path;
      recovery_receipt = to_string_lossy recovery_path;
      recovery_receipt_persisted = persisted;
      primary_error_code = primary;
      recovery_error_code = second;
    })

module _ {D : Type 0} where
  -- After the second write, with the error of the first.
  unfoldable pub after_recovery :
      FilePath
      → Receipt
      → AppError
      → D × Result AppError (Unit {0})
      → D × Result AppError (Unit {0})
  after_recovery path receipt primary (s, ok done) = (
    s,
    err (
        post_execution_receipt_error (codes "receipt_recovery_required") path
          (recovery_receipt_path path receipt) receipt primary.code none true),
  )
  after_recovery path receipt primary (s, err second) = (
    s,
    err (
        post_execution_receipt_error (codes "receipt_recovery_failed") path
          (recovery_receipt_path path receipt) receipt primary.code (some second.code) false),
  )

  unfoldable pub after_primary :
      FilePath
      → Receipt
      → (FilePath → Receipt → Action D (Unit {0}))
      → D × Result AppError (Unit {0})
      → D × Result AppError (Unit {0})
  after_primary path receipt write (s, ok done) = (s, ok tt)
  after_primary path receipt write (s, err primary) =
      after_recovery path receipt primary (write (recovery_receipt_path path receipt) receipt s)

  unfoldable pub persist_receipt_with_recovery_using :
      FilePath → Receipt → (FilePath → Receipt → Action D (Unit {0})) → Action D (Unit {0})
  persist_receipt_with_recovery_using path receipt write s =
      after_primary path receipt write (write path receipt s)

  unfoldable pub persist_receipt_with_recovery :
      Disk D → ReceiptJson → FilePath → Receipt → Action D (Unit {0})
  persist_receipt_with_recovery disk json path receipt =
      persist_receipt_with_recovery_using path receipt (write_new_receipt disk json)
