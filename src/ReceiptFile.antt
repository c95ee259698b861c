-- ===== src/ReceiptFile.antt =====
-- receipt.rs: receipts as files. A receipt is written only to a path where nothing is, and read
-- only up to a size. JSON is that of `serde_json`, a parameter.
pub mod Preflight
pub mod Storage
pub mod RoundTrip
mod Tests
use cmdtrail.Prelude.{
  ℕ, ◌+◌, ◌*◌, ◌≡◌, refl, Bool, true, false, not, Option, none, some, List, [], ◌∷◌, ◌++◌, ltb,
  if◌then◌else◌, len_u64,
}
use cmdtrail.Text.{Bytes, Text, codes, is_empty, text_eq}
use cmdtrail.FilePath.{FilePath, file_name, parent, dot}
use cmdtrail.Result.{Result, ok, err, ok_or, reject_if, or_error}
use cmdtrail.Action.{Action, ◌>>=◌, ◌>>◌, look, give}
use cmdtrail.Error.{AppError, io, usage, limit}
use cmdtrail.Model.{Receipt}
use cmdtrail.System.{Metadata}
use cmdtrail.Disk.{Disk}

-- What `serde_json` supplies: `to_vec_pretty` and `from_slice` of a receipt.
pub record ReceiptJson : Type 0 where
  pub to_vec_pretty : Receipt → Option Bytes
  pub from_slice : Bytes → Option Receipt

abbrev pub max_receipt_bytes : ℕ
max_receipt_bytes = 64 * 1024 * 1024

abbrev pub too_large : AppError
too_large = limit (codes "receipt_too_large") (codes "the receipt exceeds the 64 MiB input limit")

abbrev pub parse_failed : AppError
parse_failed =
    io (codes "receipt_parse_failed") (codes "the receipt is not valid strict CmdTrail JSON")

abbrev pub open_failed : AppError
open_failed = io (codes "receipt_open_failed") (codes "could not open the receipt")

abbrev pub not_regular : AppError
not_regular = io (codes "receipt_not_regular_file") (codes "the receipt path is not a regular file")

abbrev pub read_failed : AppError
read_failed = io (codes "receipt_read_failed") (codes "could not read the receipt")

abbrev pub no_file_name : AppError
no_file_name =
    usage (codes "invalid_output_path") (codes "the output path must include a file name")

abbrev pub parent_unavailable : AppError
parent_unavailable =
    io (codes "output_parent_unavailable")
      (codes "the receipt output directory does not exist or is inaccessible")

abbrev pub parent_not_directory : AppError
parent_not_directory =
    io (codes "output_parent_not_directory") (codes "the receipt output parent is not a directory")

abbrev pub already_exists : AppError
already_exists =
    io (codes "output_already_exists")
      (codes "the receipt output path already exists; CmdTrail never overwrites receipts")

abbrev pub preflight_failed : AppError
preflight_failed =
    io (codes "output_preflight_failed")
      (codes "the receipt output path could not be checked safely")

abbrev pub serialization_failed : AppError
serialization_failed =
    io (codes "receipt_serialization_failed") (codes "could not serialize the receipt")

abbrev pub create_failed : AppError
create_failed = io (codes "output_create_failed") (codes "could not create the receipt output")

abbrev pub write_failed : AppError
write_failed = io (codes "output_write_failed") (codes "could not durably write the receipt")

-- The parent of a bare file name is the current directory.
unfoldable pub receipt_parent : FilePath → FilePath
receipt_parent path = elim (parent path) [
  | none ↦ dot
  | some above ↦ if is_empty above then dot else above
]

unfoldable pub parse_receipt_document : ReceiptJson → Bytes → Result AppError Receipt
parse_receipt_document json document =
    if ltb max_receipt_bytes (len_u64 document)
    then err too_large
    else ok_or (json.from_slice document) parse_failed

-- The answer of `symlink_metadata` for the target.
unfoldable pub check_target : Result Text Metadata → Result AppError (Unit {0})
check_target (ok m) = err already_exists
check_target (err kind) = if text_eq kind (codes "NotFound") then ok tt else err preflight_failed

-- The error of `create_new`.
unfoldable pub creation_error : Result Text (Unit {0}) → Result AppError (Unit {0})
creation_error (ok done) = ok tt
creation_error (err kind) =
    if text_eq kind (codes "AlreadyExists") then err already_exists else err create_failed

module _ {D : Type 0} (disk : Disk D) where
  unfoldable pub preflight_new_receipt : FilePath → Action D (Unit {0})
  preflight_new_receipt path = do
    name ← give (ok_or (file_name path) no_file_name)
    m ← look (λ s. or_error (disk.metadata s (receipt_parent path)) parent_unavailable)
    give (reject_if (not m.is_dir) parent_not_directory)
    look (λ s. check_target (disk.symlink_metadata s path))

  -- `options.open(path)` with `create_new`.
  unfoldable pub create_output : FilePath → Action D (Unit {0})
  create_output path s = let (t, answer) = disk.create_new s path in (t, creation_error answer)

  -- What follows `file.write_all(&bytes)`: `and_then(|()| file.sync_all())`.
  unfoldable pub sync_after : FilePath → D × Result Text (Unit {0}) → D × Result AppError (Unit {0})
  sync_after path (t, err kind) = (t, err write_failed)
  sync_after path (t, ok done) =
      let (u, answer) = disk.sync_all t path in (u, or_error answer write_failed)

  unfoldable pub write_durably : FilePath → Bytes → Action D (Unit {0})
  write_durably path content s = sync_after path (disk.write_all s path content)

  unfoldable pub write_new_receipt : ReceiptJson → FilePath → Receipt → Action D (Unit {0})
  write_new_receipt json path receipt = do
    preflight_new_receipt path
    document ← give (ok_or (json.to_vec_pretty receipt) serialization_failed)
    create_output path
    write_durably path (document ++ (b'\n' ∷ []))

  unfoldable pub read_receipt : ReceiptJson → FilePath → Action D Receipt
  read_receipt json path = do
    m ← look (λ s. or_error (disk.metadata s path) open_failed)
    give (reject_if (not m.is_file) not_regular)
    give (reject_if (ltb max_receipt_bytes m.len) too_large)
    look (λ s. or_error (disk.open_file s path) open_failed)
    document ← look (λ s. or_error (disk.read_up_to s path (max_receipt_bytes + 1)) read_failed)
    give (reject_if (ltb max_receipt_bytes (len_u64 document)) too_large)
    give (parse_receipt_document json document)
