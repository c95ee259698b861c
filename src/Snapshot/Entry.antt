-- ===== src/Snapshot/Entry.antt =====
-- `entry_state` and `hash_regular_file`: what a snapshot keeps of one path, on Unix.
pub mod Laws
use cmdtrail.Prelude.{
  ℕ, ◌+◌, ◌-◌, Bool, true, false, ◌&&◌, ◌||◌, Option, none, some, List, [], ◌∷◌, ◌++◌, ltb, ◌==◌,
  if◌then◌else◌, length, take, saturating_add, len_u64, u64_max,
}
use mathlib.Core.Option
use cmdtrail.Text.{Bytes, Text, is_empty}
use cmdtrail.Text.Decimal.{to_decimal}
use cmdtrail.FilePath.{FilePath}
use cmdtrail.Encoding.{hex_lower, sha256_bytes}
use cmdtrail.Result.{Result, ok, err}
use cmdtrail.Model.{
  EntryKind, file, directory, symlink, other, EntryState, ContentHashState, hashed,
  not_regular_file, skipped_sensitive_path, skipped_file_too_large, skipped_total_budget,
  read_error, changed_during_read,
}
use cmdtrail.System.{Metadata, Filesystem, Chunk, bytes, broken}
use cmdtrail.Snapshot.Types.{SnapshotConfig}

unfoldable pub kind_of : Metadata → EntryKind
kind_of m =
    if m.is_file
    then file
    else if m.is_dir
    then directory
    else if m.is_symlink
    then symlink
    else other

abbrev pub is_regular : EntryKind → Bool
is_regular file = true
is_regular _ = false

abbrev pub is_link : EntryKind → Bool
is_link symlink = true
is_link _ = false

-- After the loop: a file of another length than expected gets no digest.
unfoldable pub finish_hash : (Bytes → Bytes) → ℕ → ℕ → Bytes → Text × ℕ
finish_hash sha256 expected total content =
    if total == expected then (hex_lower (sha256 content), total) else ([], total)

-- The read loop: `left` is what `take` still lets through, `total` what was read, `content` what
-- the hasher was given.
unfoldable pub hash_loop :
    (Bytes → Bytes) → ℕ → ℕ → List Chunk → ℕ → ℕ → Bytes → Result Text (Text × ℕ)
hash_loop sha256 expected maximum [] left total content =
    ok (finish_hash sha256 expected total content)
hash_loop sha256 expected maximum (broken e ∷ chunks) left total content = err e
hash_loop sha256 expected maximum (bytes b ∷ chunks) left total content =
    let read = take left b in
    let total' = saturating_add total (len_u64 read) in
    let rest =
      hash_loop sha256 expected maximum chunks (left - length read) total' (content ++ read) in
    if is_empty read
    then ok (finish_hash sha256 expected total content)
    else if ltb maximum total'
    then ok ([], total')
    else rest

-- The result of the last branch, with the new total of hashed bytes.
unfoldable pub hashed_content : Result Text (Text × ℕ) → ℕ → ℕ → Option Text × ContentHashState × ℕ
hashed_content (ok (digest, read)) len total =
    if read == len
    then (some digest, hashed, saturating_add total read)
    else (none, changed_during_read, total)
hashed_content (err e) len total = (none, read_error, total)

module _ (sha256 : Bytes → Bytes) (fs : Filesystem) where
  unfoldable pub hash_regular_file : FilePath → ℕ → ℕ → Result Text (Text × ℕ)
  hash_regular_file path expected maximum = elim (fs.chunks path) [
    | err e ↦ err e
    | ok chunks ↦ hash_loop sha256 expected maximum chunks (saturating_add maximum 1) 0 []
  ]

  -- The ladder that decides whether the content is hashed.
  unfoldable pub content_hash :
      FilePath → Metadata → Bool → SnapshotConfig → ℕ → Option Text × ContentHashState × ℕ
  content_hash path m sensitive config total =
      if is_regular (kind_of m)
      then (if sensitive
          then (none, skipped_sensitive_path, total)
          else if config.max_file_hash_bytes == 0 || ltb config.max_file_hash_bytes m.len
          then (none, skipped_file_too_large, total)
          else if config.max_total_hash_bytes == 0
              || ltb config.max_total_hash_bytes (saturating_add total m.len)
          then (none, skipped_total_budget, total)
          else hashed_content (hash_regular_file path m.len config.max_file_hash_bytes) m.len total)
      else (none, not_regular_file, total)

  -- The state of a path, and the new total of hashed bytes.
  unfoldable pub entry_state : FilePath → Metadata → Bool → SnapshotConfig → ℕ → EntryState × ℕ
  entry_state path m sensitive config total =
      let kind = kind_of m in
      let (digest, hash_state, total') = content_hash path m sensitive config total in
      (
        record {
          kind = kind;
          size_bytes = if is_regular kind then some (to_decimal m.len) else none;
          modified_at_unix_ns = Option.map to_decimal m.modified_ns;
          readonly = m.readonly;
          unix_mode = some m.mode;
          content_sha256 = digest;
          content_hash_state = hash_state;
          symlink_target_sha256 =
              if is_link kind then Option.map (sha256_bytes sha256) (fs.read_link path) else none;
        },
        total',
      )
