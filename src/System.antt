-- ===== src/System.antt =====
-- What the operating system and the `walkdir` crate answer: parameters of the model. An I/O error
-- is the `Debug` name of its kind.
use cmdtrail.Prelude.{ℕ, Bool, Option, List}
use cmdtrail.Text.{Bytes, Text}
use cmdtrail.FilePath.{FilePath}
use cmdtrail.Result.{Result}

pub record Metadata : Type 0 where
  pub is_file : Bool
  pub is_dir : Bool
  pub is_symlink : Bool
  pub len : ℕ
  -- nanoseconds since the epoch, where the time is known and not before it
  pub modified_ns : Option ℕ
  pub readonly : Bool
  pub mode : ℕ

pub record WalkError : Type 0 where
  pub loop_ancestor : Bool
  pub io_kind : Option Text

pub data WalkItem : Type 0 where
  found : FilePath → WalkItem
  failed : WalkError → WalkItem

-- What one `read` of an opened file gives.
pub data Chunk : Type 0 where
  bytes : Bytes → Chunk
  broken : Text → Chunk

-- One state of the file system. `walk` is `WalkDir` with the options of snapshot.rs (links not
-- followed, sorted by name, the root itself left out); `chunks` is what the reads of an opened file
-- give in turn.
pub record Filesystem : Type 0 where
  pub canonicalize : FilePath → Result Text FilePath
  pub metadata : FilePath → Result Text Metadata
  pub symlink_metadata : FilePath → Result Text Metadata
  pub read_link : FilePath → Option Bytes
  pub chunks : FilePath → Result Text (List Chunk)
  pub walk : FilePath → List WalkItem
