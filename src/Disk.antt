-- ===== src/Disk.antt =====
-- The operations on files that receipt.rs calls, over any type of disk states: parameters of the
-- model, with what the operating system documents of them.
pub mod Samples
use cmdtrail.Prelude.{ℕ, ◌≡◌, Bool, true, false, Option, none, some, List, length, take}
use cmdtrail.Text.{Bytes, Text}
use cmdtrail.FilePath.{FilePath}
use cmdtrail.Result.{Result, ok, err, is_ok}
use cmdtrail.System.{Metadata}

-- An error is the `Debug` name of its kind. A created file is named by the path that it was created
-- at; `read_up_to` is `take` and `read_to_end` of a file that could be opened.
pub record Disk (D : Type 0) : Type 0 where
  pub metadata : D → FilePath → Result Text Metadata
  pub symlink_metadata : D → FilePath → Result Text Metadata
  pub create_new : D → FilePath → D × Result Text (Unit {0})
  pub write_all : D → FilePath → Bytes → D × Result Text (Unit {0})
  pub sync_all : D → FilePath → D × Result Text (Unit {0})
  pub open_file : D → FilePath → Result Text (Unit {0})
  pub read_up_to : D → FilePath → ℕ → Result Text Bytes

module _ {D : Type 0} (disk : Disk D) where
  -- What a path leads to: a regular file that can be read, and its bytes.
  pub record Holds (s : D) (path : FilePath) (content : Bytes) : Type 0 where
    pub found :
        (m : Metadata) × (disk.metadata s path ≡ ok m)
        × (m.is_file ≡ true)
        × (m.len ≡ length content)
    pub opens : disk.open_file s path ≡ ok tt
    pub reads : (n : ℕ) → disk.read_up_to s path n ≡ ok (take n content)

  -- The documented behaviour. `create_new` creates a file or changes nothing that is there; writing
  -- to a file that was just created, and syncing it, leaves the other files; after a write that
  -- succeeds the file holds what was written, and syncing does not change that.
  pub record IsDisk : Type 0 where
    pub create_keeps :
        (s : D) (p q : FilePath) (content : Bytes)
        → Holds s q content
        → Holds (disk.create_new s p).0 q content
    pub write_keeps :
        (s t : D) (p q : FilePath) (new content : Bytes)
        → disk.create_new s p ≡ (t, ok tt)
        → Holds s q content
        → Holds (disk.write_all t p new).0 q content
    pub sync_keeps :
        (s : D) (p q : FilePath) (content : Bytes)
        → Holds s q content
        → Holds (disk.sync_all s p).0 q content
    pub write_holds :
        (s t u : D) (p : FilePath) (new : Bytes)
        → disk.create_new s p ≡ (t, ok tt)
        → disk.write_all t p new ≡ (u, ok tt)
        → Holds u p new
