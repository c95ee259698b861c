-- ===== src/Record.antt =====
-- record.rs: the options of a recording and their limits. The modules below are the parts of
-- `record`, and Recording is `record` itself.
pub mod Options
pub mod Events
pub mod Run
pub mod Persist
pub mod Draft
pub mod Recording
mod Tests
use cmdtrail.Prelude.{
  ℕ, ◌*◌, Bool, true, false, ◌||◌, ◌&&◌, not, Option, none, some, List, [], ◌∷◌, ◌++◌, ltb, leb,
  ◌==◌, if◌then◌else◌,
}
use cmdtrail.Text.{Text, Bytes, codes}
use cmdtrail.FilePath.{FilePath}
use cmdtrail.Result.{Result, ok, err, ◌>>=◌, ◌>>◌, reject_if}
use cmdtrail.Error.{AppError, usage}

pub record RecordOptions : Type 0 where
  pub output : FilePath
  pub working_directory : Option FilePath
  pub roots : List FilePath
  pub max_entries : ℕ
  pub max_events : ℕ
  pub max_file_hash_bytes : ℕ
  pub max_total_hash_bytes : ℕ
  pub timeout_ms : Option ℕ
  pub redact_environment_names : List Text
  pub command : List Bytes

abbrev is_no_command : List Bytes → Bool
is_no_command [] = true
is_no_command (c ∷ cs) = false

abbrev is_bad_timeout : Option ℕ → Bool
is_bad_timeout none = false
is_bad_timeout (some timeout) = timeout == 0 || ltb 86400000 timeout

unfoldable pub validate_options : RecordOptions → Result AppError (Unit {0})
validate_options o = do
  reject_if (is_no_command o.command) (
      usage (codes "missing_command")
        (codes "a direct command is required after the mandatory -- separator"))
  reject_if (o.max_entries == 0 || ltb 1000000 o.max_entries)
      (usage (codes "invalid_max_entries") (codes "max entries must be between 1 and 1,000,000"))
  reject_if (not (leb 2 o.max_events && leb o.max_events 1000000))
      (usage (codes "invalid_max_events") (codes "max events must be between 2 and 1,000,000"))
  reject_if (ltb (1024 * 1024 * 1024) o.max_file_hash_bytes) (
      usage (codes "invalid_file_hash_limit") (codes "the per-file hash limit cannot exceed 1 GiB"))
  reject_if (ltb (16 * 1024 * 1024 * 1024) o.max_total_hash_bytes) (
      usage (codes "invalid_total_hash_limit")
        (codes "the total hash limit cannot exceed 16 GiB per snapshot"))
  reject_if (is_bad_timeout o.timeout_ms) (
      usage (codes "invalid_timeout")
        (codes "the command timeout must be between 1 ms and 24 hours"))
