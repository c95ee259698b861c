-- ===== src/Snapshot/Roots.antt =====
-- `prepare_roots`: the observed roots are resolved, checked and labelled.
pub mod Laws
use cmdtrail.Prelude.{
  ℕ, suc, Bool, true, false, ◌||◌, not, Option, none, some, List, [], ◌∷◌, ◌++◌, map, if◌then◌else◌,
}
use cmdtrail.Text.{Text, Bytes, codes, unwrap_or}
use cmdtrail.Text.Decimal.{to_decimal4}
use cmdtrail.FilePath.{FilePath, is_absolute, join, same_path, starts_with, file_name}
use cmdtrail.Encoding.{sha256_bytes}
use cmdtrail.Result.{Result, ok, err, ◌>>=◌, ◌>>◌, reject_if, or_error}
use cmdtrail.Error.{AppError, usage}
use cmdtrail.System.{Metadata, Filesystem}
use cmdtrail.Redact.{Redactor, path_display}
use cmdtrail.Snapshot.Types.{PreparedRoot}

abbrev not_resolved : AppError
not_resolved =
    usage (codes "observation_root_unavailable")
      (codes "an observation root does not exist or cannot be resolved")

abbrev not_inspected : AppError
not_inspected =
    usage (codes "observation_root_unavailable") (codes "an observation root cannot be inspected")

abbrev not_a_directory : AppError
not_a_directory =
    usage (codes "observation_root_not_directory")
      (codes "every observation root must be a directory")

abbrev duplicate_roots : AppError
duplicate_roots =
    usage (codes "duplicate_observation_roots") (codes "observation roots must be unique")

abbrev overlapping_roots : AppError
overlapping_roots =
    usage (codes "overlapping_observation_roots") (codes "observation roots must not overlap")

unfoldable pub candidates : FilePath → List FilePath → List FilePath
candidates working_directory [] = working_directory ∷ []
candidates working_directory (root ∷ roots) =
    map (λ p. if is_absolute p then p else join working_directory p) (root ∷ roots)

-- The inner loop of the comparison of all pairs.
unfoldable pub check_against : FilePath → List FilePath → Result AppError (Unit {0})
check_against first [] = ok tt
check_against first (second ∷ rest) = do
  reject_if (same_path second first) duplicate_roots
  reject_if (starts_with second first || starts_with first second) overlapping_roots
  check_against first rest

unfoldable pub check_pairs : List FilePath → Result AppError (Unit {0})
check_pairs [] = ok tt
check_pairs (first ∷ rest) = do check_against first rest; check_pairs rest

module _ (sha256 : Bytes → Bytes) (fs : Filesystem) (r : Redactor) where
  unfoldable pub resolve : FilePath → Result AppError FilePath
  resolve candidate = do
    path ← or_error (fs.canonicalize candidate) not_resolved
    m ← or_error (fs.metadata path) not_inspected
    reject_if (not m.is_dir) not_a_directory
    ok path

  unfoldable pub resolve_all : List FilePath → Result AppError (List FilePath)
  resolve_all [] = ok []
  resolve_all (candidate ∷ rest) = do
    path ← resolve candidate
    paths ← resolve_all rest
    ok (path ∷ paths)

  unfoldable pub label : ℕ → FilePath → PreparedRoot
  label index path = record {
    root_id = codes "root_" ++ to_decimal4 index;
    path_handle = codes "path_" ++ sha256_bytes sha256 path;
    display_name =
        (path_display sha256 r (elim (file_name path) [ none ↦ path | some name ↦ name ])).0;
    canonical_path = path;
  }

  -- `enumerate`, from the given index.
  unfoldable pub label_from : ℕ → List FilePath → List PreparedRoot
  label_from index [] = []
  label_from index (path ∷ paths) = label index path ∷ label_from (suc index) paths

  unfoldable pub prepare_roots : FilePath → List FilePath → Result AppError (List PreparedRoot)
  prepare_roots working_directory requested = do
    canonical ← resolve_all (candidates working_directory requested)
    check_pairs canonical
    ok (label_from 0 canonical)
