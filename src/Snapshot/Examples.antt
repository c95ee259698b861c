-- ===== src/Snapshot/Examples.antt =====
-- Roots are prepared and captured on a small file system.
use cmdtrail.Prelude.{
  ℕ, ◌≡◌, ◌≤◌, ◌⊎◌, refl, true, false, none, List, [], ◌∷◌, ◌++◌, arith, map, length, All,
}
use cmdtrail.Ord.{list_ord, nat_ord}
use cmdtrail.Text.{Bytes, codes}
use cmdtrail.FilePath.{FilePath, components, starts_with, same_path, strip_components, body, join}
use cmdtrail.Result.{ok}
use cmdtrail.System.{Metadata, Filesystem, bytes, found}
use cmdtrail.Redact.{Redactor}
use cmdtrail.Snapshot.Types.{SnapshotConfig, PreparedRoot}
use cmdtrail.Snapshot.Roots.{
  candidates, check_against, check_pairs, resolve, resolve_all, label_from, prepare_roots,
}
use cmdtrail.Snapshot.Roots.Laws.{
  ArePairwiseApart, AreDistinct, IsDirectory, prepare_roots-ArePairwiseApart,
}
use cmdtrail.Encoding.{hex_lower, sha256_bytes, u64_be_bytes, append_length_delimited, append_all}
use cmdtrail.Integrity.Binding.{Collision}
use cmdtrail.Snapshot.Capture.Handles.{handle_binding}
use cmdtrail.Snapshot.Capture.{handle_of, capture_internal}
use cmdtrail.Snapshot.Capture.Budget.{IsHashedTotal}
use cmdtrail.Snapshot.Capture.Rounds.{IsUnknown}
use cmdtrail.Snapshot.Capture.Bounds.{
  IsWithin, capture_internal-IsWithin, capture_internal_budget, capture_internal-IsUnknown,
}

-- A stand-in for SHA-256.
abbrev first_bytes : Bytes → Bytes
first_bytes [] = 0 ∷ []
first_bytes (a ∷ rest) = a ∷ []

abbrev shows_all : Redactor
shows_all = record { custom_values = [] }

abbrev a_directory : Metadata
a_directory = record {
  is_file = false;
  is_dir = true;
  is_symlink = false;
  len = 0;
  modified_ns = none;
  readonly = false;
  mode = 493;
}

abbrev a_file : Metadata
a_file = record {
  is_file = true;
  is_dir = false;
  is_symlink = false;
  len = 2;
  modified_ns = none;
  readonly = false;
  mode = 420;
}

-- Every directory holds two files of two bytes.
abbrev two_files : Filesystem
two_files = record {
  canonicalize = λ p. ok p;
  metadata = λ p. ok a_directory;
  symlink_metadata = λ p. ok a_file;
  read_link = λ p. none;
  chunks = λ p. ok (bytes (codes "ab") ∷ []);
  walk = λ p. found (p ++ codes "/f") ∷ found (p ++ codes "/g") ∷ [];
}

abbrev one_entry : SnapshotConfig
one_entry = record { max_entries = 1; max_file_hash_bytes = 100; max_total_hash_bytes = 150 }

abbrev requested : List FilePath
requested = codes "/a" ∷ codes "b" ∷ []

abbrev paths : List FilePath
paths = codes "/a" ∷ codes "/w/b" ∷ []

abbrev both_roots : List PreparedRoot
both_roots = label_from first_bytes two_files shows_all 0 paths

prepared : prepare_roots first_bytes two_files shows_all (codes "/w") requested ≡ ok both_roots
unfolding prepare_roots resolve_all resolve candidates check_pairs check_against starts_with
    same_path strip_components components body join
prepared = refl

prepare_roots-ArePairwiseApart_example :
    (length (map (λ (root : PreparedRoot). root.canonical_path) both_roots)
      ≡ length (candidates (codes "/w") requested))
    × AreDistinct both_roots
    × All (IsDirectory two_files) (map (λ (root : PreparedRoot). root.canonical_path) both_roots)
    × ArePairwiseApart (map (λ (root : PreparedRoot). root.canonical_path) both_roots)
prepare_roots-ArePairwiseApart_example =
    prepare_roots-ArePairwiseApart first_bytes two_files shows_all (codes "/w") requested prepared

capture_internal-IsWithin_example :
    IsWithin one_entry (capture_internal first_bytes two_files one_entry shows_all none both_roots)
capture_internal-IsWithin_example =
    capture_internal-IsWithin first_bytes two_files one_entry shows_all none (omega arith)
      both_roots

capture_internal_budget_example :
    (n : ℕ) × IsHashedTotal
      (capture_internal first_bytes two_files one_entry shows_all none both_roots).entries
      n
    × (n ≤ 150)
capture_internal_budget_example =
    capture_internal_budget first_bytes two_files one_entry shows_all none (omega arith) both_roots
      (omega arith)

capture_internal-IsUnknown_example :
    All
      (λ e. IsUnknown e.1)
      (capture_internal first_bytes two_files one_entry shows_all none both_roots).stats
capture_internal-IsUnknown_example =
    capture_internal-IsUnknown first_bytes two_files one_entry shows_all none (omega arith)
      both_roots

-- Under this stand-in all handles are one.
one_handle :
    handle_of first_bytes (codes "root_0000") (codes "a")
    ≡ handle_of first_bytes (codes "root_0000") (codes "b")
unfolding handle_of sha256_bytes append_all append_length_delimited u64_be_bytes hex_lower
one_handle = refl

handle_binding_example :
    ((codes "root_0000" ≡ codes "root_0000") × (codes "a" ≡ codes "b")) ⊎ Collision first_bytes
handle_binding_example =
    handle_binding first_bytes (codes "root_0000") (codes "root_0000") (codes "a") (codes "b")
      (omega arith, omega arith) (omega arith, omega arith) one_handle
