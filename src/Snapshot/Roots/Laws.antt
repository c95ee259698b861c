-- ===== src/Snapshot/Roots/Laws.antt =====
-- Prepared roots do not overlap, are told apart by their identifiers, and are directories.
use cmdtrail.Prelude.{
  ℕ, suc, ◌<◌, ◌≡◌, ◌≢◌, refl, sym, ap, ◌∙◌, Bool, true, false, not, List, [], ◌∷◌, ◌++◌, arith,
  All, length, append-injective, map,
}
use cmdtrail.Text.{Bytes, codes}
use cmdtrail.Text.Decimal.{to_decimal4}
use cmdtrail.Text.Decimal.RoundTrip.{to_decimal4-injective}
use cmdtrail.FilePath.{FilePath, same_path, starts_with}
use cmdtrail.Result.{Result, ok, err, ◌>>◌, reject_if, >>=-eq-ok, or_error, or_error-ok}
use cmdtrail.Error.{AppError}
use cmdtrail.System.{Filesystem, Metadata}
use cmdtrail.Redact.{Redactor}
use cmdtrail.Snapshot.Types.{PreparedRoot}
use cmdtrail.Snapshot.Roots.{
  candidates, check_against, check_pairs, resolve, resolve_all, label, label_from, prepare_roots,
  not_a_directory,
}

-- Neither root is the other or lies below it.
abbrev pub IsApartFrom : FilePath → FilePath → Type 0
IsApartFrom first second =
    (same_path second first ≡ false)
    × (starts_with second first ≡ false)
    × (starts_with first second ≡ false)

abbrev pub ArePairwiseApart : List FilePath → Type 0
ArePairwiseApart [] = Unit
ArePairwiseApart (first ∷ rest) = All (IsApartFrom first) rest × ArePairwiseApart rest

check_against-IsApartFrom :
    (first : FilePath) (rest : List FilePath)
    → check_against first rest ≡ ok tt
    → All (IsApartFrom first) rest
unfolding check_against
check_against-IsApartFrom first [] h = tt
check_against-IsApartFrom first (second ∷ rest) h =
    ground (arith, check_against-IsApartFrom first rest)

check_pairs-ArePairwiseApart :
    (paths : List FilePath) → check_pairs paths ≡ ok tt → ArePairwiseApart paths
unfolding check_pairs
check_pairs-ArePairwiseApart [] h = tt
check_pairs-ArePairwiseApart (first ∷ rest) h =
    ground (arith, check_against-IsApartFrom first rest, check_pairs-ArePairwiseApart rest)

-- A path of a directory.
abbrev pub IsDirectory : Filesystem → FilePath → Type 0
IsDirectory fs path = (m : Metadata) × (fs.metadata path ≡ ok m) × (m.is_dir ≡ true)

abbrev pub AreDistinct : List PreparedRoot → Type 0
AreDistinct [] = Unit
AreDistinct (root ∷ roots) =
    All (λ (o : PreparedRoot). o.root_id ≢ root.root_id) roots × AreDistinct roots

module _ (sha256 : Bytes → Bytes) (fs : Filesystem) (r : Redactor) where
  resolve-IsDirectory :
      (candidate : FilePath) {path : FilePath}
      → resolve sha256 fs r candidate ≡ ok path
      → IsDirectory fs path
  unfolding resolve
  resolve-IsDirectory candidate {path} h =
      let (canonical, resolved, more) = >>=-eq-ok (or_error (fs.canonicalize candidate) _) _ h in
      let (m, inspected, done) = >>=-eq-ok (or_error (fs.metadata canonical) _) _ more in
      by_test m (or_error-ok (fs.metadata canonical) _ inspected) m.is_dir refl done
    where
      by_test :
          (m : Metadata) {canonical : FilePath}
          → fs.metadata canonical ≡ ok m
          → (test : Bool) → m.is_dir ≡ test
          → (reject_if (not test) not_a_directory >> ok canonical) ≡ ok path
          → IsDirectory fs path
      by_test m {canonical} inspected true is e =
          (m, ap fs.metadata (sym (some_eq e)) ∙ inspected, is)
        where
          some_eq : {a b : FilePath} → ◌≡◌ {A = Result AppError FilePath} (ok a) (ok b) → a ≡ b
          some_eq p = cc
      by_test m inspected false is e = cc

  resolve_all-IsDirectory :
      (candidates : List FilePath) {paths : List FilePath}
      → resolve_all sha256 fs r candidates ≡ ok paths
      → All (IsDirectory fs) paths × (length paths ≡ length candidates)
  unfolding resolve_all
  resolve_all-IsDirectory [] {paths} h = ground arith
  resolve_all-IsDirectory (candidate ∷ rest) {paths} h =
      let (path, resolved, more) = >>=-eq-ok (resolve sha256 fs r candidate) _ h in
      let (others, tail, done) = >>=-eq-ok (resolve_all sha256 fs r rest) _ more in
      let e : path ∷ others ≡ paths = cc (done) in
      let all = resolve_all-IsDirectory rest tail in
      rw (← e) ((resolve-IsDirectory candidate resolved, all.0), ap suc (all.1))

  label_from-paths :
      (index : ℕ) (paths : List FilePath)
      → map (λ (root : PreparedRoot). root.canonical_path) (label_from sha256 fs r index paths)
        ≡ paths
  unfolding label_from label
  label_from-paths index [] = refl
  label_from-paths index (path ∷ paths) = ap (λ t. path ∷ t) (label_from-paths (suc index) paths)

  -- No later root has the identifier of an earlier index.
  label_from-differ :
      (index k : ℕ) (paths : List FilePath)
      → index < k
      → All
          (λ (root : PreparedRoot). root.root_id ≢ codes "root_" ++ to_decimal4 index)
          (label_from sha256 fs r k paths)
  unfolding label_from label
  label_from-differ index k [] h = tt
  label_from-differ index k (path ∷ paths) h = (
    λ e. omega (
      arith,
      to_decimal4-injective k index ((append-injective (codes "root_") (codes "root_") refl e).1),
    ),
    label_from-differ index (suc k) paths (omega arith),
  )

  label_from-AreDistinct :
      (index : ℕ) (paths : List FilePath) → AreDistinct (label_from sha256 fs r index paths)
  unfolding label_from label
  label_from-AreDistinct index [] = tt
  label_from-AreDistinct index (path ∷ paths) = (
    label_from-differ index (suc index) paths (omega arith),
    label_from-AreDistinct (suc index) paths,
  )

  -- When the roots are prepared, there is one for each requested root (or one for the working
  -- directory), no two have one identifier, and their paths are directories of which none is
  -- another one or lies below it.
  pub prepare_roots-ArePairwiseApart :
      (working_directory : FilePath) (requested : List FilePath) {roots : List PreparedRoot}
      → prepare_roots sha256 fs r working_directory requested ≡ ok roots
      → (length (map (λ (root : PreparedRoot). root.canonical_path) roots)
          ≡ length (candidates working_directory requested))
        × AreDistinct roots
        × All (IsDirectory fs) (map (λ (root : PreparedRoot). root.canonical_path) roots)
        × ArePairwiseApart (map (λ (root : PreparedRoot). root.canonical_path) roots)
  unfolding prepare_roots
  prepare_roots-ArePairwiseApart working_directory requested {roots} h =
      let (paths, resolved, more) =
        >>=-eq-ok (resolve_all sha256 fs r (candidates working_directory requested)) _ h in
      let (directories, sizes) =
        resolve_all-IsDirectory (candidates working_directory requested) resolved in
      let (checked, made) = check_done (check_pairs paths) (label_from sha256 fs r 0 paths) more in
      rw (← made) (
        rw (label_from-paths 0 paths) (
          sizes,
          label_from-AreDistinct 0 paths,
          directories,
          check_pairs-ArePairwiseApart paths checked,
        ))
    where
      check_done :
          (m : Result AppError (Unit {0})) (done : List PreparedRoot) {end : List PreparedRoot}
          → (m >> ok done) ≡ ok end
          → (m ≡ ok tt) × (done ≡ end)
      check_done (ok tt) done h = (refl, cc)
      check_done (err e) done h = cc
