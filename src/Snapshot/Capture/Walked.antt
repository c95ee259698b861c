-- ===== src/Snapshot/Capture/Walked.antt =====
-- What a snapshot does not make up: its entries are under the handles of paths that a walk found.
use cmdtrail.Prelude.{ℕ, ◌≡◌, refl, true, Bool, Option, some, List, [], ◌⊎◌, inl, inr, OneOf, subst}
use cmdtrail.Ord.{list_ord, nat_ord}
use cmdtrail.BTree.{get}
use cmdtrail.Text.{Text, Bytes}
use cmdtrail.FilePath.{FilePath, strip_prefix}
use cmdtrail.System.{Filesystem, found}
use cmdtrail.Redact.{Redactor}
use cmdtrail.Snapshot.Types.{SnapshotConfig, PreparedRoot}
use cmdtrail.Snapshot.Capture.{handle_of, initial_state, capture_internal}
use cmdtrail.Snapshot.Capture.Growth.{has_entry}
use cmdtrail.Snapshot.Capture.Loops.{capture_loop-Grew}

-- The handle is that of a path which the walk of one of the roots found below it.
pub record IsWalked (sha256 : Bytes → Bytes) (fs : Filesystem) (roots : List PreparedRoot)
    (k : Text) : Type 0 where
  pub root : PreparedRoot
  pub one : OneOf root roots
  pub path : FilePath
  pub listed : OneOf (found path) (fs.walk root.canonical_path)
  pub relative : FilePath
  pub under : strip_prefix path root.canonical_path ≡ some relative
  pub named : k ≡ handle_of sha256 root.root_id relative

module _ (sha256 : Bytes → Bytes) (fs : Filesystem) (config : SnapshotConfig) (r : Redactor)
    (interrupted : Option (ℕ → Bool)) where
  -- Every entry of a snapshot is under the handle of a path that the walk of a root found.
  pub capture_internal-IsWalked :
      (roots : List PreparedRoot) (k : Text)
      → has_entry (capture_internal sha256 fs config r interrupted roots).entries k ≡ true
      → IsWalked sha256 fs roots k
  unfolding capture_internal initial_state get
  capture_internal-IsWalked roots k h =
      let grew =
        capture_loop-Grew sha256 fs config r interrupted (IsWalked sha256 fs roots) roots
          (initial_state roots)
          (λ root one item listed path is relative under. record {
            root = root;
            one = one;
            path = path;
            listed = subst (λ i. OneOf i (fs.walk root.canonical_path)) is listed;
            relative = relative;
            under = under;
            named = refl;
          }) in
      by_origin (grew.entry_new k h)
    where
      by_origin : (has_entry [] k ≡ true) ⊎ IsWalked sha256 fs roots k → IsWalked sha256 fs roots k
      by_origin (inl none_yet) = absurd (cc (none_yet))
      by_origin (inr walked) = walked
