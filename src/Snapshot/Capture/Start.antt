-- ===== src/Snapshot/Capture/Start.antt =====
-- The statistics that a capture starts with: every root has some.
use mathlib.Core.List.{foldl}
use cmdtrail.Prelude.{◌≡◌, true, inl, inr, List, [], ◌∷◌, OneOf, map}
use cmdtrail.Ord.{list_ord, nat_ord}
use cmdtrail.BTree.{BTreeMap, insert}
use cmdtrail.BTree.Keys.{is_some-insert-here, is_some-insert-kept}
use cmdtrail.Text.{Text}
use cmdtrail.Model.{SnapshotStats, default_stats}
use cmdtrail.Snapshot.Types.{PreparedRoot}
use cmdtrail.Snapshot.Capture.Growth.{has_stats}

-- All roots have statistics from the start.
has_stats-collect :
    (k : Text) (roots : List PreparedRoot) (m : BTreeMap Text SnapshotStats)
    → has_stats m k ≡ true
    → has_stats
        (foldl {A = Text × SnapshotStats}
          (λ m e. insert e.0 e.1 m)
          m
          (map (λ (r : PreparedRoot). (r.root_id, default_stats)) roots))
        k
      ≡ true
has_stats-collect k [] m h = h
has_stats-collect k (root ∷ roots) m h =
    has_stats-collect k roots (insert root.root_id default_stats m)
      (is_some-insert-kept root.root_id k default_stats m h)

pub has_stats-initial :
    (root : PreparedRoot) (roots : List PreparedRoot) (m : BTreeMap Text SnapshotStats)
    → OneOf root roots
    → has_stats
        (foldl {A = Text × SnapshotStats}
          (λ m e. insert e.0 e.1 m)
          m
          (map (λ (r : PreparedRoot). (r.root_id, default_stats)) roots))
        root.root_id
      ≡ true
has_stats-initial root [] m one = absurd one
has_stats-initial root (first ∷ roots) m (inl same) =
    has_stats-collect root.root_id roots (insert first.root_id default_stats m)
      (rw same (is_some-insert-here first.root_id default_stats m))
has_stats-initial root (first ∷ roots) m (inr later) =
    has_stats-initial root roots (insert first.root_id default_stats m) later
