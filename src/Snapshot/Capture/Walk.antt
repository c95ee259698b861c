-- ===== src/Snapshot/Capture/Walk.antt =====
-- The walk of one root, and the loop over the roots, as growth; what a walk without a cut enters.
use cmdtrail.Prelude.{
  ℕ, suc, ◌≡◌, refl, Bool, true, false, Bool-cases, inl, inr, Option, Option-cases, none, some, leb,
  saturating_add,
}
use cmdtrail.Ord.{list_ord, nat_ord}
use cmdtrail.BTree.{BTreeMap, get, insert}
use cmdtrail.BTree.Laws.{get-insert}
use cmdtrail.Text.{Text, Bytes, codes}
use cmdtrail.FilePath.{FilePath, strip_prefix}
use cmdtrail.Result.{ok}
use cmdtrail.Model.{SnapshotStats}
use cmdtrail.System.{Metadata, Filesystem, WalkItem, found, failed}
use cmdtrail.Redact.{Redactor}
use cmdtrail.Snapshot.Types.{SnapshotConfig, PreparedRoot}
use cmdtrail.Snapshot.Capture.{
  CaptureState, is_interrupted, cut_off, record_error, Flow, proceed, stop, put_stats, handle_of,
  visit, scan, walk_step,
}
use cmdtrail.Snapshot.Capture.Growth.{has_entry, has_stats, is_cut}
use cmdtrail.Snapshot.Capture.Steps.{visit_finds}

pub not_cut : (test : Bool) → (test ≡ true → ⊥) → test ≡ false
not_cut true h = absurd (h refl)
not_cut false h = refl

pub is_cut-cut_off :
    (k : Text) (t : SnapshotStats) (stats : BTreeMap Text SnapshotStats)
    → is_cut (insert k (cut_off t) stats) k ≡ true
is_cut-cut_off k t stats = rw (get-insert k k (cut_off t) stats, list_ord.cmp_refl k) refl

module _ (sha256 : Bytes → Bytes) (fs : Filesystem) (config : SnapshotConfig) (r : Redactor)
    (interrupted : Option (ℕ → Bool)) (root : PreparedRoot) where
  scan_stop :
      (item : WalkItem) (t : SnapshotStats) (s : CaptureState) {u : CaptureState}
      → scan sha256 fs config r interrupted root item t s ≡ stop u
      → is_cut u.stats root.root_id ≡ true
  unfolding scan
  scan_stop (failed e) t s h = cc (h)
  scan_stop (found path) t s {u} h = elim (Bool-cases (leb config.max_entries s.retained_total)) [
    | inl full ↦
        let same : put_stats root (cut_off t) (record s { global_truncated = true }) ≡ u =
          cc (rw full at h) in
        rw (← same) (is_cut-cut_off root.root_id t s.stats)
    | inr free ↦ absurd (by_prefix (strip_prefix path root.canonical_path) (rw free at h))
  ]
    where
      by_prefix :
          (o : Option FilePath)
          → ◌≡◌ {A = Flow}
              (elim o [
                | none ↦ proceed (put_stats root (record_error (codes "path_escape") t) s)
                | some relative ↦
                    proceed (visit sha256 fs config r interrupted root path relative t s)
              ])
              (stop u)
          → ⊥
      by_prefix none e = cc (e)
      by_prefix (some relative) e = cc (e)

  -- A round that ends the walk marks the cut.
  pub walk_step_stop :
      (item : WalkItem) (s : CaptureState) {u : CaptureState}
      → walk_step sha256 fs config r interrupted root item s ≡ stop u
      → is_cut u.stats root.root_id ≡ true
  unfolding walk_step
  walk_step_stop item s {u} h = elim (Option-cases (get s.stats root.root_id)) [
    | inl missing ↦ absurd (cc (rw (missing, walk_step) at h))
    | inr (t, present) ↦ elim (Bool-cases (is_interrupted interrupted s.loads)) [
      | inl now ↦
          let same : put_stats root (cut_off t)
                (record s { global_truncated = true; loads = suc s.loads })
              ≡ u =
            cc (rw (present, walk_step, now) at h) in
          rw (← same) (is_cut-cut_off root.root_id t s.stats)
      | inr later ↦ scan_stop item _ _ (rw (present, walk_step, later) at h)
    ]
  ]

  -- A round that goes on has entered the path that it was given.
  pub walk_step_finds :
      (path relative : FilePath) {m : Metadata} (s : CaptureState) {u : CaptureState}
      → strip_prefix path root.canonical_path ≡ some relative
      → fs.symlink_metadata path ≡ ok m
      → has_stats s.stats root.root_id ≡ true
      → walk_step sha256 fs config r interrupted root (found path) s ≡ proceed u
      → has_entry u.entries (handle_of sha256 root.root_id relative) ≡ true
  unfolding walk_step scan
  walk_step_finds path relative s {u} under readable known h =
      elim (Option-cases (get s.stats root.root_id)) [
        | inl missing ↦ cc (rw missing at known)
        | inr (t, present) ↦ elim (Bool-cases (is_interrupted interrupted s.loads)) [
          | inl now ↦ absurd (cc (rw (present, walk_step, now) at h))
          | inr later ↦ elim (Bool-cases (leb config.max_entries s.retained_total)) [
            | inl full ↦ absurd (cc (rw (present, walk_step, later, full) at h))
            | inr free ↦
                let counted : SnapshotStats = record t {
                  scanned_entries = saturating_add t.scanned_entries 1;
                } in
                let polled : CaptureState = record s { loads = suc s.loads } in
                let same : visit sha256 fs config r interrupted root path relative counted polled
                    ≡ u =
                  cc (rw (present, walk_step, later, free, under) at h) in
                rw (← same) (
                  visit_finds sha256 fs config r interrupted (λ k. Unit) root path relative counted
                    polled readable)
          ]
        ]
      ]
