-- ===== src/Snapshot/Capture/Found.antt =====
-- What a snapshot does not miss: every path that a walk without a cut found and whose metadata could
-- be read has an entry.
use cmdtrail.Prelude.{
  ℕ, suc, ◌≡◌, refl, sym, ap, ◌∙◌, Bool, true, false, inl, inr, Option, Option-cases, some, List,
  [], ◌∷◌, OneOf, if◌then◌else◌, subst,
}
use cmdtrail.Ord.{list_ord, nat_ord}
use cmdtrail.BTree.{get, collect}
use cmdtrail.Text.{Text, Bytes}
use cmdtrail.FilePath.{FilePath, strip_prefix}
use cmdtrail.Result.{ok}
use cmdtrail.System.{Metadata, Filesystem, WalkItem, found}
use cmdtrail.Redact.{Redactor}
use cmdtrail.Snapshot.Types.{SnapshotConfig, PreparedRoot}
use cmdtrail.Snapshot.Capture.{
  CaptureState, is_interrupted, initial_state, Flow, proceed, stop, state_of_flow, handle_of,
  walk_step, walk_loop, skip_root, capture_root, capture_loop, capture_internal,
}
use cmdtrail.Snapshot.Capture.Start.{has_stats-initial}
use cmdtrail.Snapshot.Capture.Growth.{has_entry, has_stats, is_cut, Grew}
use cmdtrail.Snapshot.Capture.Steps.{walk_step-Grew}
use cmdtrail.Snapshot.Capture.Walk.{not_cut, is_cut-cut_off, walk_step_stop, walk_step_finds}
use cmdtrail.Snapshot.Capture.Loops.{walk_loop-Grew, capture_root-Grew, capture_loop-Grew}

abbrev Any : Text → Type 0
Any k = Unit

-- No mark of a cut at the end is no mark before.
earlier_cut :
    (s t : CaptureState) (k : Text)
    → Grew Any s t
    → is_cut t.stats k ≡ false
    → is_cut s.stats k ≡ false
earlier_cut s t k grew h =
    not_cut (is_cut s.stats k)
      (λ e. let cut : is_cut t.stats k ≡ true = grew.cut_kept k e in cc (cut, h))

module _ (sha256 : Bytes → Bytes) (fs : Filesystem) (config : SnapshotConfig) (r : Redactor)
    (interrupted : Option (ℕ → Bool)) where
  module _ (root : PreparedRoot) (path relative : FilePath) {m : Metadata}
      (under : strip_prefix path root.canonical_path ≡ some relative)
      (readable : fs.symlink_metadata path ≡ ok m) where
    walk_loop_finds :
        (items : List WalkItem) (s : CaptureState)
        → OneOf (found path) items
        → has_stats s.stats root.root_id ≡ true
        → is_cut (walk_loop sha256 fs config r interrupted root items s).stats root.root_id ≡ false
        → has_entry
            (walk_loop sha256 fs config r interrupted root items s).entries
            (handle_of sha256 root.root_id relative)
          ≡ true
    unfolding walk_loop
    walk_loop_finds [] s one known uncut = absurd one
    walk_loop_finds (item ∷ items) s one known uncut =
        by_flow (walk_step sha256 fs config r interrupted root item s) refl uncut
          (walk_step-Grew sha256 fs config r interrupted Any root item s (λ _ _ _ _. tt))
          (λ t later. walk_loop_finds items t later)
      where
        by_flow :
            (flow : Flow)
            → walk_step sha256 fs config r interrupted root item s ≡ flow
            → is_cut
                (CaptureState.stats (elim flow [
                  | proceed t ↦ walk_loop sha256 fs config r interrupted root items t
                  | stop t ↦ t
                ]))
                root.root_id
              ≡ false
            → Grew Any s (state_of_flow flow)
            → ((t : CaptureState)
                → OneOf (found path) items
                → has_stats t.stats root.root_id ≡ true
                → is_cut (walk_loop sha256 fs config r interrupted root items t).stats root.root_id
                  ≡ false
                → has_entry
                    (walk_loop sha256 fs config r interrupted root items t).entries
                    (handle_of sha256 root.root_id relative)
                  ≡ true)
            → has_entry
                (CaptureState.entries (elim flow [
                  | proceed t ↦ walk_loop sha256 fs config r interrupted root items t
                  | stop t ↦ t
                ]))
                (handle_of sha256 root.root_id relative)
              ≡ true
        by_flow (stop t) h clear grew rest =
            let cut : is_cut t.stats root.root_id ≡ true =
              walk_step_stop sha256 fs config r interrupted root item s h in
            absurd (cc (cut, clear))
        by_flow (proceed t) h clear grew rest = by_place one
          where
            by_place :
                OneOf (found path) (item ∷ items)
                → has_entry
                    (walk_loop sha256 fs config r interrupted root items t).entries
                    (handle_of sha256 root.root_id relative)
                  ≡ true
            by_place (inr later) = rest t later (grew.stats_kept root.root_id known) clear
            by_place (inl same) =
                (walk_loop-Grew sha256 fs config r interrupted Any root items t
                    (λ _ _ _ _ _ _. tt)).entry_kept
                  (handle_of sha256 root.root_id relative)
                  (walk_step_finds sha256 fs config r interrupted root path relative s under
                    readable known
                    (ap (λ i. walk_step sha256 fs config r interrupted root i s) same ∙ h))

    skip_root_cut :
        (s : CaptureState)
        → has_stats s.stats root.root_id ≡ true
        → is_cut (skip_root sha256 fs config r interrupted root s).stats root.root_id ≡ true
    unfolding skip_root
    skip_root_cut s known = elim (Option-cases (get s.stats root.root_id)) [
      | inl missing ↦ cc (rw missing at known)
      | inr (t, present) ↦ rw (present, skip_root) (is_cut-cut_off root.root_id t s.stats)
    ]

    capture_root_finds :
        (s : CaptureState)
        → OneOf (found path) (fs.walk root.canonical_path)
        → has_stats s.stats root.root_id ≡ true
        → is_cut (capture_root sha256 fs config r interrupted root s).stats root.root_id ≡ false
        → has_entry
            (capture_root sha256 fs config r interrupted root s).entries
            (handle_of sha256 root.root_id relative)
          ≡ true
    unfolding capture_root
    capture_root_finds s listed known uncut =
        let polled : CaptureState = record s { loads = suc s.loads } in
        either s.global_truncated (is_interrupted interrupted s.loads) _ _ _ (skip_root_cut s known)
          (skip_root_cut polled known)
          (walk_loop_finds (fs.walk root.canonical_path) polled listed known) uncut
      where
        either :
            (first second : Bool) (x y z : CaptureState)
            → is_cut x.stats root.root_id ≡ true
            → is_cut y.stats root.root_id ≡ true
            → (is_cut z.stats root.root_id ≡ false
                → has_entry z.entries (handle_of sha256 root.root_id relative) ≡ true)
            → is_cut
                (CaptureState.stats (if first then x else if second then y else z))
                root.root_id
              ≡ false
            → has_entry
                (CaptureState.entries (if first then x else if second then y else z))
                (handle_of sha256 root.root_id relative)
              ≡ true
        either true second x y z hx hy hz h = absurd (cc (hx, h))
        either false true x y z hx hy hz h = absurd (cc (hy, h))
        either false false x y z hx hy hz h = hz h

    capture_loop_finds :
        (roots : List PreparedRoot) (s : CaptureState)
        → OneOf root roots
        → OneOf (found path) (fs.walk root.canonical_path)
        → has_stats s.stats root.root_id ≡ true
        → is_cut (capture_loop sha256 fs config r interrupted roots s).stats root.root_id ≡ false
        → has_entry
            (capture_loop sha256 fs config r interrupted roots s).entries
            (handle_of sha256 root.root_id relative)
          ≡ true
    unfolding capture_loop
    capture_loop_finds [] s one listed known uncut = absurd one
    capture_loop_finds (first ∷ roots) s (inr later) listed known uncut =
        let grew =
          capture_root-Grew sha256 fs config r interrupted Any first s (λ _ _ _ _ _ _. tt) in
        capture_loop_finds roots (capture_root sha256 fs config r interrupted first s) later listed
          (grew.stats_kept root.root_id known) uncut
    capture_loop_finds (first ∷ roots) s (inl same) listed known uncut =
        let rest =
          capture_loop-Grew sha256 fs config r interrupted Any roots
            (capture_root sha256 fs config r interrupted first s) (λ _ _ _ _ _ _ _ _. tt) in
        rest.entry_kept (handle_of sha256 root.root_id relative) (
          subst
            (λ i.
              has_entry (capture_root sha256 fs config r interrupted i s).entries
                (handle_of sha256 root.root_id relative)
              ≡ true)
            same
            (capture_root_finds s listed known (
              subst
                (λ i.
                  is_cut (capture_root sha256 fs config r interrupted i s).stats root.root_id
                  ≡ false)
                (sym same)
                (earlier_cut (capture_root sha256 fs config r interrupted first s)
                  (capture_loop sha256 fs config r interrupted roots
                    (capture_root sha256 fs config r interrupted first s))
                  root.root_id rest uncut))))

    -- A snapshot has an entry for every path that the walk of a root finds below it and whose metadata
    -- can be read, unless the statistics of that root say that entries were cut off.
    pub capture_internal_finds :
        (roots : List PreparedRoot)
        → OneOf root roots
        → OneOf (found path) (fs.walk root.canonical_path)
        → is_cut (capture_internal sha256 fs config r interrupted roots).stats root.root_id ≡ false
        → has_entry
            (capture_internal sha256 fs config r interrupted roots).entries
            (handle_of sha256 root.root_id relative)
          ≡ true
    unfolding capture_internal initial_state collect
    capture_internal_finds roots one listed uncut =
        capture_loop_finds roots (initial_state roots) one listed
          (has_stats-initial root roots [] one) uncut
