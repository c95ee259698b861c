-- ===== src/Snapshot/Capture/Loops.antt =====
-- The loops of a capture as growth: new entries are those of paths that the walks found.
use cmdtrail.Prelude.{
  ℕ, suc, refl, Bool, true, false, inl, inr, Option, none, some, List, [], ◌∷◌, OneOf,
  if◌then◌else◌,
}
use cmdtrail.Ord.{list_ord, nat_ord}
use cmdtrail.BTree.{get}
use cmdtrail.Text.{Text, Bytes}
use cmdtrail.Model.{SnapshotStats}
use cmdtrail.System.{Filesystem, WalkItem}
use cmdtrail.Redact.{Redactor}
use cmdtrail.Snapshot.Types.{SnapshotConfig, PreparedRoot}
use cmdtrail.Snapshot.Capture.{
  CaptureState, is_interrupted, cut_off, Flow, proceed, stop, state_of_flow, put_stats, walk_step,
  walk_loop, skip_root, capture_root, capture_loop,
}
use cmdtrail.Snapshot.Capture.Growth.{Grew, Grew-refl, Grew-trans, counted-Grows}
use cmdtrail.Snapshot.Capture.Steps.{AllowsItem, walk_step-Grew}

module _ (sha256 : Bytes → Bytes) (fs : Filesystem) (config : SnapshotConfig) (r : Redactor)
    (interrupted : Option (ℕ → Bool)) where
  module _ (P : Text → Type 0) where
    -- Every path that the walk lists is one whose name satisfies `P`.
    abbrev pub AllowsItems : PreparedRoot → List WalkItem → Type 0
    AllowsItems root items =
        (item : WalkItem) → OneOf item items → AllowsItem sha256 fs config r interrupted P root item

    pub walk_loop-Grew :
        (root : PreparedRoot) (items : List WalkItem) (s : CaptureState)
        → AllowsItems root items
        → Grew P s (walk_loop sha256 fs config r interrupted root items s)
    unfolding walk_loop
    walk_loop-Grew root [] s allowed = Grew-refl P s
    walk_loop-Grew root (item ∷ items) s allowed =
        by_flow (walk_step sha256 fs config r interrupted root item s)
          (walk_step-Grew sha256 fs config r interrupted P root item s (allowed item (inl refl)))
          (λ t. walk_loop-Grew root items t (λ i m. allowed i (inr m)))
      where
        by_flow :
            (flow : Flow)
            → Grew P s (state_of_flow flow)
            → ((t : CaptureState)
                → Grew P t (walk_loop sha256 fs config r interrupted root items t))
            → Grew P s (elim flow [
              | proceed t ↦ walk_loop sha256 fs config r interrupted root items t
              | stop t ↦ t
            ])
        by_flow (proceed t) here rest =
            Grew-trans P s t (walk_loop sha256 fs config r interrupted root items t) here (rest t)
        by_flow (stop t) here rest = here

    skip_root-Grew :
        (root : PreparedRoot) (s : CaptureState)
        → Grew P s (skip_root sha256 fs config r interrupted root s)
    unfolding skip_root
    skip_root-Grew root s = by_stats (get s.stats root.root_id)
      where
        by_stats :
            (o : Option SnapshotStats)
            → Grew P s (elim o [ none ↦ s | some t ↦ put_stats root (cut_off t) s ])
        by_stats none = Grew-refl P s
        by_stats (some t) = counted-Grows P root.root_id (cut_off t) s (λ h. refl)

    pub capture_root-Grew :
        (root : PreparedRoot) (s : CaptureState)
        → AllowsItems root (fs.walk root.canonical_path)
        → Grew P s (capture_root sha256 fs config r interrupted root s)
    unfolding capture_root
    capture_root-Grew root s allowed =
        let polled : CaptureState = record s { loads = suc s.loads } in
        either s.global_truncated (is_interrupted interrupted s.loads) _ _ _ (skip_root-Grew root s)
          (skip_root-Grew root polled)
          (walk_loop-Grew root (fs.walk root.canonical_path) polled allowed)
      where
        either :
            (first second : Bool) (x y z : CaptureState)
            → Grew P s x
            → Grew P s y
            → Grew P s z
            → Grew P s (if first then x else if second then y else z)
        either true second x y z hx hy hz = hx
        either false true x y z hx hy hz = hy
        either false false x y z hx hy hz = hz

    pub capture_loop-Grew :
        (roots : List PreparedRoot) (s : CaptureState)
        → ((root : PreparedRoot)
            → OneOf root roots
            → AllowsItems root (fs.walk root.canonical_path))
        → Grew P s (capture_loop sha256 fs config r interrupted roots s)
    unfolding capture_loop
    capture_loop-Grew [] s allowed = Grew-refl P s
    capture_loop-Grew (root ∷ roots) s allowed =
        Grew-trans P s (capture_root sha256 fs config r interrupted root s)
          (capture_loop sha256 fs config r interrupted roots
            (capture_root sha256 fs config r interrupted root s))
          (capture_root-Grew root s (allowed root (inl refl)))
          (capture_loop-Grew roots (capture_root sha256 fs config r interrupted root s)
            (λ i m. allowed i (inr m)))
