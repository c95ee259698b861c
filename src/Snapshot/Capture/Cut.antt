-- ===== src/Snapshot/Capture/Cut.antt =====
-- What happens after a snapshot is cut off: the roots that are left are not walked.
use Prim.Native.Nat.{Ordering}
use Prim.Native.Nat.Ordering.{lt, eq, gt}
use cmdtrail.Prelude.{
  ℕ, ◌≡◌, refl, sym, ◌∙◌, Bool, true, false, Option, none, some, Option-cases, inl, inr, List, [],
  ◌∷◌, All, if◌then◌else◌, subst,
}
use cmdtrail.Ord.{list_ord, nat_ord}
use cmdtrail.BTree.{get}
use cmdtrail.BTree.Laws.{get-insert, same_key}
use cmdtrail.Text.{Text, Bytes}
use cmdtrail.Model.{SnapshotStats}
use cmdtrail.System.{Filesystem}
use cmdtrail.Redact.{Redactor}
use cmdtrail.Snapshot.Types.{SnapshotConfig, PreparedRoot}
use cmdtrail.Snapshot.Capture.{
  CaptureState, cut_off, put_stats, skip_root, capture_root, capture_loop,
}

-- The statistics, where there are any, say that entries were cut off.
abbrev pub IsCut : Option SnapshotStats → Type 0
IsCut none = Unit
IsCut (some t) = t.truncated ≡ true

module _ (sha256 : Bytes → Bytes) (fs : Filesystem) (config : SnapshotConfig) (r : Redactor)
    (interrupted : Option (ℕ → Bool)) where
  -- What a skipped root leaves as it was.
  record Kept (s t : CaptureState) : Type 0 where
    entries : t.entries ≡ s.entries
    truncated : t.global_truncated ≡ s.global_truncated
    cut : (k : Text) → IsCut (get s.stats k) → IsCut (get t.stats k)

  put_stats-IsCut :
      (root : PreparedRoot) (t : SnapshotStats) (s : CaptureState) (k : Text)
      → IsCut (get s.stats k)
      → IsCut (get (put_stats root (cut_off t) s).stats k)
  put_stats-IsCut root t s k h =
      rw (get-insert root.root_id k (cut_off t) s.stats) (by_key (list_ord.cmp k root.root_id) h)
    where
      by_key :
          (c : Ordering)
          → IsCut (get s.stats k)
          → IsCut (same_key c (some (cut_off t)) (get s.stats k))
      by_key eq u = refl
      by_key lt u = u
      by_key gt u = u

  skip_root-Kept :
      (root : PreparedRoot) (s : CaptureState)
      → Kept s (skip_root sha256 fs config r interrupted root s)
  unfolding skip_root
  skip_root-Kept root s = by_stats (get s.stats root.root_id)
    where
      by_stats :
          (o : Option SnapshotStats)
          → Kept s (elim o [ none ↦ s | some t ↦ put_stats root (cut_off t) s ])
      by_stats none = record { entries = refl; truncated = refl; cut = λ k h. h }
      by_stats (some t) = record {
        entries = refl;
        truncated = refl;
        cut = λ k h. put_stats-IsCut root t s k h;
      }

  skip_root-IsCut :
      (root : PreparedRoot) (s : CaptureState)
      → IsCut (get (skip_root sha256 fs config r interrupted root s).stats root.root_id)
  unfolding skip_root
  skip_root-IsCut root s = elim (Option-cases (get s.stats root.root_id)) [
    | inl missing ↦ rw (missing, skip_root) (rw missing tt)
    | inr (t, present) ↦
        rw (present, skip_root)
          (rw
            (
              get-insert root.root_id root.root_id (cut_off t) s.stats,
              list_ord.cmp_refl root.root_id,
            )
            refl)
  ]

  cut_root :
      (root : PreparedRoot) (s : CaptureState)
      → s.global_truncated ≡ true
      → capture_root sha256 fs config r interrupted root s
        ≡ skip_root sha256 fs config r interrupted root s
  unfolding capture_root
  cut_root root s h = by_test s.global_truncated _ _ h
    where
      by_test : (test : Bool) (x y : CaptureState) → test ≡ true → (if test then x else y) ≡ x
      by_test true x y e = refl
      by_test false x y e = cc

  capture_loop-Kept :
      (roots : List PreparedRoot) (s : CaptureState)
      → s.global_truncated ≡ true
      → Kept s (capture_loop sha256 fs config r interrupted roots s)
  unfolding capture_loop
  capture_loop-Kept [] s h = record { entries = refl; truncated = refl; cut = λ k u. u }
  capture_loop-Kept (root ∷ roots) s h =
      let one = skip_root-Kept root s in
      let rest =
        capture_loop-Kept roots (skip_root sha256 fs config r interrupted root s)
          (one.truncated ∙ h) in
      rw (cut_root root s h) (record {
        entries = rest.entries ∙ one.entries;
        truncated = rest.truncated ∙ one.truncated;
        cut = λ k u. rest.cut k (one.cut k u);
      })

  -- Once a snapshot is cut off, no later root adds an entry, and the statistics of each of them say
  -- that entries were cut off.
  pub capture_loop-IsCut :
      (roots : List PreparedRoot) (s : CaptureState)
      → s.global_truncated ≡ true
      → ((capture_loop sha256 fs config r interrupted roots s).entries ≡ s.entries)
        × All
            (λ root.
              IsCut (get (capture_loop sha256 fs config r interrupted roots s).stats root.root_id))
            roots
  unfolding capture_loop
  capture_loop-IsCut [] s h = (refl, tt)
  capture_loop-IsCut (root ∷ roots) s h =
      let one = skip_root-Kept root s in
      let skipped = skip_root sha256 fs config r interrupted root s in
      let cut : skipped.global_truncated ≡ true = one.truncated ∙ h in
      let rest = capture_loop-IsCut roots skipped cut in
      subst
        (λ (u : CaptureState).
          ((capture_loop sha256 fs config r interrupted roots u).entries ≡ s.entries)
          × All
              (λ (i : PreparedRoot).
                IsCut (get (capture_loop sha256 fs config r interrupted roots u).stats i.root_id))
              (root ∷ roots))
        (sym (cut_root root s h))
        (
          rest.0 ∙ one.entries,
          ((capture_loop-Kept roots skipped cut).cut root.root_id (skip_root-IsCut root s), rest.1),
        )
