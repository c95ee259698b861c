-- ===== src/Snapshot/Capture/Bounds.antt =====
-- What holds of every snapshot: the limit on entries, the order and the keys of the entries, the
-- budget of hashed bytes, and what the statistics say of omitted entries.
use cmdtrail.Prelude.{
  ℕ, suc, ◌≤◌, ◌<◌, ◌≡◌, refl, Bool, true, false, Bool-cases, inl, inr, Option, Option-cases, List,
  [], ◌∷◌, arith, All, length, if◌then◌else◌, saturating_add, u64_max,
}
use cmdtrail.Ord.{list_ord, nat_ord}
use cmdtrail.BTree.{get, keys, IsAscending}
use cmdtrail.BTree.Entries.{All-get}
use cmdtrail.Text.{Bytes}
use cmdtrail.System.{Filesystem, WalkItem}
use cmdtrail.Redact.{Redactor}
use cmdtrail.Snapshot.Types.{SnapshotConfig, PreparedRoot, Snapshot}
use cmdtrail.Snapshot.Capture.{
  CaptureState, is_interrupted, cut_off, initial_state, Flow, proceed, stop, state_of_flow,
  walk_step, walk_loop, skip_root, capture_root, capture_loop, capture_internal,
}
use cmdtrail.Snapshot.Capture.Budget.{IsHashedTotal}
use cmdtrail.Snapshot.Capture.Rounds.{
  IsUnknown, IsBounded, touched-IsBounded, put_stats-IsBounded, cut-IsBounded, initial-IsBounded,
  scan-IsBounded,
}

-- The bounds on a finished snapshot.
pub record IsWithin (config : SnapshotConfig) (s : Snapshot) : Type 0 where
  pub few : length s.entries ≤ config.max_entries
  pub ascending : IsAscending (keys s.entries)
  pub keyed : All (λ e. e.1.path_handle ≡ e.0) s.entries

module _ (sha256 : Bytes → Bytes) (fs : Filesystem) (config : SnapshotConfig) (r : Redactor)
    (interrupted : Option (ℕ → Bool)) (small : config.max_entries ≤ u64_max) where
  walk_step-IsBounded :
      (root : PreparedRoot) (item : WalkItem) (s : CaptureState)
      → IsBounded config s
      → IsBounded config (state_of_flow (walk_step sha256 fs config r interrupted root item s))
  unfolding walk_step
  walk_step-IsBounded root item s b = elim (Option-cases (get s.stats root.root_id)) [
    | inl missing ↦ rw (missing, walk_step) b
    | inr (t, present) ↦
        rw (present, walk_step)
          (elim (Bool-cases (is_interrupted interrupted s.loads)) [
            | inl now ↦
                rw now (cut-IsBounded sha256 fs config r interrupted small root t s (suc s.loads) b)
            | inr later ↦ rw later (
                scan-IsBounded sha256 fs config r interrupted small root item
                  (record t { scanned_entries = saturating_add t.scanned_entries 1 })
                  (record s { loads = suc s.loads })
                  (All-get IsUnknown root.root_id t s.stats b.unknown present)
                  (touched-IsBounded config s s.redacted_path_components s.global_truncated
                    (suc s.loads) b))
          ])
  ]

  walk_loop-IsBounded :
      (root : PreparedRoot) (items : List WalkItem) (s : CaptureState)
      → IsBounded config s
      → IsBounded config (walk_loop sha256 fs config r interrupted root items s)
  unfolding walk_loop
  walk_loop-IsBounded root [] s b = b
  walk_loop-IsBounded root (item ∷ items) s b =
      by_flow (walk_step sha256 fs config r interrupted root item s)
        (walk_step-IsBounded root item s b) (walk_loop-IsBounded root items)
    where
      by_flow :
          (flow : Flow)
          → IsBounded config (state_of_flow flow)
          → ((t : CaptureState)
              → IsBounded config t
              → IsBounded config (walk_loop sha256 fs config r interrupted root items t))
          → IsBounded config (elim flow [
            | proceed t ↦ walk_loop sha256 fs config r interrupted root items t
            | stop t ↦ t
          ])
      by_flow (proceed t) here rest = rest t here
      by_flow (stop t) here rest = here

  skip_root-IsBounded :
      (root : PreparedRoot) (s : CaptureState)
      → IsBounded config s
      → IsBounded config (skip_root sha256 fs config r interrupted root s)
  unfolding skip_root
  skip_root-IsBounded root s b = elim (Option-cases (get s.stats root.root_id)) [
    | inl missing ↦ rw (missing, skip_root) b
    | inr (t, present) ↦
        rw (present, skip_root) (put_stats-IsBounded config root (cut_off t) s refl b)
  ]

  capture_root-IsBounded :
      (root : PreparedRoot) (s : CaptureState)
      → IsBounded config s
      → IsBounded config (capture_root sha256 fs config r interrupted root s)
  unfolding capture_root
  capture_root-IsBounded root s b =
      let polled : CaptureState = record s { loads = suc s.loads } in
      let polled_b : IsBounded config polled =
        touched-IsBounded config s s.redacted_path_components s.global_truncated (suc s.loads) b in
      either s.global_truncated (skip_root-IsBounded root s b) (
        either (is_interrupted interrupted s.loads) (skip_root-IsBounded root polled polled_b)
          (walk_loop-IsBounded root (fs.walk root.canonical_path) polled polled_b))
    where
      either :
          (test : Bool) {x y : CaptureState}
          → IsBounded config x
          → IsBounded config y
          → IsBounded config (if test then x else y)
      either true hx hy = hx
      either false hx hy = hy

  capture_loop-IsBounded :
      (roots : List PreparedRoot) (s : CaptureState)
      → IsBounded config s
      → IsBounded config (capture_loop sha256 fs config r interrupted roots s)
  unfolding capture_loop
  capture_loop-IsBounded [] s b = b
  capture_loop-IsBounded (root ∷ roots) s b =
      capture_loop-IsBounded roots (capture_root sha256 fs config r interrupted root s)
        (capture_root-IsBounded root s b)

  -- A snapshot holds at most `max_entries` entries, each under its own path handle, in strictly
  -- ascending order of the handles, whatever the walks find and whenever it is interrupted. The
  -- limit is a `u64`.
  pub capture_internal-IsWithin :
      (roots : List PreparedRoot)
      → IsWithin config (capture_internal sha256 fs config r interrupted roots)
  unfolding capture_internal
  capture_internal-IsWithin roots =
      let b = capture_loop-IsBounded roots (initial_state roots) (initial-IsBounded config roots) in
      record { few = omega (arith, b.counted, b.limited); ascending = b.ascending; keyed = b.keyed }

  -- The sizes of all files of which a snapshot holds content digests, over all its roots, add up to
  -- at most its budget of hashed bytes. The limit on entries is a u64, and the budget is less than
  -- the largest one.
  pub capture_internal_budget :
      (roots : List PreparedRoot)
      → config.max_total_hash_bytes < u64_max
      → (n : ℕ) × IsHashedTotal (capture_internal sha256 fs config r interrupted roots).entries n
        × (n ≤ config.max_total_hash_bytes)
  unfolding capture_internal
  capture_internal_budget roots fits =
      let b = capture_loop-IsBounded roots (initial_state roots) (initial-IsBounded config roots) in
      let (n, total, within) = b.paid fits in (n, total, omega (arith, within, b.budgeted))

  -- No root of a snapshot reports that the number of omitted entries is known, not even where
  -- nothing was omitted. The limit on entries is a u64.
  pub capture_internal-IsUnknown :
      (roots : List PreparedRoot)
      → All (λ e. IsUnknown e.1) (capture_internal sha256 fs config r interrupted roots).stats
  unfolding capture_internal
  capture_internal-IsUnknown roots =
      (capture_loop-IsBounded roots (initial_state roots) (initial-IsBounded config roots)).unknown
