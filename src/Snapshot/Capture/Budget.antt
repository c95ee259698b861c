-- ===== src/Snapshot/Capture/Budget.antt =====
-- snapshot.rs: how many bytes the entries of a snapshot hold digests of.
use cmdtrail.Prelude.{
  ℕ, ◌+◌, ◌≤◌, ◌<◌, ◌≡◌, ◌≢◌, refl, Bool, ◌⊎◌, inl, inr, Option-cases, none, some, [], ◌∷◌, arith,
  u64_max,
}
use Prim.Native.Nat.{Ordering}
use Prim.Native.Nat.Ordering.{lt, eq, gt}
use cmdtrail.Ord.{list_ord, nat_ord}
use cmdtrail.BTree.{BTreeMap, insert}
use cmdtrail.Text.{Text, Bytes}
use cmdtrail.Text.Decimal.{to_decimal}
use cmdtrail.FilePath.{FilePath}
use cmdtrail.Model.{EntryState}
use cmdtrail.System.{Metadata, Filesystem}
use cmdtrail.Snapshot.Types.{SnapshotConfig, SnapshotEntry}
use cmdtrail.Snapshot.Entry.{hashed_content, content_hash, entry_state}

-- How many bytes the content digest of a state is of: its size, or 0 where it has no digest.
abbrev pub IsHashedSize : EntryState → ℕ → Type 0
IsHashedSize state size =
    ((state.content_sha256 ≡ none) × (size ≡ 0))
    ⊎ ((state.content_sha256 ≢ none) × (state.size_bytes ≡ some (to_decimal size)))

-- The sum of those sizes over the entries of a snapshot.
abbrev pub IsHashedTotal : BTreeMap Text SnapshotEntry → ℕ → Type 0
IsHashedTotal [] total = total ≡ 0
IsHashedTotal (e ∷ rest) total =
    (size : ℕ) × (others : ℕ) × IsHashedSize e.1.state size
    × IsHashedTotal rest others
    × (total ≡ size + others)

pub insert-IsHashedTotal :
    (k : Text) (e : SnapshotEntry) (size : ℕ) (m : BTreeMap Text SnapshotEntry) (total : ℕ)
    → IsHashedSize e.state size
    → IsHashedTotal m total
    → (sum : ℕ) × IsHashedTotal (insert k e m) sum × (sum ≤ size + total)
unfolding insert
insert-IsHashedTotal k e size [] total is none_yet =
    (size + 0, (size, 0, is, refl, refl), omega (arith, none_yet))
insert-IsHashedTotal k e size ((i, w) ∷ m) total is (here, others, w_is, rest, whole) =
    by_order (list_ord.cmp k i) (insert-IsHashedTotal k e size m others is rest)
  where
    by_order :
        (order : Ordering)
        → ((sum : ℕ) × IsHashedTotal (insert k e m) sum × (sum ≤ size + others))
        → (sum : ℕ) × IsHashedTotal
            (elim order [ lt ↦ (k, e) ∷ (i, w) ∷ m | eq ↦ (k, e) ∷ m | gt ↦ (i, w) ∷ insert k e m ])
            sum
          × (sum ≤ size + total)
    by_order lt later =
        (size + total, (size, total, is, (here, others, w_is, rest, whole), refl), omega arith)
    by_order eq later = (size + others, (size, others, is, rest, refl), omega (arith, whole))
    by_order gt (sum, inner, bound) =
        (here + sum, (here, sum, w_is, inner, refl), omega (arith, bound, whole))

module _ (sha256 : Bytes → Bytes) (fs : Filesystem) where
  -- The total of hashed bytes grows by the size of what a digest is kept of.
  pub entry_state-IsHashedSize :
      (path : FilePath) (m : Metadata) (sensitive : Bool) (config : SnapshotConfig) (total : ℕ)
      → config.max_total_hash_bytes < u64_max
      → let captured = entry_state sha256 fs path m sensitive config total in
        (size : ℕ) × IsHashedSize captured.0 size × (total + size ≤ captured.1)
  unfolding entry_state content_hash hashed_content
  entry_state-IsHashedSize path m sensitive config total small =
      elim (Option-cases (entry_state sha256 fs path m sensitive config total).0.content_sha256) [
        | inl missing ↦ (0, inl (missing, refl), ground arith)
        | inr (digest, kept) ↦ (m.len, inr (λ h. cc, ground arith), ground arith)
      ]
