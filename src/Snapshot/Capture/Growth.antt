-- ===== src/Snapshot/Capture/Growth.antt =====
-- How a snapshot that is being taken grows: entries and marks of a cut are never taken back, and
-- new entries are those of paths that the walk found.
use cmdtrail.Prelude.{
  ℕ, ◌≡◌, refl, sym, Bool, true, false, ◌⊎◌, inl, inr, Option, none, some, subst, if◌then◌else◌,
  saturating_add, decided,
}
use cmdtrail.Ord.{list_ord, nat_ord}
use cmdtrail.BTree.{BTreeMap, get, insert}
use Prim.Native.Nat.{Ordering}
use Prim.Native.Nat.Ordering.{lt, eq, gt}
use cmdtrail.BTree.Laws.{get-insert, same_key}
use cmdtrail.BTree.Keys.{is_some, is_some-insert-kept, is_some-insert-new}
use cmdtrail.Text.{Text}
use cmdtrail.Model.{SnapshotStats, EntryState, ContentHashState-discrete, hashed}
use cmdtrail.Snapshot.Types.{SnapshotEntry}
use cmdtrail.Snapshot.Entry.{is_regular}
use cmdtrail.Snapshot.Capture.{CaptureState, count_state}

abbrev pub has_entry : BTreeMap Text SnapshotEntry → Text → Bool
has_entry entries k = is_some (get entries k)

abbrev pub has_stats : BTreeMap Text SnapshotStats → Text → Bool
has_stats stats k = is_some (get stats k)

-- The statistics under a root's id say that entries were cut off.
abbrev pub marks_cut : Option SnapshotStats → Bool
marks_cut none = false
marks_cut (some t) = t.truncated

abbrev pub is_cut : BTreeMap Text SnapshotStats → Text → Bool
is_cut stats k = marks_cut (get stats k)

module _ (P : Text → Type 0) where
  -- From the entries and statistics of one state to those of a later one; new keys satisfy `P`.
  pub record Grows (entries : BTreeMap Text SnapshotEntry) (stats : BTreeMap Text SnapshotStats)
      (entries' : BTreeMap Text SnapshotEntry) (stats' : BTreeMap Text SnapshotStats) : Type 0 where
    pub entry_kept : (k : Text) → has_entry entries k ≡ true → has_entry entries' k ≡ true
    pub entry_new : (k : Text) → has_entry entries' k ≡ true → (has_entry entries k ≡ true) ⊎ P k
    pub stats_kept : (k : Text) → has_stats stats k ≡ true → has_stats stats' k ≡ true
    pub cut_kept : (k : Text) → is_cut stats k ≡ true → is_cut stats' k ≡ true

  abbrev pub Grew : CaptureState → CaptureState → Type 0
  Grew s t = Grows s.entries s.stats t.entries t.stats

  pub Grew-refl : (s : CaptureState) → Grew s s
  Grew-refl s = record {
    entry_kept = λ k h. h;
    entry_new = λ k h. inl h;
    stats_kept = λ k h. h;
    cut_kept = λ k h. h;
  }

  pub Grew-trans : (s t u : CaptureState) → Grew s t → Grew t u → Grew s u
  Grew-trans s t u first second = record {
    entry_kept = λ k h. second.entry_kept k (first.entry_kept k h);
    entry_new = λ k h. either k (second.entry_new k h);
    stats_kept = λ k h. second.stats_kept k (first.stats_kept k h);
    cut_kept = λ k h. second.cut_kept k (first.cut_kept k h);
  }
    where
      either :
          (k : Text) → (has_entry t.entries k ≡ true) ⊎ P k → (has_entry s.entries k ≡ true) ⊎ P k
      either k (inl h) = first.entry_new k h
      either k (inr p) = inr p

  is_cut-insert :
      (k j : Text) (t : SnapshotStats) (stats : BTreeMap Text SnapshotStats)
      → (is_cut stats k ≡ true → t.truncated ≡ true)
      → is_cut stats j ≡ true
      → is_cut (insert k t stats) j ≡ true
  is_cut-insert k j t stats keeps h =
      rw (get-insert k j t stats) (by_order (list_ord.cmp j k) (list_ord.eq_of_cmp j k))
    where
      by_order :
          (c : Ordering) → (c ≡ eq → j ≡ k) → marks_cut (same_key c (some t) (get stats j)) ≡ true
      by_order eq same = keeps (subst (λ i. is_cut stats i ≡ true) (same refl) h)
      by_order lt same = h
      by_order gt same = h

  -- New statistics for one root.
  pub counted-Grows :
      (k : Text) (t : SnapshotStats) (s : CaptureState)
      → (is_cut s.stats k ≡ true → t.truncated ≡ true)
      → Grows s.entries s.stats s.entries (insert k t s.stats)
  counted-Grows k t s keeps = record {
    entry_kept = λ j h. h;
    entry_new = λ j h. inl h;
    stats_kept = λ j h. is_some-insert-kept k j t s.stats h;
    cut_kept = λ j h. is_cut-insert k j t s.stats keeps h;
  }

  -- New statistics for one root, and an entry.
  pub entered-Grows :
      (k handle : Text) (t : SnapshotStats) (entry : SnapshotEntry) (s : CaptureState)
      → P handle
      → (is_cut s.stats k ≡ true → t.truncated ≡ true)
      → Grows s.entries s.stats (insert handle entry s.entries) (insert k t s.stats)
  entered-Grows k handle t entry s allowed keeps = record {
    entry_kept = λ j h. is_some-insert-kept handle j entry s.entries h;
    entry_new = λ j h. either j (is_some-insert-new handle j entry s.entries h);
    stats_kept = λ j h. is_some-insert-kept k j t s.stats h;
    cut_kept = λ j h. is_cut-insert k j t s.stats keeps h;
  }
    where
      either :
          (j : Text)
          → (j ≡ handle) ⊎ (has_entry s.entries j ≡ true)
          → (has_entry s.entries j ≡ true) ⊎ P j
      either j (inl same) = inr (subst P (sym same) allowed)
      either j (inr h) = inl h

pub count_state-truncated :
    (state : EntryState) (len : ℕ) (t : SnapshotStats)
    → (count_state state len t).truncated ≡ t.truncated
unfolding count_state
count_state-truncated state len t =
    by_test (decided (ContentHashState-discrete state.content_hash_state hashed))
      (is_regular state.kind)
  where
    by_test :
        (a b : Bool)
        → ◌≡◌ {A = Bool}
            (SnapshotStats.truncated (
              if a
              then record t {
                hashed_files = saturating_add t.hashed_files 1;
                hashed_bytes = saturating_add t.hashed_bytes len;
              }
              else if b
              then record t { skipped_hashes = saturating_add t.skipped_hashes 1 }
              else t))
            t.truncated
    by_test true b = refl
    by_test false true = refl
    by_test false false = refl
