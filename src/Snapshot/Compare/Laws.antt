-- ===== src/Snapshot/Compare/Laws.antt =====
-- What `compare` reports: one effect for each path whose state differs, in the order of the path
-- handles, with the states before and after.
use cmdtrail.Prelude.{
  ◌≡◌, ◌≢◌, refl, sym, ap, ◌∙◌, ◌↔◌, Bool, true, false, ◌||◌, inl, inr, Option, none, some,
  Bool-cases, List, arith, map, subst, if◌then◌else◌, decided, decided_yes, decided_of, decided_no,
}
use cmdtrail.Ord.{list_ord, nat_ord}
use cmdtrail.BTree.{get, key_union, IsAscending}
use cmdtrail.BTree.Keyed.{find_key, find_key-filter_map, filter_map-IsAscending}
use cmdtrail.BTree.Keys.{key_union-IsAscending, set_contains-key_union, is_some}
use cmdtrail.Text.{Text}
use cmdtrail.Model.{
  EntryState, EntryState-discrete, EntryKind-discrete, FileEffect, FileEffectKind, created,
  modified, deleted, type_changed,
}
use cmdtrail.Snapshot.Types.{Snapshot, SnapshotEntry}
use cmdtrail.Snapshot.Compare.{compare, compare_key, entry_state_of, file_effect_from}

-- The effect that a list reports for a path handle.
abbrev pub effect_for : Text → List FileEffect → Option FileEffect
effect_for = find_key (λ (e : FileEffect). e.path_handle)

-- The state of a path in a snapshot, if it was retained.
abbrev pub state_at : Snapshot → Text → Option EntryState
state_at s key = entry_state_of (get s.entries key)

compare_key-handle :
    (key : Text) (b a : Option SnapshotEntry) (e : FileEffect)
    → compare_key key b a ≡ some e
    → e.path_handle ≡ key
unfolding compare_key
compare_key-handle key none none e h = cc
compare_key-handle key none (some a) e h = ground arith
compare_key-handle key (some b) none e h = ground arith
compare_key-handle key (some b) (some a) e h = ground arith

-- The effects are in strictly ascending order of their path handles: at most one for each path.
pub compare-IsAscending :
    (before after : Snapshot) → IsAscending (map (λ e. e.path_handle) (compare before after))
unfolding compare
compare-IsAscending before after =
    filter_map-IsAscending (λ e. e.path_handle) _ (λ key e h. compare_key-handle key _ _ e h)
      (key_union before.entries after.entries) (key_union-IsAscending before.entries after.entries)

compare-at :
    (before after : Snapshot) (key : Text)
    → effect_for key (compare before after)
      ≡ compare_key key (get before.entries key) (get after.entries key)
unfolding compare
compare-at before after key =
    find_key-filter_map (λ e. e.path_handle) _ (λ k e h. compare_key-handle k _ _ e h) key
      (key_union before.entries after.entries)
    ∙ rw (set_contains-key_union key before.entries after.entries)
        (absent (get before.entries key) (get after.entries key))
  where
    absent :
        (b a : Option SnapshotEntry)
        → (if is_some b || is_some a then compare_key key b a else none) ≡ compare_key key b a
    absent none none = unfold compare_key in refl
    absent none (some a) = refl
    absent (some b) a = refl

compare_key-none :
    (key : Text) (b a : Option SnapshotEntry)
    → (compare_key key b a ≡ none) ↔ (entry_state_of b ≡ entry_state_of a)
unfolding compare_key
compare_key-none key none none = (λ h. refl, λ h. refl)
compare_key-none key none (some a) = (λ h. cc, λ h. cc)
compare_key-none key (some b) none = (λ h. cc, λ h. cc)
compare_key-none key (some b) (some a) =
    let same_kind = EntryKind-discrete b.state.kind a.state.kind in
    let same_state = EntryState-discrete b.state a.state in
    elim (Bool-cases (decided same_state)) [
      | inl same ↦
          let e : b.state ≡ a.state = decided_yes same_state same in
          rw (same, decided_of same_kind (ap (λ s. s.kind) e)) (λ h. ap some e, λ h. refl)
      | inr differ ↦ rw differ (
        λ h. absurd (
            reported (decided same_kind) (file_effect_from key a modified (some b) (some a))
              (file_effect_from key a type_changed (some b) (some a)) h),
        λ h. absurd (decided_no same_state differ (some_eq h)),
      )
    ]
  where
    some_eq : {s t : EntryState} → some s ≡ some t → s ≡ t
    some_eq h = cc

    reported : (k : Bool) (x y : FileEffect) → (if k then some x else some y) ≡ none → ⊥
    reported true x y h = cc
    reported false x y h = cc

-- A path is reported exactly when its states in the two snapshots differ.
pub compare-reports :
    (before after : Snapshot) (key : Text)
    → (effect_for key (compare before after) ≡ none) ↔ (state_at before key ≡ state_at after key)
compare-reports before after key =
    rw (compare-at before after key)
      (compare_key-none key (get before.entries key) (get after.entries key))

-- The kind that the states before and after a command call for.
abbrev pub IsKind : FileEffectKind → Option EntryState → Option EntryState → Type 0
IsKind created none (some a) = Unit
IsKind deleted (some b) none = Unit
IsKind type_changed (some b) (some a) = b.kind ≢ a.kind
IsKind modified (some b) (some a) = (b.kind ≡ a.kind) × (b ≢ a)
IsKind _ _ _ = ⊥

abbrev Shown : Option SnapshotEntry → Option SnapshotEntry → FileEffect → Type 0
Shown b a e =
    (e.before ≡ entry_state_of b) × (e.after ≡ entry_state_of a) × IsKind e.effect e.before e.after

from_some :
    (b a : Option SnapshotEntry) (x e : FileEffect) → Shown b a x → some x ≡ some e → Shown b a e
from_some b a x e shown h = subst (Shown b a) (some_eq h) shown
  where
    some_eq : {s t : FileEffect} → some s ≡ some t → s ≡ t
    some_eq p = cc

compare_key-IsKind :
    (key : Text) (b a : Option SnapshotEntry) (e : FileEffect)
    → compare_key key b a ≡ some e
    → Shown b a e
unfolding compare_key
compare_key-IsKind key none none e h = cc
compare_key-IsKind key none (some a) e h =
    from_some none (some a) (file_effect_from key a created none (some a)) e (refl, refl, tt) h
compare_key-IsKind key (some b) none e h =
    from_some (some b) none (file_effect_from key b deleted (some b) none) e (refl, refl, tt) h
compare_key-IsKind key (some b) (some a) e h =
    let same_kind = EntryKind-discrete b.state.kind a.state.kind in
    let same_state = EntryState-discrete b.state a.state in
    elim (Bool-cases (decided same_kind)) [
      | inr retyped ↦
          from_some (some b) (some a) (file_effect_from key a type_changed (some b) (some a)) e
            (refl, refl, decided_no same_kind retyped) (rw retyped at h)
      | inl kind ↦ elim (Bool-cases (decided same_state)) [
        | inl same ↦ cc (rw (kind, same) at h)
        | inr rewritten ↦
            from_some (some b) (some a) (file_effect_from key a modified (some b) (some a)) e
              (refl, refl, (decided_yes same_kind kind, decided_no same_state rewritten))
              (rw (kind, rewritten) at h)
      ]
    ]

-- A reported effect carries the two states of its path, and its kind is the one that they call for.
pub compare-IsKind :
    (before after : Snapshot) (key : Text) (e : FileEffect)
    → effect_for key (compare before after) ≡ some e
    → (e.before ≡ state_at before key)
      × (e.after ≡ state_at after key)
      × IsKind e.effect e.before e.after
compare-IsKind before after key e h =
    compare_key-IsKind key (get before.entries key) (get after.entries key) e
      (sym (compare-at before after key) ∙ h)
