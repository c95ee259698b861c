-- ===== src/Snapshot/Compare/Reported.antt =====
-- The list that `compare` makes, as a set of effects: which paths it tells of, and that what it
-- tells is so.
use cmdtrail.Prelude.{
  ◌≡◌, ◌≢◌, refl, ap, ◌∙◌, subst, true, false, Option, none, some, Option-cases, inl, inr, List,
  OneOf,
}
use cmdtrail.Ord.{list_ord, nat_ord}
use cmdtrail.BTree.{get}
use cmdtrail.BTree.Keys.{is_some}
use cmdtrail.BTree.Keyed.{find_key-OneOf, find_key-own}
use cmdtrail.Text.{Text}
use cmdtrail.Model.{
  EntryState, FileEffect, FileEffectKind, created, modified, deleted, type_changed,
}
use cmdtrail.Snapshot.Types.{Snapshot, SnapshotEntry}
use cmdtrail.Snapshot.Capture.Growth.{has_entry}
use cmdtrail.Snapshot.Compare.{compare, entry_state_of}
use cmdtrail.Snapshot.Compare.Laws.{
  effect_for, state_at, IsKind, compare-reports, compare-IsKind, compare-IsAscending,
}

-- The states of a path in the two snapshots, and the kind of effect that they call for.
pub record IsTrue (before after : Snapshot) (e : FileEffect) : Type 0 where
  pub before_so : e.before ≡ state_at before e.path_handle
  pub after_so : e.after ≡ state_at after e.path_handle
  pub kind_so : IsKind e.effect e.before e.after

pub compare-IsTrue :
    (before after : Snapshot) (e : FileEffect)
    → OneOf e (compare before after)
    → IsTrue before after e
compare-IsTrue before after e one =
    let found : effect_for e.path_handle (compare before after) ≡ some e =
      find_key-own (λ (x : FileEffect). x.path_handle) (compare before after) e
        (compare-IsAscending before after) one in
    let (b, a, kind) = compare-IsKind before after e.path_handle e found in
    record { before_so = b; after_so = a; kind_so = kind }

-- A true effect of a path, in a list of effects.
pub record Tells (before after : Snapshot) (key : Text) (effects : List FileEffect) : Type 0 where
  pub effect : FileEffect
  pub one : OneOf effect effects
  pub about : effect.path_handle ≡ key
  pub so : IsTrue before after effect

pub compare-Tells :
    (before after : Snapshot) (key : Text)
    → state_at before key ≢ state_at after key
    → Tells before after key (compare before after)
compare-Tells before after key differ =
    elim (Option-cases (effect_for key (compare before after))) [
      | inl missing ↦ absurd (differ ((compare-reports before after key).0 missing))
      | inr (e, found) ↦
          let (one, named) =
            find_key-OneOf (λ (x : FileEffect). x.path_handle) key (compare before after) e found in
          record { effect = e; one = one; about = named; so = compare-IsTrue before after e one }
    ]

absent : (o : Option SnapshotEntry) → is_some o ≡ false → entry_state_of o ≡ none
absent none h = refl
absent (some entry) h = cc

present :
    (o : Option SnapshotEntry) → is_some o ≡ true → (s : EntryState) × (entry_state_of o ≡ some s)
present none h = cc
present (some entry) h = (entry.state, refl)

created_kind : (kind : FileEffectKind) (a : Option EntryState) → IsKind kind none a → kind ≡ created
created_kind created a k = refl
created_kind modified a k = absurd k
created_kind deleted a k = absurd k
created_kind type_changed a k = absurd k

deleted_kind : (kind : FileEffectKind) (b : Option EntryState) → IsKind kind b none → kind ≡ deleted
deleted_kind deleted b k = refl
deleted_kind created none k = absurd k
deleted_kind created (some b) k = absurd k
deleted_kind modified none k = absurd k
deleted_kind modified (some b) k = absurd k
deleted_kind type_changed none k = absurd k
deleted_kind type_changed (some b) k = absurd k

module _ (before after : Snapshot) (key : Text) where
  -- A path with an entry after and none before was created.
  pub compare_created :
      has_entry before.entries key ≡ false
      → has_entry after.entries key ≡ true
      → (told : Tells before after key (compare before after)) × (told.effect.effect ≡ created)
  compare_created gone here =
      let none_before : state_at before key ≡ none = absent (get before.entries key) gone in
      let (s, some_after) = present (get after.entries key) here in
      let told = compare-Tells before after key (λ same. cc (same, none_before, some_after)) in
      (
        told,
        created_kind told.effect.effect told.effect.after (
            subst (λ b. IsKind told.effect.effect b told.effect.after)
              (told.so.before_so ∙ ap (state_at before) told.about ∙ none_before) told.so.kind_so),
      )

  -- A path with an entry before and none after was deleted.
  pub compare_deleted :
      has_entry before.entries key ≡ true
      → has_entry after.entries key ≡ false
      → (told : Tells before after key (compare before after)) × (told.effect.effect ≡ deleted)
  compare_deleted here gone =
      let none_after : state_at after key ≡ none = absent (get after.entries key) gone in
      let (s, some_before) = present (get before.entries key) here in
      let told = compare-Tells before after key (λ same. cc (same, none_after, some_before)) in
      (
        told,
        deleted_kind told.effect.effect told.effect.before (
            subst (λ a. IsKind told.effect.effect told.effect.before a)
              (told.so.after_so ∙ ap (state_at after) told.about ∙ none_after) told.so.kind_so),
      )
