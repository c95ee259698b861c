-- ===== src/Snapshot/Compare.antt =====
-- `compare` and `root_records`.
pub mod Laws
pub mod Reported
use cmdtrail.Prelude.{
  ℕ, Bool, true, false, Option, none, some, List, [], ◌∷◌, map, filter_map, if◌then◌else◌, decided,
}
use cmdtrail.Ord.{list_ord, nat_ord}
use cmdtrail.BTree.{BTreeMap, get, key_union}
use cmdtrail.Text.{Text, unwrap_or}
use cmdtrail.Model.{
  EntryState, EntryState-discrete, EntryKind-discrete, FileEffect, FileEffectKind, created,
  modified, deleted, type_changed, RootRecord, SnapshotStats, default_stats,
}
use cmdtrail.Snapshot.Types.{Snapshot, SnapshotEntry, PreparedRoot}

abbrev pub entry_state_of : Option SnapshotEntry → Option EntryState
entry_state_of none = none
entry_state_of (some entry) = some entry.state

abbrev file_effect_from :
    Text → SnapshotEntry → FileEffectKind → Option SnapshotEntry → Option SnapshotEntry → FileEffect
file_effect_from key shown effect before after = record {
  root_id = shown.root_id;
  path_handle = key;
  display_path = shown.display_path;
  effect = effect;
  before = entry_state_of before;
  after = entry_state_of after;
}

-- The body of the loop for one key; `none` is `continue`.
unfoldable pub compare_key : Text → Option SnapshotEntry → Option SnapshotEntry → Option FileEffect
compare_key key none none = none
compare_key key none (some a) = some (file_effect_from key a created none (some a))
compare_key key (some b) none = some (file_effect_from key b deleted (some b) none)
compare_key key (some b) (some a) =
    if decided (EntryKind-discrete b.state.kind a.state.kind)
    then (if decided (EntryState-discrete b.state a.state)
        then none
        else some (file_effect_from key a modified (some b) (some a)))
    else some (file_effect_from key a type_changed (some b) (some a))

unfoldable pub compare : Snapshot → Snapshot → List FileEffect
compare before after =
    filter_map (λ key. compare_key key (get before.entries key) (get after.entries key))
      (key_union before.entries after.entries)

unfoldable pub root_records : List PreparedRoot → Snapshot → Snapshot → List RootRecord
root_records roots before after =
    map
      (λ root. record {
        root_id = root.root_id;
        path_handle = root.path_handle;
        display_name = root.display_name;
        before = unwrap_or (get before.stats root.root_id) default_stats;
        after = unwrap_or (get after.stats root.root_id) default_stats;
      })
      roots
