-- ===== src/Diff.antt =====
-- diff.rs: the comparison of the retained effects of two verified receipts.
pub mod Laws
pub mod Keys
pub mod Receipts
mod Tests
use cmdtrail.Prelude.{
  Bool, true, false, Option, none, some, List, [], ◌∷◌, map, filter_map, if◌then◌else◌, decided,
}
use cmdtrail.Ord.{list_ord, nat_ord}
use cmdtrail.BTree.{BTreeMap, get, collect, key_union}
use cmdtrail.Text.{Text, codes}
use cmdtrail.Result.{Result, ok, err, ◌>>=◌, ◌>>◌, reject_if}
use cmdtrail.Error.{AppError, new, integrity_class}
use cmdtrail.Model.{
  EffectKey, key_ord, ChangedEffect, FileEffect, FileEffect-discrete, Event, EventData, file_effect,
  command_requested, command_finished, Receipt, DiffResult, CommandOutcome-discrete,
  Capabilities-discrete,
}
use cmdtrail.Integrity.{Hashing, verify_receipt}

abbrev pub key_of : FileEffect → EffectKey
key_of e = record {
  root_id = e.root_id;
  path_handle = e.path_handle;
  display_path = e.display_path;
  effect = e.effect;
}

keyed_effect : EventData → Option (EffectKey × FileEffect)
keyed_effect (file_effect e) = some (key_of e, e)
keyed_effect _ = none

-- `effects`: of two effects with one key the later one is kept.
unfoldable pub effects : Receipt → BTreeMap EffectKey FileEffect
unfolding keyed_effect
effects receipt = collect (filter_map (λ event. keyed_effect event.event) receipt.events)

-- The body of the loop for one key: what it pushes onto each of the three lists.
unfoldable pub added : EffectKey → Option FileEffect → Option FileEffect → Option EffectKey
added key none (some a) = some key
added key _ _ = none

unfoldable pub removed : EffectKey → Option FileEffect → Option FileEffect → Option EffectKey
removed key (some b) none = some key
removed key _ _ = none

unfoldable pub changed : EffectKey → Option FileEffect → Option FileEffect → Option ChangedEffect
changed key (some b) (some a) =
    if decided (FileEffect-discrete b a)
    then none
    else some (record { key = key; before = b; after = a })
changed key _ _ = none

abbrev pub not_verified : AppError
not_verified =
    new integrity_class (codes "receipt_integrity_invalid")
      (codes "a receipt failed integrity verification and cannot be compared")

module _ (h : Hashing) (version : Text) where
  unfoldable pub ensure_verified : Receipt → Result AppError (Unit {0})
  ensure_verified receipt =
      if (verify_receipt h version receipt).integrity_valid then ok tt else err not_verified

  -- The three lists of the loop are those that it pushes to, key by key.
  unfoldable pub diff_effects : Receipt → Receipt → DiffResult
  diff_effects before after =
      let b = effects before in
      let a = effects after in
      let keys = key_union b a in
      record {
        schema_version = codes "cmdtrail.diff.v1";
        tool_version = version;
        before_receipt_id = before.receipt_id;
        after_receipt_id = after.receipt_id;
        added_effects = filter_map (λ key. added key (get b key) (get a key)) keys;
        removed_effects = filter_map (λ key. removed key (get b key) (get a key)) keys;
        changed_effects = filter_map (λ key. changed key (get b key) (get a key)) keys;
        command_outcome_changed =
            if decided (CommandOutcome-discrete before.command.outcome after.command.outcome)
            then false
            else true;
        capability_declaration_changed =
            if decided (Capabilities-discrete before.capabilities after.capabilities)
            then false
            else true;
      }

  unfoldable pub diff_receipts : Receipt → Receipt → Result AppError DiffResult
  diff_receipts before after = do
    ensure_verified before
    ensure_verified after
    ok (diff_effects before after)
