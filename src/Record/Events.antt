-- ===== src/Record/Events.antt =====
-- The events of a recording: the command, its outcome and as many file effects as the event limit
-- leaves room for.
pub mod Contents
pub mod Laws
pub mod Counts
mod Tests
use cmdtrail.Prelude.{
  ℕ, ◌-◌, List, [], ◌∷◌, ◌++◌, length, take, min, len_u64, u64_max, saturating_sub, wrapping_succ,
}
use mathlib.Core.List.{foldl}
use cmdtrail.Ord.{list_ord, nat_ord}
use cmdtrail.BTree.{BTreeMap, entry_or}
use cmdtrail.Text.{Text, codes}
use cmdtrail.Result.{Result, ok, err, ◌>>=◌}
use cmdtrail.Error.{AppError}
use cmdtrail.Model.{
  Event, EventData, command_requested, command_finished, file_effect, CommandRequested,
  CommandOutcome, FileEffect, FileEffectKind, created, modified, deleted, type_changed,
}
use cmdtrail.Integrity.{Hashing, append_event}

-- The name of an effect in JSON.
abbrev pub effect_name : FileEffectKind → Text
effect_name created = codes "created"
effect_name modified = codes "modified"
effect_name deleted = codes "deleted"
effect_name type_changed = codes "type_changed"

-- `file_effect_counts`: all effects, also those that are dropped.
unfoldable pub file_effect_counts : List FileEffect → BTreeMap Text ℕ
file_effect_counts =
    foldl (λ counts effect. entry_or (effect_name effect.effect) 0 wrapping_succ counts) []

unfoldable pub file_slots : ℕ → ℕ
file_slots max_events = saturating_sub max_events 2

unfoldable pub retained_effect_count : ℕ → List FileEffect → ℕ
unfolding file_slots
retained_effect_count max_events effects = min (len_u64 effects) (file_slots max_events)

unfoldable pub dropped_file_effects : ℕ → List FileEffect → ℕ
unfolding retained_effect_count
dropped_file_effects max_events effects =
    saturating_sub (len_u64 effects) (retained_effect_count max_events effects)

module _ (h : Hashing) where
  -- The loop over the retained effects.
  unfoldable pub append_effects : List Event → ℕ → List FileEffect → Result AppError (List Event)
  append_effects events at [] = ok events
  append_effects events at (effect ∷ effects) = do
    events' ← append_event h events at (file_effect effect)
    append_effects events' at effects

  unfoldable pub record_events :
      ℕ
      → CommandRequested
      → ℕ
      → CommandOutcome
      → ℕ
      → ℕ
      → List FileEffect
      → Result AppError (List Event)
  unfolding file_slots
  record_events started requested finished outcome finished_at max_events effects = do
    requested_events ← append_event h [] started (command_requested requested)
    finished_events ← append_event h requested_events finished (command_finished outcome)
    append_effects finished_events finished_at (take (file_slots max_events) effects)
