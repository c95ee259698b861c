-- ===== src/Record/Events/Tests.antt =====
-- A recording of one file effect, with room for none.
use cmdtrail.Prelude.{◌≡◌, refl, true, none, some, List, [], ◌∷◌, ◌++◌, arith, length}
use cmdtrail.Text.{codes}
use cmdtrail.Encoding.{hex_lower, u64_be_bytes}
use cmdtrail.Result.{ok}
use cmdtrail.Model.{CommandRequested, CommandOutcome, exited, pos, FileEffect, created}
use cmdtrail.Integrity.{append_event, hash_event, hash_serializable, envelope}
use cmdtrail.Integrity.Samples.{toy, both_events}
use cmdtrail.BTree.{get, insert, entry_or}
use cmdtrail.Record.Events.{file_effect_counts, file_slots, append_effects, record_events}
use cmdtrail.Record.Events.Counts.{total, total-file_effect_counts}

abbrev started : CommandRequested
started = record { executable_sha256 = codes "aa"; command_sha256 = codes "bb" }

abbrev succeeded : CommandOutcome
succeeded = record {
  state = exited;
  exit_code = some (pos 0);
  signal = none;
  success = true;
  spawn_error_kind = none;
}

abbrev one_effect : List FileEffect
one_effect =
    record {
      root_id = codes "root_0000";
      path_handle = codes "path_aa";
      display_path = codes "notes.txt";
      effect = created;
      before = none;
      after = none;
    }
    ∷ []

counts_the_dropped : file_effect_counts (one_effect ++ one_effect) ≡ (codes "created", 2) ∷ []
unfolding file_effect_counts entry_or get insert
counts_the_dropped = refl

recorded : record_events toy 5 started 9 succeeded 9 2 one_effect ≡ ok both_events
unfolding record_events append_effects file_slots append_event hash_event hash_serializable envelope
    hex_lower u64_be_bytes
recorded = refl

total-file_effect_counts_example :
    total (file_effect_counts (one_effect ++ one_effect)) ≡ length (one_effect ++ one_effect)
total-file_effect_counts_example = total-file_effect_counts (one_effect ++ one_effect) (omega arith)
