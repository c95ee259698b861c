-- ===== src/Diff/Tests.antt =====
-- The comparison of a receipt without file effects and one with a created file.
use cmdtrail.Prelude.{◌≡◌, refl, none, [], ◌∷◌, ◌++◌}
use cmdtrail.BTree.{get, insert, collect, key_union, set_insert}
use cmdtrail.Text.{codes}
use cmdtrail.Model.{key_ord, FileEffect, created, file_effect, Receipt}
use cmdtrail.Integrity.{append_event, hash_event, hash_serializable}
use cmdtrail.Integrity.Samples.{toy, small}
use cmdtrail.Diff.{key_of, effects, added, diff_effects}
use cmdtrail.Diff.Laws.{Reported, diff_effects-Reported}

abbrev new_file : FileEffect
new_file = record {
  root_id = codes "root_0000";
  path_handle = codes "path_aa";
  display_path = codes "notes.txt";
  effect = created;
  before = none;
  after = none;
}

abbrev later : Receipt
later = record small {
  events =
      small.events
      ++ (record {
        sequence = 2;
        observed_at_unix_ms = 9;
        previous_event_sha256 = none;
        event = file_effect new_file;
        event_sha256 = [];
      }
          ∷ []);
}

diff_effects-Reported_example :
    Reported
      (key_of new_file)
      (get (effects small) (key_of new_file))
      (get (effects later) (key_of new_file))
      (diff_effects toy (codes "0.1.0") small later)
diff_effects-Reported_example =
    diff_effects-Reported toy (codes "0.1.0") small later (key_of new_file)

adds_the_new_file :
    (diff_effects toy (codes "0.1.0") small later).added_effects ≡ key_of new_file ∷ []
unfolding diff_effects effects collect insert get key_union set_insert added append_event hash_event
    hash_serializable
adds_the_new_file = refl
