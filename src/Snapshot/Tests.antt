-- ===== src/Snapshot/Tests.antt =====
-- Two small snapshots, their comparison, and a file that is hashed.
use cmdtrail.Prelude.{
  ℕ, ◌≡◌, ◌≤◌, ◌↔◌, refl, true, false, none, some, List, [], ◌∷◌, map, if◌then◌else◌, ◌==◌, length,
  arith, ℕ_discrete,
}
use cmdtrail.Ord.{list_ord, nat_ord}
use cmdtrail.BTree.{get, key_union, set_insert}
use cmdtrail.BTree.Keyed.{find_key}
use cmdtrail.Text.{Text, Bytes, codes}
use cmdtrail.Encoding.{hex_lower}
use cmdtrail.Result.{ok}
use cmdtrail.Model.{
  EntryState, EntryKind-discrete, EntryState-discrete, file, hashed, FileEffect, created, deleted,
  modified,
}
use cmdtrail.System.{Metadata, Filesystem, bytes}
use cmdtrail.Snapshot.Types.{SnapshotConfig, SnapshotEntry, Snapshot}
use cmdtrail.Snapshot.Entry.{
  kind_of, finish_hash, hash_loop, hash_regular_file, hashed_content, content_hash, entry_state,
}
use cmdtrail.Snapshot.Entry.Laws.{IsContent, hash_regular_file-digest, entry_state-digest}
use cmdtrail.Snapshot.Compare.{compare, compare_key}
use cmdtrail.Snapshot.Compare.Laws.{effect_for, state_at, compare-reports}

abbrev state_of : Text → EntryState
state_of digest = record {
  kind = file;
  size_bytes = some (codes "4");
  modified_at_unix_ns = none;
  readonly = false;
  unix_mode = some 420;
  content_sha256 = some digest;
  content_hash_state = hashed;
  symlink_target_sha256 = none;
}

abbrev entry_of : Text → Text → SnapshotEntry
entry_of key digest = record {
  root_id = codes "root_0000";
  path_handle = key;
  display_path = key;
  state = state_of digest;
}

abbrev of_entries : List (Text × SnapshotEntry) → Snapshot
of_entries es = record {
  entries = es;
  stats = [];
  redacted_path_components = 0;
  sensitive_file_hashes_skipped = 0;
}

abbrev earlier : Snapshot
earlier = of_entries (
    (codes "a", entry_of (codes "a") (codes "11"))
    ∷ (codes "b", entry_of (codes "b") (codes "22"))
    ∷ [])

abbrev later : Snapshot
later = of_entries (
    (codes "b", entry_of (codes "b") (codes "33"))
    ∷ (codes "c", entry_of (codes "c") (codes "44"))
    ∷ [])

abbrev rewritten : FileEffect
rewritten = record {
  root_id = codes "root_0000";
  path_handle = codes "b";
  display_path = codes "b";
  effect = modified;
  before = some (state_of (codes "22"));
  after = some (state_of (codes "33"));
}

reports_all_three : map (λ e. e.effect) (compare earlier later) ≡ deleted ∷ modified ∷ created ∷ []
unfolding compare key_union set_insert get compare_key find_key EntryKind-discrete
    EntryState-discrete ℕ_discrete
reports_all_three = refl

found_rewritten : effect_for (codes "b") (compare earlier later) ≡ some rewritten
unfolding compare key_union set_insert get compare_key find_key EntryKind-discrete
    EntryState-discrete ℕ_discrete
found_rewritten = refl

compare-reports_example :
    (effect_for (codes "b") (compare earlier later) ≡ none)
    ↔ (state_at earlier (codes "b") ≡ state_at later (codes "b"))
compare-reports_example = compare-reports earlier later (codes "b")

-- A stand-in for SHA-256.
abbrev same_bytes : Bytes → Bytes
same_bytes b = b

abbrev regular : ℕ → Metadata
regular n = record {
  is_file = true;
  is_dir = false;
  is_symlink = false;
  len = n;
  modified_ns = none;
  readonly = false;
  mode = 420;
}

-- Every path is a file of four bytes, read in two pieces.
abbrev four_bytes : Filesystem
four_bytes = record {
  canonicalize = λ p. ok p;
  metadata = λ p. ok (regular 4);
  symlink_metadata = λ p. ok (regular 4);
  read_link = λ p. none;
  chunks = λ p. ok (bytes (codes "ab") ∷ bytes (codes "cd") ∷ []);
  walk = λ p. [];
}

abbrev config : SnapshotConfig
config = record { max_entries = 10; max_file_hash_bytes = 100; max_total_hash_bytes = 150 }

four_bytes-IsContent : IsContent (bytes (codes "ab") ∷ bytes (codes "cd") ∷ []) (codes "abcd")
four_bytes-IsContent = (λ e. cc (e), (codes "cd", (λ e. cc (e), ([], refl, refl)), refl))

hash_regular_file-digest_example :
    hash_regular_file same_bytes four_bytes (codes "/w/f") 4 100
    ≡ ok (if length (codes "abcd") == 4 then hex_lower (codes "abcd") else [], 4)
hash_regular_file-digest_example =
    hash_regular_file-digest same_bytes four_bytes (codes "/w/f") 4 100
      (bytes (codes "ab") ∷ bytes (codes "cd") ∷ []) (codes "abcd") (omega arith) refl
      four_bytes-IsContent (omega arith)

kept :
    (entry_state same_bytes four_bytes (codes "/w/f") (regular 4) false config 0).0.content_sha256
    ≡ some (codes "61626364")
unfolding entry_state content_hash hashed_content hash_regular_file hash_loop finish_hash hex_lower
    kind_of
kept = refl

entry_state-digest_example :
    ((entry_state same_bytes four_bytes
        (codes "/w/f")
        (regular 4)
        false
        config
        0).0.content_hash_state
      ≡ hashed)
    × (true ≡ true)
    × (false ≡ false)
    × (4 ≤ 100)
    × (hash_regular_file same_bytes four_bytes (codes "/w/f") 4 100 ≡ ok (codes "61626364", 4))
entry_state-digest_example =
    entry_state-digest same_bytes four_bytes (codes "/w/f") (regular 4) false config 0
      (codes "61626364") kept
