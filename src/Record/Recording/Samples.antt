-- ===== src/Record/Recording/Samples.antt =====
-- A machine on which a command creates one file and exits, and a recording on it.
use cmdtrail.Prelude.{
  ◌≡◌, ◌*◌, refl, sym, ap, if◌then◌else◌, ℕ_discrete, true, false, Option, none, some, List, [],
  ◌∷◌, ◌++◌,
}
use cmdtrail.Snapshot.Capture.{handle_of}
use cmdtrail.Text.{Text, Bytes, codes, text_eq}
use cmdtrail.Encoding.{hex_lower}
use cmdtrail.FilePath.{FilePath}
use cmdtrail.Result.{ok, err}
use cmdtrail.Model.{Receipt, pos}
use cmdtrail.System.{Metadata, Filesystem, WalkItem, found, bytes}
use cmdtrail.Disk.Samples.{Files, put, no_files, sample_disk}
use cmdtrail.ReceiptFile.{ReceiptJson}
use cmdtrail.ReceiptFile.RoundTrip.{ReadsBack}
use cmdtrail.Integrity.Samples.{toy, small}
use cmdtrail.Record.{RecordOptions}
use cmdtrail.Snapshot.Types.{PreparedRoot}
use cmdtrail.Record.Draft.{Prepared, Observed}
use cmdtrail.Record.Run.{Child, ended, ExitStatus, Run, outcome_from_status}
use cmdtrail.Record.Recording.{Machine, prepare, seal, observed}

abbrev pub options : RecordOptions
options = record {
  output = codes "out.json";
  working_directory = none;
  roots = [];
  max_entries = 1000;
  max_events = 1000;
  max_file_hash_bytes = 1000000;
  max_total_hash_bytes = 1000000;
  timeout_ms = some 1000;
  redact_environment_names = [];
  command = codes "touch" ∷ codes "new" ∷ [];
}

abbrev pub new_file : FilePath
new_file = codes "/w/new"

abbrev a_directory : Metadata
a_directory = record {
  is_file = false;
  is_dir = true;
  is_symlink = false;
  len = 0;
  modified_ns = none;
  readonly = false;
  mode = 493;
}

abbrev pub a_file : Metadata
a_file = record {
  is_file = true;
  is_dir = false;
  is_symlink = false;
  len = 0;
  modified_ns = none;
  readonly = false;
  mode = 420;
}

abbrev entries : Option Bytes → List WalkItem
entries none = []
entries (some content) = found new_file ∷ []

-- The working directory, with the new file once it is there.
abbrev view_of : Files → Filesystem
view_of s = record {
  canonicalize = λ p. ok p;
  metadata = λ p. ok a_directory;
  symlink_metadata = λ p. ok a_file;
  read_link = λ p. none;
  chunks = λ p. ok [];
  walk = λ p. entries (s new_file);
}

abbrev exited_well : ExitStatus
exited_well = record { code = some (pos 0); signal = none; success = true }

abbrev pub child : Child
child = record {
  try_wait = λ n. ended exited_well;
  elapsed_ns = λ n. n * 10000000;
  kill = λ n. true;
  wait_after_kill = λ n. some true;
  pipes = some true ∷ some true ∷ [];
}

abbrev unprinted : ReceiptJson
unprinted = record { to_vec_pretty = λ r. none; from_slice = λ b. none }

abbrev machine_with : ReceiptJson → Machine Files
machine_with json = record {
  disk = sample_disk;
  view = view_of;
  env_var = λ name. none;
  current_dir = ok (codes "/w");
  handler_installed = true;
  start = λ command directory s. ok child;
  meanwhile = λ command directory s. put s new_file [];
  clock = λ n. some (n * 1000000);
  flag_before = λ n. false;
  flag_running = λ n. false;
  flag_after = λ n. false;
  hashing = toy;
  json = json;
  build = record {
    version = codes "0.3.0";
    os = codes "linux";
    architecture = codes "x86_64";
    family = codes "unix";
  };
}

abbrev pub quick_run : Run
quick_run = (outcome_from_status exited_well, [])

-- The receipt that is recorded on that machine.
abbrev pub final : Receipt
final = elim (prepare (machine_with unprinted) options no_files).1 [
  | err e ↦ small
  | ok p ↦
      elim (seal (machine_with unprinted) options p
        (observed (machine_with unprinted) options p no_files quick_run)) [
          | err e ↦ small
          | ok receipt ↦ receipt
        ]
]

abbrev Receipt-discrete : Discrete Receipt
Receipt-discrete = hlevel ℕ_discrete

-- A printer that knows this receipt only.
abbrev pub json : ReceiptJson
json = record {
  to_vec_pretty =
      λ r. elim (Receipt-discrete r final) [ yes e ↦ some (codes "{}") | no other ↦ none ];
  from_slice = λ b. if text_eq b (codes "{}\n") then some final else none;
}

pub json_prints : json.to_vec_pretty final ≡ some (codes "{}")
json_prints = by_case (Receipt-discrete final final)
  where
    by_case :
        (d : Dec (final ≡ final))
        → ◌≡◌ {A = Option Bytes}
            (elim d [ yes e ↦ some (codes "{}") | no other ↦ none ])
            (some (codes "{}"))
    by_case (yes e) = refl
    by_case (no other) = absurd (other refl)

pub json-ReadsBack : ReadsBack json
unfolding text_eq
json-ReadsBack receipt document h = by_case (Receipt-discrete receipt final) h
  where
    by_case :
        (d : Dec (receipt ≡ final))
        → ◌≡◌ {A = Option Bytes}
            (elim d [ yes e ↦ some (codes "{}") | no other ↦ none ])
            (some document)
        → (if text_eq (document ++ (b'\n' ∷ [])) (codes "{}\n") then some final else none)
          ≡ some receipt
    by_case (yes e) h =
        let printed : codes "{}" ≡ document = cc (h) in rw (← printed) (ap some (sym e))
    by_case (no other) h = cc

abbrev pub machine : Machine Files
machine = machine_with json

abbrev pub root : PreparedRoot
root = record {
  root_id = codes "root_0000";
  path_handle = codes "path_" ++ hex_lower (toy.sha256 (codes "/w"));
  display_name = codes "w";
  canonical_path = codes "/w";
}

-- What is prepared there.
abbrev pub prepared : Prepared
prepared = record {
  redactor = record { custom_values = [] };
  working_directory = codes "/w";
  roots = root ∷ [];
}

-- The machine on which a command deletes the file.
abbrev pub deleting_machine : Machine Files
deleting_machine = record machine { meanwhile = λ command directory s. no_files }

-- The machine on which the interrupt flag is set before the command would be started.
abbrev pub interrupted_machine : Machine Files
interrupted_machine = record machine {
  flag_running = λ n. true;
  json = record { to_vec_pretty = λ r. some (codes "{}"); from_slice = λ b. none };
}

-- The machine on which the command creates the file that the receipt was to be written to.
abbrev pub taken_machine : Machine Files
taken_machine = record machine {
  meanwhile = λ command directory s. put s (codes "out.json") (codes "old");
  json = record { to_vec_pretty = λ r. some (codes "{}"); from_slice = λ b. none };
}

-- The machine on which the interrupt flag is set after the command has ended.
abbrev pub cut_machine : Machine Files
cut_machine = record machine { flag_after = λ n. true }

abbrev pub env_file : FilePath
env_file = codes "/w/.env"

-- The working directory with one file on a sensitive path, of the given content.
abbrev pub env_view : Bytes → Files → Filesystem
env_view content s = record (view_of s) {
  walk = λ p. found env_file ∷ [];
  chunks = λ p. if text_eq p env_file then ok (bytes content ∷ []) else ok [];
}

abbrev pub env_machine : Bytes → Machine Files
env_machine content = record machine { view = env_view content }

abbrev pub seen_first : Observed
seen_first = observed machine options prepared no_files quick_run

-- The same changes, seen later.
abbrev pub seen_later : Observed
seen_later = record seen_first { command_started_at = 7000; finished_at = 9000 }

abbrev pub new_handle : Text
new_handle = handle_of toy.sha256 root.root_id (codes "new")
