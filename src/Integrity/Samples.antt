-- ===== src/Integrity/Samples.antt =====
-- A small chain and a small receipt, on which the tests run.
use cmdtrail.Prelude.{◌≡◌, refl, true, false, none, some, List, [], ◌∷◌, ◌++◌, length}
use cmdtrail.Text.{codes, text_eq}
use cmdtrail.Encoding.{hex_lower, u64_be_bytes}
use cmdtrail.Result.{Result, ok, err}
use cmdtrail.Model.{
  Event, EventData, command_requested, command_finished, exited, Receipt, pos, full,
}
use cmdtrail.Integrity.{
  Hashing, receipt_schema, envelope, hash_serializable, hash_event, hash_events, hash_receipt,
  append_event, finalize_receipt, event_valid, chain_valid, verify_receipt, id_valid,
}

-- A hash that keeps its input, and encodings of a few fields.
abbrev pub toy : Hashing
toy = record {
  sha256 = λ b. b;
  event_jcs = λ e.
      some (e.observed_at_unix_ms ∷ (elim e.previous_event_sha256 [ none ↦ [] | some d ↦ 1 ∷ d ]));
  events_jcs = λ es. some (length es ∷ []);
  receipt_jcs = λ r. some (r.tool_version ++ r.event_chain_head_sha256);
}

abbrev pub requested : EventData
requested =
    command_requested (record { executable_sha256 = codes "aa"; command_sha256 = codes "bb" })

abbrev pub finished : EventData
finished = command_finished (record {
  state = exited;
  exit_code = some (pos 0);
  signal = none;
  success = true;
  spawn_error_kind = none;
})

abbrev pub or_empty : {E : Type 0} → Result E (List Event) → List Event
or_empty (ok es) = es
or_empty (err e) = []

abbrev pub first_events : List Event
first_events = or_empty (append_event toy [] 5 requested)

abbrev pub both_events : List Event
both_events = or_empty (append_event toy first_events 9 finished)

abbrev pub small : Receipt
small = record {
  schema_version = receipt_schema;
  tool_version = codes "0.1.0";
  receipt_id = [];
  receipt_sha256 = [];
  platform = record { os = codes "linux"; architecture = codes "x86_64"; family = codes "unix" };
  command = record {
    executable_display = codes "ls";
    executable_sha256 = codes "aa";
    argument_displays = [];
    argument_sha256 = [];
    command_sha256 = codes "bb";
    environment_captured = false;
    outcome = record {
      state = exited;
      exit_code = some (pos 0);
      signal = none;
      success = true;
      spawn_error_kind = none;
    };
  };
  observation = record {
    backend = codes "portable";
    started_at_unix_ms = 5;
    finished_at_unix_ms = 9;
    duration_ms = 4;
    working_directory_handle = codes "path_00";
    working_directory_display = codes "work";
    coverage = full;
    known_blind_spots = [];
  };
  capabilities = [];
  limits = record {
    max_entries_per_snapshot = 10;
    max_events = 10;
    max_file_hash_bytes = 100;
    max_total_hash_bytes_per_snapshot = 100;
    command_timeout_ms = none;
  };
  roots = [];
  events = both_events;
  events_sha256 = [];
  event_chain_head_sha256 = [];
  summary = record {
    command_state = exited;
    command_success = true;
    file_effect_counts = [];
    retained_file_effects = 0;
    dropped_file_effects = 0;
    snapshot_truncated = false;
    traversal_errors = 0;
    observation_complete = true;
  };
  redaction = record {
    mode = codes "default";
    environment_values_captured = false;
    custom_secret_values_loaded = 0;
    redacted_arguments = 0;
    redacted_path_components = 0;
    sensitive_file_hashes_skipped = 0;
    limitations = [];
  };
}

abbrev pub sealed : Receipt
sealed = elim (finalize_receipt toy small) [ ok r ↦ r | err e ↦ small ]

-- A receipt of another user, with the digest of the first.
abbrev pub renamed : Receipt
renamed = record sealed { redaction = record (sealed.redaction) { mode = codes "other" } }

pub renamed_valid : (verify_receipt toy (codes "0.1.0") renamed).integrity_valid ≡ true
unfolding finalize_receipt verify_receipt hash_events hash_receipt hash_serializable hex_lower
    envelope u64_be_bytes append_event hash_event chain_valid event_valid text_eq id_valid
renamed_valid = refl

pub sealed_valid : (verify_receipt toy (codes "0.1.0") sealed).integrity_valid ≡ true
unfolding finalize_receipt verify_receipt hash_events hash_receipt hash_serializable hex_lower
    envelope u64_be_bytes append_event hash_event chain_valid event_valid text_eq id_valid
sealed_valid = refl
