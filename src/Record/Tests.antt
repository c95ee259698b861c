-- ===== src/Record/Tests.antt =====
-- Options that are accepted.
use cmdtrail.Prelude.{◌≡◌, refl, none, some, [], ◌∷◌}
use cmdtrail.Text.{codes}
use cmdtrail.Result.{ok}
use cmdtrail.Record.{RecordOptions, validate_options}

abbrev usual : RecordOptions
usual = record {
  output = codes "out.json";
  working_directory = none;
  roots = [];
  max_entries = 1000;
  max_events = 1000;
  max_file_hash_bytes = 1000000;
  max_total_hash_bytes = 1000000;
  timeout_ms = some 1000;
  redact_environment_names = [];
  command = codes "ls" ∷ [];
}

accepts_the_usual : validate_options usual ≡ ok tt
unfolding validate_options
accepts_the_usual = refl
