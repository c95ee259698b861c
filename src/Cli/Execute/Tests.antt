-- ===== src/Cli/Execute/Tests.antt =====
-- The command line on the machine of the samples.
use cmdtrail.Prelude.{◌≡◌, ◌+◌, refl, ap, some, none, [], ◌∷◌, leb, length, if◌then◌else◌}
use cmdtrail.Text.{Bytes, codes, text_eq}
use cmdtrail.Result.{ok, err}
use cmdtrail.Model.{Receipt}
use cmdtrail.Disk.Samples.{Files, no_files, sample_disk-IsDisk}
use cmdtrail.ReceiptFile.{read_receipt, max_receipt_bytes, too_large}
use cmdtrail.Record.Recording.Samples.{machine, json-ReadsBack}
use cmdtrail.Record.Recording.Recorded.{recorded}
use cmdtrail.Cli.Execute.{
  RecordArgs, Commands, record_it, verify_it, Session, print_json, verify_file, after_record,
  execute, exit, main, record_options,
}
use cmdtrail.Cli.Execute.Codes.{IsDocumented, IsReported, main-IsDocumented}
use cmdtrail.Cli.Execute.Vouched.{execute-Prints}
use cmdtrail.Cli.Execute.Prints.{Prints}
use cmdtrail.Cli.Execute.RecordVerify.{takes_all, verify_it-record_it}
use cmdtrail.Error.{exit_code_of}

abbrev args : RecordArgs
args = record {
  out = codes "out.json";
  cwd = none;
  root = [];
  max_entries = 1000;
  max_events = 1000;
  max_file_hash_bytes = 1000000;
  max_total_hash_bytes = 1000000;
  timeout = some 1000;
  redact_env = [];
  command = codes "touch" ∷ codes "new" ∷ [];
}

abbrev start : Session Files
start = record { disk = no_files; stdout = []; stderr = [] }

abbrev done : Session Files
done = record {
  disk = recorded.0;
  stdout = cmdtrail.Cli.Execute.recorded recorded.1 ∷ [];
  stderr = [];
}

recorded_well : execute machine takes_all 3 (record_it args) start ≡ some (done, ok 0)
unfolding execute record_options after_record print_json
recorded_well = ap (after_record machine takes_all start) recorded.2

execute-Prints_example : Prints machine start done
execute-Prints_example = execute-Prints machine takes_all 3 (record_it args) start recorded_well

verify_it-record_it_example :
    (receipt : Receipt) × (document : Bytes) × (u : Session Files) × (machine.json.to_vec_pretty
        receipt
      ≡ some document)
    × (execute machine takes_all 3 (verify_it args.out) done
        ≡ some (u, if leb (length document + 1) max_receipt_bytes then ok 0 else err too_large))
verify_it-record_it_example =
    verify_it-record_it machine sample_disk-IsDisk json-ReadsBack 3 args start recorded_well

nothing_there :
    (t : Session Files) × (main machine takes_all 0 (verify_it (codes "out.json")) start
      ≡ some (t, 1))
unfolding main execute verify_file read_receipt exit exit_code_of text_eq
nothing_there = (_, refl)

main-IsDocumented_example :
    IsDocumented (codes "0.3.0") 1 × IsReported machine takes_all start nothing_there.0 1
main-IsDocumented_example =
    main-IsDocumented machine takes_all 0 (verify_it (codes "out.json")) start nothing_there.1
