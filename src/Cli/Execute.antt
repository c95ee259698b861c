-- ===== src/Cli/Execute.antt =====
-- main.rs: what each command does, and the exit code. Parsing the command line is clap's; the format
-- of the output has one value. A state is the disk with what was printed so far; whether standard
-- output takes a document is a parameter, and so is what `clap_complete` prints.
pub mod Codes
pub mod Prints
pub mod Vouched
pub mod RecordVerify
mod Tests
use cmdtrail.Prelude.{ℕ, Bool, true, false, Option, none, some, List, [], ◌∷◌, ◌++◌, if◌then◌else◌}
use cmdtrail.Text.{Text, Bytes, codes}
use cmdtrail.FilePath.{FilePath}
use cmdtrail.Result.{Result, ok, err}
use cmdtrail.Action.{Action, after, ◌>>=◌, ◌>>◌, look, give}
use cmdtrail.Error.{AppError, ErrorDocument, integrity_class, exit_code_of, error_document, io}
use cmdtrail.Model.{Receipt, RecordResult, ShowResult, DiffResult, VerificationReport}
use cmdtrail.Capability.{
  CapabilitiesDocument, ContractDocument, SchemaDocument, capabilities_document, contract_document,
  schema_document,
}
use cmdtrail.Integrity.{verify_receipt}
use cmdtrail.ReceiptFile.{read_receipt}
use cmdtrail.Diff.{diff_receipts}
use cmdtrail.Record.{RecordOptions}
use cmdtrail.Record.Recording.{Machine, record_command}

pub record RecordArgs : Type 0 where
  pub out : FilePath
  pub cwd : Option FilePath
  pub root : List FilePath
  pub max_entries : ℕ
  pub max_events : ℕ
  pub max_file_hash_bytes : ℕ
  pub max_total_hash_bytes : ℕ
  pub timeout : Option ℕ
  pub redact_env : List Text
  pub command : List Bytes

pub record ShowArgs : Type 0 where
  pub receipt : FilePath
  pub summary : Bool

pub record DiffArgs : Type 0 where
  pub before : FilePath
  pub after : FilePath

pub data Commands : Type 0 where
  record_it : RecordArgs → Commands
  show_it : ShowArgs → Commands
  diff_them : DiffArgs → Commands
  verify_it : FilePath → Commands
  schema : Bool → Commands
  capabilities : Commands
  contract : Commands
  completions : Text → Commands

-- What can be printed to standard output.
pub data Document : Type 0 where
  recorded : RecordResult → Document
  whole : Receipt → Document
  shown : ShowResult → Document
  compared : DiffResult → Document
  verified : VerificationReport → Document
  schema_of : SchemaDocument → Document
  capabilities_of : CapabilitiesDocument → Document
  contract_of : ContractDocument → Document
  script : Text → Document

pub record Session (D : Type 0) : Type 0 where
  pub disk : D
  pub stdout : List Document
  pub stderr : List ErrorDocument

abbrev pub stdout_write_failed : AppError
stdout_write_failed =
    io (codes "stdout_write_failed") (codes "could not write the JSON result to standard output")

abbrev pub print : {D : Type 0} → Document → Session D → Session D
print document s = record s { stdout = s.stdout ++ (document ∷ []) }

unfoldable pub record_options : RecordArgs → RecordOptions
record_options args = record {
  output = args.out;
  working_directory = args.cwd;
  roots = args.root;
  max_entries = args.max_entries;
  max_events = args.max_events;
  max_file_hash_bytes = args.max_file_hash_bytes;
  max_total_hash_bytes = args.max_total_hash_bytes;
  timeout_ms = args.timeout;
  redact_environment_names = args.redact_env;
  command = args.command;
}

unfoldable pub show_result : Text → Receipt → ShowResult
show_result version receipt = record {
  schema_version = codes "cmdtrail.show.v1";
  tool_version = version;
  receipt_id = receipt.receipt_id;
  integrity_valid = true;
  command = receipt.command;
  observation = receipt.observation;
  capabilities = receipt.capabilities;
  summary = receipt.summary;
  roots = receipt.roots;
}

-- A step on the disk, in a session.
abbrev pub on_disk : {D A : Type 0} → Action D A → Action (Session D) A
on_disk step s = let (d, answer) = step s.disk in (record s { disk = d }, answer)

module _ {D : Type 0} (takes : Document → Bool) where
  -- Of a document that standard output does not take, a part may have been written; that is left out.
  unfoldable pub print_json : Document → Action (Session D) (Unit {0})
  print_json document s =
      if takes document then (print document s, ok tt) else (s, err stdout_write_failed)

module _ {D : Type 0} (machine : Machine D) (takes : Document → Bool) where
  abbrev version : Text
  version = machine.build.version

  abbrev report_of : Receipt → VerificationReport
  report_of receipt = verify_receipt machine.hashing version receipt

  unfoldable pub print_shown : Bool → Receipt → Action (Session D) ℕ
  print_shown summary receipt =
      if (report_of receipt).integrity_valid
      then (print_json takes
            (if summary then shown (show_result version receipt) else whole receipt)
          >> give (ok 0))
      else (print_json takes (verified (report_of receipt))
          >> give (ok (exit_code_of integrity_class)))

  unfoldable pub show_receipt : ShowArgs → Action (Session D) ℕ
  show_receipt args = do
    receipt ← on_disk (read_receipt machine.disk machine.json args.receipt)
    print_shown args.summary receipt

  unfoldable pub diff_files : DiffArgs → Action (Session D) ℕ
  diff_files args = do
    before ← on_disk (read_receipt machine.disk machine.json args.before)
    later ← on_disk (read_receipt machine.disk machine.json args.after)
    result ← give (diff_receipts machine.hashing version before later)
    print_json takes (compared result)
    give (ok 0)

  unfoldable pub verify_file : FilePath → Action (Session D) ℕ
  verify_file path = do
    receipt ← on_disk (read_receipt machine.disk machine.json path)
    let report = report_of receipt
    print_json takes (verified report)
    give (ok (if report.integrity_valid then 0 else exit_code_of integrity_class))

  abbrev print_and_end : Document → Action (Session D) ℕ
  print_and_end document = do print_json takes document; give (ok 0)

  -- What follows a recording.
  unfoldable pub after_record :
      Session D → Option (D × Result AppError RecordResult) → Option (Session D × Result AppError ℕ)
  after_record s none = none
  after_record s (some (d, err e)) = some (record s { disk = d }, err e)
  after_record s (some (d, ok result)) =
      some (print_and_end (recorded result) (record s { disk = d }))

  -- `none` where a recording has not ended after `fuel` rounds of its wait.
  unfoldable pub execute : ℕ → Commands → Session D → Option (Session D × Result AppError ℕ)
  execute fuel (record_it args) s =
      after_record s (record_command machine (record_options args) fuel s.disk)
  execute fuel (show_it args) s = some (show_receipt args s)
  execute fuel (diff_them args) s = some (diff_files args s)
  execute fuel (verify_it path) s = some (verify_file path s)
  execute fuel (schema brief) s = some (print_and_end (schema_of (schema_document version brief)) s)
  execute fuel capabilities s =
      some (print_and_end (capabilities_of (capabilities_document version)) s)
  execute fuel contract s = some (print_and_end (contract_of (contract_document version)) s)
  execute fuel (completions shell) s = some (print (script shell) s, ok 0)

  -- The exit code; an error is reported on standard error, if that takes it.
  unfoldable pub exit : Session D × Result AppError ℕ → Session D × ℕ
  exit (s, ok code) = (s, code)
  exit (s, err e) =
      (record s { stderr = s.stderr ++ (error_document version e ∷ []) }, exit_code_of e.class)

  unfoldable pub main : ℕ → Commands → Session D → Option (Session D × ℕ)
  main fuel command s = elim (execute fuel command s) [ none ↦ none | some end ↦ some (exit end) ]
