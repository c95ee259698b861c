-- ===== src/Capability/Contract.antt =====
-- capability.rs: the contract of the command line.
use cmdtrail.Prelude.{ℕ, List, [], ◌∷◌}
use cmdtrail.Ord.{list_ord, nat_ord}
use cmdtrail.BTree.{BTreeMap, collect}
use cmdtrail.Text.{Text, codes}
use cmdtrail.Integrity.{receipt_schema}

pub record ContractDocument : Type 0 where
  pub schema_version : Text
  pub tool_version : Text
  pub commands : List Text
  pub stdout : Text
  pub stderr : Text
  pub exit_codes : BTreeMap ℕ Text
  pub receipt_schema : Text
  pub integrity_algorithm : Text
  pub record_child_failure_semantics : Text

unfoldable pub contract_document : Text → ContractDocument
contract_document version = record {
  schema_version = codes "cmdtrail.contract.v1";
  tool_version = version;
  commands =
      codes "record"
      ∷ codes "show"
      ∷ codes "diff"
      ∷ codes "verify"
      ∷ codes "schema"
      ∷ codes "capabilities"
      ∷ codes "contract"
      ∷ codes "completions"
      ∷ [];
  stdout =
      codes "one JSON document on successful data commands; completion scripts for completions";
  stderr =
      codes
        "observed-command stdout/stderr passthrough followed by one cmdtrail.error.v1 JSON document on runtime failure";
  exit_codes = collect (
      (
        0,
        codes
            "operation_succeeded; record also uses 0 when the observed command fails but a receipt is written",
      )
      ∷ (1, codes "io_or_receipt_storage")
      ∷ (2, codes "usage_or_clap_help_error")
      ∷ (3, codes "receipt_integrity_failure")
      ∷ (4, codes "configured_or_input_limit")
      ∷ (5, codes "command_execution_setup_failure_without_receipt")
      ∷ (6, codes "post_execution_receipt_failure_do_not_retry")
      ∷ []);
  receipt_schema = receipt_schema;
  integrity_algorithm =
      codes "RFC 8785 JCS plus SHA-256 with cmdtrail.integrity.v1 domain separation";
  record_child_failure_semantics =
      codes
        "inspect command.outcome; receipt creation success is distinct from observed command success";
}
