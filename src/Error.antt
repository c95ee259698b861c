-- ===== src/Error.antt =====
-- error.rs: the classes of failure, the errors and the document that reports one.
use cmdtrail.Prelude.{ℕ, Bool, Option, none, some}
use cmdtrail.Text.{Text, codes}
use cmdtrail.Model.{CommandState}

pub data ExitClass : Type 0 where
  io_class usage_class integrity_class limit_class execution_class : ExitClass
  post_execution_receipt_class : ExitClass

-- `class as u8`
unfoldable pub exit_code_of : ExitClass → ℕ
exit_code_of io_class = 1
exit_code_of usage_class = 2
exit_code_of integrity_class = 3
exit_code_of limit_class = 4
exit_code_of execution_class = 5
exit_code_of post_execution_receipt_class = 6

pub data RecoveryAction : Type 0 where
  do_not_retry_record : RecoveryAction

pub record ReceiptRecovery : Type 0 where
  pub action : RecoveryAction
  pub receipt_id : Text
  pub receipt_sha256 : Text
  pub command_state : CommandState
  pub requested_receipt : Text
  pub recovery_receipt : Text
  pub recovery_receipt_persisted : Bool
  pub primary_error_code : Text
  pub recovery_error_code : Option Text

pub record AppError : Type 0 where
  pub class : ExitClass
  pub code : Text
  pub message : Text
  pub recovery : Option ReceiptRecovery

abbrev pub new : ExitClass → Text → Text → AppError
new c code message = record { class = c; code = code; message = message; recovery = none }

abbrev pub io : Text → Text → AppError
io = new io_class

abbrev pub usage : Text → Text → AppError
usage = new usage_class

abbrev pub limit : Text → Text → AppError
limit = new limit_class

abbrev pub execution : Text → Text → AppError
execution = new execution_class

abbrev pub post_execution_receipt : Text → Text → ReceiptRecovery → AppError
post_execution_receipt code message recovery = record {
  class = post_execution_receipt_class;
  code = code;
  message = message;
  recovery = some recovery;
}

pub record ErrorDocument : Type 0 where
  pub schema_version : Text
  pub tool_version : Text
  pub code : Text
  pub message : Text
  pub exit_code : ℕ
  pub recovery : Option ReceiptRecovery

-- `ErrorDocument::from`; the version is that of the build.
unfoldable pub error_document : Text → AppError → ErrorDocument
error_document version error = record {
  schema_version = codes "cmdtrail.error.v1";
  tool_version = version;
  code = error.code;
  message = error.message;
  exit_code = exit_code_of error.class;
  recovery = error.recovery;
}
