-- ===== src/Redact.antt =====
-- redact.rs: what of a command and of a path is shown in a receipt. SHA-256 and the process
-- environment are parameters; `OsStr` is the byte sequence of Unix.
mod Patterns
pub mod Url
pub mod Values
pub mod Paths
pub mod Loop
pub mod Arguments
pub mod Environment
mod Tests
mod Examples
unfoldable pub use Patterns.*
use cmdtrail.Prelude.{
  ℕ, suc, ◌+◌, Bool, true, false, ◌&&◌, ◌||◌, Option, none, some, List, [], ◌∷◌, ◌++◌, map, ltb,
  not, ◌==◌, if◌then◌else◌, length, take, drop, saturating_add, len_u64,
}
use cmdtrail.Ord.{list_ord, nat_ord}
use cmdtrail.Sort.{sort, dedup}
use cmdtrail.Result.{Result, ok, err, ◌>>=◌, ◌>>◌, ok_or, reject_if}
use cmdtrail.Text.{
  Text, Bytes, codes, is_empty, text_eq, starts_with, contains, contains_byte, split_once,
  rsplit_once, find, unwrap_or, split, join, trim_start, to_ascii_lowercase, replace,
}
use cmdtrail.Text.Utf8.{to_str, to_string_lossy}
use cmdtrail.FilePath.{FilePath, Component, as_os_str, components, extension, file_name}
use cmdtrail.Encoding.{sha256_bytes, append_length_delimited, append_all}

pub record Redactor : Type 0 where
  pub custom_values : List Text

pub record RedactedCommand : Type 0 where
  pub executable_display : Text
  pub executable_sha256 : Text
  pub argument_displays : List Text
  pub argument_sha256 : List (Option Text)
  pub command_sha256 : Text
  pub redacted_arguments : ℕ

-- The loop of `replace_custom_values`.
unfoldable pub replace_values : List Text → Text → Bool → Text × Bool
replace_values [] output changed = (output, changed)
replace_values (value ∷ values) output changed =
    let hit = contains output value in
    replace_values values (if hit then replace output value redacted else output) (changed || hit)

unfoldable pub replace_custom_values : Redactor → Text → Text × Bool
replace_custom_values r text = replace_values r.custom_values text false

abbrev pub is_separator : ℕ → Bool
is_separator c = c == b'/' || c == b'\\'

-- `any` over the components and over the custom values.
any_value : List Text → Text → Bool
any_value [] text = false
any_value (value ∷ values) text =
    (not (is_empty value) && contains text value) || any_value values text

unfoldable pub any_sensitive : List Text → List Component → Bool
unfolding any_value
any_sensitive values [] = false
any_sensitive values (c ∷ cs) =
    let text = to_string_lossy (as_os_str c) in
    sensitive_path_component text || (any_value values text || any_sensitive values cs)

unfoldable pub path_is_sensitive : Redactor → FilePath → Bool
path_is_sensitive r path = any_sensitive r.custom_values (components path)

unfoldable pub custom_value_count : Redactor → ℕ
custom_value_count r = len_u64 r.custom_values

-- `std::env::var` of each name in turn; the collected values are sorted and deduplicated.
collect_values : (Text → Option Text) → List Text → List Text → Result Text (List Text)
collect_values var [] values = ok values
collect_values var (name ∷ names) values = do
  reject_if (is_empty name) (codes "a redaction environment variable name cannot be empty")
  value ← ok_or (var name) (codes "a requested redaction environment variable is unavailable")
  reject_if (is_empty value) (codes "a requested redaction value is empty")
  collect_values var names (values ++ (value ∷ []))

unfoldable pub from_environment_names : (Text → Option Text) → List Text → Result Text Redactor
unfolding collect_values
from_environment_names var names = do
  values ← collect_values var names []
  ok (record { custom_values = dedup (sort values) })

-- What the loop over the arguments has pushed so far, and whether the next one is a secret.
pub record ArgumentState : Type 0 where
  pub argument_displays : List Text
  pub argument_sha256 : List (Option Text)
  pub redacted_arguments : ℕ
  pub redact_next : Bool

abbrev pub no_arguments : ArgumentState
no_arguments = record {
  argument_displays = [];
  argument_sha256 = [];
  redacted_arguments = 0;
  redact_next = false;
}

-- The two tests on the display: a `key=value` with a sensitive key loses its value, a bare
-- sensitive flag announces a secret. The display, whether it is redacted, and `redact_next`.
unfoldable pub apply_key : Text × Bool → Text × Bool × Bool
apply_key (display, hit) = elim (split_once display (codes "=")) [
  | some (key, value) ↦
      if sensitive_key key then (key ++ (b'=' ∷ redacted), true, false) else (display, hit, false)
  | none ↦
      let lower = to_ascii_lowercase display in
      (display, hit, sensitive_key lower && starts_with lower (codes "-"))
]

unfoldable pub apply_url : Text × Bool → Text × Bool
apply_url (display, hit) =
    if contains display url_mark
    then (let masked = redact_url display in
        (masked, hit || (if text_eq masked display then false else true)))
    else (display, hit)

unfoldable pub command_material : Text → List Text → Bytes
command_material executable_sha256 displays =
    append_all (append_length_delimited [] executable_sha256) displays

module _ (sha256 : Bytes → Bytes) where
  -- The closure of `path_display`: a component as it is shown, and whether it was redacted.
  unfoldable pub show_component : Redactor → Text → Text × Bool
  show_component r component =
      if sensitive_path_component component
      then (codes "[redacted_" ++ (take 8 (sha256_bytes sha256 component) ++ codes "]"), true)
      else replace_custom_values r component

  unfoldable pub show_components : Redactor → List Text → ℕ → List Text × ℕ
  show_components r [] count = ([], count)
  show_components r (component ∷ rest) count =
      let (shown, hit) = show_component r component in
      let (more, total) = show_components r rest (if hit then saturating_add count 1 else count) in
      (shown ∷ more, total)

  unfoldable pub path_display : Redactor → FilePath → Text × ℕ
  path_display r path =
      let (parts, count) = show_components r (split is_separator (to_string_lossy path)) 0 in
      (join (codes "/") parts, count)

  -- `Redactor::text`, for text that is valid UTF-8.
  unfoldable pub show_text : Redactor → Text → Text × Bool
  show_text r text =
      let (custom, changed) = replace_custom_values r text in
      if contains_byte b'/' custom || contains_byte b'\\' custom
      then (let (path, count) = path_display r custom in (path, changed || ltb 0 count))
      else (custom, changed)

  unfoldable pub text : Redactor → Bytes → Text × Bool
  text r value = elim (to_str value) [
    | none ↦ (codes "[non_utf8_" ++ (take 12 (sha256_bytes sha256 value) ++ codes "]"), true)
    | some valid ↦ show_text r valid
  ]

  -- One round of the loop over the arguments.
  unfoldable pub argument_step : Redactor → ArgumentState → Bytes → ArgumentState
  argument_step r s argument =
      if s.redact_next
      then record {
        argument_displays = s.argument_displays ++ (redacted ∷ []);
        argument_sha256 = s.argument_sha256 ++ (none ∷ []);
        redacted_arguments = saturating_add s.redacted_arguments 1;
        redact_next = false;
      }
      else (let (keyed, keyed_hit, next) = apply_key (text r argument) in
          let (display, hit) = apply_url (keyed, keyed_hit) in
          record {
            argument_displays = s.argument_displays ++ (display ∷ []);
            argument_sha256 =
                s.argument_sha256
                ++ ((if hit then none else some (sha256_bytes sha256 argument)) ∷ []);
            redacted_arguments =
                if hit then saturating_add s.redacted_arguments 1 else s.redacted_arguments;
            redact_next = next;
          })

  unfoldable pub arguments_loop : Redactor → ArgumentState → List Bytes → ArgumentState
  arguments_loop r s [] = s
  arguments_loop r s (argument ∷ rest) = arguments_loop r (argument_step r s argument) rest

  unfoldable pub show_executable : Redactor → Bytes → Text
  show_executable r executable = elim (file_name executable) [
    | none ↦ codes "[non-utf8-executable]"
    | some name ↦ (text r name).0
  ]

  unfoldable pub redact_command : Redactor → Bytes → List Bytes → RedactedCommand
  redact_command r executable arguments =
      let executable_sha256 = sha256_bytes sha256 executable in
      let s = arguments_loop r no_arguments arguments in
      record {
        executable_display = show_executable r executable;
        executable_sha256 = executable_sha256;
        argument_displays = s.argument_displays;
        argument_sha256 = s.argument_sha256;
        command_sha256 =
            sha256_bytes sha256 (command_material executable_sha256 s.argument_displays);
        redacted_arguments = s.redacted_arguments;
      }

  -- `Redactor::command`: an empty command has the empty executable.
  unfoldable pub command : Redactor → List Bytes → RedactedCommand
  command r [] = redact_command r [] []
  command r (executable ∷ arguments) = redact_command r executable arguments
