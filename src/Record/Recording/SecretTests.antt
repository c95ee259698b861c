-- ===== src/Record/Recording/SecretTests.antt =====
-- The theorems on secrets at concrete inputs.
use cmdtrail.Prelude.{
  ◌≡◌, refl, sym, ap, ◌∙◌, true, false, Bool-cases, inl, inr, OneOf, some, [], ◌∷◌, ◌++◌,
}
use cmdtrail.Text.{
  Bytes, Text, codes, text_eq, starts_with, contains, contains_byte, split_once, split, join,
  trim_start,
}
use cmdtrail.FilePath.{FilePath, strip_prefix, extension}
use cmdtrail.Integrity.Samples.{toy}
use cmdtrail.Sort.{sort, dedup}
use cmdtrail.Text
use cmdtrail.Text.Utf8.{is_utf8, to_str, to_string_lossy}
use cmdtrail.Redact.{
  sensitive_key, sensitive_path_component, replace_values, replace_custom_values, show_component,
  show_components, path_display, show_text, text, arguments_loop, path_is_sensitive, any_sensitive,
  from_environment_names,
}
use cmdtrail.Redact.Arguments.{awaits_secret, IsSecretFlag}
use cmdtrail.Text.Search.{eq_of_text_eq}
use cmdtrail.Snapshot.Types.{PreparedRoot}
use cmdtrail.Snapshot.Capture.Private.{SameButContents}
use cmdtrail.Record.Recording.Private.{seal-hides_contents}
use cmdtrail.Record.Recording.Secret.{record_command-hides_secret}
use cmdtrail.Result.{ok}
use cmdtrail.Disk.Samples.{Files, put, no_files}
use cmdtrail.Record.{RecordOptions}
use cmdtrail.Record.Recording.{record_command, observed, seal}
use cmdtrail.Record.Recording.Samples.{
  machine, options, prepared, root, new_file, quick_run, env_file, env_view, env_machine,
}

abbrev login : Bytes → RecordOptions
login secret = record options { command = codes "ls" ∷ ([] ++ (codes "--token" ∷ secret ∷ [])) }

token_flag : IsSecretFlag toy.sha256 prepared.redactor (codes "--token")
unfolding text show_text path_display show_components show_component replace_custom_values
    replace_values sensitive_path_component sensitive_key extension text_eq starts_with
    Text.strip_prefix contains contains_byte split_once split join trim_start to_str is_utf8
    to_string_lossy
token_flag = record { no_value = refl; dashed = refl; sensitive = refl }

nothing_awaited : awaits_secret toy.sha256 prepared.redactor [] ≡ false
unfolding awaits_secret arguments_loop
nothing_awaited = refl

no_secrets : from_environment_names machine.env_var [] ≡ ok prepared.redactor
unfolding from_environment_names sort dedup
no_secrets = refl

record_command-hides_secret_example :
    record_command machine (login (codes "abc")) 3 no_files
    ≡ record_command machine (login (codes "def")) 3 no_files
record_command-hides_secret_example =
    record_command-hides_secret machine options prepared.redactor (codes "ls") [] []
      (codes "--token") (codes "abc") (codes "def") no_secrets nothing_awaited token_flag
      (λ directory s. refl) (λ directory s. refl) 3 no_files

env_sensitive :
    (relative : FilePath)
    → strip_prefix env_file root.canonical_path ≡ some relative
    → path_is_sensitive prepared.redactor relative ≡ true
unfolding strip_prefix path_is_sensitive any_sensitive sensitive_path_component
    replace_custom_values replace_values extension text_eq starts_with contains to_string_lossy
    to_str is_utf8
env_sensitive relative under = let is : codes ".env" ≡ relative = cc (under) in rw (← is) refl

same_chunks :
    (a b : Bytes) (s : Files) (i : PreparedRoot) (path relative : FilePath)
    → i ≡ root
    → strip_prefix path i.canonical_path ≡ some relative
    → path_is_sensitive prepared.redactor relative ≡ false
    → (env_view a s).chunks path ≡ (env_view b s).chunks path
same_chunks a b s i path relative is under plain = elim (Bool-cases (text_eq path env_file)) [
  | inr other ↦ rw other refl
  | inl same ↦
      let here : strip_prefix env_file root.canonical_path ≡ some relative =
        ap (λ q. strip_prefix q root.canonical_path) (sym (eq_of_text_eq path env_file same))
        ∙ ap (λ (j : PreparedRoot). strip_prefix path j.canonical_path) (sym is)
        ∙ under in
      absurd (cc (env_sensitive relative here, plain))
]

same_but_contents :
    (a b : Bytes) (s : Files)
    → SameButContents prepared.redactor prepared.roots (env_view a s) (env_view b s)
same_but_contents a b s = record {
  metadata = λ path. refl;
  links = λ path. refl;
  walks = λ path. refl;
  contents = λ i path relative one under plain.
      same_chunks a b s i path relative (root_only i one) under plain;
}
  where
    root_only : (i : PreparedRoot) → OneOf i prepared.roots → i ≡ root
    root_only i (inl e) = e
    root_only i (inr m) = absurd m

seal-hides_contents_example :
    seal
      (env_machine (codes "a"))
      options
      prepared
      (observed (env_machine (codes "a")) options prepared no_files quick_run)
    ≡ seal
        (env_machine (codes "b"))
        options
        prepared
        (observed (env_machine (codes "b")) options prepared no_files quick_run)
seal-hides_contents_example =
    seal-hides_contents (env_machine (codes "a")) options prepared no_files quick_run
      (env_view (codes "b")) (same_but_contents (codes "a") (codes "b") no_files)
      (same_but_contents (codes "a") (codes "b") (put no_files new_file []))
