-- ===== src/Redact/Examples.antt =====
-- The theorems of the modules beside this one at concrete inputs.
use cmdtrail.Prelude.{◌≡◌, refl, some, false, [], ◌∷◌, ◌++◌, List, length, inl, filter_map, Option}
use cmdtrail.Ord.{list_ord, nat_ord}
use cmdtrail.BTree.{IsAscending, set_contains}
use cmdtrail.Sort.{sort, dedup}
use cmdtrail.Result.{ok}
use cmdtrail.Text.{
  Bytes, Text, codes, text_eq, starts_with, strip_prefix, contains, contains_byte, split_once, find,
  split, join, trim_start,
}
use cmdtrail.Text.Utf8.{is_utf8, to_str, to_string_lossy}
use cmdtrail.FilePath.{extension}
use cmdtrail.Redact.{
  Redactor, redact_url, url_mark, sensitive_key, sensitive_path_component, replace_values,
  replace_custom_values, show_component, show_components, path_display, show_text, text, apply_key,
  apply_url, argument_step, arguments_loop, command, redacted, from_environment_names,
  collect_values,
}
use cmdtrail.Redact.Arguments.{IsHonest, command-IsHonest, awaits_secret, IsSecretFlag}
use cmdtrail.Redact.Url.{query, tail_text, redact_url-hides}
use cmdtrail.Redact.Values.{AllNonempty, IsApartFromMark, replace_custom_values-hides}
use cmdtrail.Redact.Environment.{from_environment_names-ok}

-- A stand-in for SHA-256.
abbrev first_byte : Bytes → Bytes
first_byte [] = 0 ∷ []
first_byte (a ∷ rest) = a ∷ []

abbrev one_secret : Redactor
one_secret = record { custom_values = codes "hunter2" ∷ [] }

redact_url-hides_example :
    redact_url (
      codes "https"
      ++ (url_mark ++ (codes "u:p@h.org" ++ (codes "/a" ++ tail_text (query (codes "k"))))))
    ≡ codes "https"
      ++ (url_mark ++ ((redacted ++ codes "@h.org") ++ (codes "/a" ++ codes "?[redacted-query]")))
redact_url-hides_example =
    redact_url-hides (codes "https") (codes "u:p") (codes "h.org") (unfold contains_byte in refl)
      (unfold find in refl) (unfold find in refl) (unfold contains_byte in refl) (codes "/a")
      (query (codes "k")) (refl, unfold find in refl, unfold find in refl)

hunter_apart : IsApartFromMark (codes "hunter2")
unfolding contains_byte contains starts_with
hunter_apart = record { nonempty = refl; no_left = refl; no_right = refl; not_inside = refl }

replace_custom_values-hides_example :
    contains (replace_custom_values one_secret (codes "my hunter2!")).0 (codes "hunter2") ≡ false
replace_custom_values-hides_example =
    replace_custom_values-hides one_secret (codes "my hunter2!") (codes "hunter2") (refl, tt)
      (inl refl) hunter_apart

abbrev variables : Text → Option Text
variables name = some (codes "hunter2")

loaded : from_environment_names variables (codes "TOKEN" ∷ codes "PASS" ∷ []) ≡ ok one_secret
unfolding from_environment_names collect_values sort dedup
loaded = refl

from_environment_names-ok_example :
    AllNonempty (codes "TOKEN" ∷ codes "PASS" ∷ [])
    × (length (filter_map variables (codes "TOKEN" ∷ codes "PASS" ∷ [])) ≡ 2)
    × AllNonempty one_secret.custom_values
    × IsAscending one_secret.custom_values
    × ((w : Text)
        → set_contains w one_secret.custom_values
          ≡ set_contains w (filter_map variables (codes "TOKEN" ∷ codes "PASS" ∷ [])))
from_environment_names-ok_example =
    from_environment_names-ok variables (codes "TOKEN" ∷ codes "PASS" ∷ []) loaded

plain_path : (path_display first_byte one_secret (codes "a/b\\c")).1 ≡ 0
unfolding path_display show_components show_component replace_custom_values replace_values
    sensitive_path_component extension text_eq starts_with contains split to_string_lossy is_utf8
plain_path = refl

abbrev arguments : List Bytes
arguments = codes "--token" ∷ codes "abc" ∷ codes "x" ∷ []

command-IsHonest_example :
    IsHonest first_byte one_secret arguments
      (command first_byte one_secret (codes "ls" ∷ arguments)).argument_displays
      (command first_byte one_secret (codes "ls" ∷ arguments)).argument_sha256
command-IsHonest_example = command-IsHonest first_byte one_secret (codes "ls") arguments

token_flag : IsSecretFlag first_byte one_secret (codes "--token")
unfolding text show_text path_display show_components show_component replace_custom_values
    replace_values sensitive_path_component sensitive_key extension text_eq starts_with strip_prefix
    contains contains_byte split_once split join trim_start to_str is_utf8 to_string_lossy
token_flag = record { no_value = refl; dashed = refl; sensitive = refl }

verbose_first : awaits_secret first_byte one_secret (codes "-v" ∷ []) ≡ false
unfolding awaits_secret arguments_loop argument_step apply_key apply_url text show_text path_display
    show_components show_component replace_custom_values replace_values sensitive_path_component
    sensitive_key redact_url extension text_eq starts_with strip_prefix contains contains_byte
    split_once split join trim_start to_str is_utf8 to_string_lossy
verbose_first = refl
