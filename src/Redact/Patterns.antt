-- ===== src/Redact/Patterns.antt =====
-- redact.rs: the words and endings of sensitive names, and the parts of a URL that are not shown.
use cmdtrail.Prelude.{
  ℕ, Bool, false, ◌||◌, Option, none, some, List, [], ◌∷◌, ◌++◌, map, ◌==◌, if◌then◌else◌, length,
  take, drop,
}
use cmdtrail.Ord.{list_ord, nat_ord}
use cmdtrail.Text.{
  Text, Bytes, codes, text_eq, starts_with, contains, split_once, rsplit_once, find, unwrap_or,
  trim_start, to_ascii_lowercase,
}
use cmdtrail.FilePath.{extension}

abbrev pub redacted : Text
redacted = codes "[redacted]"

-- `extension.eq_ignore_ascii_case(name)`, for a name in lower case.
abbrev same_extension : Text → Text → Bool
same_extension ext name = text_eq (to_ascii_lowercase ext) name

sensitive_extension : Option Bytes → Bool
sensitive_extension none = false
sensitive_extension (some ext) =
    same_extension ext (codes "pem")
    || (same_extension ext (codes "p12") || same_extension ext (codes "pfx"))

abbrev contains_any : Text → List Text → Bool
contains_any text [] = false
contains_any text (word ∷ words) = contains text word || contains_any text words

abbrev pub component_words : List Text
component_words =
    codes "password"
    ∷ codes "passwd"
    ∷ codes "credential"
    ∷ codes "private_key"
    ∷ codes "private-key"
    ∷ codes "api_key"
    ∷ codes "api-key"
    ∷ codes "secret"
    ∷ []

unfoldable pub sensitive_path_component : Text → Bool
unfolding sensitive_extension
sensitive_path_component component =
    let lower = to_ascii_lowercase component in
    text_eq lower (codes ".env")
    || (starts_with lower (codes ".env.")
        || (contains_any lower component_words || sensitive_extension (extension lower)))

abbrev pub key_words : List Text
key_words =
    codes "password"
    ∷ codes "passwd"
    ∷ codes "token"
    ∷ codes "secret"
    ∷ codes "credential"
    ∷ codes "api-key"
    ∷ codes "private-key"
    ∷ codes "authorization"
    ∷ codes "cookie"
    ∷ []

-- `replace(['_', '.'], "-")`, one byte for one.
abbrev dashed : ℕ → ℕ
dashed c = if c == b'_' || c == b'.' then b'-' else c

unfoldable pub sensitive_key : Text → Bool
sensitive_key key = contains_any (to_ascii_lowercase (map dashed (trim_start b'-' key))) key_words

abbrev pub ends_authority : ℕ → Bool
ends_authority c = c == b'/' || (c == b'?' || c == b'#')

abbrev pub url_mark : Text
url_mark = codes "://"

unfoldable pub mask_authority : Text → Text
mask_authority authority = elim (rsplit_once b'@' authority) [
  | none ↦ authority
  | some (user, host) ↦ redacted ++ (b'@' ∷ host)
]

-- `if let Some(i) = s.find(mark) { s.truncate(i); s.push_str(note) }`
unfoldable pub cut_at : ℕ → Text → Text → Text
cut_at mark note s = elim (find (λ c. c == mark) s) [ none ↦ s | some i ↦ take i s ++ note ]

unfoldable pub redact_url : Text → Text
redact_url value = elim (split_once value url_mark) [
  | none ↦ value
  | some (scheme, rest) ↦
      let boundary = unwrap_or (find ends_authority rest) (length rest) in
      let authority = take boundary rest in
      let suffix = drop boundary rest in
      let without_query = cut_at b'?' (codes "?[redacted-query]") suffix in
      let rendered = cut_at b'#' (codes "#[redacted-fragment]") without_query in
      scheme ++ (url_mark ++ (mask_authority authority ++ rendered))
]
