-- ===== src/Cli.antt =====
-- main.rs: the durations of the command line. Execute is what the commands do.
pub mod Duration
pub mod Execute
mod Tests
use cmdtrail.Prelude.{
  ℕ, ◌+◌, ◌*◌, Bool, true, false, ◌&&◌, Option, none, some, List, [], ◌∷◌, ◌++◌, ltb, leb,
  if◌then◌else◌, checked_mul, u64_max,
}
use mathlib.Core.Option
use cmdtrail.Text.{Text, codes, text_eq}
use cmdtrail.Text.Decimal.{parse_u64}
use cmdtrail.Result.{Result, ok, err, ◌>>=◌, ok_or}

-- `text.strip_suffix(suffix)`
unfoldable pub strip_suffix : Text → Text → Option Text
strip_suffix [] suffix = if text_eq [] suffix then some [] else none
strip_suffix (c ∷ cs) suffix =
    let rest = strip_suffix cs suffix in
    if text_eq (c ∷ cs) suffix then some [] else Option.map (λ t. c ∷ t) rest

abbrev pub no_unit : Text
no_unit = codes "duration requires one of the units ms, s, m, or h"

abbrev pub no_integer : Text
no_integer = codes "duration must use a positive integer"

abbrev pub out_of_range : Text
out_of_range = codes "duration must be between 1 ms and 24 hours"

-- The `if let` ladder: the number's text and the milliseconds of its unit.
unfoldable pub split_unit : Text → Option (Text × ℕ)
split_unit value = elim (strip_suffix value (codes "ms")) [
  | some number ↦ some (number, 1)
  | none ↦ elim (strip_suffix value (codes "s")) [
    | some number ↦ some (number, 1000)
    | none ↦ elim (strip_suffix value (codes "m")) [
      | some number ↦ some (number, 60000)
      | none ↦ elim (strip_suffix value (codes "h")) [
        | some number ↦ some (number, 3600000)
        | none ↦ none
      ]
    ]
  ]
]

abbrev pub in_range : ℕ → Bool
in_range milliseconds = ltb 0 milliseconds && leb milliseconds 86400000

abbrev pub filter_range : Option ℕ → Option ℕ
filter_range none = none
filter_range (some n) = if in_range n then some n else none

unfoldable pub parse_duration_ms : Text → Result Text ℕ
parse_duration_ms value = do
  (number, multiplier) ← ok_or (split_unit value) no_unit
  amount ← ok_or (parse_u64 number) no_integer
  ok_or (filter_range (checked_mul amount multiplier)) out_of_range
