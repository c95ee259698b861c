-- ===== src/Cli/Duration.antt =====
-- What `parse_duration_ms` accepts: digits and a unit, in a range.
use cmdtrail.Prelude.{
  ℕ, ◌*◌, ◌≤◌, ◌<◌, ◌≡◌, ◌≢◌, refl, ap, false, Option, none, some, [], ◌∷◌, ◌++◌, arith, ◌==◌,
  if◌then◌else◌, checked_mul, u64_max, append-nil,
}
use mathlib.Core.Option
use cmdtrail.Text.{Text, codes, text_eq}
use cmdtrail.Text.Decimal.{parse_u64, is_digit}
use cmdtrail.Text.Decimal.RoundTrip.{value, AllDigits, parse_digits_complete}
use cmdtrail.Result.{ok, err, ok_or, >>=-eq-ok}
use cmdtrail.Cli.{
  strip_suffix, split_unit, in_range, filter_range, parse_duration_ms, no_unit, no_integer,
  out_of_range,
}

pub data TimeUnit : Type 0 where
  milliseconds seconds minutes hours : TimeUnit

abbrev pub unit_text : TimeUnit → Text
unit_text milliseconds = codes "ms"
unit_text seconds = codes "s"
unit_text minutes = codes "m"
unit_text hours = codes "h"

abbrev pub unit_ms : TimeUnit → ℕ
unit_ms milliseconds = 1
unit_ms seconds = 1000
unit_ms minutes = 60000
unit_ms hours = 3600000

map_prefix :
    (x : ℕ) (cs : Text) (o : Option Text)
    → Option.map (λ t. x ∷ t) (Option.map (λ u. cs ++ u) o) ≡ Option.map (λ u. (x ∷ cs) ++ u) o
map_prefix x cs none = refl
map_prefix x cs (some t) = refl

map_none : (o : Option Text) → o ≡ Option.map (λ u. [] ++ u) o
map_none none = refl
map_none (some t) = refl

-- Digits in front of a text do not matter to a suffix that begins with no digit.
strip_suffix-digits :
    (cs t : Text) (c : ℕ) (s : Text)
    → AllDigits cs
    → is_digit c ≡ false
    → strip_suffix (cs ++ t) (c ∷ s) ≡ Option.map (λ u. cs ++ u) (strip_suffix t (c ∷ s))
unfolding strip_suffix text_eq
strip_suffix-digits [] t c s h d = map_none (strip_suffix t (c ∷ s))
strip_suffix-digits (x ∷ cs) t c s h d =
    let differ : (x == c) ≡ false = ground arith in
    rw (differ, strip_suffix-digits cs t c s h.1 d) (map_prefix x cs (strip_suffix t (c ∷ s)))

-- The number and the unit of digits with a unit.
split_unit-digits :
    (cs : Text) (u : TimeUnit)
    → AllDigits cs
    → split_unit (cs ++ unit_text u) ≡ some (cs, unit_ms u)
unfolding split_unit strip_suffix text_eq
split_unit-digits cs milliseconds h =
    rw (split_unit, strip_suffix-digits cs (codes "ms") b'm' (codes "s") h refl)
      (ap (λ t. some (t, 1)) (append-nil cs))
split_unit-digits cs seconds h =
    rw
      (
        split_unit,
        strip_suffix-digits cs (codes "s") b'm' (codes "s") h refl,
        strip_suffix-digits cs (codes "s") b's' [] h refl,
      )
      (ap (λ t. some (t, 1000)) (append-nil cs))
split_unit-digits cs minutes h =
    rw
      (
        split_unit,
        strip_suffix-digits cs (codes "m") b'm' (codes "s") h refl,
        strip_suffix-digits cs (codes "m") b's' [] h refl,
        strip_suffix-digits cs (codes "m") b'm' [] h refl,
      )
      (ap (λ t. some (t, 60000)) (append-nil cs))
split_unit-digits cs hours h =
    rw
      (
        split_unit,
        strip_suffix-digits cs (codes "h") b'm' (codes "s") h refl,
        strip_suffix-digits cs (codes "h") b's' [] h refl,
        strip_suffix-digits cs (codes "h") b'm' [] h refl,
        strip_suffix-digits cs (codes "h") b'h' [] h refl,
      )
      (ap (λ t. some (t, 3600000)) (append-nil cs))

parse_u64-digits :
    (cs : Text) → cs ≢ [] → AllDigits cs → value 0 cs ≤ u64_max → parse_u64 cs ≡ some (value 0 cs)
unfolding parse_u64
parse_u64-digits [] some_text h fits = absurd (some_text refl)
parse_u64-digits (c ∷ []) some_text h fits = ground (arith, parse_digits_complete 0 (c ∷ []) h fits)
parse_u64-digits (c ∷ d ∷ cs) some_text h fits =
    ground (arith, parse_digits_complete 0 (c ∷ d ∷ cs) h fits)

-- Digits and a unit are read as their number of milliseconds, if that is between 1 and 86400000,
-- and are otherwise out of range; the number without its unit fits a `u64`.
pub parse_duration_ms-digits :
    (cs : Text) (u : TimeUnit)
    → cs ≢ []
    → AllDigits cs
    → value 0 cs ≤ u64_max
    → parse_duration_ms (cs ++ unit_text u) ≡ (
        if in_range (value 0 cs * unit_ms u) then ok (value 0 cs * unit_ms u) else err out_of_range)
unfolding parse_duration_ms
parse_duration_ms-digits cs u some_text h fits =
    rw (split_unit-digits cs u h) (rw (parse_u64-digits cs some_text h fits) (ground arith))

-- Whatever text is accepted, the duration is between 1 ms and 24 hours.
pub parse_duration_ms-in_range :
    (t : Text) {ms : ℕ} → parse_duration_ms t ≡ ok ms → (0 < ms) × (ms ≤ 86400000)
unfolding parse_duration_ms
parse_duration_ms-in_range t {ms} h =
    let ((number, multiplier), split, more) = >>=-eq-ok (ok_or (split_unit t) no_unit) _ h in
    let (amount, parsed, done) = >>=-eq-ok (ok_or (parse_u64 number) no_integer) _ more in
    filtered (checked_mul amount multiplier) done
  where
    filtered :
        (o : Option ℕ) → ok_or (filter_range o) out_of_range ≡ ok ms → (0 < ms) × (ms ≤ 86400000)
    filtered none e = cc
    filtered (some n) e = ground arith
