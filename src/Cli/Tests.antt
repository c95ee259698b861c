-- ===== src/Cli/Tests.antt =====
-- Durations that are accepted and refused.
use cmdtrail.Prelude.{◌≡◌, ◌*◌, refl, ◌++◌, arith, if◌then◌else◌}
use cmdtrail.Text.{codes, text_eq}
use cmdtrail.Text.Decimal.{parse_u64}
use cmdtrail.Text.Decimal.RoundTrip.{value}
use cmdtrail.Result.{ok, err}
use cmdtrail.Cli.{strip_suffix, split_unit, parse_duration_ms, in_range, no_unit, out_of_range}
use cmdtrail.Cli.Duration.{seconds, unit_text, unit_ms, parse_duration_ms-digits}

thirty_seconds : parse_duration_ms (codes "30s") ≡ ok 30000
unfolding parse_duration_ms split_unit strip_suffix text_eq parse_u64
thirty_seconds = refl

without_a_unit : parse_duration_ms (codes "30") ≡ err no_unit
unfolding parse_duration_ms split_unit strip_suffix text_eq
without_a_unit = refl

parse_duration_ms-digits_example : parse_duration_ms (codes "30" ++ unit_text seconds) ≡ (
    if in_range (value 0 (codes "30") * unit_ms seconds)
    then ok (value 0 (codes "30") * unit_ms seconds)
    else err out_of_range)
parse_duration_ms-digits_example =
    parse_duration_ms-digits (codes "30") seconds (λ e. cc (e))
      ((omega arith, omega arith), ((omega arith, omega arith), tt)) (omega arith)
