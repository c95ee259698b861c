-- ===== src/Text/Decimal.antt =====
-- Decimal text of the standard library: `to_string` and `{:04}` of an unsigned number, and
-- `parse::<u64>`.
pub mod RoundTrip
use cmdtrail.Prelude.{
  ℕ, zero, suc, ◌+◌, ◌-◌, ◌*◌, ◌/◌, ◌%◌, Bool, true, false, ◌&&◌, ◌||◌, Option, none, some, List,
  [], ◌∷◌, ◌++◌, ltb, leb, ◌==◌, if◌then◌else◌, length, u64_max,
}

-- The digits of a number, given at least as much fuel as the number and one.
decimal_from : ℕ → ℕ → List ℕ
decimal_from zero n = []
decimal_from (suc fuel) n =
    let front = decimal_from fuel (n / 10) in
    if ltb n 10 then (b'0' + n) ∷ [] else front ++ ((b'0' + n % 10) ∷ [])

-- `n.to_string()`
unfoldable pub to_decimal : ℕ → List ℕ
unfolding decimal_from
to_decimal n = decimal_from (suc n) n

zeros : ℕ → List ℕ
zeros zero = []
zeros (suc n) = b'0' ∷ zeros n

-- `format!("{n:04}")`
unfoldable pub to_decimal4 : ℕ → List ℕ
unfolding zeros
to_decimal4 n = let digits = to_decimal n in zeros (4 - length digits) ++ digits

abbrev pub is_digit : ℕ → Bool
is_digit c = leb b'0' c && leb c b'9'

-- The loop of `u64::from_str`: each digit multiplies and adds with an overflow check.
pub parse_digits : ℕ → List ℕ → Option ℕ
parse_digits n [] = some n
parse_digits n (c ∷ cs) =
    let next = n * 10 + (c - b'0') in
    let rest = parse_digits next cs in
    if is_digit c then (if leb next u64_max then rest else none) else none

-- `text.parse::<u64>()`: one `+` may stand in front of at least one digit.
unfoldable pub parse_u64 : List ℕ → Option ℕ
unfolding parse_digits
parse_u64 [] = none
parse_u64 (c ∷ []) = if c == b'+' then none else parse_digits 0 (c ∷ [])
parse_u64 (c ∷ d ∷ cs) = if c == b'+' then parse_digits 0 (d ∷ cs) else parse_digits 0 (c ∷ d ∷ cs)
