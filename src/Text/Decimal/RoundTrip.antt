-- ===== src/Text/Decimal/RoundTrip.antt =====
-- A printed number is read back, with leading zeros too; so printing is injective.
use cmdtrail.Prelude.{
  ℕ, zero, suc, ◌+◌, ◌-◌, ◌*◌, ◌/◌, ◌%◌, ◌≤◌, ◌<◌, ◌≡◌, refl, sym, ap, ◌∙◌, some, List, [], ◌∷◌,
  ◌++◌, arith, length, u64_max, All,
}
use cmdtrail.Text.Decimal.{to_decimal, to_decimal4, decimal_from, zeros, parse_digits}

-- The number that digits spell behind `n`, with no bound.
abbrev pub value : ℕ → List ℕ → ℕ
value n [] = n
value n (c ∷ cs) = value (n * 10 + (c - b'0')) cs

value-append : (n : ℕ) (cs ds : List ℕ) → value n (cs ++ ds) ≡ value (value n cs) ds
value-append n [] ds = refl
value-append n (c ∷ cs) ds = value-append (n * 10 + (c - b'0')) cs ds

value-decimal_from : (fuel n : ℕ) → n < fuel → value 0 (decimal_from fuel n) ≡ n
unfolding decimal_from
value-decimal_from zero n h = absurd (omega arith)
value-decimal_from (suc fuel) n h = ground (
  arith,
  value-decimal_from fuel (n / 10),
  value-append 0 (decimal_from fuel (n / 10)) ((b'0' + n % 10) ∷ []),
)

-- A printed number spells itself.
pub value-to_decimal : (n : ℕ) → value 0 (to_decimal n) ≡ n
unfolding to_decimal
value-to_decimal n = value-decimal_from (suc n) n (omega arith)

value-zeros : (k : ℕ) (cs : List ℕ) → value 0 (zeros k ++ cs) ≡ value 0 cs
unfolding zeros
value-zeros zero cs = refl
value-zeros (suc k) cs = value-zeros k cs

pub to_decimal4-injective : (n m : ℕ) → to_decimal4 n ≡ to_decimal4 m → n ≡ m
unfolding to_decimal4
to_decimal4-injective n m e = sym (spelled n) ∙ (ap (value 0) e ∙ spelled m)
  where
    spelled : (k : ℕ) → value 0 (zeros (4 - length (to_decimal k)) ++ to_decimal k) ≡ k
    spelled k = value-zeros (4 - length (to_decimal k)) (to_decimal k) ∙ value-to_decimal k

abbrev pub AllDigits : List ℕ → Type 0
AllDigits = All (λ c. (b'0' ≤ c) × (c ≤ b'9'))

value_mono : (n : ℕ) (cs : List ℕ) → n ≤ value n cs
value_mono n [] = omega arith
value_mono n (c ∷ cs) = omega (arith, value_mono (n * 10 + (c - b'0')) cs)

pub parse_digits_sound :
    (n : ℕ) (cs : List ℕ) (r : ℕ)
    → n ≤ u64_max
    → parse_digits n cs ≡ some r
    → AllDigits cs × (r ≡ value n cs) × (r ≤ u64_max)
unfolding parse_digits
parse_digits_sound n [] r fits h = ground arith
parse_digits_sound n (c ∷ cs) r fits h =
    ground (arith, parse_digits_sound (n * 10 + (c - b'0')) cs r)

pub parse_digits_complete :
    (n : ℕ) (cs : List ℕ)
    → AllDigits cs
    → value n cs ≤ u64_max
    → parse_digits n cs ≡ some (value n cs)
unfolding parse_digits
parse_digits_complete n [] h fits = refl
parse_digits_complete n (c ∷ cs) h fits = ground (
  arith,
  parse_digits_complete (n * 10 + (c - b'0')) cs h.1 fits,
  value_mono (n * 10 + (c - b'0')) cs,
)
