-- ===== src/Prelude/Words.antt =====
-- The unsigned 64-bit arithmetic that the program uses: saturating sums and differences,
-- wrapping counters (a release build), checked products and lengths narrowed to `u64`.
use Prim.Native.Nat.{ℕ, ◌+◌, ◌-◌, ◌*◌, ◌%◌, ◌^◌, min}
use mathlib.Core.List.{List}
use mathlib.Core.Option.{Option, none, some}
use cmdtrail.Prelude.Tests.{leb, if◌then◌else◌}
use cmdtrail.Prelude.Lists.{length}

abbrev pub u64_max : ℕ
u64_max = 2 ^ 64 - 1

-- `a.saturating_add(b)`
abbrev pub saturating_add : ℕ → ℕ → ℕ
saturating_add a b = min (a + b) u64_max

-- `a.saturating_sub(b)`
abbrev pub saturating_sub : ℕ → ℕ → ℕ
saturating_sub a b = a - b

-- `a.checked_mul(b)`
abbrev pub checked_mul : ℕ → ℕ → Option ℕ
checked_mul a b = if leb (a * b) u64_max then some (a * b) else none

-- `n += 1` on a `u64`.
abbrev pub wrapping_succ : ℕ → ℕ
wrapping_succ n = (n + 1) % 2 ^ 64

-- `u64::try_from(xs.len()).unwrap_or(u64::MAX)`
abbrev pub len_u64 {ℓ} : {A : Type ℓ} → List A → ℕ
len_u64 xs = min (length xs) u64_max
