-- ===== src/Result.antt =====
-- Rust's `Result`, with `?` as the bind of a `do` block.
use cmdtrail.Prelude.{◌≡◌, refl, Option, none, some, Bool, true, false}

pub data Result {ε ℓ} (Error : Type ε) (Value : Type ℓ) : Type (ε ⊔ ℓ) where
  ok : Value → Result Error Value
  err : Error → Result Error Value

module _ {ε ℓ κ} {Error : Type ε} {Value : Type ℓ} {Next : Type κ} where
  infixl 5 ◌>>=◌ ◌>>◌
  -- `let value = result?; next(value)`
  abbrev pub ◌>>=◌ : Result Error Value → (Value → Result Error Next) → Result Error Next
  err problem >>= next = err problem
  ok value >>= next = next value

  -- `result?; next`
  abbrev pub ◌>>◌ : Result Error Value → Result Error Next → Result Error Next
  err problem >> next = err problem
  ok value >> next = next

  pub >>=-eq-ok :
      (result : Result Error Value) (next : Value → Result Error Next) {done : Next}
      → (result >>= next) ≡ ok done
      → (value : Value) × (result ≡ ok value) × (next value ≡ ok done)
  >>=-eq-ok (err problem) next h = cc
  >>=-eq-ok (ok value) next h = (value, refl, h)

module _ {ε ℓ} {Error : Type ε} {Value : Type ℓ} where
  -- `option.ok_or(error)`, and `map_err` of a call whose own error is dropped.
  abbrev pub ok_or : Option Value → Error → Result Error Value
  ok_or none problem = err problem
  ok_or (some value) problem = ok value

  abbrev pub is_ok : Result Error Value → Bool
  is_ok (ok value) = true
  is_ok (err problem) = false

-- `result.map_err(|_| error)`
abbrev pub or_error {ε ℓ κ} :
    {Error : Type ε} {Value : Type ℓ} {Problem : Type κ}
    → Result Error Value
    → Problem
    → Result Problem Value
or_error (ok value) problem = ok value
or_error (err error) problem = err problem

pub or_error-ok {ε ℓ κ} :
    {Error : Type ε} {Value : Type ℓ} {Problem : Type κ} (result : Result Error Value)
    (problem : Problem) {value : Value}
    → or_error result problem ≡ ok value
    → result ≡ ok value
or_error-ok (ok value) problem h = cc
or_error-ok (err error) problem h = cc

-- `if test { return Err(error) }`
abbrev pub reject_if {ε} : {Error : Type ε} → Bool → Error → Result Error (Unit {0})
reject_if true problem = err problem
reject_if false problem = ok tt
