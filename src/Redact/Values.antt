-- ===== src/Redact/Values.antt =====
-- The custom secret values: which are loaded, and that no loaded value is left in a shown text.
use cmdtrail.Prelude.{
  ◌≡◌, refl, Bool, true, false, inl, inr, List, [], ◌∷◌, arith, All, OneOf, if◌then◌else◌,
}
use cmdtrail.Text.{Text, codes, contains, is_empty, replace}
use cmdtrail.Text.Replace.{IsApart, contains-replace_self, contains-replace_other}
use cmdtrail.Redact.{Redactor, redacted, replace_values, replace_custom_values}

-- A value that no piece of `[redacted]` can be part of: it is not empty, holds no bracket and is
-- no part of the word between them.
abbrev pub IsApartFromMark : Text → Type 0
IsApartFromMark = IsApart b'[' (codes "redacted") b']'

abbrev pub AllNonempty : List Text → Type 0
AllNonempty = All (λ v. is_empty v ≡ false)

module _ (w : Text) (ok : IsApartFromMark w) where
  absent-replace_values :
      (values : List Text) (t : Text) (changed : Bool)
      → AllNonempty values
      → contains t w ≡ false
      → contains (replace_values values t changed).0 w ≡ false
  unfolding replace_values
  absent-replace_values [] t changed some_text h = h
  absent-replace_values (v ∷ values) t changed (some_v, some_text) h =
      absent-replace_values values _ _ some_text (step (contains t v))
    where
      step : (hit : Bool) → contains (if hit then replace t v redacted else t) w ≡ false
      step true = contains-replace_other b'[' (codes "redacted") b']' t v w some_v ok h
      step false = h

  absent_after :
      (values : List Text) (t : Text) (changed : Bool)
      → AllNonempty values
      → OneOf w values
      → contains (replace_values values t changed).0 w ≡ false
  unfolding replace_values
  absent_after [] t changed some_text h = absurd h
  absent_after (v ∷ values) t changed (some_v, some_text) (inl e) =
      absent-replace_values values _ _ some_text (step v e (contains t v) refl)
    where
      step :
          (u : Text)
          → w ≡ u
          → (hit : Bool) → contains t u ≡ hit
          → contains (if hit then replace t u redacted else t) w ≡ false
      step u same true h = rw (← same) (contains-replace_self b'[' (codes "redacted") b']' t w ok)
      step u same false h = rw same h
  absent_after (v ∷ values) t changed (some_v, some_text) (inr m) =
      absent_after values _ _ some_text m

-- A custom value that no piece of the mark `[redacted]` can be part of does not occur in the shown
-- text, when none of the custom values is empty.
pub replace_custom_values-hides :
    (r : Redactor) (t w : Text)
    → AllNonempty r.custom_values
    → OneOf w r.custom_values
    → IsApartFromMark w
    → contains (replace_custom_values r t).0 w ≡ false
unfolding replace_custom_values
replace_custom_values-hides r t w some_text m ok =
    absent_after w ok r.custom_values t false some_text m

unchanged_values :
    (values : List Text) (t : Text) (changed : Bool)
    → (replace_values values t changed).1 ≡ false
    → ((replace_values values t changed).0 ≡ t) × (changed ≡ false)
unfolding replace_values
unchanged_values [] t changed h = (refl, h)
unchanged_values (v ∷ values) t changed h = ground (
  arith,
  unchanged_values values t false,
  unchanged_values values t true,
  unchanged_values values (replace t v redacted) true,
)

-- A text that is reported unchanged is the text that was given.
pub replace_custom_values-unchanged :
    (r : Redactor) (t : Text)
    → (replace_custom_values r t).1 ≡ false
    → (replace_custom_values r t).0 ≡ t
unfolding replace_custom_values
replace_custom_values-unchanged r t h = (unchanged_values r.custom_values t false h).0
