-- ===== src/Text/Replace.antt =====
-- What `replace` leaves in a text when the replacement stands in marks that no searched text
-- holds: no match of the pattern is left, and no other searched text appears.
use cmdtrail.Prelude.{
  ℕ, zero, suc, ◌≡◌, refl, ◌∙◌, true, false, ◌||◌, [], ◌∷◌, ◌++◌, arith, Bool-cases, inl, inr,
  append_assoc,
}
use cmdtrail.Text.{Text, starts_with, contains, contains_byte, replace, replace_from, is_empty}

-- A match cannot reach over a byte that the pattern does not hold.
starts_with_cut :
    (c : ℕ) (a b w : Text)
    → contains_byte c w ≡ false
    → starts_with (a ++ (c ∷ b)) w ≡ starts_with a w
unfolding starts_with contains_byte
starts_with_cut c a b [] h = refl
starts_with_cut c [] b (y ∷ w) h = ground arith
starts_with_cut c (x ∷ a) b (y ∷ w) h = ground (arith, starts_with_cut c a b w)

contains_cut :
    (c : ℕ) (a b : Text) (y : ℕ) (w : Text)
    → contains_byte c (y ∷ w) ≡ false
    → contains (a ++ (c ∷ b)) (y ∷ w) ≡ (contains a (y ∷ w) || contains b (y ∷ w))
unfolding contains
contains_cut c [] b y w h = ground (arith, starts_with_cut c [] b (y ∷ w))
contains_cut c (x ∷ a) b y w h =
    ground (arith, starts_with_cut c (x ∷ a) b (y ∷ w), contains_cut c a b y w)

contains_nil : (y : ℕ) (w : Text) → contains [] (y ∷ w) ≡ false
unfolding contains starts_with
contains_nil y w = refl

-- The replacement is `left`, an inner text and `right`.
abbrev pub marker : ℕ → Text → ℕ → Text
marker left inner right = left ∷ (inner ++ (right ∷ []))

-- A searched text that no piece of the replacement can be part of.
pub record IsApart (left : ℕ) (inner : Text) (right : ℕ) (w : Text) : Type 0 where
  pub nonempty : is_empty w ≡ false
  pub no_left : contains_byte left w ≡ false
  pub no_right : contains_byte right w ≡ false
  pub not_inside : contains inner w ≡ false

module _ (left : ℕ) (inner : Text) (right : ℕ) where
  contains-marker :
      (r w : Text)
      → IsApart left inner right w
      → contains (marker left inner right ++ r) w ≡ contains r w
  contains-marker r [] ok = absurd (no_text ok.nonempty)
    where
      no_text : (true ≡ false) → ⊥
      no_text e = cc
  contains-marker r (y ∷ w) ok = rw (append_assoc inner (right ∷ []) r) (
      ground (
        arith,
        contains_cut left [] (inner ++ (right ∷ r)) y w,
        contains_cut right inner r y w,
        contains_nil y w,
      ))

  starts_with-replace_from :
      (t p w : Text)
      → contains_byte left w ≡ false
      → starts_with (replace_from 0 t p (marker left inner right)) w ≡ true
      → starts_with t w ≡ true
  unfolding replace_from starts_with contains_byte
  starts_with-replace_from t p [] free h = ground arith
  starts_with-replace_from [] p (y ∷ w) free h = h
  starts_with-replace_from (x ∷ t) p (y ∷ w) free h = ground (arith, starts_with-replace_from t p w)

  contains-replace_from_other :
      (n : ℕ) (t p w : Text)
      → IsApart left inner right w
      → contains t w ≡ false
      → contains (replace_from n t p (marker left inner right)) w ≡ false
  unfolding replace_from contains
  contains-replace_from_other n [] p w ok h = h
  contains-replace_from_other (suc n) (x ∷ t) p w ok h =
      ground (arith, contains-replace_from_other n t p w ok)
  contains-replace_from_other zero (x ∷ t) p w ok h = elim (Bool-cases (starts_with (x ∷ t) p)) [
    | inl hit ↦
        rw hit (contains-marker _ w ok ∙ contains-replace_from_other _ t p w ok (ground arith))
    | inr miss ↦ rw miss (
        ground
          (arith, starts_with-replace_from (x ∷ t) p w, contains-replace_from_other 0 t p w ok))
  ]

  contains-replace_from_self :
      (n : ℕ) (t w : Text)
      → IsApart left inner right w
      → contains (replace_from n t w (marker left inner right)) w ≡ false
  unfolding replace_from contains
  contains-replace_from_self zero [] (y ∷ w) ok = unfold starts_with in refl
  contains-replace_from_self (suc n) [] (y ∷ w) ok = unfold starts_with in refl
  contains-replace_from_self n [] [] ok = cc (ok.nonempty)
  contains-replace_from_self (suc n) (x ∷ t) w ok = contains-replace_from_self n t w ok
  contains-replace_from_self zero (x ∷ t) w ok = elim (Bool-cases (starts_with (x ∷ t) w)) [
    | inl hit ↦ rw hit (contains-marker _ w ok ∙ contains-replace_from_self _ t w ok)
    | inr miss ↦
        rw miss (
          ground (arith, starts_with-replace_from (x ∷ t) w w, contains-replace_from_self 0 t w ok))
  ]

  -- Every match of the pattern is gone.
  pub contains-replace_self :
      (t w : Text)
      → IsApart left inner right w
      → contains (replace t w (marker left inner right)) w ≡ false
  unfolding replace
  contains-replace_self t [] ok = cc (ok.nonempty)
  contains-replace_self t (y ∷ w) ok = contains-replace_from_self 0 t (y ∷ w) ok

  -- A text that was absent stays absent, whatever is replaced.
  pub contains-replace_other :
      (t : Text) (p w : Text)
      → is_empty p ≡ false
      → IsApart left inner right w
      → contains t w ≡ false
      → contains (replace t p (marker left inner right)) w ≡ false
  unfolding replace
  contains-replace_other t [] w some_pattern ok h = cc
  contains-replace_other t (q ∷ p) w some_pattern ok h =
      contains-replace_from_other 0 t (q ∷ p) w ok h
