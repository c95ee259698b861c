-- ===== src/Record/Events/Counts.antt =====
-- The counts of effects by name add up to the number of effects.
use mathlib.Core.List.{foldl}
use cmdtrail.Prelude.{
  ℕ, suc, ◌+◌, ◌≤◌, ◌<◌, ◌≡◌, ap, Option, none, some, Option-cases, inl, inr, List, [], ◌∷◌, arith,
  length, u64_max, wrapping_succ,
}
use cmdtrail.Ord.{Ord, list_ord, nat_ord}
use cmdtrail.BTree.{BTreeMap, get, insert, entry_or, keys, IsAscending}
use cmdtrail.BTree.Laws.{Above-trans, get-Above, insert-IsAscending}
use cmdtrail.Text.{Text}
use cmdtrail.Model.{FileEffect}
use cmdtrail.Record.Events.{effect_name, file_effect_counts}

abbrev pub total {ℓ} : {K : Type ℓ} → BTreeMap K ℕ → ℕ
total [] = 0
total ((k, n) ∷ m) = n + total m

abbrev or_zero : Option ℕ → ℕ
or_zero none = 0
or_zero (some n) = n

module _ {ℓ} {K : Type ℓ} ⦃o : Ord K⦄ where
  total-insert :
      (k : K) (v : ℕ) (m : BTreeMap K ℕ)
      → IsAscending (keys m)
      → total (insert k v m) + or_zero (get m k) ≡ total m + v
  unfolding insert get
  total-insert k v [] h = omega arith
  total-insert k v ((i, w) ∷ m) h =
      ground (arith, total-insert k v m (h.1), get-Above k m, Above-trans k i (keys m))

  total-get : (k : K) (m : BTreeMap K ℕ) → or_zero (get m k) ≤ total m
  unfolding get
  total-get k [] = omega arith
  total-get k ((i, w) ∷ m) = ground (arith, total-get k m)

  total-entry_or :
      (k : K) (m : BTreeMap K ℕ)
      → IsAscending (keys m)
      → total m < u64_max
      → (total (entry_or k 0 wrapping_succ m) ≡ suc (total m))
        × IsAscending (keys (entry_or k 0 wrapping_succ m))
  unfolding entry_or
  total-entry_or k m h room = elim (Option-cases (get m k)) [
    | inl missing ↦
        rw (missing, entry_or)
          ((
            omega (arith, total-insert k (wrapping_succ 0) m h, ap or_zero missing),
            insert-IsAscending k (wrapping_succ 0) m h,
          ))
    | inr (n, present) ↦
        rw (present, entry_or)
          ((
            omega (
              arith,
              total-insert k (wrapping_succ n) m h,
              ap or_zero present,
              total-get k m,
              room,
            ),
            insert-IsAscending k (wrapping_succ n) m h,
          ))
  ]

total-counts :
    (effects : List FileEffect) (m : BTreeMap Text ℕ)
    → IsAscending (keys m)
    → total m + length effects ≤ u64_max
    → total (
        foldl {A = FileEffect}
          (λ counts effect. entry_or (effect_name effect.effect) 0 wrapping_succ counts)
          m
          effects)
      ≡ total m + length effects
total-counts [] m h fits = omega arith
total-counts (effect ∷ effects) m h fits =
    let (one, ascending) = total-entry_or (effect_name effect.effect) m h (omega arith) in
    omega (
      arith,
      total-counts effects (entry_or (effect_name effect.effect) 0 wrapping_succ m) ascending
          (omega arith),
      one,
    )

-- The counts of the effects by their names add up to the number of all effects, the dropped ones
-- included, if that number fits a u64.
pub total-file_effect_counts :
    (effects : List FileEffect)
    → length effects ≤ u64_max
    → total (file_effect_counts effects) ≡ length effects
unfolding file_effect_counts
total-file_effect_counts effects fits = omega (arith, total-counts effects [] tt (omega arith))
