-- ===== src/BTree.antt =====
-- `BTreeMap` and `BTreeSet` of the standard library, as lists in strictly ascending key order. The
-- laws are in the modules below.
pub mod Laws
pub mod Keys
pub mod Keyed
pub mod Entries
use Prim.Native.Nat.Ordering.{lt, eq, gt}
use mathlib.Core.List.{foldl}
use cmdtrail.Prelude.{Bool, true, false, Option, none, some, List, [], ◌∷◌, ◌++◌, map, All}
use cmdtrail.Ord.{Ord, ◌≺◌}

abbrev pub BTreeMap {ℓ κ} : Type ℓ → Type κ → Type (ℓ ⊔ κ)
BTreeMap K V = List (K × V)

abbrev pub BTreeSet {ℓ} : Type ℓ → Type ℓ
BTreeSet K = List K

module _ {ℓ κ} {K : Type ℓ} {V : Type κ} ⦃o : Ord K⦄ where
  -- `map.get(&key)`
  unfoldable pub get : BTreeMap K V → K → Option V
  get [] k = none
  get ((i, w) ∷ m) k = elim (o.cmp k i) [ eq ↦ some w | _ ↦ get m k ]

  -- `map.insert(key, value)`: a present key gets the new value.
  unfoldable pub insert : K → V → BTreeMap K V → BTreeMap K V
  insert k v [] = (k, v) ∷ []
  insert k v ((i, w) ∷ m) = elim (o.cmp k i) [
    | lt ↦ (k, v) ∷ (i, w) ∷ m
    | eq ↦ (k, v) ∷ m
    | gt ↦ (i, w) ∷ insert k v m
  ]

  -- `if let Some(value) = map.get_mut(&key) { *value = f(*value) }`
  unfoldable pub modify : K → (V → V) → BTreeMap K V → BTreeMap K V
  modify k f [] = []
  modify k f ((i, w) ∷ m) = elim (o.cmp k i) [ eq ↦ (i, f w) ∷ m | _ ↦ (i, w) ∷ modify k f m ]

  -- `*map.entry(key).or_insert(default)` given anew by `f`.
  unfoldable pub entry_or : K → V → (V → V) → BTreeMap K V → BTreeMap K V
  entry_or k d f m = elim (get m k) [ none ↦ insert k (f d) m | some w ↦ insert k (f w) m ]

  -- `iter.collect::<BTreeMap<_, _>>()`: the last of two equal keys wins.
  unfoldable pub collect : List (K × V) → BTreeMap K V
  collect = foldl (λ m e. insert e.0 e.1 m) []

  -- `map.keys()`
  abbrev pub keys : BTreeMap K V → List K
  keys = map (λ e. e.0)

module _ {ℓ} {K : Type ℓ} ⦃o : Ord K⦄ where
  -- `set.insert(key)`
  unfoldable pub set_insert : K → BTreeSet K → BTreeSet K
  set_insert k [] = k ∷ []
  set_insert k (i ∷ s) = elim (o.cmp k i) [ lt ↦ k ∷ i ∷ s | eq ↦ i ∷ s | gt ↦ i ∷ set_insert k s ]

  -- `iter.collect::<BTreeSet<_>>()`
  unfoldable pub set_collect : List K → BTreeSet K
  set_collect = foldl (λ s k. set_insert k s) []

  unfoldable pub set_contains : K → List K → Bool
  set_contains k [] = false
  set_contains k (i ∷ s) = elim (o.cmp k i) [ eq ↦ true | _ ↦ set_contains k s ]

  abbrev pub Above : K → List K → Type 0
  Above k = All (λ i. k ≺ i)

  -- Strictly ascending, so without repetition.
  abbrev pub IsAscending : List K → Type 0
  IsAscending [] = Unit
  IsAscending (k ∷ s) = Above k s × IsAscending s

-- `a.keys().chain(b.keys()).cloned().collect::<BTreeSet<_>>()`
unfoldable pub key_union {ℓ κ} :
    {K : Type ℓ} {V : Type κ} ⦃o : Ord K⦄ → BTreeMap K V → BTreeMap K V → BTreeSet K
unfolding set_collect set_insert
key_union a b = set_collect (keys a ++ keys b)
