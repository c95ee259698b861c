-- ===== src/BTree/Laws.antt =====
-- What `insert`, `modify` and `entry_or` do to every key, and that maps stay ascending.
use Prim.Native.Nat.{Ordering}
use Prim.Native.Nat.Ordering.{lt, eq, gt}
use cmdtrail.Prelude.{◌≡◌, refl, none, some, List, [], ◌∷◌, arith, All-imp}
use cmdtrail.Ord.{Ord, ◌≺◌}
use cmdtrail.BTree.{BTreeMap, get, insert, keys, Above, IsAscending}

-- A choice on whether two keys compare equal.
abbrev pub same_key {ℓ} : {A : Type ℓ} → Ordering → A → A → A
same_key eq x y = x
same_key lt x y = y
same_key gt x y = y

module _ {ℓ} {K : Type ℓ} ⦃o : Ord K⦄ where
  pub Above-trans : (a b : K) (s : List K) → a ≺ b → Above b s → Above a s
  Above-trans a b s h = All-imp (λ i p. o.lt_trans a b i h p) s

module _ {ℓ κ} {K : Type ℓ} {V : Type κ} ⦃o : Ord K⦄ where
  pub get-insert :
      (k j : K) (v : V) (m : BTreeMap K V)
      → get (insert k v m) j ≡ same_key (o.cmp j k) (some v) (get m j)
  unfolding get insert
  get-insert k j v [] = ground arith
  get-insert k j v ((i, w) ∷ m) = ground (
    arith,
    get-insert k j v m,
    o.eq_of_cmp k i,
    o.eq_of_cmp j k,
    o.eq_of_cmp j i,
    o.cmp_refl k,
    o.cmp_refl i,
  )

  pub Above-insert :
      (a k : K) (v : V) (m : BTreeMap K V)
      → a ≺ k
      → Above a (keys m)
      → Above a (keys (insert k v m))
  unfolding insert
  Above-insert a k v [] h u = (h, tt)
  Above-insert a k v ((i, w) ∷ m) h u = ground (arith, Above-insert a k v m)

  -- A map stays in strictly ascending order when a key is written.
  pub insert-IsAscending :
      (k : K) (v : V) (m : BTreeMap K V) → IsAscending (keys m) → IsAscending (keys (insert k v m))
  unfolding insert
  insert-IsAscending k v [] h = (tt, tt)
  insert-IsAscending k v ((i, w) ∷ m) h = ground (
    arith,
    insert-IsAscending k v m,
    Above-insert i k v m,
    Above-trans k i (keys m),
    o.lt_of_gt k i,
    o.eq_of_cmp k i,
  )

  pub get-Above : (k : K) (m : BTreeMap K V) → Above k (keys m) → get m k ≡ none
  unfolding get
  get-Above k [] h = refl
  get-Above k ((i, w) ∷ m) h = ground (arith, get-Above k m)
