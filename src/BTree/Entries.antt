-- ===== src/BTree/Entries.antt =====
-- What holds of every value of a map, and how many entries a map has, when a key is written.
use Prim.Native.Nat.{Ordering}
use Prim.Native.Nat.Ordering.{lt, eq, gt}
use cmdtrail.Prelude.{suc, ◌≤◌, ◌≡◌, some, [], ◌∷◌, arith, All, subst, length}
use cmdtrail.Ord.{Ord}
use cmdtrail.BTree.{BTreeMap, get, insert}

module _ {ℓ κ} {K : Type ℓ} {V : Type κ} ⦃o : Ord K⦄ where
  pub length-insert : (k : K) (v : V) (m : BTreeMap K V) → length (insert k v m) ≤ suc (length m)
  unfolding insert
  length-insert k v [] = omega arith
  length-insert k v ((i, w) ∷ m) = ground (arith, length-insert k v m)

  module _ {μ} (P : K × V → Type μ) where
    pub All-insert : (k : K) (v : V) (m : BTreeMap K V) → P (k, v) → All P m → All P (insert k v m)
    unfolding insert
    All-insert k v [] h u = (h, tt)
    All-insert k v ((i, w) ∷ m) h u = by_order (o.cmp k i) (All-insert k v m h (u.1))
      where
        by_order :
            (c : Ordering)
            → All P (insert k v m)
            → All P
                (elim c [ lt ↦ (k, v) ∷ (i, w) ∷ m | eq ↦ (k, v) ∷ m | gt ↦ (i, w) ∷ insert k v m ])
        by_order lt rest = (h, u)
        by_order eq rest = (h, u.1)
        by_order gt rest = (u.0, rest)

  pub All-get {μ} :
      (Q : V → Type μ) (k : K) (v : V) (m : BTreeMap K V)
      → All (λ e. Q e.1) m
      → get m k ≡ some v
      → Q v
  unfolding get
  All-get Q k v [] u h = cc
  All-get Q k v ((i, w) ∷ m) u h = by_order (o.cmp k i) (All-get Q k v m (u.1)) h
    where
      by_order :
          (c : Ordering)
          → (get m k ≡ some v → Q v)
          → (elim c [ eq ↦ some w | _ ↦ get m k ]) ≡ some v
          → Q v
      by_order lt rest e = rest e
      by_order gt rest e = rest e
      by_order eq rest e = subst Q (some_eq e) (u.0)
        where
          some_eq : {a b : V} → some a ≡ some b → a ≡ b
          some_eq e = cc
