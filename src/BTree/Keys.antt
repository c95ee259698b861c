-- ===== src/BTree/Keys.antt =====
-- Sets of keys: membership after an insertion, and the ascending union that the comparisons walk.
use mathlib.Core.List.{foldl}
use mathlib.Core.Path.{ap₂}
use cmdtrail.Prelude.{
  ◌≡◌, refl, sym, ap, ◌∙◌, subst, Bool, true, false, ◌||◌, Option, none, some, List, [], ◌∷◌, ◌++◌,
  arith, ◌⊎◌, inl, inr,
}
use cmdtrail.Ord.{Ord, ◌≺◌}
use cmdtrail.BTree.{
  BTreeMap, get, insert, keys, set_insert, set_contains, key_union, Above, IsAscending,
}
use cmdtrail.BTree.Laws.{same_key, get-insert, Above-trans}
use Prim.Native.Nat.{Ordering}
use Prim.Native.Nat.Ordering.{lt, eq, gt}

module _ {ℓ} {K : Type ℓ} ⦃o : Ord K⦄ where
  set_contains-set_insert :
      (k j : K) (s : List K)
      → set_contains j (set_insert k s) ≡ same_key (o.cmp j k) true (set_contains j s)
  unfolding set_contains set_insert
  set_contains-set_insert k j [] = ground arith
  set_contains-set_insert k j (i ∷ s) = ground (
    arith,
    set_contains-set_insert k j s,
    o.eq_of_cmp k i,
    o.eq_of_cmp j k,
    o.eq_of_cmp j i,
    o.cmp_refl k,
    o.cmp_refl i,
  )

  Above-set_insert : (a k : K) (s : List K) → a ≺ k → Above a s → Above a (set_insert k s)
  unfolding set_insert
  Above-set_insert a k [] h u = (h, tt)
  Above-set_insert a k (i ∷ s) h u = ground (arith, Above-set_insert a k s)

  set_insert-IsAscending : (k : K) (s : List K) → IsAscending s → IsAscending (set_insert k s)
  unfolding set_insert
  set_insert-IsAscending k [] h = (tt, tt)
  set_insert-IsAscending k (i ∷ s) h =
      ground (
        arith,
        set_insert-IsAscending k s,
        Above-set_insert i k s,
        Above-trans k i s,
        o.lt_of_gt k i,
      )

  collecting-IsAscending :
      (ks s : List K) → IsAscending s → IsAscending (foldl (λ t k. set_insert k t) s ks)
  collecting-IsAscending [] s h = h
  collecting-IsAscending (k ∷ ks) s h =
      collecting-IsAscending ks (set_insert k s) (set_insert-IsAscending k s h)

  set_contains-collecting :
      (j : K) (ks s : List K)
      → set_contains j (foldl (λ t k. set_insert k t) s ks)
        ≡ (set_contains j ks || set_contains j s)
  unfolding set_contains
  set_contains-collecting j [] s = refl
  set_contains-collecting j (k ∷ ks) s =
      ground (arith, set_contains-collecting j ks (set_insert k s), set_contains-set_insert k j s)

  set_contains-append :
      (j : K) (ks ls : List K)
      → set_contains j (ks ++ ls) ≡ (set_contains j ks || set_contains j ls)
  unfolding set_contains
  set_contains-append j [] ls = refl
  set_contains-append j (k ∷ ks) ls = ground (arith, set_contains-append j ks ls)

abbrev pub is_some {ℓ} : {A : Type ℓ} → Option A → Bool
is_some none = false
is_some (some a) = true

module _ {ℓ κ} {K : Type ℓ} {V : Type κ} ⦃o : Ord K⦄ where
  pub set_contains-keys : (k : K) (m : BTreeMap K V) → set_contains k (keys m) ≡ is_some (get m k)
  unfolding set_contains get
  set_contains-keys k [] = refl
  set_contains-keys k ((i, w) ∷ m) = ground (arith, set_contains-keys k m)

  pub is_some-insert-here :
      (k : K) (v : V) (m : BTreeMap K V) → is_some (get (insert k v m) k) ≡ true
  is_some-insert-here k v m = rw (get-insert k k v m, o.cmp_refl k) refl

  pub is_some-insert-kept :
      (k j : K) (v : V) (m : BTreeMap K V)
      → is_some (get m j) ≡ true
      → is_some (get (insert k v m) j) ≡ true
  is_some-insert-kept k j v m h = rw (get-insert k j v m) (ground arith)

  pub is_some-insert-new :
      (k j : K) (v : V) (m : BTreeMap K V)
      → is_some (get (insert k v m) j) ≡ true
      → (j ≡ k) ⊎ (is_some (get m j) ≡ true)
  is_some-insert-new k j v m h =
      by_order (o.cmp j k) (o.eq_of_cmp j k) (rw (get-insert k j v m) at h)
    where
      by_order :
          (c : Ordering)
          → (c ≡ eq → j ≡ k)
          → is_some (same_key c (some v) (get m j)) ≡ true
          → (j ≡ k) ⊎ (is_some (get m j) ≡ true)
      by_order eq same u = inl (same refl)
      by_order lt same u = inr u
      by_order gt same u = inr u

  pub key_union-IsAscending : (a b : BTreeMap K V) → IsAscending (key_union a b)
  unfolding key_union
  key_union-IsAscending a b = collecting-IsAscending (keys a ++ keys b) [] tt

  pub set_contains-key_union :
      (k : K) (a b : BTreeMap K V)
      → set_contains k (key_union a b) ≡ (is_some (get a k) || is_some (get b k))
  unfolding key_union set_contains
  set_contains-key_union k a b = ground (
    arith,
    set_contains-collecting k (keys a ++ keys b) [],
    set_contains-append k (keys a) (keys b),
    set_contains-keys k a,
    set_contains-keys k b,
  )

module _ {ℓ} {K : Type ℓ} ⦃o : Ord K⦄ where
  set_contains-Above : (k : K) (s : List K) → Above k s → set_contains k s ≡ false
  unfolding set_contains
  set_contains-Above k [] h = refl
  set_contains-Above k (i ∷ s) h = ground (arith, set_contains-Above k s)

  tail_members :
      (x k : K) (s t : List K)
      → Above x s
      → Above x t
      → set_contains k (x ∷ s) ≡ set_contains k (x ∷ t)
      → set_contains k s ≡ set_contains k t
  unfolding set_contains
  tail_members x k s t hs ht h =
      ground (arith, o.eq_of_cmp k x, set_contains-Above x s hs, set_contains-Above x t ht)

  -- Ascending lists with the same members are equal.
  pub ascending_ext :
      (s t : List K)
      → IsAscending s
      → IsAscending t
      → ((k : K) → set_contains k s ≡ set_contains k t)
      → s ≡ t
  unfolding set_contains
  ascending_ext [] [] hs ht h = refl
  ascending_ext [] (y ∷ t) hs ht h = ground (arith, h y, o.cmp_refl y)
  ascending_ext (x ∷ s) [] hs ht h = ground (arith, h x, o.cmp_refl x)
  ascending_ext (x ∷ s) (y ∷ t) hs ht h =
      let e : x ≡ y = ground (
        arith,
        h x,
        h y,
        o.cmp_refl x,
        o.cmp_refl y,
        o.eq_of_cmp x y,
        o.lt_of_gt x y,
        set_contains-Above x t,
        set_contains-Above y s,
        Above-trans x y t,
        Above-trans y x s,
      ) in
      let above : Above x t = subst (λ z. Above z t) (sym e) ht.0 in
      ap₂ (λ z l. z ∷ l) e
        (ascending_ext s t hs.1 ht.1
          λ k. tail_members x k s t hs.0 above (h k ∙ ap (λ z. set_contains k (z ∷ t)) (sym e)))

  -- The union does not depend on the order of the two maps.
  pub key_union_comm {κ} : {V : Type κ} (a b : BTreeMap K V) → key_union a b ≡ key_union b a
  key_union_comm a b =
      ascending_ext (key_union a b) (key_union b a) (key_union-IsAscending a b)
        (key_union-IsAscending b a)
        λ k.
          rw (set_contains-key_union k a b, set_contains-key_union k b a)
            (either_order (is_some (get a k)) (is_some (get b k)))
    where
      either_order : (x y : Bool) → (x || y) ≡ (y || x)
      either_order true true = refl
      either_order true false = refl
      either_order false true = refl
      either_order false false = refl
