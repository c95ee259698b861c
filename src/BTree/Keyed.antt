-- ===== src/BTree/Keyed.antt =====
-- Lists that a loop over ascending keys makes, at most one element for each key.
use Prim.Native.Nat.{Ordering}
use Prim.Native.Nat.Ordering.{lt, eq, gt}
use cmdtrail.Prelude.{
  ◌≡◌, refl, Option, none, some, Option-cases, inl, inr, List, [], ◌∷◌, arith, map, filter_map,
  if◌then◌else◌, OneOf, All-OneOf, OneOf-map, sym, ap, ◌∙◌,
}
use cmdtrail.Ord.{Ord, ◌≺◌}
use cmdtrail.BTree.{set_contains, IsAscending, Above}

module _ {K B : Type 0} ⦃o : Ord K⦄ (key_of : B → K) where
  -- The first element with the given key.
  unfoldable pub find_key : K → List B → Option B
  find_key k [] = none
  find_key k (b ∷ bs) = elim (o.cmp k (key_of b)) [ eq ↦ some b | _ ↦ find_key k bs ]

  -- What is found stands in the list and has the key.
  pub find_key-OneOf :
      (k : K) (bs : List B) (b : B) → find_key k bs ≡ some b → OneOf b bs × (key_of b ≡ k)
  unfolding find_key
  find_key-OneOf k [] b h = cc
  find_key-OneOf k (x ∷ bs) b h =
      by_order (o.cmp k (key_of x)) (o.eq_of_cmp k (key_of x)) (find_key-OneOf k bs b) h
    where
      by_order :
          (c : Ordering)
          → (c ≡ eq → k ≡ key_of x)
          → (find_key k bs ≡ some b → OneOf b bs × (key_of b ≡ k))
          → ◌≡◌ {A = Option B} (elim c [ eq ↦ some x | _ ↦ find_key k bs ]) (some b)
          → OneOf b (x ∷ bs) × (key_of b ≡ k)
      by_order lt same rest e = let (one, named) = rest e in (inr one, named)
      by_order gt same rest e = let (one, named) = rest e in (inr one, named)
      by_order eq same rest e =
          let is : x ≡ b = cc (e) in (inl (sym is), ap key_of (sym is) ∙ sym (same refl))

  -- In a list that ascends by its keys, every element is the one that is found under its key.
  pub find_key-own :
      (bs : List B) (b : B)
      → IsAscending (map key_of bs)
      → OneOf b bs
      → find_key (key_of b) bs ≡ some b
  unfolding find_key
  find_key-own [] b h m = absurd m
  find_key-own (x ∷ bs) b h (inl e) = rw (e, find_key, o.cmp_refl (key_of x)) refl
  find_key-own (x ∷ bs) b h (inr m) =
      let above : key_of x ≺ key_of b =
        All-OneOf (λ i. key_of x ≺ i) (key_of b) (map key_of bs) (h.0) (OneOf-map key_of b bs m) in
      rw (find_key, o.gt_of_lt (key_of x) (key_of b) above) (find_key-own bs b h.1 m)

  module _ (f : K → Option B) (keyed : (k : K) (b : B) → f k ≡ some b → key_of b ≡ k) where
    pub find_key-filter_map :
        (k : K) (ks : List K)
        → find_key k (filter_map f ks) ≡ (if set_contains k ks then f k else none)
    unfolding find_key set_contains
    find_key-filter_map k [] = refl
    find_key-filter_map k (i ∷ ks) = elim (Option-cases (f i)) [
      | inl skipped ↦ ground (arith, find_key-filter_map k ks, o.eq_of_cmp k i)
      | inr (b, made) ↦ ground (arith, find_key-filter_map k ks, o.eq_of_cmp k i, keyed i b made)
    ]

    Above-filter_map : (a : K) (ks : List K) → Above a ks → Above a (map key_of (filter_map f ks))
    Above-filter_map a [] h = tt
    Above-filter_map a (i ∷ ks) h = elim (Option-cases (f i)) [
      | inl skipped ↦ ground (arith, Above-filter_map a ks)
      | inr (b, made) ↦ ground (arith, Above-filter_map a ks, keyed i b made)
    ]

    pub filter_map-IsAscending :
        (ks : List K) → IsAscending ks → IsAscending (map key_of (filter_map f ks))
    filter_map-IsAscending [] h = tt
    filter_map-IsAscending (i ∷ ks) h = elim (Option-cases (f i)) [
      | inl skipped ↦ ground (arith, filter_map-IsAscending ks)
      | inr (b, made) ↦
          ground (arith, filter_map-IsAscending ks, Above-filter_map i ks, keyed i b made)
    ]
