-- ===== src/Sort.antt =====
-- `Vec::sort` and `Vec::dedup` of the standard library, and that together they give the ascending
-- list of the elements.
use Prim.Native.Nat.Ordering.{lt, eq, gt}
use cmdtrail.Prelude.{◌≡◌, refl, ◌∙◌, ◌⊎◌, List, [], ◌∷◌, arith, All, All-imp}
use cmdtrail.Ord.{Ord, ◌≺◌}
use cmdtrail.BTree.{IsAscending, Above, set_contains}

module _ {ℓ} {K : Type ℓ} ⦃o : Ord K⦄ where
  sorted_insert : K → List K → List K
  sorted_insert v [] = v ∷ []
  sorted_insert v (w ∷ ws) = elim (o.cmp v w) [ gt ↦ w ∷ sorted_insert v ws | _ ↦ v ∷ w ∷ ws ]

  -- `values.sort()`
  unfoldable pub sort : List K → List K
  unfolding sorted_insert
  sort [] = []
  sort (v ∷ vs) = sorted_insert v (sort vs)

  dedup_behind : K → List K → List K
  dedup_behind v [] = []
  dedup_behind v (w ∷ ws) = elim (o.cmp v w) [ eq ↦ dedup_behind w ws | _ ↦ w ∷ dedup_behind w ws ]

  -- `values.dedup()`: an element that equals the one before it goes.
  unfoldable pub dedup : List K → List K
  unfolding dedup_behind
  dedup [] = []
  dedup (v ∷ vs) = v ∷ dedup_behind v vs

  abbrev AtMost : K → K → Type 0
  AtMost v w = (o.cmp v w ≡ lt) ⊎ (o.cmp v w ≡ eq)

  abbrev IsSorted : List K → Type 0
  IsSorted [] = Unit
  IsSorted (v ∷ vs) = All (AtMost v) vs × IsSorted vs

  AtMost-trans : (a b c : K) → AtMost a b → AtMost b c → AtMost a c
  AtMost-trans a b c h k =
      ground (arith, o.lt_trans a b c, o.eq_of_cmp a b, o.eq_of_cmp b c, o.cmp_refl a)

  All-sorted_insert :
      (a v : K) (vs : List K) → AtMost a v → All (AtMost a) vs → All (AtMost a) (sorted_insert v vs)
  unfolding sorted_insert
  All-sorted_insert a v [] h u = (h, tt)
  All-sorted_insert a v (w ∷ ws) h u = ground (arith, All-sorted_insert a v ws)

  sorted_insert-IsSorted : (v : K) (vs : List K) → IsSorted vs → IsSorted (sorted_insert v vs)
  unfolding sorted_insert
  sorted_insert-IsSorted v [] h = (tt, tt)
  sorted_insert-IsSorted v (w ∷ ws) h = ground (
    arith,
    sorted_insert-IsSorted v ws,
    All-sorted_insert w v ws,
    o.lt_of_gt v w,
    λ (p : AtMost v w). All-imp {P = AtMost w} {Q = AtMost v} (λ c q. AtMost-trans v w c p q) ws,
  )

  sort-IsSorted : (vs : List K) → IsSorted (sort vs)
  unfolding sort
  sort-IsSorted [] = tt
  sort-IsSorted (v ∷ vs) = sorted_insert-IsSorted v (sort vs) (sort-IsSorted vs)

  Above-lt : (v w : K) (ws : List K) → v ≺ w → Above w ws → Above v ws
  Above-lt v w ws h = All-imp (λ c q. o.lt_trans v w c h q) ws

  dedup_behind-IsAscending :
      (v : K) (vs : List K)
      → IsSorted (v ∷ vs)
      → Above v (dedup_behind v vs) × IsAscending (dedup_behind v vs)
  unfolding dedup_behind
  dedup_behind-IsAscending v [] h = (tt, tt)
  dedup_behind-IsAscending v (w ∷ ws) h =
      ground (
        arith,
        dedup_behind-IsAscending w ws h.1,
        o.eq_of_cmp v w,
        Above-lt v w (dedup_behind w ws),
      )

  -- Sorted and without repetition, the elements stand in strictly ascending order.
  pub dedup-sort-IsAscending : (vs : List K) → IsAscending (dedup (sort vs))
  unfolding dedup
  dedup-sort-IsAscending vs = ascending (sort vs) (sort-IsSorted vs)
    where
      ascending : (us : List K) → IsSorted us → IsAscending (dedup us)
      ascending [] h = tt
      ascending (u ∷ us) h = dedup_behind-IsAscending u us h

  set_contains-sorted_insert :
      (k v : K) (vs : List K) → set_contains k (sorted_insert v vs) ≡ set_contains k (v ∷ vs)
  unfolding sorted_insert set_contains
  set_contains-sorted_insert k v [] = refl
  set_contains-sorted_insert k v (w ∷ ws) = ground (arith, set_contains-sorted_insert k v ws)

  set_contains-dedup_behind :
      (k v : K) (vs : List K) → set_contains k (v ∷ dedup_behind v vs) ≡ set_contains k (v ∷ vs)
  unfolding dedup_behind set_contains
  set_contains-dedup_behind k v [] = refl
  set_contains-dedup_behind k v (w ∷ ws) =
      ground (arith, set_contains-dedup_behind k w ws, o.eq_of_cmp v w)

  set_contains-sort : (k : K) (vs : List K) → set_contains k (sort vs) ≡ set_contains k vs
  unfolding sort set_contains
  set_contains-sort k [] = refl
  set_contains-sort k (v ∷ vs) =
      ground (arith, set_contains-sorted_insert k v (sort vs), set_contains-sort k vs)

  -- No element is lost and none is added.
  pub set_contains-dedup-sort :
      (k : K) (vs : List K) → set_contains k (dedup (sort vs)) ≡ set_contains k vs
  unfolding dedup
  set_contains-dedup-sort k vs = kept (sort vs) ∙ set_contains-sort k vs
    where
      kept : (us : List K) → set_contains k (dedup us) ≡ set_contains k us
      kept [] = refl
      kept (u ∷ us) = set_contains-dedup_behind k u us

module _ {ℓ κ} {K : Type ℓ} ⦃o : Ord K⦄ (P : K → Type κ) where
  All-sorted_insert_of : (v : K) (vs : List K) → P v → All P vs → All P (sorted_insert v vs)
  unfolding sorted_insert
  All-sorted_insert_of v [] p h = (p, tt)
  All-sorted_insert_of v (w ∷ ws) p h = ground (arith, All-sorted_insert_of v ws)

  All-sort : (vs : List K) → All P vs → All P (sort vs)
  unfolding sort
  All-sort [] h = tt
  All-sort (v ∷ vs) h = All-sorted_insert_of v (sort vs) h.0 (All-sort vs h.1)

  All-dedup_behind : (v : K) (vs : List K) → All P vs → All P (dedup_behind v vs)
  unfolding dedup_behind
  All-dedup_behind v [] h = tt
  All-dedup_behind v (w ∷ ws) h = ground (arith, All-dedup_behind w ws)

  -- What holds of every element holds of every element that is left.
  pub All-dedup-sort : (vs : List K) → All P vs → All P (dedup (sort vs))
  unfolding dedup
  All-dedup-sort vs h = kept (sort vs) (All-sort vs h)
    where
      kept : (us : List K) → All P us → All P (dedup us)
      kept [] u = tt
      kept (w ∷ us) u = (u.0, All-dedup_behind w us u.1)
