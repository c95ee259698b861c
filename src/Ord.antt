-- ===== src/Ord.antt =====
-- Rust's `Ord`, as an interface: a three-way comparison that is a total order. Its instances are
-- numbers, sequences (`str` and `[u8]` compare byte by byte) and pairs (derived orders compare
-- field by field).
use Prim.Native.Nat.{compare, Ordering}
use Prim.Native.Nat.Ordering.{lt, eq, gt}
use cmdtrail.Prelude.{ℕ, ◌≡◌, refl, List, [], ◌∷◌, arith}

pub record Ord {ℓ} (K : Type ℓ) : Type ℓ where
  pub cmp : K → K → Ordering
  pub cmp_refl : (a : K) → cmp a a ≡ eq
  pub eq_of_cmp : (a b : K) → cmp a b ≡ eq → a ≡ b
  pub gt_of_lt : (a b : K) → cmp a b ≡ lt → cmp b a ≡ gt
  pub lt_of_gt : (a b : K) → cmp a b ≡ gt → cmp b a ≡ lt
  pub lt_trans : (a b c : K) → cmp a b ≡ lt → cmp b c ≡ lt → cmp a c ≡ lt

infix 50 ◌≺◌
abbrev pub ◌≺◌ {ℓ} : {K : Type ℓ} ⦃o : Ord K⦄ → K → K → Type 0
◌≺◌ ⦃o⦄ a b = o.cmp a b ≡ lt

-- `Ordering::then`
abbrev pub then_cmp : Ordering → Ordering → Ordering
then_cmp lt c = lt
then_cmp eq c = c
then_cmp gt c = gt

pub nat-cmp_refl : (a : ℕ) → compare a a ≡ eq
nat-cmp_refl a = ground arith

pub nat-eq_of_cmp : (a b : ℕ) → compare a b ≡ eq → a ≡ b
nat-eq_of_cmp a b h = ground arith

pub nat-gt_of_lt : (a b : ℕ) → compare a b ≡ lt → compare b a ≡ gt
nat-gt_of_lt a b h = ground arith

pub nat-lt_of_gt : (a b : ℕ) → compare a b ≡ gt → compare b a ≡ lt
nat-lt_of_gt a b h = ground arith

pub nat-lt_trans : (a b c : ℕ) → compare a b ≡ lt → compare b c ≡ lt → compare a c ≡ lt
nat-lt_trans a b c h k = ground arith

instance abbrev pub nat_ord : Ord ℕ
nat_ord = record {
  cmp = compare;
  cmp_refl = nat-cmp_refl;
  eq_of_cmp = nat-eq_of_cmp;
  gt_of_lt = nat-gt_of_lt;
  lt_of_gt = nat-lt_of_gt;
  lt_trans = nat-lt_trans;
}

module _ {ℓ} {K : Type ℓ} ⦃o : Ord K⦄ where
  -- The lexicographic order of sequences: a proper prefix is smaller.
  abbrev pub list_cmp : List K → List K → Ordering
  list_cmp [] [] = eq
  list_cmp [] (y ∷ ys) = lt
  list_cmp (x ∷ xs) [] = gt
  list_cmp (x ∷ xs) (y ∷ ys) = then_cmp (o.cmp x y) (list_cmp xs ys)

  pub list-cmp_refl : (a : List K) → list_cmp a a ≡ eq
  list-cmp_refl [] = refl
  list-cmp_refl (x ∷ xs) = ground (arith, o.cmp_refl x, list-cmp_refl xs)

  pub list-eq_of_cmp : (a b : List K) → list_cmp a b ≡ eq → a ≡ b
  list-eq_of_cmp [] [] h = refl
  list-eq_of_cmp [] (y ∷ ys) h = ground arith
  list-eq_of_cmp (x ∷ xs) [] h = ground arith
  list-eq_of_cmp (x ∷ xs) (y ∷ ys) h = ground (arith, o.eq_of_cmp x y, list-eq_of_cmp xs ys)

  pub list-gt_of_lt : (a b : List K) → list_cmp a b ≡ lt → list_cmp b a ≡ gt
  list-gt_of_lt [] [] h = ground arith
  list-gt_of_lt [] (y ∷ ys) h = refl
  list-gt_of_lt (x ∷ xs) [] h = ground arith
  list-gt_of_lt (x ∷ xs) (y ∷ ys) h =
      ground (arith, o.gt_of_lt x y, o.eq_of_cmp x y, o.cmp_refl x, list-gt_of_lt xs ys)

  pub list-lt_of_gt : (a b : List K) → list_cmp a b ≡ gt → list_cmp b a ≡ lt
  list-lt_of_gt [] [] h = ground arith
  list-lt_of_gt [] (y ∷ ys) h = ground arith
  list-lt_of_gt (x ∷ xs) [] h = refl
  list-lt_of_gt (x ∷ xs) (y ∷ ys) h =
      ground (arith, o.lt_of_gt x y, o.eq_of_cmp x y, o.cmp_refl x, list-lt_of_gt xs ys)

  pub list-lt_trans : (a b c : List K) → list_cmp a b ≡ lt → list_cmp b c ≡ lt → list_cmp a c ≡ lt
  list-lt_trans [] [] c h k = ground arith
  list-lt_trans [] (y ∷ ys) [] h k = ground arith
  list-lt_trans [] (y ∷ ys) (z ∷ zs) h k = refl
  list-lt_trans (x ∷ xs) [] c h k = ground arith
  list-lt_trans (x ∷ xs) (y ∷ ys) [] h k = ground arith
  list-lt_trans (x ∷ xs) (y ∷ ys) (z ∷ zs) h k = ground (
    arith,
    o.lt_trans x y z,
    o.eq_of_cmp x y,
    o.eq_of_cmp y z,
    o.cmp_refl x,
    o.cmp_refl y,
    list-lt_trans xs ys zs,
  )

  instance abbrev pub list_ord : Ord (List K)
  list_ord = record {
    cmp = list_cmp;
    cmp_refl = list-cmp_refl;
    eq_of_cmp = list-eq_of_cmp;
    gt_of_lt = list-gt_of_lt;
    lt_of_gt = list-lt_of_gt;
    lt_trans = list-lt_trans;
  }

-- Pairs compare by their first parts, then by their second.
module _ {ℓ κ} {A : Type ℓ} {B : Type κ} ⦃oa : Ord A⦄ ⦃ob : Ord B⦄ where
  abbrev pub pair_cmp : A × B → A × B → Ordering
  pair_cmp p q = then_cmp (oa.cmp p.0 q.0) (ob.cmp p.1 q.1)

  pub pair-cmp_refl : (a : A × B) → pair_cmp a a ≡ eq
  pair-cmp_refl (x, y) = ground (arith, oa.cmp_refl x, ob.cmp_refl y)

  pub pair-eq_of_cmp : (a b : A × B) → pair_cmp a b ≡ eq → a ≡ b
  pair-eq_of_cmp (x, y) (u, v) h = ground (arith, oa.eq_of_cmp x u, ob.eq_of_cmp y v)

  pub pair-gt_of_lt : (a b : A × B) → pair_cmp a b ≡ lt → pair_cmp b a ≡ gt
  pair-gt_of_lt (x, y) (u, v) h =
      ground (arith, oa.gt_of_lt x u, oa.eq_of_cmp x u, oa.cmp_refl x, ob.gt_of_lt y v)

  pub pair-lt_of_gt : (a b : A × B) → pair_cmp a b ≡ gt → pair_cmp b a ≡ lt
  pair-lt_of_gt (x, y) (u, v) h =
      ground (arith, oa.lt_of_gt x u, oa.eq_of_cmp x u, oa.cmp_refl x, ob.lt_of_gt y v)

  pub pair-lt_trans : (a b c : A × B) → pair_cmp a b ≡ lt → pair_cmp b c ≡ lt → pair_cmp a c ≡ lt
  pair-lt_trans (x, y) (u, v) (p, q) h k = ground (
    arith,
    oa.lt_trans x u p,
    oa.eq_of_cmp x u,
    oa.eq_of_cmp u p,
    oa.cmp_refl x,
    oa.cmp_refl u,
    ob.lt_trans y v q,
  )

  instance abbrev pub pair_ord : Ord (A × B)
  pair_ord = record {
    cmp = pair_cmp;
    cmp_refl = pair-cmp_refl;
    eq_of_cmp = pair-eq_of_cmp;
    gt_of_lt = pair-gt_of_lt;
    lt_of_gt = pair-lt_of_gt;
    lt_trans = pair-lt_trans;
  }

-- Values compare as what an injective function makes of them.
abbrev pub ord_by {ℓ κ} :
    {A : Type ℓ} {B : Type κ} (o : Ord B) (f : A → B) → ((a b : A) → f a ≡ f b → a ≡ b) → Ord A
ord_by o f inj = record {
  cmp = λ a b. o.cmp (f a) (f b);
  cmp_refl = λ a. o.cmp_refl (f a);
  eq_of_cmp = λ a b h. inj a b (o.eq_of_cmp (f a) (f b) h);
  gt_of_lt = λ a b. o.gt_of_lt (f a) (f b);
  lt_of_gt = λ a b. o.lt_of_gt (f a) (f b);
  lt_trans = λ a b c. o.lt_trans (f a) (f b) (f c);
}
