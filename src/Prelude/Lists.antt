-- ===== src/Prelude/Lists.antt =====
-- Lists measured and indexed by native numbers, under the library's names.
use Prim.Native.Nat.{ℕ, zero, suc, ◌+◌, ◌≤◌, min}
use mathlib.Core.Path.{◌≡◌, refl, ap, sym, subst}
use mathlib.Core.Logic.{◌⊎◌, inl, inr}
use mathlib.Core.List.{List, [], ◌∷◌, ◌++◌, map}
use mathlib.Core.Option.{Option, none, some}
use native.Mathlib.Omega.{arith}

module _ {ℓ} {A : Type ℓ} where
  abbrev pub length : List A → ℕ
  length [] = 0
  length (x ∷ xs) = suc (length xs)

  abbrev pub take : ℕ → List A → List A
  take zero xs = []
  take (suc n) [] = []
  take (suc n) (x ∷ xs) = x ∷ take n xs

  abbrev pub drop : ℕ → List A → List A
  drop zero xs = xs
  drop (suc n) [] = []
  drop (suc n) (x ∷ xs) = drop n xs

  abbrev pub last? : List A → Option A
  last? [] = none
  last? (x ∷ []) = some x
  last? (x ∷ y ∷ xs) = last? (y ∷ xs)

  abbrev pub All {κ} : (A → Type κ) → List A → Type κ
  All P [] = Unit
  All P (x ∷ xs) = P x × All P xs

  pub length-append : (xs ys : List A) → length (xs ++ ys) ≡ length xs + length ys
  length-append [] ys = omega arith
  length-append (x ∷ xs) ys = omega (arith, length-append xs ys)

  pub length-take : (n : ℕ) (xs : List A) → length (take n xs) ≡ min n (length xs)
  length-take zero xs = omega arith
  length-take (suc n) [] = omega arith
  length-take (suc n) (x ∷ xs) = omega (arith, length-take n xs)

  pub take_all : (n : ℕ) (xs : List A) → length xs ≤ n → take n xs ≡ xs
  take_all zero [] h = refl
  take_all zero (x ∷ xs) h = absurd (omega arith)
  take_all (suc n) [] h = refl
  take_all (suc n) (x ∷ xs) h = ap (λ t. x ∷ t) (take_all n xs (omega arith))

  pub take-append-drop : (n : ℕ) (xs : List A) → take n xs ++ drop n xs ≡ xs
  take-append-drop zero xs = refl
  take-append-drop (suc n) [] = refl
  take-append-drop (suc n) (x ∷ xs) = ap (λ t. x ∷ t) (take-append-drop n xs)

  pub All-append {κ} : (P : A → Type κ) (xs ys : List A) → All P xs → All P ys → All P (xs ++ ys)
  All-append P [] ys hx hy = hy
  All-append P (x ∷ xs) ys (px, hx) hy = (px, All-append P xs ys hx hy)

  pub All-imp {κ μ} :
      {P : A → Type κ} {Q : A → Type μ} (f : (a : A) → P a → Q a) (xs : List A)
      → All P xs
      → All Q xs
  All-imp f [] h = tt
  All-imp f (x ∷ xs) (px, hx) = (f x px, All-imp f xs hx)

  pub last?-append : (xs : List A) (x : A) → last? (xs ++ (x ∷ [])) ≡ some x
  last?-append [] x = refl
  last?-append (y ∷ []) x = refl
  last?-append (y ∷ z ∷ xs) x = last?-append (z ∷ xs) x

  -- Two lists with equal fronts of one length are equal piece by piece.
  pub append-injective :
      (xs ys : List A) {us vs : List A}
      → length xs ≡ length ys
      → xs ++ us ≡ ys ++ vs
      → (xs ≡ ys) × (us ≡ vs)
  append-injective [] [] e h = (refl, h)
  append-injective [] (y ∷ ys) e h = absurd (omega arith)
  append-injective (x ∷ xs) [] e h = absurd (omega arith)
  append-injective (x ∷ xs) (y ∷ ys) e h =
      let (head_eq, tail_eq) = cons-injective h in
      let (p, q) = append-injective xs ys (omega arith) tail_eq in (cc (head_eq, p), q)
    where
      cons-injective : {a b : A} {l m : List A} → (a ∷ l) ≡ (b ∷ m) → (a ≡ b) × (l ≡ m)
      cons-injective p = (cc, cc)

module _ {ℓ κ} {A : Type ℓ} {B : Type κ} where
  pub length-map : (f : A → B) (xs : List A) → length (map f xs) ≡ length xs
  length-map f [] = refl
  length-map f (x ∷ xs) = ap suc (length-map f xs)

  -- `filter_map`, in the order of the list.
  abbrev pub filter_map : (A → Option B) → List A → List B
  filter_map f [] = []
  filter_map f (x ∷ xs) = elim (f x) [ none ↦ filter_map f xs | some y ↦ y ∷ filter_map f xs ]

-- The element stands in the list, at a place that the value tells.
abbrev pub OneOf : {A : Type 0} → A → List A → Type 0
OneOf a [] = ⊥
OneOf a (x ∷ xs) = (a ≡ x) ⊎ OneOf a xs

pub All-OneOf {κ} :
    {A : Type 0} (P : A → Type κ) (a : A) (xs : List A) → All P xs → OneOf a xs → P a
All-OneOf P a [] h m = absurd m
All-OneOf P a (x ∷ xs) (px, hx) (inl e) = subst P (sym e) px
All-OneOf P a (x ∷ xs) (px, hx) (inr m) = All-OneOf P a xs hx m

pub OneOf-map :
    {A B : Type 0} (f : A → B) (a : A) (xs : List A) → OneOf a xs → OneOf (f a) (map f xs)
OneOf-map f a [] m = m
OneOf-map f a (x ∷ xs) (inl e) = inl (ap f e)
OneOf-map f a (x ∷ xs) (inr m) = inr (OneOf-map f a xs m)

pub map-OneOf :
    {A B : Type 0} (f : A → B) (b : B) (xs : List A)
    → OneOf b (map f xs)
    → (a : A) × OneOf a xs × (b ≡ f a)
map-OneOf f b [] m = absurd m
map-OneOf f b (x ∷ xs) (inl e) = (x, inl refl, e)
map-OneOf f b (x ∷ xs) (inr m) = let (a, one, e) = map-OneOf f b xs m in (a, inr one, e)

pub take-OneOf : {A : Type 0} (n : ℕ) (a : A) (xs : List A) → OneOf a (take n xs) → OneOf a xs
take-OneOf zero a xs m = absurd m
take-OneOf (suc n) a [] m = m
take-OneOf (suc n) a (x ∷ xs) (inl e) = inl e
take-OneOf (suc n) a (x ∷ xs) (inr m) = inr (take-OneOf n a xs m)
