-- ===== src/Text/Search.antt =====
-- Laws of the searches: when a text contains another, and what cutting at a match gives back.
use cmdtrail.Prelude.{
  ℕ, ◌≡◌, refl, ap, Bool, true, false, ◌||◌, none, some, [], ◌∷◌, ◌++◌, arith, length, take, drop,
}
use cmdtrail.Text.{
  Text, text_eq, strip_prefix, starts_with, contains_byte, split_once, rsplit_once, find,
}

pub text_eq_refl : (t : Text) → text_eq t t ≡ true
unfolding text_eq
text_eq_refl [] = refl
text_eq_refl (x ∷ xs) = ground (arith, text_eq_refl xs)

pub eq_of_text_eq : (s t : Text) → text_eq s t ≡ true → s ≡ t
unfolding text_eq
eq_of_text_eq [] [] h = refl
eq_of_text_eq [] (y ∷ ys) h = cc
eq_of_text_eq (x ∷ xs) [] h = cc
eq_of_text_eq (x ∷ xs) (y ∷ ys) h = ground (arith, eq_of_text_eq xs ys)

pub strip_prefix-append : (p t : Text) → strip_prefix (p ++ t) p ≡ some t
unfolding strip_prefix
strip_prefix-append [] t = refl
strip_prefix-append (x ∷ p) t = ground (arith, strip_prefix-append p t)

pub starts_with-append : (p t : Text) → starts_with (p ++ t) p ≡ true
unfolding starts_with
starts_with-append [] t = refl
starts_with-append (x ∷ p) t = ground (arith, starts_with-append p t)

-- The first match of a text whose first byte does not occur before it.
pub split_once_at :
    (a : Text) (c : ℕ) (p b : Text)
    → contains_byte c a ≡ false
    → split_once (a ++ ((c ∷ p) ++ b)) (c ∷ p) ≡ some (a, b)
unfolding split_once contains_byte strip_prefix
split_once_at [] c p b h = ground (arith, strip_prefix-append p b)
split_once_at (x ∷ a) c p b h = ground (arith, split_once_at a c p b)

pub rsplit_once-none : (c : ℕ) (a : Text) → contains_byte c a ≡ false → rsplit_once c a ≡ none
unfolding rsplit_once contains_byte
rsplit_once-none c [] h = refl
rsplit_once-none c (x ∷ a) h = ground (arith, rsplit_once-none c a)

pub rsplit_once_at :
    (c : ℕ) (a b : Text) → contains_byte c b ≡ false → rsplit_once c (a ++ (c ∷ b)) ≡ some (a, b)
unfolding rsplit_once
rsplit_once_at c [] b h = ground (arith, rsplit_once-none c b)
rsplit_once_at c (x ∷ a) b h = ground (arith, rsplit_once_at c a b h)

-- The first byte that passes the test stands behind those that do not.
pub find_at :
    (test : ℕ → Bool) (a : Text) (b : ℕ) (rest : Text)
    → find test a ≡ none
    → test b ≡ true
    → find test (a ++ (b ∷ rest)) ≡ some (length a)
unfolding find
find_at test [] b rest h t = ground arith
find_at test (x ∷ a) b rest h t = ground (arith, find_at test a b rest)

pub take-length_append : (a b : Text) → take (length a) (a ++ b) ≡ a
take-length_append [] b = refl
take-length_append (x ∷ a) b = ap (λ t. x ∷ t) (take-length_append a b)

pub drop-length_append : (a b : Text) → drop (length a) (a ++ b) ≡ b
drop-length_append [] b = refl
drop-length_append (x ∷ a) b = drop-length_append a b

pub take-length : (a : Text) → take (length a) a ≡ a
take-length [] = refl
take-length (x ∷ a) = ap (λ t. x ∷ t) (take-length a)

pub drop-length : (a : Text) → drop (length a) a ≡ []
drop-length [] = refl
drop-length (x ∷ a) = drop-length a

pub contains_byte-append :
    (c : ℕ) (a b : Text) → contains_byte c (a ++ b) ≡ (contains_byte c a || contains_byte c b)
unfolding contains_byte
contains_byte-append c [] b = refl
contains_byte-append c (x ∷ a) b = ground (arith, contains_byte-append c a b)
