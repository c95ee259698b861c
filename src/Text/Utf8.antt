-- ===== src/Text/Utf8.antt =====
-- UTF-8 of `core::str`: which byte sequences are text, and the lossy reading of the others.
use cmdtrail.Prelude.{
  ℕ, zero, suc, ◌≡◌, refl, ap, Bool, true, false, ◌&&◌, Option, none, some, List, [], ◌∷◌, ◌++◌,
  leb, ltb, ◌==◌, if◌then◌else◌,
}

abbrev within : ℕ → ℕ → ℕ → Bool
within lo hi b = leb lo b && leb b hi

-- The bytes that a sequence with this first byte has; 0 for a byte that begins none.
abbrev utf8_width : ℕ → ℕ
utf8_width b =
    if ltb b 128
    then 1
    else if within 0xc2 0xdf b
    then 2
    else if within 0xe0 0xef b
    then 3
    else if within 0xf0 0xf4 b
    then 4
    else 0

-- The second byte keeps out overlong forms, surrogates and what lies past U+10FFFF.
abbrev second_ok : ℕ → ℕ → Bool
second_ok first b =
    if first == 0xe0
    then within 0xa0 0xbf b
    else if first == 0xed
    then within 0x80 0x9f b
    else if first == 0xf0
    then within 0x90 0xbf b
    else if first == 0xf4
    then within 0x80 0x8f b
    else within 0x80 0xbf b

abbrev next_ok : List ℕ → Bool
next_ok [] = false
next_ok (b ∷ bs) = within 0x80 0xbf b

abbrev drop_one : List ℕ → List ℕ
drop_one [] = []
drop_one (b ∷ bs) = bs

abbrev second_of : ℕ → List ℕ → Bool
second_of first [] = false
second_of first (b ∷ bs) = second_ok first b

-- What stands at the front: a whole character with so many bytes behind its first, or an
-- ill-formed piece with so many bytes behind its first.
pub data Piece : Type 0 where
  char : ℕ → Piece
  broken : ℕ → Piece

piece : ℕ → List ℕ → Piece
piece first rest =
    let width = utf8_width first in
    if width == 1
    then char 0
    else if width == 0
    then broken 0
    else if second_of first rest
    then (if width == 2
        then char 1
        else if next_ok (drop_one rest)
        then (if width == 3
            then char 2
            else if next_ok (drop_one (drop_one rest))
            then char 3
            else broken 2)
        else broken 1)
    else broken 0

-- `OsStr::to_str` succeeds; the number counts the bytes of the current character left.
utf8_from : ℕ → List ℕ → Bool
utf8_from n [] = true
utf8_from (suc n) (b ∷ bs) = utf8_from n bs
utf8_from zero (b ∷ bs) = elim (piece b bs) [ char n ↦ utf8_from n bs | broken n ↦ false ]

unfoldable pub is_utf8 : List ℕ → Bool
unfolding utf8_from piece
is_utf8 = utf8_from 0

-- U+FFFD
abbrev replacement : List ℕ
replacement = 0xef ∷ 0xbf ∷ 0xbd ∷ []

-- Bytes to be copied, and bytes of an ill-formed piece to be passed over.
pub data Pending : Type 0 where
  copy skip : ℕ → Pending

lossy_from : Pending → List ℕ → List ℕ
lossy_from p [] = []
lossy_from (copy (suc n)) (b ∷ bs) = b ∷ lossy_from (copy n) bs
lossy_from (skip (suc n)) (b ∷ bs) = lossy_from (skip n) bs
lossy_from (copy zero) (b ∷ bs) = elim (piece b bs) [
  | char n ↦ b ∷ lossy_from (copy n) bs
  | broken n ↦ replacement ++ lossy_from (skip n) bs
]
lossy_from (skip zero) (b ∷ bs) = elim (piece b bs) [
  | char n ↦ b ∷ lossy_from (copy n) bs
  | broken n ↦ replacement ++ lossy_from (skip n) bs
]

-- `OsStr::to_string_lossy`
unfoldable pub to_string_lossy : List ℕ → List ℕ
unfolding lossy_from piece
to_string_lossy = lossy_from (copy 0)

-- `OsStr::to_str`
unfoldable pub to_str : List ℕ → Option (List ℕ)
unfolding is_utf8
to_str bytes = if is_utf8 bytes then some bytes else none

lossy-utf8_from : (n : ℕ) (bs : List ℕ) → utf8_from n bs ≡ true → lossy_from (copy n) bs ≡ bs
unfolding utf8_from lossy_from
lossy-utf8_from n [] h = refl
lossy-utf8_from (suc n) (b ∷ bs) h = ap (λ t. b ∷ t) (lossy-utf8_from n bs h)
lossy-utf8_from zero (b ∷ bs) h = by_piece (λ n. lossy-utf8_from n bs) (piece b bs) h
  where
    by_piece :
        ((n : ℕ) → utf8_from n bs ≡ true → lossy_from (copy n) bs ≡ bs)
        → (p : Piece) → elim p as (λ _. Bool) [ char n ↦ utf8_from n bs | broken n ↦ false ] ≡ true
        → elim p as (λ _. List ℕ) [
          | char n ↦ b ∷ lossy_from (copy n) bs
          | broken n ↦ replacement ++ lossy_from (skip n) bs
        ]
          ≡ b ∷ bs
    by_piece kept (char n) e = ap (λ t. b ∷ t) (kept n e)
    by_piece kept (broken n) e = cc

-- Valid text is read as it is.
pub to_string_lossy-utf8 : (bs : List ℕ) → is_utf8 bs ≡ true → to_string_lossy bs ≡ bs
unfolding to_string_lossy is_utf8
to_string_lossy-utf8 bs h = lossy-utf8_from 0 bs h
