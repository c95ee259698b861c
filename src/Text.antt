-- ===== src/Text.antt =====
-- Rust's `str` and `[u8]` as lists of bytes, with the methods of the standard library that the
-- program calls. A `str` is its UTF-8 bytes; all the separators and tests are ASCII, so that
-- searching and cutting at bytes is what the methods do. Laws are in the modules below.
pub mod Utf8
pub mod Decimal
pub mod Search
pub mod Replace
use Prim.Native.Char.{code}
use Prim.Native.String.{String}
use cmdtrail.Prelude.{
  ℕ, zero, suc, ◌+◌, ◌-◌, ◌/◌, ◌%◌, Bool, true, false, ◌&&◌, ◌||◌, not, Option, none, some, List,
  [], ◌∷◌, ◌++◌, map, leb, ltb, ◌==◌, if◌then◌else◌, length, take,
}

abbrev pub Bytes : Type 0
Bytes = List ℕ

abbrev pub Text : Type 0
Text = List ℕ

-- The bytes of an ASCII literal.
abbrev pub codes : String → Text
codes String.[] = []
codes (String.◌∷◌ c s) = code c ∷ codes s

unfoldable pub text_eq : Text → Text → Bool
text_eq [] [] = true
text_eq [] (y ∷ ys) = false
text_eq (x ∷ xs) [] = false
text_eq (x ∷ xs) (y ∷ ys) = x == y && text_eq xs ys

abbrev pub is_empty : Text → Bool
is_empty [] = true
is_empty (x ∷ xs) = false

-- `text.strip_prefix(prefix)`
unfoldable pub strip_prefix : Text → Text → Option Text
strip_prefix t [] = some t
strip_prefix [] (p ∷ ps) = none
strip_prefix (x ∷ xs) (p ∷ ps) = if x == p then strip_prefix xs ps else none

-- `text.starts_with(prefix)`
unfoldable pub starts_with : Text → Text → Bool
starts_with t [] = true
starts_with [] (p ∷ ps) = false
starts_with (x ∷ xs) (p ∷ ps) = x == p && starts_with xs ps

-- `text.contains(pattern)`
unfoldable pub contains : Text → Text → Bool
unfolding starts_with
contains [] p = starts_with [] p
contains (x ∷ xs) p = starts_with (x ∷ xs) p || contains xs p

-- `text.contains(character)`
unfoldable pub contains_byte : ℕ → Text → Bool
contains_byte b [] = false
contains_byte b (x ∷ xs) = x == b || contains_byte b xs

-- `text.split_once(pattern)`: the parts before and after the first match.
unfoldable pub split_once : Text → Text → Option (Text × Text)
unfolding strip_prefix
split_once [] p = elim (strip_prefix [] p) [ none ↦ none | some rest ↦ some ([], rest) ]
split_once (x ∷ xs) p = elim (strip_prefix (x ∷ xs) p) [
  | some rest ↦ some ([], rest)
  | none ↦ elim (split_once xs p) [ none ↦ none | some (a, b) ↦ some (x ∷ a, b) ]
]

-- `text.rsplit_once(character)`: the parts before and after the last match.
unfoldable pub rsplit_once : ℕ → Text → Option (Text × Text)
rsplit_once c [] = none
rsplit_once c (x ∷ xs) = elim (rsplit_once c xs) [
  | some (a, b) ↦ some (x ∷ a, b)
  | none ↦ if x == c then some ([], xs) else none
]

-- `text.find(test)`: the position of the first byte that passes.
unfoldable pub find : (ℕ → Bool) → Text → Option ℕ
find test [] = none
find test (x ∷ xs) =
    if test x then some 0 else (elim (find test xs) [ none ↦ none | some i ↦ some (suc i) ])

-- `option.unwrap_or(default)`
abbrev pub unwrap_or {ℓ} : {A : Type ℓ} → Option A → A → A
unwrap_or none d = d
unwrap_or (some a) d = a

-- Puts a byte in front of the first part.
abbrev pub grow_first : ℕ → List Text → List Text
grow_first x [] = (x ∷ []) ∷ []
grow_first x (p ∷ ps) = (x ∷ p) ∷ ps

-- `text.split(test)`: one part more than there are separators.
unfoldable pub split : (ℕ → Bool) → Text → List Text
split test [] = [] ∷ []
split test (x ∷ xs) = if test x then [] ∷ split test xs else grow_first x (split test xs)

-- `parts.join(separator)`
unfoldable pub join : Text → List Text → Text
join sep [] = []
join sep (p ∷ []) = p
join sep (p ∷ q ∷ ps) = p ++ (sep ++ join sep (q ∷ ps))

-- `text.trim_start_matches(character)`
unfoldable pub trim_start : ℕ → Text → Text
trim_start c [] = []
trim_start c (x ∷ xs) = if x == c then trim_start c xs else x ∷ xs

abbrev pub lower_byte : ℕ → ℕ
lower_byte c = if leb b'A' c && leb c b'Z' then c + 32 else c

-- `text.to_ascii_lowercase()`
abbrev pub to_ascii_lowercase : Text → Text
to_ascii_lowercase = map lower_byte

-- A byte that continues a UTF-8 sequence; characters begin at the other bytes.
abbrev pub is_continuation : ℕ → Bool
is_continuation b = leb 128 b && ltb b 192

-- `text.replace("", to)`: `to` at every character boundary.
replace_empty : Text → Text → Text
replace_empty to [] = to
replace_empty to (x ∷ xs) = (if is_continuation x then [] else to) ++ (x ∷ replace_empty to xs)

-- The loop of `replace`; the number counts the bytes of a match that are still to be passed over.
replace_from : ℕ → Text → Text → Text → Text
replace_from n [] pattern to = []
replace_from (suc n) (x ∷ xs) pattern to = replace_from n xs pattern to
replace_from zero (x ∷ xs) pattern to =
    let matched = starts_with (x ∷ xs) pattern in
    (if matched then to else x ∷ [])
    ++ replace_from (if matched then length pattern - 1 else 0) xs pattern to

-- `text.replace(pattern, to)`: every match, from the left, without overlap.
unfoldable pub replace : Text → Text → Text → Text
unfolding replace_empty replace_from starts_with
replace t [] to = replace_empty to t
replace t (p ∷ ps) to = replace_from 0 t (p ∷ ps) to
