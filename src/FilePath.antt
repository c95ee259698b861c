-- ===== src/FilePath.antt =====
-- `std::path` on Unix, as far as the program uses it: a path is its bytes, and is compared, joined
-- and taken apart by its components.
mod Tests
use mathlib.Core.Bool.{Bool, true, false, ◌&&◌, ◌||◌}
use cmdtrail.Prelude.{ℕ, Option, none, some, List, [], ◌∷◌, ◌++◌, map, ◌==◌, if◌then◌else◌, last?}
use cmdtrail.Text.{Bytes, codes, text_eq, split, join as join_parts, rsplit_once, is_empty}

abbrev pub FilePath : Type 0
FilePath = Bytes

pub data Component : Type 0 where
  root_dir cur_dir parent_dir : Component
  normal : Bytes → Component

abbrev pub is_slash : ℕ → Bool
is_slash c = c == b'/'

abbrev pub dot : Bytes
dot = codes "."

abbrev pub slash : Bytes
slash = codes "/"

-- `path.is_absolute()`
abbrev pub is_absolute : FilePath → Bool
is_absolute [] = false
is_absolute (c ∷ p) = is_slash c

-- An empty part and a `.` are no components, but for a leading `.`.
abbrev pub skippable : Bytes → Bool
skippable part = is_empty part || text_eq part dot

-- The components that the parts between slashes stand for.
unfoldable pub body : List Bytes → List Component
unfolding text_eq
body [] = []
body (part ∷ parts) =
    if skippable part
    then body parts
    else (if text_eq part (codes "..") then parent_dir else normal part) ∷ body parts

relative : List Bytes → List Component
unfolding body
relative [] = []
relative (part ∷ parts) = if text_eq part dot then cur_dir ∷ body parts else body (part ∷ parts)

-- `path.components()`
unfoldable pub components : FilePath → List Component
unfolding relative body split
components p =
    if is_absolute p then root_dir ∷ body (split is_slash p) else relative (split is_slash p)

-- `component.as_os_str()`
abbrev pub as_os_str : Component → Bytes
as_os_str root_dir = slash
as_os_str cur_dir = dot
as_os_str parent_dir = codes ".."
as_os_str (normal name) = name

name_of : Option Component → Option Bytes
name_of (some (normal name)) = some name
name_of _ = none

-- `path.file_name()`: the last component, if it is a name.
unfoldable pub file_name : FilePath → Option Bytes
unfolding name_of components
file_name p = name_of (last? (components p))

extension_of : Option Bytes → Option Bytes
unfolding rsplit_once
extension_of none = none
extension_of (some name) = elim (rsplit_once b'.' name) [
  | none ↦ none
  | some (before, after) ↦ if is_empty before then none else some after
]

-- `path.extension()`: what follows the last dot of the file name, unless that dot is its first byte.
unfoldable pub extension : FilePath → Option Bytes
unfolding extension_of file_name
extension p = extension_of (file_name p)

ends_with_slash : FilePath → Bool
ends_with_slash p = elim (last? p) [ none ↦ false | some c ↦ is_slash c ]

-- `base.join(path)`: an absolute path replaces the base.
unfoldable pub join : FilePath → FilePath → FilePath
unfolding ends_with_slash
join base p =
    if is_absolute p
    then p
    else if is_empty base || ends_with_slash base
    then base ++ p
    else base ++ (slash ++ p)

-- The parts without those at the end that are no components.
trim_parts : List Bytes → List Bytes
unfolding text_eq
trim_parts [] = []
trim_parts (part ∷ parts) = elim (trim_parts parts) [
  | [] ↦ if skippable part then [] else part ∷ []
  | q ∷ qs ↦ part ∷ q ∷ qs
]

drop_last : List Bytes → List Bytes
drop_last [] = []
drop_last (p ∷ []) = []
drop_last (p ∷ q ∷ ps) = p ∷ drop_last (q ∷ ps)

-- The parent's bytes: `front`, and the parts but the last component; `none` if there is none.
parent_parts : Bytes → List Bytes → Option FilePath
parent_parts front [] = none
parent_parts front (p ∷ ps) = some (front ++ join_parts slash (trim_parts (drop_last (p ∷ ps))))

parent_relative : List Bytes → Option FilePath
parent_relative [] = none
parent_relative (part ∷ parts) =
    if text_eq part dot
    then (elim (trim_parts parts) [
      | [] ↦ some []
      | q ∷ qs ↦ some (join_parts slash (part ∷ trim_parts (drop_last (q ∷ qs))))
    ])
    else parent_parts [] (trim_parts (part ∷ parts))

parent_absolute : List Bytes → Option FilePath
parent_absolute [] = none
parent_absolute (part ∷ parts) = parent_parts slash (trim_parts parts)

-- `path.parent()`
unfoldable pub parent : FilePath → Option FilePath
unfolding parent_relative parent_absolute parent_parts trim_parts drop_last join_parts split
parent p =
    if is_absolute p then parent_absolute (split is_slash p) else parent_relative (split is_slash p)

abbrev same_component : Component → Component → Bool
same_component root_dir root_dir = true
same_component cur_dir cur_dir = true
same_component parent_dir parent_dir = true
same_component (normal a) (normal b) = text_eq a b
same_component _ _ = false

unfoldable pub strip_components : List Component → List Component → Option (List Component)
unfolding text_eq
strip_components cs [] = some cs
strip_components [] (d ∷ ds) = none
strip_components (c ∷ cs) (d ∷ ds) = if same_component c d then strip_components cs ds else none

-- `path.starts_with(base)`, component by component.
unfoldable pub starts_with : FilePath → FilePath → Bool
unfolding strip_components components
starts_with p base = elim (strip_components (components p) (components base)) [
  | none ↦ false
  | some rest ↦ true
]

-- `path.strip_prefix(base)`: the bytes of the components that are left, in the spelling of the
-- paths that a directory walk returns (one slash between two names).
unfoldable pub strip_prefix : FilePath → FilePath → Option FilePath
unfolding strip_components components join_parts
strip_prefix p base = elim (strip_components (components p) (components base)) [
  | none ↦ none
  | some rest ↦ some (join_parts slash (map as_os_str rest))
]

-- `a == b`: equal component by component.
unfoldable pub same_path : FilePath → FilePath → Bool
unfolding strip_components components
same_path a b = elim (strip_components (components a) (components b)) [ some [] ↦ true | _ ↦ false ]
