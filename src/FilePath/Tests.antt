-- ===== src/FilePath/Tests.antt =====
-- The path functions on the spellings that matter to the program.
use cmdtrail.Prelude.{◌≡◌, refl, none, some, [], ◌∷◌, true, false}
use cmdtrail.Text.{codes}
use cmdtrail.FilePath.{
  components, file_name, extension, parent, join, starts_with, same_path, normal, cur_dir,
}

components_dots :
    components (codes "./a/.//b") ≡ cur_dir ∷ normal (codes "a") ∷ normal (codes "b") ∷ []
unfolding components
components_dots = refl

file_name_trailing : file_name (codes "/usr/bin/tool/.") ≡ some (codes "tool")
unfolding file_name
file_name_trailing = refl

file_name_parent : file_name (codes "a/..") ≡ none
unfolding file_name
file_name_parent = refl

extension_plain :
    (extension (codes "key.tar.pem") ≡ some (codes "pem")) × (extension (codes ".pem") ≡ none)
unfolding extension
extension_plain = (refl, refl)

parent_cases :
    (parent (codes "receipt.json") ≡ some [])
    × (parent (codes "a//b/c") ≡ some (codes "a//b"))
    × (parent (codes "/x/") ≡ some (codes "/"))
    × (parent (codes "/") ≡ none)
    × (parent (codes "./a") ≡ some (codes "."))
unfolding parent
parent_cases = (refl, refl, refl, refl, refl)

join_cases :
    (join (codes "/w") (codes "src") ≡ codes "/w/src")
    × (join (codes "/w") (codes "/s") ≡ codes "/s")
unfolding join
join_cases = (refl, refl)

starts_with_cases :
    (starts_with (codes "/a/b") (codes "/a") ≡ true)
    × (starts_with (codes "/ab") (codes "/a") ≡ false)
    × (same_path (codes "/a/") (codes "/a") ≡ true)
unfolding starts_with same_path
starts_with_cases = (refl, refl, refl)
