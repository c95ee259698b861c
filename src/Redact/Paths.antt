-- ===== src/Redact/Paths.antt =====
-- What `path_display` and `show_text` leave alone: a text in which nothing was redacted is shown as
-- it is, but for back slashes, which are shown as slashes.
use cmdtrail.Prelude.{
  ℕ, ◌≡◌, refl, ◌∙◌, Bool, true, false, Bool-cases, inl, inr, List, [], ◌∷◌, arith, map, ◌==◌,
  if◌then◌else◌, saturating_add,
}
use cmdtrail.Text.{Text, Bytes, codes, contains_byte, split, join, grow_first}
use cmdtrail.Text.Utf8.{is_utf8, to_string_lossy, to_string_lossy-utf8, to_str}
use cmdtrail.Redact.{
  Redactor, is_separator, show_component, show_components, path_display, show_text, text,
}
use cmdtrail.Redact.Values.{replace_custom_values-unchanged}

-- Back slashes as slashes.
abbrev pub slashed_byte : ℕ → ℕ
slashed_byte c = if c == b'\\' then b'/' else c

abbrev pub slashed : Text → Text
slashed = map slashed_byte

join-grow_first :
    (c : ℕ) (t : Text)
    → join (codes "/") (grow_first c (split is_separator t))
      ≡ c ∷ join (codes "/") (split is_separator t)
unfolding join split
join-grow_first c [] = refl
join-grow_first c (x ∷ t) = elim (Bool-cases (is_separator x)) [
  | inl sep ↦ rw sep (by_parts (split is_separator t))
  | inr plain ↦ rw plain (by_parts' (split is_separator t))
]
  where
    by_parts :
        (parts : List Text)
        → join (codes "/") ((c ∷ []) ∷ parts) ≡ c ∷ join (codes "/") ([] ∷ parts)
    by_parts [] = refl
    by_parts (p ∷ parts) = refl

    by_parts' :
        (parts : List Text)
        → join (codes "/") (grow_first c (grow_first x parts))
          ≡ c ∷ join (codes "/") (grow_first x parts)
    by_parts' [] = refl
    by_parts' (p ∷ []) = refl
    by_parts' (p ∷ q ∷ parts) = refl

join_empty :
    (t : Text)
    → join (codes "/") ([] ∷ split is_separator t) ≡ b'/' ∷ join (codes "/") (split is_separator t)
unfolding join split
join_empty [] = refl
join_empty (x ∷ t) = by_parts (is_separator x) (split is_separator t)
  where
    by_parts :
        (sep : Bool) (parts : List Text)
        → join (codes "/") ([] ∷ (if sep then [] ∷ parts else grow_first x parts))
          ≡ b'/' ∷ join (codes "/") (if sep then [] ∷ parts else grow_first x parts)
    by_parts true parts = refl
    by_parts false [] = refl
    by_parts false (p ∷ parts) = refl

join-split : (t : Text) → join (codes "/") (split is_separator t) ≡ slashed t
unfolding join split
join-split [] = refl
join-split (c ∷ t) = elim (Bool-cases (is_separator c)) [
  | inl sep ↦ rw sep (ground (arith, join_empty t, join-split t))
  | inr plain ↦ rw plain (join-grow_first c t ∙ ground (arith, join-split t))
]

slashed-id : (t : Text) → contains_byte b'\\' t ≡ false → slashed t ≡ t
unfolding contains_byte
slashed-id [] h = refl
slashed-id (c ∷ t) h = ground (arith, slashed-id t)

module _ (sha256 : Bytes → Bytes) (r : Redactor) where
  show_component-unchanged :
      (c : Text) → (show_component sha256 r c).1 ≡ false → (show_component sha256 r c).0 ≡ c
  unfolding show_component
  show_component-unchanged c h = ground (arith, replace_custom_values-unchanged r c)

  show_components-unchanged :
      (cs : List Text) (count : ℕ)
      → (show_components sha256 r cs count).1 ≡ 0
      → ((show_components sha256 r cs count).0 ≡ cs) × (count ≡ 0)
  unfolding show_components
  show_components-unchanged [] count h = (refl, h)
  show_components-unchanged (c ∷ cs) count h = ground (
    arith,
    show_component-unchanged c,
    show_components-unchanged cs count,
    show_components-unchanged cs (saturating_add count 1),
  )

  -- A path in UTF-8 in which no component was redacted is shown with its bytes, back slashes as slashes.
  pub path_display-unchanged :
      (path : Bytes)
      → is_utf8 path ≡ true
      → (path_display sha256 r path).1 ≡ 0
      → (path_display sha256 r path).0 ≡ slashed path
  unfolding path_display
  path_display-unchanged path valid h =
      rw ((show_components-unchanged (split is_separator (to_string_lossy path)) 0 h).0)
        (rw (to_string_lossy-utf8 path valid) (join-split path))

  show_text-unchanged :
      (t : Text)
      → is_utf8 t ≡ true
      → (show_text sha256 r t).1 ≡ false
      → (show_text sha256 r t).0 ≡ slashed t
  unfolding show_text
  show_text-unchanged t valid h =
      ground
        (arith, replace_custom_values-unchanged r t, path_display-unchanged t valid, slashed-id t)

  -- An argument that is reported unchanged is text, and is shown with its bytes, back slashes as
  -- slashes.
  pub text-unchanged :
      (value : Bytes) → (text sha256 r value).1 ≡ false → (text sha256 r value).0 ≡ slashed value
  unfolding text to_str
  text-unchanged value h = ground (arith, show_text-unchanged value)
