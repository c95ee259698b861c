-- ===== src/Redact/Url.antt =====
-- `redact_url` on a URL with user information and a query or a fragment: nothing of these is left.
use cmdtrail.Prelude.{
  ℕ, ◌≡◌, refl, ◌∙◌, Bool, true, false, none, [], ◌∷◌, ◌++◌, arith, ◌==◌, ==_refl,
}
use cmdtrail.Text.{Text, codes, contains_byte, find}
use cmdtrail.Text.Search.{
  split_once_at, rsplit_once_at, find_at, take-length_append, drop-length_append,
}
use cmdtrail.Redact.{redact_url, mask_authority, cut_at, ends_authority, redacted, url_mark}

-- The authority of a URL holds none of the bytes that end it.
abbrev pub IsAuthorityPart : Text → Type 0
IsAuthorityPart t = find ends_authority t ≡ none

-- An absolute path or none, without a query or a fragment.
abbrev pub IsPathPart : Text → Type 0
IsPathPart [] = Unit
IsPathPart (c ∷ path) =
    (c ≡ b'/') × (find (λ b. b == b'?') path ≡ none) × (find (λ b. b == b'#') path ≡ none)

find-append_none :
    (test : ℕ → Bool) (a b : Text)
    → find test a ≡ none
    → find test b ≡ none
    → find test (a ++ b) ≡ none
unfolding find
find-append_none test [] b ha hb = hb
find-append_none test (x ∷ a) b ha hb = ground (arith, find-append_none test a b)

mask_user :
    (user host : Text)
    → contains_byte b'@' host ≡ false
    → mask_authority (user ++ (b'@' ∷ host)) ≡ redacted ++ (b'@' ∷ host)
unfolding mask_authority
mask_user user host h = rw (rsplit_once_at b'@' user host h, mask_authority)

cut_at_hit :
    (mark : ℕ) (note a rest : Text)
    → find (λ b. b == mark) a ≡ none
    → cut_at mark note (a ++ (mark ∷ rest)) ≡ a ++ note
unfolding cut_at
cut_at_hit mark note a rest h =
    rw (find_at (λ b. b == mark) a mark rest h (==_refl mark), cut_at)
      (rw (take-length_append a (mark ∷ rest)))

cut_at_miss : (mark : ℕ) (note s : Text) → find (λ b. b == mark) s ≡ none → cut_at mark note s ≡ s
unfolding cut_at
cut_at_miss mark note s h = rw (h, cut_at)

-- What `redact_url` shows of the text behind the authority.
render_suffix : Text → Text
render_suffix suffix =
    cut_at b'#' (codes "#[redacted-fragment]") (cut_at b'?' (codes "?[redacted-query]") suffix)

redact_url_parts :
    (scheme authority : Text) (e : ℕ) (s : Text)
    → contains_byte b':' scheme ≡ false
    → IsAuthorityPart authority
    → ends_authority e ≡ true
    → redact_url (scheme ++ (url_mark ++ (authority ++ (e ∷ s))))
      ≡ scheme ++ (url_mark ++ (mask_authority authority ++ render_suffix (e ∷ s)))
unfolding redact_url render_suffix
redact_url_parts scheme authority e s hs ha he =
    rw (split_once_at scheme b':' (codes "//") (authority ++ (e ∷ s)) hs, redact_url)
      (rw (find_at ends_authority authority e s ha he)
        (rw (take-length_append authority (e ∷ s), drop-length_append authority (e ∷ s))))

abbrev pub user_at_host : Text → Text → Text
user_at_host user host = user ++ (b'@' ∷ host)

user_at_host_part :
    (user host : Text)
    → IsAuthorityPart user
    → IsAuthorityPart host
    → IsAuthorityPart (user_at_host user host)
user_at_host_part user host hu hh =
    find-append_none ends_authority user (b'@' ∷ host) hu (unfold find in rw hh)

path_part-clean :
    (path : Text)
    → IsPathPart path
    → (find (λ b. b == b'?') path ≡ none) × (find (λ b. b == b'#') path ≡ none)
unfolding find
path_part-clean [] h = (refl, refl)
path_part-clean (c ∷ path) h = ground arith

cut_at-append :
    (mark : ℕ) (note a b : Text)
    → find (λ c. c == mark) a ≡ none
    → cut_at mark note (a ++ b) ≡ a ++ cut_at mark note b
unfolding cut_at find
cut_at-append mark note [] b h = refl
cut_at-append mark note (x ∷ a) b h = ground (arith, cut_at-append mark note a b)

render_query :
    (path query : Text)
    → IsPathPart path
    → render_suffix (path ++ (b'?' ∷ query)) ≡ path ++ codes "?[redacted-query]"
unfolding render_suffix
render_query path query h =
    let (no_query, no_fragment) = path_part-clean path h in
    rw (cut_at_hit b'?' (codes "?[redacted-query]") path query no_query) (
      cut_at_miss b'#' (codes "#[redacted-fragment]") (path ++ codes "?[redacted-query]") (
        find-append_none (λ b. b == b'#') path (codes "?[redacted-query]") no_fragment
          (unfold find in refl)))

render_fragment :
    (path fragment : Text)
    → IsPathPart path
    → render_suffix (path ++ (b'#' ∷ fragment)) ≡ path ++ codes "#[redacted-fragment]"
unfolding render_suffix
render_fragment path fragment h =
    let (no_query, no_fragment) = path_part-clean path h in
    rw (cut_at-append b'?' (codes "?[redacted-query]") path (b'#' ∷ fragment) no_query) (
      rw (cut_at-append b'?' (codes "?[redacted-query]") (b'#' ∷ []) fragment (unfold find in refl))
        (cut_at_hit b'#' (codes "#[redacted-fragment]") path _ no_fragment))

-- What stands behind the path: a query or a fragment, of any text.
pub data Tail : Type 0 where
  query fragment : Text → Tail

abbrev pub tail_text : Tail → Text
tail_text (query t) = b'?' ∷ t
tail_text (fragment t) = b'#' ∷ t

abbrev pub tail_shown : Tail → Text
tail_shown (query t) = codes "?[redacted-query]"
tail_shown (fragment t) = codes "#[redacted-fragment]"

render_tail :
    (path : Text) (t : Tail)
    → IsPathPart path
    → render_suffix (path ++ tail_text t) ≡ path ++ tail_shown t
render_tail path (query t) h = render_query path t h
render_tail path (fragment t) h = render_fragment path t h

module _ (scheme user host : Text) (hs : contains_byte b':' scheme ≡ false)
    (hu : IsAuthorityPart user) (hh : IsAuthorityPart host)
    (ha : contains_byte b'@' host ≡ false) where
  redact_url_user :
      (e : ℕ) (s shown : Text)
      → ends_authority e ≡ true
      → render_suffix (e ∷ s) ≡ shown
      → redact_url (scheme ++ (url_mark ++ (user_at_host user host ++ (e ∷ s))))
        ≡ scheme ++ (url_mark ++ ((redacted ++ (b'@' ∷ host)) ++ shown))
  redact_url_user e s shown he hr =
      redact_url_parts scheme (user_at_host user host) e s hs (user_at_host_part user host hu hh) he
      ∙ rw (mask_user user host ha, hr)

  -- A URL `scheme://user@host/path` with a query or a fragment is shown with its scheme, its host
  -- and its path, and the same text stands for every user information and every query or fragment.
  -- The scheme holds no colon, the user and the host no byte that ends an authority, the host no
  -- `@`, and the path is empty or begins with a slash and has no query and no fragment.
  pub redact_url-hides :
      (path : Text) (t : Tail)
      → IsPathPart path
      → redact_url (scheme ++ (url_mark ++ (user_at_host user host ++ (path ++ tail_text t))))
        ≡ scheme ++ (url_mark ++ ((redacted ++ (b'@' ∷ host)) ++ (path ++ tail_shown t)))
  redact_url-hides [] (query q) hp = redact_url_user b'?' q _ refl (render_tail [] (query q) hp)
  redact_url-hides [] (fragment q) hp =
      redact_url_user b'#' q _ refl (render_tail [] (fragment q) hp)
  redact_url-hides (c ∷ path) t hp =
      redact_url_user c (path ++ tail_text t) _ (ground (arith, hp.0)) (render_tail (c ∷ path) t hp)
