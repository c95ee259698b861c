-- ===== src/Redact/Arguments.antt =====
-- The redacted arguments: which digests are kept, how redactions are counted, and that the
-- value behind a sensitive flag has no influence on the receipt.
use cmdtrail.Prelude.{
  ◌≡◌, refl, ◌∙◌, ap, Bool, true, false, Option, none, some, List, [], ◌∷◌, ◌++◌, arith, map, min,
  u64_max, length, length-map,
}
use cmdtrail.Text.{Text, Bytes, codes, split_once, starts_with, to_ascii_lowercase}
use cmdtrail.Encoding.{sha256_bytes}
use cmdtrail.Redact.{
  Redactor, ArgumentState, no_arguments, text, apply_key, argument_step, arguments_loop,
  redact_command, command, sensitive_key,
}
use cmdtrail.Redact.Paths.{slashed, text-unchanged}
use cmdtrail.Redact.Loop.{
  omitted, apply_key-unchanged, apply_url-unchanged, show_argument, show_arguments, loop-displays,
  loop-digests, loop-count, length-show_arguments,
}

module _ (sha256 : Bytes → Bytes) (r : Redactor) where
  -- The receipt has a display and a digest slot for every argument, and `redacted_arguments` counts
  -- the omitted digests (up to the largest `u64`).
  pub command_counts :
      (executable : Bytes) (args : List Bytes)
      → let shown = command sha256 r (executable ∷ args) in
        (length shown.argument_displays ≡ length args)
        × (length shown.argument_sha256 ≡ length args)
        × (shown.redacted_arguments ≡ min (omitted shown.argument_sha256) u64_max)
  unfolding command redact_command
  command_counts executable args = (
    ap length (loop-displays sha256 r args no_arguments)
        ∙ (length-map _ (show_arguments sha256 r false args)
            ∙ length-show_arguments sha256 r false args),
    ap length (loop-digests sha256 r args no_arguments)
        ∙ (length-map _ (show_arguments sha256 r false args)
            ∙ length-show_arguments sha256 r false args),
    loop-count sha256 r args no_arguments (omega arith),
  )

  -- Each argument in turn: where the digest is kept, it is the digest of the argument and the
  -- display is the argument, back slashes as slashes.
  abbrev pub IsHonest : List Bytes → List Text → List (Option Text) → Type 0
  IsHonest [] [] [] = Unit
  IsHonest (a ∷ args) (t ∷ ts) (none ∷ ds) = IsHonest args ts ds
  IsHonest (a ∷ args) (t ∷ ts) (some d ∷ ds) =
      (t ≡ slashed a) × (d ≡ sha256_bytes sha256 a) × IsHonest args ts ds
  IsHonest _ _ _ = ⊥

  show_argument_honest :
      (next : Bool) (a : Bytes) (d : Text)
      → (show_argument sha256 r next a).1 ≡ some d
      → ((show_argument sha256 r next a).0 ≡ slashed a) × (d ≡ sha256_bytes sha256 a)
  unfolding show_argument
  show_argument_honest true a d h = cc
  show_argument_honest false a d h = ground (
    arith,
    text-unchanged sha256 r a,
    apply_key-unchanged (text sha256 r a).0 (text sha256 r a).1,
    apply_url-unchanged (apply_key (text sha256 r a)).0 (apply_key (text sha256 r a)).1,
  )

  show_arguments-IsHonest :
      (next : Bool) (args : List Bytes)
      → IsHonest args
          (map (λ e. e.0) (show_arguments sha256 r next args))
          (map (λ e. e.1) (show_arguments sha256 r next args))
  unfolding show_arguments
  show_arguments-IsHonest next [] = tt
  show_arguments-IsHonest next (a ∷ args) =
      by_digest (show_argument sha256 r next a).1 (show_argument_honest next a)
        (show_arguments-IsHonest (show_argument sha256 r next a).2 args)
    where
      shown : List (Text × Option Text)
      shown = show_arguments sha256 r (show_argument sha256 r next a).2 args

      by_digest :
          (d : Option Text)
          → ((e : Text)
              → d ≡ some e
              → ((show_argument sha256 r next a).0 ≡ slashed a) × (e ≡ sha256_bytes sha256 a))
          → IsHonest args (map (λ e. e.0) shown) (map (λ e. e.1) shown)
          → IsHonest
              (a ∷ args)
              ((show_argument sha256 r next a).0 ∷ map (λ e. e.0) shown)
              (d ∷ map (λ e. e.1) shown)
      by_digest none one rest = rest
      by_digest (some e) one rest = ((one e refl).0, (one e refl).1, rest)

  -- Wherever the receipt keeps an argument's digest, that is the SHA-256 digest of the argument,
  -- and the argument is shown in full (back slashes as slashes).
  pub command-IsHonest :
      (executable : Bytes) (args : List Bytes)
      → let shown = command sha256 r (executable ∷ args) in
        IsHonest args shown.argument_displays shown.argument_sha256
  unfolding command redact_command
  command-IsHonest executable args =
      rw (loop-displays sha256 r args no_arguments, loop-digests sha256 r args no_arguments)
        (show_arguments-IsHonest false args)

  -- Whether the loop takes the next argument for a secret after the given ones.
  unfoldable pub awaits_secret : List Bytes → Bool
  awaits_secret args = (arguments_loop sha256 r no_arguments args).redact_next

  arguments_loop-append :
      (xs ys : List Bytes) (s : ArgumentState)
      → arguments_loop sha256 r s (xs ++ ys)
        ≡ arguments_loop sha256 r (arguments_loop sha256 r s xs) ys
  unfolding arguments_loop
  arguments_loop-append [] ys s = refl
  arguments_loop-append (x ∷ xs) ys s = arguments_loop-append xs ys (argument_step sha256 r s x)

  -- A flag whose shown form has a sensitive name, begins with a dash and carries no value itself.
  pub record IsSecretFlag (flag : Bytes) : Type 0 where
    pub no_value : split_once (text sha256 r flag).0 (codes "=") ≡ none
    pub dashed : starts_with (to_ascii_lowercase (text sha256 r flag).0) (codes "-") ≡ true
    pub sensitive : sensitive_key (to_ascii_lowercase (text sha256 r flag).0) ≡ true

  step_flag :
      (s : ArgumentState) (flag : Bytes)
      → s.redact_next ≡ false
      → IsSecretFlag flag
      → (argument_step sha256 r s flag).redact_next ≡ true
  unfolding argument_step apply_key
  step_flag s flag h f = ground arith

  step_secret :
      (s : ArgumentState) (secret other : Bytes)
      → s.redact_next ≡ true
      → argument_step sha256 r s secret ≡ argument_step sha256 r s other
  unfolding argument_step
  step_secret s secret other h = rw h

  loop_secret :
      (s : ArgumentState) (flag secret other : Bytes) (after : List Bytes)
      → s.redact_next ≡ false
      → IsSecretFlag flag
      → arguments_loop sha256 r s (flag ∷ secret ∷ after)
        ≡ arguments_loop sha256 r s (flag ∷ other ∷ after)
  unfolding arguments_loop
  loop_secret s flag secret other after h f =
      ap (λ t. arguments_loop sha256 r t after)
        (step_secret (argument_step sha256 r s flag) secret other (step_flag s flag h f))

  -- The value behind a sensitive flag has no influence: the redacted command, its fingerprint
  -- included, is the same for any other value. The flag must not itself stand where the loop awaits
  -- the value of an earlier flag.
  pub command-hides_secret :
      (executable : Bytes) (before after : List Bytes) (flag secret other : Bytes)
      → awaits_secret before ≡ false
      → IsSecretFlag flag
      → command sha256 r (executable ∷ (before ++ (flag ∷ secret ∷ after)))
        ≡ command sha256 r (executable ∷ (before ++ (flag ∷ other ∷ after)))
  unfolding command redact_command awaits_secret
  command-hides_secret executable before after flag secret other h f = rw (
    arguments_loop-append before (flag ∷ secret ∷ after) no_arguments,
    arguments_loop-append before (flag ∷ other ∷ after) no_arguments,
    loop_secret (arguments_loop sha256 r no_arguments before) flag secret other after h f,
  )
