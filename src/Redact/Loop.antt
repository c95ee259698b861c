-- ===== src/Redact/Loop.antt =====
-- The loop over the arguments, as a function from the arguments to displays beside digests.
use cmdtrail.Prelude.{
  ℕ, suc, ◌+◌, ◌≡◌, refl, sym, ◌∙◌, ap, Bool, true, false, Option, none, some, List, [], ◌∷◌, ◌++◌,
  arith, map, if◌then◌else◌, saturating_add, min, u64_max, length, append_assoc, append-nil,
}
use cmdtrail.Text.{Text, Bytes}
use cmdtrail.Text.Search.{eq_of_text_eq}
use cmdtrail.Encoding.{sha256_bytes}
use cmdtrail.Redact.{
  Redactor, ArgumentState, text, apply_key, apply_url, redact_url, redacted, argument_step,
  arguments_loop,
}

-- How many digests are left out.
abbrev pub omitted : List (Option Text) → ℕ
omitted [] = 0
omitted (none ∷ ds) = suc (omitted ds)
omitted (some d ∷ ds) = omitted ds

pub omitted-append : (ds es : List (Option Text)) → omitted (ds ++ es) ≡ omitted ds + omitted es
omitted-append [] es = omega arith
omitted-append (none ∷ ds) es = omega (arith, omitted-append ds es)
omitted-append (some d ∷ ds) es = omitted-append ds es

pub apply_key-unchanged :
    (display : Text) (hit : Bool)
    → (apply_key (display, hit)).1 ≡ false
    → ((apply_key (display, hit)).0 ≡ display) × (hit ≡ false)
unfolding apply_key
apply_key-unchanged display hit h = ground arith

pub apply_url-unchanged :
    (display : Text) (hit : Bool)
    → (apply_url (display, hit)).1 ≡ false
    → ((apply_url (display, hit)).0 ≡ display) × (hit ≡ false)
unfolding apply_url
apply_url-unchanged display hit h = ground (arith, eq_of_text_eq (redact_url display) display)

module _ (sha256 : Bytes → Bytes) (r : Redactor) where
  -- One argument on its own: its display, its digest, and whether the next one is a secret.
  unfoldable pub show_argument : Bool → Bytes → Text × Option Text × Bool
  show_argument true argument = (redacted, none, false)
  show_argument false argument =
      let (keyed, keyed_hit, next) = apply_key (text sha256 r argument) in
      let (display, hit) = apply_url (keyed, keyed_hit) in
      (display, if hit then none else some (sha256_bytes sha256 argument), next)

  -- The arguments from left to right, as displays beside their digests.
  unfoldable pub show_arguments : Bool → List Bytes → List (Text × Option Text)
  show_arguments next [] = []
  show_arguments next (argument ∷ rest) =
      let (display, digest, next') = show_argument next argument in
      (display, digest) ∷ show_arguments next' rest

  abbrev counted : Option Text → ℕ → ℕ
  counted none n = saturating_add n 1
  counted (some d) n = n

  -- What one round does to the four fields of the state.
  record Stepped (s t : ArgumentState) (shown : Text × Option Text × Bool) : Type 0 where
    displays : t.argument_displays ≡ s.argument_displays ++ (shown.0 ∷ [])
    digests : t.argument_sha256 ≡ s.argument_sha256 ++ (shown.1 ∷ [])
    count : t.redacted_arguments ≡ counted shown.1 s.redacted_arguments
    next : t.redact_next ≡ shown.2

  step-Stepped :
      (s : ArgumentState) (a : Bytes)
      → Stepped s (argument_step sha256 r s a) (show_argument s.redact_next a)
  unfolding argument_step show_argument
  step-Stepped s a = ground arith

  pub loop-displays :
      (args : List Bytes) (s : ArgumentState)
      → (arguments_loop sha256 r s args).argument_displays
        ≡ s.argument_displays ++ map (λ e. e.0) (show_arguments s.redact_next args)
  unfolding arguments_loop show_arguments
  loop-displays [] s = sym (append-nil s.argument_displays)
  loop-displays (a ∷ rest) s =
      let step = step-Stepped s a in
      loop-displays rest (argument_step sha256 r s a)
      ∙ rw (step.displays, step.next) (append_assoc s.argument_displays _ _)

  pub loop-digests :
      (args : List Bytes) (s : ArgumentState)
      → (arguments_loop sha256 r s args).argument_sha256
        ≡ s.argument_sha256 ++ map (λ e. e.1) (show_arguments s.redact_next args)
  unfolding arguments_loop show_arguments
  loop-digests [] s = sym (append-nil s.argument_sha256)
  loop-digests (a ∷ rest) s =
      let step = step-Stepped s a in
      loop-digests rest (argument_step sha256 r s a)
      ∙ rw (step.digests, step.next) (append_assoc s.argument_sha256 _ _)

  pub loop-count :
      (args : List Bytes) (s : ArgumentState)
      → s.redacted_arguments ≡ min (omitted s.argument_sha256) u64_max
      → (arguments_loop sha256 r s args).redacted_arguments
        ≡ min (omitted (arguments_loop sha256 r s args).argument_sha256) u64_max
  unfolding arguments_loop
  loop-count [] s h = h
  loop-count (a ∷ rest) s h =
      loop-count rest (argument_step sha256 r s a)
        (kept (show_argument s.redact_next a).1 step.count step.digests)
    where
      step : Stepped s (argument_step sha256 r s a) (show_argument s.redact_next a)
      step = step-Stepped s a

      kept :
          (d : Option Text)
          → (argument_step sha256 r s a).redacted_arguments ≡ counted d s.redacted_arguments
          → (argument_step sha256 r s a).argument_sha256 ≡ s.argument_sha256 ++ (d ∷ [])
          → (argument_step sha256 r s a).redacted_arguments
            ≡ min (omitted (argument_step sha256 r s a).argument_sha256) u64_max
      kept none c e = rw e (omega (arith, c, h, omitted-append s.argument_sha256 (none ∷ [])))
      kept (some d) c e = rw e (omega (arith, c, h, omitted-append s.argument_sha256 (some d ∷ [])))

  pub length-show_arguments :
      (next : Bool) (args : List Bytes) → length (show_arguments next args) ≡ length args
  unfolding show_arguments
  length-show_arguments next [] = refl
  length-show_arguments next (a ∷ rest) =
      ap suc (length-show_arguments (show_argument next a).2 rest)
