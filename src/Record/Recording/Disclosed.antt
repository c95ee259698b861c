-- ===== src/Record/Recording/Disclosed.antt =====
-- What a sealed receipt says that it does not know.
use cmdtrail.Prelude.{
  ◌≡◌, refl, sym, ◌∙◌, subst, Bool, true, false, List, [], ◌∷◌, ◌++◌, All, All-append, All-imp,
  OneOf, inl, inr, ltb, append-nil, append_assoc,
}
use cmdtrail.Text.{Text, codes}
use cmdtrail.Result.{ok}
use cmdtrail.Model.{Receipt, ReceiptSummary}
use cmdtrail.Record.{RecordOptions, validate_options}
use cmdtrail.Record.Draft.{
  Prepared, Observed, dynamic_blind_spots, push_if, fixed_blind_spots, observation_of,
  draft_receipt,
}
use cmdtrail.Record.Recording.{Machine, seal}
use cmdtrail.Record.Recording.Sound.{shown, seal-IsSound}

abbrev pub cut_line : Text
cut_line = codes "at least one snapshot hit the entry limit; omitted path count is unknown"

abbrev pub errors_line : Text
errors_line = codes "at least one path could not be traversed or read; see per-root error classes"

abbrev pub dropped_line : Text
dropped_line = codes "file effects exceeded the event limit; summary counts include dropped events"

abbrev pub line_if : Bool → Text → List Text
line_if true line = line ∷ []
line_if false line = []

-- The lines that a summary calls for.
abbrev pub called_for : ReceiptSummary → List Text
called_for summary =
    line_if summary.snapshot_truncated cut_line
    ++ (line_if (ltb 0 summary.traversal_errors) errors_line
        ++ line_if (ltb 0 summary.dropped_file_effects) dropped_line)

abbrev pub AllIn : List Text → List Text → Type 0
AllIn lines spots = All (λ line. OneOf line spots) lines

OneOf-left : {A : Type 0} (a : A) (xs ys : List A) → OneOf a xs → OneOf a (xs ++ ys)
OneOf-left a [] ys m = absurd m
OneOf-left a (x ∷ xs) ys (inl e) = inl e
OneOf-left a (x ∷ xs) ys (inr m) = inr (OneOf-left a xs ys m)

OneOf-right : {A : Type 0} (a : A) (xs ys : List A) → OneOf a ys → OneOf a (xs ++ ys)
OneOf-right a [] ys m = m
OneOf-right a (x ∷ xs) ys m = inr (OneOf-right a xs ys m)

AllIn-refl : (xs : List Text) → AllIn xs xs
AllIn-refl [] = tt
AllIn-refl (x ∷ xs) = (inl refl, All-imp (λ y m. inr m) xs (AllIn-refl xs))

push_if-AllIn :
    (test : Bool) (line : Text) (lines xs : List Text)
    → AllIn xs lines
    → AllIn (xs ++ line_if test line) (push_if test line lines)
push_if-AllIn true line lines xs h =
    All-append (λ y. OneOf y (lines ++ (line ∷ []))) xs (line ∷ [])
      (All-imp (λ y m. OneOf-left y lines (line ∷ []) m) xs h)
      (OneOf-right line lines (line ∷ []) (inl refl), tt)
push_if-AllIn false line lines xs h = rw (append-nil xs) h

AllIn-fixed : (xs ys spots : List Text) → AllIn ys spots → AllIn (xs ++ ys) (xs ++ spots)
AllIn-fixed xs ys spots h =
    All-append (λ y. OneOf y (xs ++ spots)) xs ys
      (All-imp (λ y m. OneOf-left y xs spots m) xs (AllIn-refl xs))
      (All-imp (λ y m. OneOf-right y xs spots m) ys h)

dynamic-AllIn :
    (of_run : List Text) (summary : ReceiptSummary)
    → AllIn (of_run ++ called_for summary) (
        dynamic_blind_spots of_run summary.snapshot_truncated summary.traversal_errors
          summary.dropped_file_effects)
unfolding dynamic_blind_spots
dynamic-AllIn of_run s =
    let cut = line_if s.snapshot_truncated cut_line in
    let errors = line_if (ltb 0 s.traversal_errors) errors_line in
    let dropped = line_if (ltb 0 s.dropped_file_effects) dropped_line in
    let spots = push_if s.snapshot_truncated cut_line of_run in
    let more = push_if (ltb 0 s.traversal_errors) errors_line spots in
    let all : AllIn (((of_run ++ cut) ++ errors) ++ dropped)
        (push_if (ltb 0 s.dropped_file_effects) dropped_line more) =
      push_if-AllIn (ltb 0 s.dropped_file_effects) dropped_line more ((of_run ++ cut) ++ errors) (
        push_if-AllIn (ltb 0 s.traversal_errors) errors_line spots (of_run ++ cut)
          (push_if-AllIn s.snapshot_truncated cut_line of_run of_run (AllIn-refl of_run))) in
    subst (λ lines. AllIn lines (push_if (ltb 0 s.dropped_file_effects) dropped_line more))
      (append_assoc (of_run ++ cut) errors dropped ∙ append_assoc of_run cut (errors ++ dropped))
      all

module _ {D : Type 0} (machine : Machine D) (o : RecordOptions) (p : Prepared) (seen : Observed)
    {receipt : Receipt} where
  -- A sealed receipt names among its known blind spots every one that any recording has, every one that
  -- the run left, and those that its own summary calls for: that a snapshot was cut off, that a path
  -- could not be read, that effects were dropped. The options are within their limits.
  pub seal_discloses :
      validate_options o ≡ ok tt
      → seal machine o p seen ≡ ok receipt
      → AllIn
          (fixed_blind_spots ++ (seen.run.1 ++ called_for receipt.summary))
          receipt.observation.known_blind_spots
  unfolding draft_receipt observation_of
  seal_discloses valid sealed =
      let sound = seal-IsSound machine o p seen valid sealed in
      let drafted =
        draft_receipt machine.hashing.sha256 machine.build o p seen (shown machine o p seen)
          receipt.events in
      subst
        (λ (r : Receipt).
          AllIn (fixed_blind_spots ++ (seen.run.1 ++ called_for r.summary))
            r.observation.known_blind_spots)
        (sym sound.drafted)
        (AllIn-fixed fixed_blind_spots (seen.run.1 ++ called_for drafted.summary) _
          (dynamic-AllIn seen.run.1 drafted.summary))
