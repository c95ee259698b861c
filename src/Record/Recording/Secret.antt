-- ===== src/Record/Recording/Secret.antt =====
-- A secret behind a sensitive flag has no influence on what a recording leaves behind.
use cmdtrail.Prelude.{ℕ, ◌≡◌, refl, ap, ◌∙◌, subst, false, not, Option, none, some, List, ◌∷◌, ◌++◌}
use cmdtrail.Text.{Text, Bytes}
use cmdtrail.FilePath.{FilePath}
use cmdtrail.Result.{Result, ok, err, reject_if}
use cmdtrail.Action.{Ensures, Ensures-bind, Ensures-imp}
use cmdtrail.Error.{AppError}
use cmdtrail.Model.{RecordResult}
use cmdtrail.ReceiptFile.{preflight_new_receipt}
use cmdtrail.Redact.{Redactor, from_environment_names, command}
use cmdtrail.Redact.Arguments.{awaits_secret, IsSecretFlag, command-hides_secret}
use cmdtrail.Snapshot.Roots.{prepare_roots}
use cmdtrail.Record.{RecordOptions, validate_options}
use cmdtrail.Record.Run.{Run, run_command}
use cmdtrail.Record.Draft.{Prepared, Observed, draft_receipt, limits_record}
use cmdtrail.Record.Recording.{
  Machine, no_handler, redaction_error, resolve_working_directory, prepare, observed, events_of,
  seal, finish, after_prepare, record_command,
}

module _ {D : Type 0} (machine : Machine D) (o : RecordOptions) where
  -- The redactor of a recording is the one that is read from the environment.
  prepare_redactor :
      (s : D)
      → Ensures
          (λ p.
            redaction_error (from_environment_names machine.env_var o.redact_environment_names)
            ≡ ok p.redactor)
          (prepare machine o s)
  unfolding prepare
  prepare_redactor s =
      Ensures-bind _ (s, validate_options o) _
        λ _ t1 _. Ensures-bind _ (preflight_new_receipt machine.disk o.output t1) _ λ _ t2 _.
          Ensures-bind _
            (
              t2,
              redaction_error (from_environment_names machine.env_var o.redact_environment_names),
            )
            _
            λ redactor t3 named.
              Ensures-bind _ (t3, resolve_working_directory machine o t3) _
                λ directory t4 _.
                  Ensures-bind _
                    (
                      t4,
                      prepare_roots machine.hashing.sha256 (machine.view t4) redactor directory
                          o.roots,
                    )
                    _
                    λ roots t5 _.
                      Ensures-bind _ (t5, reject_if (not machine.handler_installed) no_handler) _
                        λ _ t6 _. named

redaction_error-ok :
    {A : Type 0} (answer : Result Text A) {a : A} → redaction_error answer ≡ ok a → answer ≡ ok a
redaction_error-ok (ok x) h = cc
redaction_error-ok (err message) h = cc

module _ {D : Type 0} (machine : Machine D) (o : RecordOptions) where
  abbrev with_command : List Bytes → RecordOptions
  with_command c = record o { command = c }

  -- A recording depends on the command by what is shown of it, and by what it does.
  finish_alike :
      (p : Prepared) (seen : Observed) (u : D) (c d : List Bytes)
      → command machine.hashing.sha256 p.redactor c ≡ command machine.hashing.sha256 p.redactor d
      → finish machine (with_command c) p seen u ≡ finish machine (with_command d) p seen u
  unfolding finish seal events_of draft_receipt limits_record
  finish_alike p seen u c d same = rw same refl

  -- What is observed depends on the command by what it makes of the disk.
  observed_alike :
      (p : Prepared) (s : D) (run : Run) (c d : List Bytes)
      → machine.meanwhile c p.working_directory s ≡ machine.meanwhile d p.working_directory s
      → observed machine (with_command c) p s run ≡ observed machine (with_command d) p s run
  unfolding observed
  observed_alike p s run c d left = rw left refl

  prepare_alike :
      (s : D) (x y : Bytes) (xs ys : List Bytes)
      → prepare machine (with_command (x ∷ xs)) s ≡ prepare machine (with_command (y ∷ ys)) s
  unfolding prepare validate_options resolve_working_directory
  prepare_alike s x y xs ys = refl

  -- From the preparation on, a recording depends on the command by what is shown of it, by what its
  -- start gives, and by what it makes of the disk.
  after_prepare_alike :
      (fuel : ℕ) (s : D) (p : Prepared) (c d : List Bytes)
      → command machine.hashing.sha256 p.redactor c ≡ command machine.hashing.sha256 p.redactor d
      → machine.start c p.working_directory s ≡ machine.start d p.working_directory s
      → machine.meanwhile c p.working_directory s ≡ machine.meanwhile d p.working_directory s
      → after_prepare machine (with_command c) fuel (s, ok p)
        ≡ after_prepare machine (with_command d) fuel (s, ok p)
  unfolding after_prepare
  after_prepare_alike fuel s p c d shown started left =
      rw (started, after_prepare)
        (by_run (
          run_command machine.flag_running o.timeout_ms fuel
            (machine.start d p.working_directory s)))
    where
      by_run :
          (answer : Option Run)
          → ◌≡◌ {A = Option (D × Result AppError RecordResult)}
              (elim answer [
                | none ↦ none
                | some r ↦ some (
                    finish machine
                      (with_command c)
                      p
                      (observed machine (with_command c) p s r)
                      (machine.meanwhile c p.working_directory s))
              ])
              (elim answer [
                | none ↦ none
                | some r ↦ some (
                    finish machine
                      (with_command d)
                      p
                      (observed machine (with_command d) p s r)
                      (machine.meanwhile d p.working_directory s))
              ])
      by_run none = refl
      by_run (some r) = ap some (
          finish_alike p (observed machine (with_command c) p s r)
            (machine.meanwhile c p.working_directory s) c d shown
          ∙ ap
              (λ seen.
                finish machine (with_command d) p seen (machine.meanwhile c p.working_directory s))
              (observed_alike p s r c d left)
          ∙ ap (finish machine (with_command d) p (observed machine (with_command d) p s r)) left)

  after_answer_alike :
      (fuel : ℕ) (answer : D × Result AppError Prepared) (c d : List Bytes)
      → ((directory : FilePath) (s : D) → machine.start c directory s ≡ machine.start d directory s)
      → ((directory : FilePath) (s : D)
          → machine.meanwhile c directory s ≡ machine.meanwhile d directory s)
      → Ensures
          (λ p.
            command machine.hashing.sha256 p.redactor c
            ≡ command machine.hashing.sha256 p.redactor d)
          answer
      → after_prepare machine (with_command c) fuel answer
        ≡ after_prepare machine (with_command d) fuel answer
  unfolding after_prepare
  after_answer_alike fuel (s, err problem) c d starts leaves shown = refl
  after_answer_alike fuel (s, ok p) c d starts leaves shown =
      after_prepare_alike fuel s p c d shown (starts p.working_directory s)
        (leaves p.working_directory s)

  -- The value behind a sensitive flag has no influence on a recording: what is left on the disk, with
  -- the receipt, and what is reported are the same for any other value with which, in every directory
  -- and from every state of the disk, the start of the command gives the same child and the command
  -- leaves the same disk. The flag is sensitive to the redactor that the environment gives, and does not itself stand
  -- where the value of an earlier flag is awaited.
  pub record_command-hides_secret :
      (r : Redactor) (executable : Bytes) (before after : List Bytes) (flag secret other : Bytes)
      → from_environment_names machine.env_var o.redact_environment_names ≡ ok r
      → awaits_secret machine.hashing.sha256 r before ≡ false
      → IsSecretFlag machine.hashing.sha256 r flag
      → ((directory : FilePath) (s : D)
          → machine.start (executable ∷ (before ++ (flag ∷ secret ∷ after))) directory s
            ≡ machine.start (executable ∷ (before ++ (flag ∷ other ∷ after))) directory s)
      → ((directory : FilePath) (s : D)
          → machine.meanwhile (executable ∷ (before ++ (flag ∷ secret ∷ after))) directory s
            ≡ machine.meanwhile (executable ∷ (before ++ (flag ∷ other ∷ after))) directory s)
      → (fuel : ℕ) (s : D)
      → record_command machine
          (with_command (executable ∷ (before ++ (flag ∷ secret ∷ after))))
          fuel
          s
        ≡ record_command machine
            (with_command (executable ∷ (before ++ (flag ∷ other ∷ after))))
            fuel
            s
  unfolding record_command
  record_command-hides_secret r executable before after flag secret other made free is starts leaves
        fuel s =
      after_answer_alike fuel (prepare machine (with_command (c secret)) s) (c secret) (c other)
        starts leaves
        (Ensures-imp hidden (prepare machine (with_command (c secret)) s)
          (prepare_redactor machine (with_command (c secret)) s))
      ∙ ap (after_prepare machine (with_command (c other)) fuel)
          (prepare_alike s executable executable _ _)
    where
      c : Bytes → List Bytes
      c x = executable ∷ (before ++ (flag ∷ x ∷ after))

      hidden :
          (p : Prepared)
          → redaction_error (from_environment_names machine.env_var o.redact_environment_names)
            ≡ ok p.redactor
          → command machine.hashing.sha256 p.redactor (c secret)
            ≡ command machine.hashing.sha256 p.redactor (c other)
      hidden p named =
          let same : r ≡ p.redactor = cc (made, redaction_error-ok _ named) in
          subst
            (λ x.
              command machine.hashing.sha256 x (c secret)
              ≡ command machine.hashing.sha256 x (c other))
            same
            (command-hides_secret machine.hashing.sha256 r executable before after flag secret other
              free is)
