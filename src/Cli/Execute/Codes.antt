-- ===== src/Cli/Execute/Codes.antt =====
-- The exit codes are those of the contract document, and an error's code is in its document.
use cmdtrail.Prelude.{
  ℕ, ◌≡◌, refl, ap, subst, ◌⊎◌, inl, inr, Bool, true, false, Option, none, some, [], ◌∷◌, ◌++◌,
  if◌then◌else◌,
}
use cmdtrail.Ord.{nat_ord}
use cmdtrail.BTree.{get, collect, insert}
use cmdtrail.Text.{Text}
use cmdtrail.Result.{Result, ok, err}
use cmdtrail.Action.{Action, after}
use cmdtrail.Error.{
  AppError, ErrorDocument, ExitClass, io_class, usage_class, integrity_class, limit_class,
  execution_class, post_execution_receipt_class, exit_code_of, error_document,
}
use cmdtrail.Model.{Receipt, RecordResult}
use cmdtrail.Capability.{contract_document}
use cmdtrail.Record.Recording.{Machine}
use cmdtrail.Cli.Execute.{
  Commands, record_it, show_it, diff_them, verify_it, schema, capabilities, contract, completions,
  Document, Session, print_shown, show_receipt, diff_files, verify_file, after_record, execute,
  exit, main,
}
use cmdtrail.Cli.Execute.Vouched.{execute-Prints}

-- The contract document of that version gives the code a meaning.
abbrev pub IsDocumented : Text → ℕ → Type 0
IsDocumented version code =
    (meaning : Text) × (get (contract_document version).exit_codes code ≡ some meaning)

-- A success with a documented code, or an error.
unfoldable IsListed : Text → Result AppError ℕ → Type 0
IsListed version (ok code) = IsDocumented version code
IsListed version (err e) = Unit

class-IsDocumented : (version : Text) (c : ExitClass) → IsDocumented version (exit_code_of c)
unfolding contract_document exit_code_of get collect insert
class-IsDocumented version io_class = (_, refl)
class-IsDocumented version usage_class = (_, refl)
class-IsDocumented version integrity_class = (_, refl)
class-IsDocumented version limit_class = (_, refl)
class-IsDocumented version execution_class = (_, refl)
class-IsDocumented version post_execution_receipt_class = (_, refl)

IsListed-success : (version : Text) → IsListed version (ok 0)
unfolding contract_document get collect insert IsListed
IsListed-success version = (_, refl)

IsListed-integrity : (version : Text) → IsListed version (ok (exit_code_of integrity_class))
unfolding IsListed
IsListed-integrity version = class-IsDocumented version integrity_class

IsListed-after :
    {A C : Type 0} (version : Text) (first : C × Result AppError A) (rest : A → Action C ℕ)
    → ((a : A) (t : C) → IsListed version (rest a t).1)
    → IsListed version (after first rest).1
unfolding IsListed
IsListed-after version (t, ok a) rest there = there a t
IsListed-after version (t, err e) rest there = tt

IsListed-if :
    {C : Type 0} (version : Text) (test : Bool) (a b : Action C ℕ) (s : C)
    → IsListed version (a s).1
    → IsListed version (b s).1
    → IsListed version ((if test then a else b) s).1
IsListed-if version true a b s ha hb = ha
IsListed-if version false a b s ha hb = hb

IsListed-code :
    (version : Text) (test : Bool)
    → IsListed version (ok (if test then 0 else exit_code_of integrity_class))
IsListed-code version true = IsListed-success version
IsListed-code version false = IsListed-integrity version

ruleset listed = (IsListed-success, IsListed-integrity, IsListed-after, IsListed-if, IsListed-code)

module _ {D : Type 0} (machine : Machine D) (takes : Document → Bool) where
  print_shown-IsListed :
      (summary : Bool) (receipt : Receipt) (s : Session D)
      → IsListed machine.build.version (print_shown machine takes summary receipt s).1
  unfolding print_shown
  print_shown-IsListed summary receipt s = search listed

  ListedAtEnd : Option (Session D × Result AppError ℕ) → Type 0
  ListedAtEnd none = Unit
  ListedAtEnd (some end) = IsListed machine.build.version end.1

  after_record-IsListed :
      (s : Session D) (end : Option (D × Result AppError RecordResult))
      → ListedAtEnd (after_record machine takes s end)
  unfolding after_record ListedAtEnd
  after_record-IsListed s none = tt
  after_record-IsListed s (some (d, err e)) = unfold IsListed in tt
  after_record-IsListed s (some (d, ok result)) = search listed

  all_listed :
      (fuel : ℕ) (command : Commands) (s : Session D)
      → ListedAtEnd (execute machine takes fuel command s)
  unfolding execute ListedAtEnd show_receipt diff_files verify_file
  all_listed fuel (record_it args) s = unfold ListedAtEnd in after_record-IsListed s _
  all_listed fuel (show_it args) s = search (listed, print_shown-IsListed)
  all_listed fuel (diff_them args) s = search listed
  all_listed fuel (verify_it path) s = search listed
  all_listed fuel (schema brief) s = search listed
  all_listed fuel capabilities s = search listed
  all_listed fuel contract s = search listed
  all_listed fuel (completions shell) s = search listed

  -- An error's document is the only thing on standard error, and has the exit code.
  abbrev pub IsReported : Session D → Session D → ℕ → Type 0
  IsReported s t code =
      (t.stderr ≡ s.stderr)
      ⊎ ((document : ErrorDocument) × (t.stderr ≡ s.stderr ++ (document ∷ []))
          × (document.exit_code ≡ code))

  exit_reports :
      (s : Session D) (end : Session D × Result AppError ℕ)
      → end.0.stderr ≡ s.stderr
      → IsListed machine.build.version end.1
      → let (t, code) = exit machine takes end in
        IsDocumented machine.build.version code × IsReported s t code
  unfolding exit IsListed error_document
  exit_reports s (t, ok code) quiet IsListed-code = (IsListed-code, inl quiet)
  exit_reports s (t, err e) quiet IsListed-code = (
    class-IsDocumented machine.build.version e.class,
    inr (_, ap (λ o. o ++ (error_document machine.build.version e ∷ [])) quiet, refl),
  )

  main_from :
      (fuel : ℕ) (command : Commands) (s : Session D) (end : Option (Session D × Result AppError ℕ))
      {t : Session D} {code : ℕ}
      → execute machine takes fuel command s ≡ end
      → ListedAtEnd end
      → ◌≡◌ {A = Option (Session D × ℕ)}
          (elim end [ none ↦ none | some e ↦ some (exit machine takes e) ])
          (some (t, code))
      → IsDocumented machine.build.version code × IsReported s t code
  unfolding ListedAtEnd
  main_from fuel command s none e l made = cc
  main_from fuel command s (some (u, r)) {t} {code} e l made =
      let quiet = (execute-Prints machine takes fuel command s e).quiet in
      let same : exit machine takes (u, r) ≡ (t, code) = cc (made) in
      subst (λ end. IsDocumented machine.build.version end.1 × IsReported s end.0 end.1) same
        (exit_reports s (u, r) quiet l)

  -- The exit code of the program is one that the contract document explains, and standard error gets
  -- no document from the program, or one with that exit code.
  pub main-IsDocumented :
      (fuel : ℕ) (command : Commands) (s : Session D) {t : Session D} {code : ℕ}
      → main machine takes fuel command s ≡ some (t, code)
      → IsDocumented machine.build.version code × IsReported s t code
  unfolding main
  main-IsDocumented fuel command s made =
      main_from fuel command s (execute machine takes fuel command s) refl
        (all_listed fuel command s) made
