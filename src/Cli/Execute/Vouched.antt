-- ===== src/Cli/Execute/Vouched.antt =====
-- What the commands print: receipts, and what is derived from them, only where they verify.
use cmdtrail.Prelude.{
  ℕ, ◌≡◌, refl, sym, ap, ◌∙◌, subst, Bool, true, false, ◌&&◌, Option, none, some, [], ◌∷◌,
  if◌then◌else◌,
}
use cmdtrail.FilePath.{FilePath}
use cmdtrail.Result.{Result, ok, err}
use cmdtrail.Action.{Action, after}
use cmdtrail.Error.{AppError}
use cmdtrail.Model.{Receipt, RecordResult, DiffResult}
use cmdtrail.Diff.{diff_receipts}
use cmdtrail.Diff.Receipts.{diff_receipts-verified}
use cmdtrail.ReceiptFile.{read_receipt}
use cmdtrail.Record.Recording.{Machine}
use cmdtrail.Cli.Execute.{
  Commands, record_it, show_it, diff_them, verify_it, schema, capabilities, contract, completions,
  Document, recorded, whole, shown, compared, verified, schema_of, capabilities_of, contract_of,
  script, ShowArgs, DiffArgs, Session, on_disk, print_json, print_shown, show_receipt, diff_files,
  verify_file, after_record, execute, show_result,
}
use cmdtrail.Cli.Execute.Prints.{
  joined, IsIntact, Prints, nothing, Prints-after, Prints-if, printed_last,
}

module _ {D : Type 0} (machine : Machine D) (takes : Document → Bool) where
  print_shown-Prints :
      (summary : Bool) (receipt : Receipt) (s : Session D)
      → Prints machine s (print_shown machine takes summary receipt s).0
  unfolding print_shown
  print_shown-Prints summary receipt s =
      Prints-if machine _ _ _ s (by_summary summary)
        (λ broken. printed_last machine takes (verified _) _ s (receipt, refl))
    where
      by_summary :
          (summary : Bool)
          → IsIntact machine receipt
          → Prints machine s
              (after {B = ℕ}
                (print_json takes
                  (if summary
                    then shown (show_result machine.build.version receipt)
                    else whole receipt)
                  s)
                (λ _ t. (t, ok 0))).0
      by_summary true valid = printed_last machine takes (shown _) 0 s (receipt, valid, refl)
      by_summary false valid = printed_last machine takes (whole receipt) 0 s valid

  -- Reading a receipt prints nothing.
  read_first :
      {A : Type 0} (path : FilePath) (s : Session D) (rest : Receipt → Action (Session D) A)
      → ((t : Session D) (receipt : Receipt) → Prints machine t (rest receipt t).0)
      → Prints machine s (after (on_disk (read_receipt machine.disk machine.json path) s) rest).0
  read_first path s rest there =
      Prints-after machine s (on_disk (read_receipt machine.disk machine.json path) s) rest
        (nothing machine s _ refl refl) (λ t receipt e. there t receipt)

  both-IsIntact :
      (before later : Receipt) {result : DiffResult}
      → diff_receipts machine.hashing machine.build.version before later ≡ ok result
      → IsIntact machine before × IsIntact machine later
  both-IsIntact before later {result} e =
      by_test _ _ _ _
        (sym (diff_receipts-verified machine.hashing machine.build.version before later) ∙ e)
    where
      by_test :
          (a b : Bool) (x : DiffResult) (y : AppError)
          → ◌≡◌ {A = Result AppError DiffResult} (if a && b then ok x else err y) (ok result)
          → (a ≡ true) × (b ≡ true)
      by_test true true x y h = (refl, refl)
      by_test true false x y h = cc
      by_test false b x y h = cc

  diff_files-Prints :
      (args : DiffArgs) (s : Session D) → Prints machine s (diff_files machine takes args s).0
  unfolding diff_files
  diff_files-Prints args s = read_first args.before s _ (λ t before.
      read_first args.after t _ (λ u later.
        Prints-after machine u (u, diff_receipts machine.hashing machine.build.version before later)
          _ (nothing machine u u refl refl)
          (λ v result e.
            let made = ap (λ x. x.1) e in
            let (a, b) = both-IsIntact before later made in
            printed_last machine takes (compared result) 0 v (before, later, a, b, made))))

  verify_file-Prints :
      (path : FilePath) (s : Session D) → Prints machine s (verify_file machine takes path s).0
  unfolding verify_file
  verify_file-Prints path s =
      read_first path s _ (λ t receipt. printed_last machine takes (verified _) _ t (receipt, refl))

  show_receipt-Prints :
      (args : ShowArgs) (s : Session D) → Prints machine s (show_receipt machine takes args s).0
  unfolding show_receipt
  show_receipt-Prints args s =
      read_first args.receipt s _ (λ t receipt. print_shown-Prints args.summary receipt t)

  PrintsAtEnd : Session D → Option (Session D × Result AppError ℕ) → Type 0
  PrintsAtEnd s none = Unit
  PrintsAtEnd s (some end) = Prints machine s end.0

  after_record-Prints :
      (s : Session D) (end : Option (D × Result AppError RecordResult))
      → PrintsAtEnd s (after_record machine takes s end)
  unfolding after_record PrintsAtEnd
  after_record-Prints s none = tt
  after_record-Prints s (some (d, err e)) = nothing machine s _ refl refl
  after_record-Prints s (some (d, ok result)) =
      let left : Session D = record s { disk = d } in
      joined machine s left _ (nothing machine s left refl refl)
        (printed_last machine takes (recorded result) 0 left tt)

  all_print :
      (fuel : ℕ) (command : Commands) (s : Session D)
      → PrintsAtEnd s (execute machine takes fuel command s)
  unfolding execute PrintsAtEnd
  all_print fuel (record_it args) s = unfold PrintsAtEnd in after_record-Prints s _
  all_print fuel (show_it args) s = show_receipt-Prints args s
  all_print fuel (diff_them args) s = diff_files-Prints args s
  all_print fuel (verify_it path) s = verify_file-Prints path s
  all_print fuel (schema brief) s = printed_last machine takes (schema_of _) 0 s tt
  all_print fuel capabilities s = printed_last machine takes (capabilities_of _) 0 s tt
  all_print fuel contract s = printed_last machine takes (contract_of _) 0 s tt
  all_print fuel (completions shell) s = record {
    quiet = refl;
    documents = script shell ∷ [];
    added = refl;
    vouched = (tt, tt);
  }

  -- Whatever the command is and however it ends, it leaves standard error alone and adds only such
  -- documents to standard output: a receipt or a summary only of a receipt that verifies, a
  -- comparison only of two that do.
  pub execute-Prints :
      (fuel : ℕ) (command : Commands) (s : Session D) {t : Session D} {r : Result AppError ℕ}
      → execute machine takes fuel command s ≡ some (t, r)
      → Prints machine s t
  unfolding PrintsAtEnd
  execute-Prints fuel command s made =
      subst (λ end. PrintsAtEnd s end) made (all_print fuel command s)
