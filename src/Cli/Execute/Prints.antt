-- ===== src/Cli/Execute/Prints.antt =====
-- What may be printed, and steps of a session that print nothing else.
use cmdtrail.Prelude.{
  ℕ, ◌≡◌, refl, sym, ap, ◌∙◌, inl, inr, Bool, true, false, Bool-cases, List, [], ◌∷◌, ◌++◌,
  if◌then◌else◌, append-nil, append_assoc, All,
}
use cmdtrail.Result.{Result, ok, err}
use cmdtrail.Action.{Action, after}
use cmdtrail.Error.{AppError}
use cmdtrail.Model.{Receipt}
use cmdtrail.Integrity.{verify_receipt}
use cmdtrail.Diff.{diff_receipts}
use cmdtrail.Record.Recording.{Machine}
use cmdtrail.Cli.Execute.{
  Document, whole, shown, compared, verified, Session, print_json, show_result,
}

module _ {D : Type 0} (machine : Machine D) where
  abbrev pub IsIntact : Receipt → Type 0
  IsIntact receipt =
      (verify_receipt machine.hashing machine.build.version receipt).integrity_valid ≡ true

  -- A receipt that is printed verifies, a summary is of one that does, a comparison is of two, and a
  -- report is of the receipt that it names.
  abbrev pub IsVouched : Document → Type 0
  IsVouched (whole receipt) = IsIntact receipt
  IsVouched (shown summary) =
      (receipt : Receipt) × IsIntact receipt × (summary ≡ show_result machine.build.version receipt)
  IsVouched (compared result) =
      (before : Receipt) × (after : Receipt) × IsIntact before
      × IsIntact after
      × (diff_receipts machine.hashing machine.build.version before after ≡ ok result)
  IsVouched (verified report) =
      (receipt : Receipt) × (report ≡ verify_receipt machine.hashing machine.build.version receipt)
  IsVouched _ = Unit

  -- From one session to the next, such documents are added to standard output, and nothing else.
  pub record Prints (s t : Session D) : Type 0 where
    pub quiet : t.stderr ≡ s.stderr
    pub documents : List Document
    pub added : t.stdout ≡ s.stdout ++ documents
    pub vouched : All IsVouched documents

  pub nothing : (s t : Session D) → t.stderr ≡ s.stderr → t.stdout ≡ s.stdout → Prints s t
  nothing s t e o = record {
    quiet = e;
    documents = [];
    added = o ∙ sym (append-nil s.stdout);
    vouched = tt;
  }

  All-append :
      (xs ys : List Document) → All IsVouched xs → All IsVouched ys → All IsVouched (xs ++ ys)
  All-append [] ys hx hy = hy
  All-append (x ∷ xs) ys hx hy = (hx.0, All-append xs ys hx.1 hy)

  pub joined : (s t u : Session D) → Prints s t → Prints t u → Prints s u
  joined s t u a b = record {
    quiet = b.quiet ∙ a.quiet;
    documents = a.documents ++ b.documents;
    added =
        b.added
        ∙ ap (λ o. o ++ b.documents) a.added
        ∙ append_assoc s.stdout a.documents b.documents;
    vouched = All-append a.documents b.documents a.vouched b.vouched;
  }

  module _ {A B : Type 0} where
    pub Prints-after :
        (s : Session D) (first : Session D × Result AppError A) (rest : A → Action (Session D) B)
        → Prints s first.0
        → ((t : Session D) (a : A) → first ≡ (t, ok a) → Prints t (rest a t).0)
        → Prints s (after first rest).0
    Prints-after s (t, ok a) rest here there = joined s t _ here (there t a refl)
    Prints-after s (t, err e) rest here there = here

  pub Prints-if :
      (test : Bool) (a b : Action (Session D) ℕ) (s : Session D)
      → (test ≡ true → Prints s (a s).0)
      → (test ≡ false → Prints s (b s).0)
      → Prints s ((if test then a else b) s).0
  Prints-if true a b s yes_case no_case = yes_case refl
  Prints-if false a b s yes_case no_case = no_case refl

  printed :
      (takes : Document → Bool) (document : Document) (s : Session D)
      → IsVouched document
      → Prints s (print_json takes document s).0
  unfolding print_json
  printed takes document s h = elim (Bool-cases (takes document)) [
    | inl e ↦
        rw e (record { quiet = refl; documents = document ∷ []; added = refl; vouched = (h, tt) })
    | inr e ↦ rw e (nothing s s refl refl)
  ]

  -- A document is printed, and the command ends.
  pub printed_last :
      (takes : Document → Bool) (document : Document) (code : ℕ) (s : Session D)
      → IsVouched document
      → Prints s (after (print_json takes document s) (λ _ t. (t, ok code))).0
  printed_last takes document code s h =
      Prints-after s (print_json takes document s) _ (printed takes document s h)
        (λ t _ e. nothing t t refl refl)
