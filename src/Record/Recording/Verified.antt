-- ===== src/Record/Recording/Verified.antt =====
-- A recording that succeeds has left its receipt where it was asked for.
use cmdtrail.Prelude.{ℕ, ◌≡◌, not, refl, sym, ap, ◌∙◌, subst, Option, none, some}
use cmdtrail.Result.{Result, ok, err, reject_if}
use cmdtrail.Action.{look, give, after-eq-ok, Keeps-bind}
use cmdtrail.Error.{AppError}
use cmdtrail.Model.{Receipt, RecordResult}
use cmdtrail.Disk.{IsDisk}
use cmdtrail.ReceiptFile.{preflight_new_receipt}
use cmdtrail.ReceiptFile.Preflight.{preflight_new_receipt-IsFree}
use cmdtrail.Redact.{from_environment_names}
use cmdtrail.Snapshot.Roots.{prepare_roots}
use cmdtrail.Record.{RecordOptions, validate_options}
use cmdtrail.Record.Run.{Run, run_command}
use cmdtrail.Record.Persist.{persist_receipt_with_recovery}
use cmdtrail.Record.Persist.Saved.{IsSaved, IsPersisted, persist_receipt_with_recovery-IsPersisted}
use cmdtrail.Record.Draft.{Prepared, Observed}
use cmdtrail.Record.Recording.Sound.{IsSound, seal-IsSound}
use cmdtrail.Record.Recording.{
  no_handler, redaction_error, resolve_working_directory, Machine, prepare, seal, observed, finish,
  after_prepare, record_command, record_result,
}

module _ {D : Type 0} (machine : Machine D) (o : RecordOptions) where
  -- The preparation changes nothing.
  pub prepare_keeps : (s : D) → (prepare machine o s).0 ≡ s
  unfolding prepare
  prepare_keeps =
      Keeps-bind (give (validate_options o)) _ (λ s. refl)
        (λ _.
          Keeps-bind (preflight_new_receipt machine.disk o.output) _
            (λ s. (preflight_new_receipt-IsFree machine.disk s o.output).0)
            (λ _.
              Keeps-bind
                (give (
                  redaction_error
                    (from_environment_names machine.env_var o.redact_environment_names)))
                _ (λ s. refl)
                (λ redactor.
                  Keeps-bind (look (resolve_working_directory machine o)) _ (λ s. refl)
                    (λ directory.
                      Keeps-bind
                        (look (λ s.
                          prepare_roots machine.hashing.sha256 (machine.view s) redactor directory
                            o.roots))
                        _ (λ s. refl)
                        (λ roots.
                          Keeps-bind (give (reject_if (not machine.handler_installed) no_handler)) _
                            (λ s. refl) (λ _ s. refl))))))

  pub prepare_valid :
      (s : D) {t : D} {p : Prepared} → prepare machine o s ≡ (t, ok p) → validate_options o ≡ ok tt
  unfolding prepare
  prepare_valid s {t} made =
      let (_, _, e, _) = after-eq-ok (s, validate_options o) _ made in ap (λ p. p.1) e

  -- The receipt of a recording that saw `seen` after its preparation gave `p`: sound, at the path of
  -- the options as JSON and a line feed, and what the result is about.
  pub record IsReceiptOf (p : Prepared) (seen : Observed) (t : D) (result : RecordResult)
      : Type 0 where
    pub receipt : Receipt
    pub result_of : result ≡ record_result machine.build.version receipt
    pub sound : IsSound machine o p seen receipt
    pub saved : IsSaved machine.disk machine.json t o.output receipt

  -- The receipt of what a recording from the disk `s` prepared and saw.
  pub record Delivers (fuel : ℕ) (s t : D) (result : RecordResult) : Type 0 where
    pub p : Prepared
    pub run : Run
    pub prepared : prepare machine o s ≡ (s, ok p)
    pub ran :
        run_command machine.flag_running o.timeout_ms fuel
          (machine.start o.command p.working_directory s)
        ≡ some run
    pub receipt_of : IsReceiptOf p (observed machine o p s run) t result

  persisted :
      (lawful : IsDisk machine.disk) (u : D) (receipt : Receipt) {t : D}
      → persist_receipt_with_recovery machine.disk machine.json o.output receipt u ≡ (t, ok tt)
      → IsSaved machine.disk machine.json t o.output receipt
  persisted lawful u receipt e =
      subst
        (λ (end : D × Result AppError (Unit {0})).
          IsPersisted machine.disk machine.json u end.0 o.output receipt end.1)
        e
        (persist_receipt_with_recovery-IsPersisted machine.disk lawful machine.json u o.output
          receipt)

  finish-IsReceiptOf :
      (lawful : IsDisk machine.disk) (p : Prepared) (seen : Observed) (u : D) {t : D}
      {result : RecordResult}
      → validate_options o ≡ ok tt
      → finish machine o p seen u ≡ (t, ok result)
      → IsReceiptOf p seen t result
  unfolding finish
  finish-IsReceiptOf lawful p seen u {t} {result} valid made =
      let (v, receipt, sealed, more) = after-eq-ok (u, seal machine o p seen) _ made in
      let (w, done, kept, last) =
        after-eq-ok (persist_receipt_with_recovery machine.disk machine.json o.output receipt v) _
          more in
      let is : seal machine o p seen ≡ ok receipt = ap (λ x. x.1) sealed in
      let same : w ≡ t = ap (λ x. x.0) last in
      record {
        receipt = receipt;
        result_of = cc (last);
        sound = seal-IsSound machine o p seen valid is;
        saved =
            subst (λ x. IsSaved machine.disk machine.json x o.output receipt) same
              (persisted lawful v receipt kept);
      }

  -- A recording that ends after its preparation does so by the end of its command.
  pub after_prepare-some :
      (fuel : ℕ) (s : D) (p : Prepared) {end : D × Result AppError RecordResult}
      → after_prepare machine o fuel (s, ok p) ≡ some end
      → (run : Run) × (run_command machine.flag_running o.timeout_ms fuel
            (machine.start o.command p.working_directory s)
          ≡ some run)
        × (finish machine o p
              (observed machine o p s run)
              (machine.meanwhile o.command p.working_directory s)
            ≡ end)
  unfolding after_prepare
  after_prepare-some fuel s p {end} made =
      by_run
        (run_command machine.flag_running o.timeout_ms fuel
          (machine.start o.command p.working_directory s))
        made
    where
      by_run :
          (answer : Option Run)
          → ◌≡◌ {A = Option (D × Result AppError RecordResult)}
              (elim answer [
                | none ↦ none
                | some r ↦ some (
                    finish machine o p
                      (observed machine o p s r)
                      (machine.meanwhile o.command p.working_directory s))
              ])
              (some end)
          → (run : Run) × (answer ≡ some run)
            × (finish machine o p
                  (observed machine o p s run)
                  (machine.meanwhile o.command p.working_directory s)
                ≡ end)
      by_run none e = cc
      by_run (some r) e = (r, refl, cc (e))

  after_prepare-err :
      (fuel : ℕ) (s : D) (e : AppError) {t : D} {result : RecordResult}
      → after_prepare machine o fuel (s, err e) ≡ some (t, ok result)
      → ⊥
  unfolding after_prepare
  after_prepare-err fuel s e made = cc (made)

  by_prepared :
      (lawful : IsDisk machine.disk) (fuel : ℕ) (s : D) (answer : D × Result AppError Prepared)
      {t : D} {result : RecordResult}
      → answer.0 ≡ s
      → prepare machine o s ≡ answer
      → after_prepare machine o fuel answer ≡ some (t, ok result)
      → Delivers fuel s t result
  by_prepared lawful fuel s (u, err e) same h made = absurd (after_prepare-err fuel u e made)
  by_prepared lawful fuel s (u, ok p) {t} {result} same h made =
      let whole : prepare machine o s ≡ (s, ok p) = h ∙ ap (λ x. (x, ok p)) same in
      let (run, ran, finished) =
        after_prepare-some fuel s p
          (ap (λ x. after_prepare machine o fuel (x, ok p)) (sym same) ∙ made) in
      record {
        p = p;
        run = run;
        prepared = whole;
        ran = ran;
        receipt_of =
            finish-IsReceiptOf lawful p (observed machine o p s run)
              (machine.meanwhile o.command p.working_directory s) (prepare_valid s whole) finished;
      }

  -- When `record` succeeds, a receipt is at the path that the options give, as JSON and a line feed,
  -- and what is reported is about that receipt. It verifies and has at most as many events as the
  -- options allow: the command that was started, how it ended, and the first differences between the
  -- snapshots of the disk before the command and after it. But for its digests it is the draft of
  -- what was observed. The disk behaves as documented.
  pub record_command-Delivers :
      (lawful : IsDisk machine.disk) (fuel : ℕ) (s : D) {t : D} {result : RecordResult}
      → record_command machine o fuel s ≡ some (t, ok result)
      → Delivers fuel s t result
  unfolding record_command
  record_command-Delivers lawful fuel s made =
      by_prepared lawful fuel s (prepare machine o s) (prepare_keeps s) refl made
