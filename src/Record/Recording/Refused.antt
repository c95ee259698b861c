-- ===== src/Record/Recording/Refused.antt =====
-- What the errors of a recording mean: no receipt and nothing changed by the recording itself, or a
-- receipt that the error accounts for.
use cmdtrail.Prelude.{ℕ, ◌≡◌, refl, sym, ap, ◌∙◌, subst, ◌⊎◌, inl, inr, true, false, some}
use cmdtrail.Result.{Result, ok, err}
use cmdtrail.Error.{AppError}
use cmdtrail.Model.{Receipt}
use cmdtrail.Disk.{IsDisk}
use cmdtrail.Integrity.{verify_receipt}
use cmdtrail.Action.{after}
use cmdtrail.Record.{RecordOptions, validate_options}
use cmdtrail.Record.Persist.{persist_receipt_with_recovery}
use cmdtrail.Record.Persist.Saved.{Explains, IsPersisted, persist_receipt_with_recovery-IsPersisted}
use cmdtrail.Record.Draft.{Prepared, Observed}
use cmdtrail.Record.Recording.{
  Machine, prepare, seal, observed, finish, after_prepare, record_command, record_result,
}
use cmdtrail.Record.Recording.Early.{is_late, is_late-early, prepare-IsEarly, seal-IsEarly}
use cmdtrail.Record.Recording.Verified.{prepare_keeps, prepare_valid, after_prepare-some}
use cmdtrail.Record.Recording.Sound.{seal-IsSound}

module _ {D : Type 0} (machine : Machine D) (o : RecordOptions) (lawful : IsDisk machine.disk) where
  -- An error of another class than that for a receipt that could not be stored, from which the disk
  -- is as it was before or as the command left it; or an error of that class, which accounts for a
  -- receipt that verifies and was to be persisted on the disk as the command left it.
  abbrev pub IsRefusal : D → D → AppError → Type 0
  IsRefusal s t e =
      ((is_late e.class ≡ false)
        × ((t ≡ s)
            ⊎ ((p : Prepared) × (prepare machine o s ≡ (s, ok p))
                × (t ≡ machine.meanwhile o.command p.working_directory s))))
      ⊎ ((receipt : Receipt) × (p : Prepared) × (prepare machine o s ≡ (s, ok p))
          × ((verify_receipt machine.hashing machine.build.version receipt).integrity_valid ≡ true)
          × Explains machine.disk machine.json (machine.meanwhile o.command p.working_directory s) t
              o.output receipt e)

  stored :
      (receipt : Receipt) (u : D) (answer : D × Result AppError (Unit {0})) {t : D} {e : AppError}
      → persist_receipt_with_recovery machine.disk machine.json o.output receipt u ≡ answer
      → after answer (λ _ v. (v, ok (record_result machine.build.version receipt))) ≡ (t, err e)
      → Explains machine.disk machine.json u t o.output receipt e
  stored receipt u (v, ok done) h made = cc (made)
  stored receipt u (v, err problem) {t} {e} h made =
      let same : v ≡ t = ap (λ x. x.0) made in
      let error : problem ≡ e = cc (made) in
      let told =
        subst
          (λ (end : D × Result AppError (Unit {0})).
            IsPersisted machine.disk machine.json u end.0 o.output receipt end.1)
          h
          (persist_receipt_with_recovery-IsPersisted machine.disk lawful machine.json u o.output
            receipt) in
      subst (λ x. Explains machine.disk machine.json u x o.output receipt e) same
        (subst (λ x. Explains machine.disk machine.json u v o.output receipt x) error told)

  finish-refused :
      (p : Prepared) (seen : Observed) (s : D) (u : D) {t : D} {e : AppError}
      → validate_options o ≡ ok tt
      → prepare machine o s ≡ (s, ok p)
      → u ≡ machine.meanwhile o.command p.working_directory s
      → finish machine o p seen u ≡ (t, err e)
      → IsRefusal s t e
  unfolding finish
  finish-refused p seen s u {t} {e} valid whole at_end made =
      by_seal (seal machine o p seen) refl made
    where
      by_seal :
          (sealed : Result AppError Receipt)
          → seal machine o p seen ≡ sealed
          → after
              (u, sealed)
              (λ receipt v.
                after
                  (persist_receipt_with_recovery machine.disk machine.json o.output receipt v)
                  (λ _ w. (w, ok (record_result machine.build.version receipt))))
            ≡ (t, err e)
          → IsRefusal s t e
      by_seal (err problem) h end =
          let error : problem ≡ e = cc (end) in
          inl (
            is_late-early (seal machine o p seen) (seal-IsEarly machine o p seen)
                (h ∙ ap err error),
            inr (p, whole, sym (ap (λ x. x.0) end) ∙ at_end),
          )
      by_seal (ok receipt) h end = inr (
        receipt,
        p,
        whole,
        (seal-IsSound machine o p seen valid h).intact,
        subst (λ x. Explains machine.disk machine.json x t o.output receipt e) at_end
            (stored receipt u _ refl end),
      )

  by_prepared :
      (fuel : ℕ) (s : D) (prepared : D × Result AppError Prepared) {t : D} {e : AppError}
      → prepare machine o s ≡ prepared
      → after_prepare machine o fuel prepared ≡ some (t, err e)
      → IsRefusal s t e
  unfolding after_prepare
  by_prepared fuel s (u, err problem) {t} {e} h made =
      let same : u ≡ t = cc (made) in
      let error : problem ≡ e = cc (made) in
      inl (
        is_late-early (prepare machine o s).1 (prepare-IsEarly machine o s)
            (ap (λ x. x.1) h ∙ ap err error),
        inl (sym same ∙ sym (ap (λ x. x.0) h) ∙ prepare_keeps machine o s),
      )
  by_prepared fuel s (u, ok p) {t} {e} h made =
      let (run, ran, finished) = after_prepare-some machine o fuel u p made in
      let unchanged : u ≡ s = sym (ap (λ x. x.0) h) ∙ prepare_keeps machine o s in
      finish-refused p (observed machine o p u run) s
        (machine.meanwhile o.command p.working_directory u) (prepare_valid machine o s h)
        (h ∙ ap (λ x. (x, ok p)) unchanged)
        (ap (machine.meanwhile o.command p.working_directory) unchanged) finished

  -- When `record` fails, either its error is of another class than the one for receipts that could not
  -- be stored, and the disk is as it was or as the command left it; or it is of that class, and is
  -- about a receipt that verifies: it could not be written where it was asked for, and the error says
  -- whether the write at the recovery path succeeded. If so, the receipt is there, and if not, the
  -- error gives the code of that failure. The disk behaves as documented.
  pub record_command-IsRefusal :
      (fuel : ℕ) (s : D) {t : D} {e : AppError}
      → record_command machine o fuel s ≡ some (t, err e)
      → IsRefusal s t e
  unfolding record_command
  record_command-IsRefusal fuel s made = by_prepared fuel s (prepare machine o s) refl made
