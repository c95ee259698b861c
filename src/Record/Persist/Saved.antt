-- ===== src/Record/Persist/Saved.antt =====
-- Where a receipt is after `persist_receipt_with_recovery`, and that the error says so.
use cmdtrail.Prelude.{◌⊎◌, inl, inr, ◌≡◌, refl, sym, subst, true, false, none, some, [], ◌∷◌, ◌++◌}
use cmdtrail.Text.{Bytes, codes}
use cmdtrail.Text.Utf8.{to_string_lossy}
use cmdtrail.FilePath.{FilePath}
use cmdtrail.Result.{Result, ok, err}
use cmdtrail.Error.{AppError, ReceiptRecovery, post_execution_receipt_class}
use cmdtrail.Model.{Receipt}
use cmdtrail.Disk.{Disk, Holds, IsDisk}
use cmdtrail.ReceiptFile.{ReceiptJson, write_new_receipt}
use cmdtrail.ReceiptFile.Storage.{write_new_receipt-Holds, new_receipt-Holds}
use cmdtrail.Record.Persist.{
  recovery_receipt_path, post_execution_receipt_error, after_recovery, after_primary,
  persist_receipt_with_recovery_using, persist_receipt_with_recovery,
}

module _ {D : Type 0} (disk : Disk D) (json : ReceiptJson) where
  -- The receipt is at the path, as JSON and a line feed.
  abbrev pub IsSaved : D → FilePath → Receipt → Type 0
  IsSaved s path receipt =
      (document : Bytes) × (json.to_vec_pretty receipt ≡ some document)
      × Holds disk s path (document ++ (b'\n' ∷ []))

  -- An error that sends whoever asked for `path` to the receipt, where persisting has led from the
  -- disk `s` to the disk `t`: the write at the path failed, and the error says what the write at the
  -- recovery path gave after that.
  pub record Explains (s t : D) (path : FilePath) (receipt : Receipt) (e : AppError) : Type 0 where
    pub class : e.class ≡ post_execution_receipt_class
    pub recovery : ReceiptRecovery
    pub state : recovery.command_state ≡ receipt.summary.command_state
    pub given : e.recovery ≡ some recovery
    pub id : recovery.receipt_id ≡ receipt.receipt_id
    pub digest : recovery.receipt_sha256 ≡ receipt.receipt_sha256
    pub requested : recovery.requested_receipt ≡ to_string_lossy path
    pub place : recovery.recovery_receipt ≡ to_string_lossy (recovery_receipt_path path receipt)
    pub between : D
    pub first : AppError
    pub failed : write_new_receipt disk json path receipt s ≡ (between, err first)
    pub primary : recovery.primary_error_code ≡ first.code
    pub fate :
        ((e.code ≡ codes "receipt_recovery_required")
          × (recovery.recovery_receipt_persisted ≡ true)
          × (recovery.recovery_error_code ≡ none)
          × (write_new_receipt disk json (recovery_receipt_path path receipt) receipt between
              ≡ (t, ok tt))
          × IsSaved t (recovery_receipt_path path receipt) receipt)
        ⊎ ((second : AppError) × (e.code ≡ codes "receipt_recovery_failed")
            × (recovery.recovery_receipt_persisted ≡ false)
            × (recovery.recovery_error_code ≡ some second.code)
            × (write_new_receipt disk json (recovery_receipt_path path receipt) receipt between
                ≡ (t, err second)))

  -- What the result of persisting means that has led from the disk `s` to the disk `t`.
  abbrev pub IsPersisted : D → D → FilePath → Receipt → Result AppError (Unit {0}) → Type 0
  IsPersisted s t path receipt (ok done) = IsSaved t path receipt
  IsPersisted s t path receipt (err e) = Explains s t path receipt e

module _ {D : Type 0} (disk : Disk D) (lawful : IsDisk disk) (json : ReceiptJson) where
  after_recovery-IsPersisted :
      (s t : D) (path : FilePath) (receipt : Receipt) (primary : AppError)
      (second : D × Result AppError (Unit {0}))
      → write_new_receipt disk json path receipt s ≡ (t, err primary)
      → write_new_receipt disk json (recovery_receipt_path path receipt) receipt t ≡ second
      → ((second.1 ≡ ok tt)
          → IsSaved disk json second.0 (recovery_receipt_path path receipt) receipt)
      → let end = after_recovery path receipt primary second in
        IsPersisted disk json s end.0 path receipt end.1
  unfolding after_recovery post_execution_receipt_error
  after_recovery-IsPersisted s t path receipt problem (u, ok tt) failed wrote saved = record {
    class = refl;
    recovery = _;
    given = refl;
    state = refl;
    id = refl;
    digest = refl;
    requested = refl;
    place = refl;
    between = t;
    first = problem;
    failed = failed;
    primary = refl;
    fate = inl (refl, refl, refl, wrote, saved refl);
  }
  after_recovery-IsPersisted s t path receipt problem (u, err e) failed wrote saved = record {
    class = refl;
    recovery = _;
    given = refl;
    state = refl;
    id = refl;
    digest = refl;
    requested = refl;
    place = refl;
    between = t;
    first = problem;
    failed = failed;
    primary = refl;
    fate = inr (e, refl, refl, refl, wrote);
  }

  written :
      (s : D) (path : FilePath) (receipt : Receipt) (answer : D × Result AppError (Unit {0}))
      → write_new_receipt disk json path receipt s ≡ answer
      → answer.1 ≡ ok tt
      → IsSaved disk json answer.0 path receipt
  written s path receipt (t, ok done) e h = new_receipt-Holds disk lawful json s path receipt e
  written s path receipt (t, err problem) e h = cc

  after_primary-IsPersisted :
      (s : D) (path : FilePath) (receipt : Receipt) (first : D × Result AppError (Unit {0}))
      → write_new_receipt disk json path receipt s ≡ first
      → let end = after_primary path receipt (write_new_receipt disk json) first in
        IsPersisted disk json s end.0 path receipt end.1
  unfolding after_primary
  after_primary-IsPersisted s path receipt (t, ok done) e =
      written s path receipt (t, ok done) e refl
  after_primary-IsPersisted s path receipt (t, err primary) e =
      let recovery = recovery_receipt_path path receipt in
      after_recovery-IsPersisted s t path receipt primary
        (write_new_receipt disk json recovery receipt t) e refl (written t recovery receipt _ refl)

  -- If the recording is told that the receipt was persisted, it is at the path that was asked for.
  -- If not, the error is of the class for failures after the command ran, and names the receipt, the
  -- path asked for, the recovery path, the state of the command and the code of the failed write. It says that the recovery
  -- receipt was persisted where the write at the recovery path succeeded, and that receipt is there;
  -- it says that it was not where that write failed, and gives the code of that failure.
  -- The disk behaves as documented.
  pub persist_receipt_with_recovery-IsPersisted :
      (s : D) (path : FilePath) (receipt : Receipt)
      → let end = persist_receipt_with_recovery disk json path receipt s in
        IsPersisted disk json s end.0 path receipt end.1
  unfolding persist_receipt_with_recovery persist_receipt_with_recovery_using
  persist_receipt_with_recovery-IsPersisted s path receipt =
      after_primary-IsPersisted s path receipt _ refl

  after_recovery-keeps :
      (path : FilePath) (receipt : Receipt) (primary : AppError)
      (second : D × Result AppError (Unit {0}))
      → (after_recovery path receipt primary second).0 ≡ second.0
  unfolding after_recovery
  after_recovery-keeps path receipt primary (s, ok done) = refl
  after_recovery-keeps path receipt primary (s, err e) = refl

  after_primary-Holds :
      (path q : FilePath) (receipt : Receipt) (content : Bytes)
      (first : D × Result AppError (Unit {0}))
      → Holds disk first.0 q content
      → Holds disk (after_primary path receipt (write_new_receipt disk json) first).0 q content
  unfolding after_primary
  after_primary-Holds path q receipt content (t, ok done) h = h
  after_primary-Holds path q receipt content (t, err primary) h =
      let recovery = recovery_receipt_path path receipt in
      let second = write_new_receipt disk json recovery receipt t in
      subst (λ u. Holds disk u q content) (sym (after_recovery-keeps path receipt primary second))
        (write_new_receipt-Holds disk lawful json t recovery q receipt content h)

  -- Persisting a receipt changes no file that can be read.
  pub persist_receipt_with_recovery-Holds :
      (s : D) (path q : FilePath) (receipt : Receipt) (content : Bytes)
      → Holds disk s q content
      → Holds disk (persist_receipt_with_recovery disk json path receipt s).0 q content
  unfolding persist_receipt_with_recovery persist_receipt_with_recovery_using
  persist_receipt_with_recovery-Holds s path q receipt content h =
      after_primary-Holds path q receipt content _
        (write_new_receipt-Holds disk lawful json s path q receipt content h)
