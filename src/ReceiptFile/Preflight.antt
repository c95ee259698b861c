-- ===== src/ReceiptFile/Preflight.antt =====
-- What `preflight_new_receipt` accepts.
use cmdtrail.Prelude.{
  ◌≡◌, ◌≢◌, refl, ap, ◌↔◌, true, false, not, Option, none, some, Bool, if◌then◌else◌,
}
use cmdtrail.Text.{Text, Bytes, codes, text_eq}
use cmdtrail.Text.Search.{text_eq_refl, eq_of_text_eq}
use cmdtrail.FilePath.{FilePath, file_name}
use cmdtrail.Result.{Result, ok, err, ok_or, reject_if, or_error}
use cmdtrail.Action.{after}
use cmdtrail.Error.{AppError}
use cmdtrail.System.{Metadata}
use cmdtrail.Disk.{Disk}
use cmdtrail.ReceiptFile.{
  receipt_parent, check_target, preflight_new_receipt, no_file_name, parent_unavailable,
  parent_not_directory, preflight_failed,
}

module _ {D : Type 0} (disk : Disk D) where
  -- A place for a new file: a path with a file name, in a directory, where nothing is.
  pub record IsFree (s : D) (path : FilePath) : Type 0 where
    pub named : file_name path ≢ none
    pub within : (m : Metadata) × (disk.metadata s (receipt_parent path) ≡ ok m) × (m.is_dir ≡ true)
    pub vacant : disk.symlink_metadata s path ≡ err (codes "NotFound")

  check_target-ok :
      (answer : Result Text Metadata)
      → (check_target answer ≡ ok tt) ↔ (answer ≡ err (codes "NotFound"))
  unfolding check_target
  check_target-ok (ok m) = (λ h. cc, λ h. cc)
  check_target-ok (err kind) = (
    λ h.
        ap err
          (eq_of_text_eq kind (codes "NotFound") (by_test (text_eq kind (codes "NotFound")) h)),
    λ h. rw (kind_eq h) (rw (text_eq_refl (codes "NotFound"))),
  )
    where
      kind_eq : {a b : Text} → ◌≡◌ {A = Result Text Metadata} (err a) (err b) → a ≡ b
      kind_eq p = cc

      by_test :
          (test : Bool)
          → ◌≡◌ {A = Result AppError (Unit {0})}
              (if test then ok tt else err preflight_failed)
              (ok tt)
          → test ≡ true
      by_test true e = refl
      by_test false e = cc

  -- The preflight over the three answers that it asks for.
  abbrev judge_parent :
      D → Result Text Metadata → (D → Result Text Metadata) → D × Result AppError (Unit {0})
  judge_parent s above target =
      after (s, or_error above parent_unavailable)
        (λ m t.
          after (t, reject_if (not m.is_dir) parent_not_directory)
            (λ _ u. (u, check_target (target u))))

  abbrev judge :
      D
      → Option Bytes
      → (D → Result Text Metadata)
      → (D → Result Text Metadata)
      → D × Result AppError (Unit {0})
  judge s name above target =
      after (s, ok_or name no_file_name) (λ _ t. judge_parent t (above t) target)

  abbrev Judgement : D → Option Bytes → Result Text Metadata → Result Text Metadata → Type 0
  Judgement s name above target =
      (name ≢ none)
      × ((m : Metadata) × (above ≡ ok m) × (m.is_dir ≡ true))
      × (target ≡ err (codes "NotFound"))

  judge_parent_iff :
      (s : D) (name : Bytes) (above : Result Text Metadata) (target : D → Result Text Metadata)
      → ((judge_parent s above target).0 ≡ s)
        × (((judge_parent s above target).1 ≡ ok tt) ↔ Judgement s (some name) above (target s))
  judge_parent_iff s name (err kind) target = (refl, (λ h. cc, λ h. cc (h.1.1)))
  judge_parent_iff s name (ok m) target = by_kind m.is_dir refl
    where
      same_dir : {a b : Metadata} → ◌≡◌ {A = Result Text Metadata} (ok a) (ok b) → a ≡ b
      same_dir p = cc

      by_kind :
          (kind : Bool)
          → m.is_dir ≡ kind
          → ((judge_parent s (ok m) target).0 ≡ s)
            × (((judge_parent s (ok m) target).1 ≡ ok tt)
                ↔ Judgement s (some name) (ok m) (target s))
      by_kind true e = simp e (
        refl,
        (
          λ h. (λ p. cc, (m, refl, e), (check_target-ok (target s)).0 h),
          λ h. (check_target-ok (target s)).1 h.2,
        ),
      )
      by_kind false e =
          simp e
            (refl, (λ h. cc, λ h. cc (ap (λ (d : Metadata). d.is_dir) (same_dir h.1.1), e, h.1.2)))

  judge_iff :
      (s : D) (name : Option Bytes) (above target : D → Result Text Metadata)
      → ((judge s name above target).0 ≡ s)
        × (((judge s name above target).1 ≡ ok tt) ↔ Judgement s name (above s) (target s))
  judge_iff s none above target = (refl, (λ h. cc, λ h. absurd (h.0 refl)))
  judge_iff s (some name) above target = judge_parent_iff s name (above s) target

  -- The preflight changes nothing, and succeeds exactly where there is a place for a new file.
  pub preflight_new_receipt-IsFree :
      (s : D) (path : FilePath)
      → ((preflight_new_receipt disk path s).0 ≡ s)
        × (((preflight_new_receipt disk path s).1 ≡ ok tt) ↔ IsFree s path)
  unfolding preflight_new_receipt
  preflight_new_receipt-IsFree s path =
      let judgement =
        judge_iff s (file_name path) (λ t. disk.metadata t (receipt_parent path))
          (λ t. disk.symlink_metadata t path) in
      (
        judgement.0,
        (
          λ h.
              let free = judgement.1.0 h in
              record { named = free.0; within = free.1; vacant = free.2 },
          λ free. judgement.1.1 (free.named, free.within, free.vacant),
        ),
      )
