-- ===== src/ReceiptFile/Storage.antt =====
-- Writing a receipt leaves every file that was there, whether it succeeds or fails, and a receipt
-- that was written is in its file.
use cmdtrail.Prelude.{
  ◌≡◌, refl, sym, ap, ◌∙◌, some, none, Option, [], ◌∷◌, ◌++◌, if◌then◌else◌, true, false, Bool,
  subst,
}
use cmdtrail.Text.{Text, Bytes, codes, text_eq}
use cmdtrail.FilePath.{FilePath}
use cmdtrail.Result.{Result, ok, err, ok_or}
use cmdtrail.Action.{after-eq-ok, after-keeps}
use cmdtrail.Error.{AppError}
use cmdtrail.Model.{Receipt}
use cmdtrail.Disk.{Disk, Holds, IsDisk}
use cmdtrail.ReceiptFile.{
  ReceiptJson, preflight_new_receipt, create_output, creation_error, sync_after, write_durably,
  write_new_receipt, serialization_failed, already_exists, create_failed,
}
use cmdtrail.ReceiptFile.Preflight.{preflight_new_receipt-IsFree}

module _ {D : Type 0} (disk : Disk D) (lawful : IsDisk disk) (json : ReceiptJson) where
  creation_error-ok :
      (answer : Result Text (Unit {0})) → creation_error answer ≡ ok tt → answer ≡ ok tt
  unfolding creation_error
  creation_error-ok (ok done) h = refl
  creation_error-ok (err kind) h = by_test (text_eq kind (codes "AlreadyExists")) h
    where
      by_test :
          (test : Bool)
          → ◌≡◌ {A = Result AppError (Unit {0})}
              (if test then err already_exists else err create_failed)
              (ok tt)
          → ◌≡◌ {A = Result Text (Unit {0})} (err kind) (ok tt)
      by_test true e = cc
      by_test false e = cc

  -- A creation that succeeds is a creation of the disk.
  created :
      (s : D) (path : FilePath) {t : D}
      → create_output disk path s ≡ (t, ok tt)
      → disk.create_new s path ≡ (t, ok tt)
  unfolding create_output
  created s path {t} h = by_answer (disk.create_new s path) h
    where
      by_answer :
          (answer : D × Result Text (Unit {0}))
          → ◌≡◌ {A = D × Result AppError (Unit {0})} (answer.0, creation_error answer.1) (t, ok tt)
          → answer ≡ (t, ok tt)
      by_answer (u, a) e =
          let made : a ≡ ok tt = creation_error-ok a (ap (λ p. p.1) e) in
          λ i. (ap (λ (p : D × Result AppError (Unit {0})). p.0) e i, made i)

  create_output-Holds :
      (s : D) (path q : FilePath) (content : Bytes)
      → Holds disk s q content
      → Holds disk (create_output disk path s).0 q content
  unfolding create_output
  create_output-Holds s path q content h = lawful.create_keeps s path q content h

  sync_after-Holds :
      (path q : FilePath) (content : Bytes) (answer : D × Result Text (Unit {0}))
      → Holds disk answer.0 q content
      → Holds disk (sync_after disk path answer).0 q content
  unfolding sync_after
  sync_after-Holds path q content (t, err kind) h = h
  sync_after-Holds path q content (t, ok done) h = lawful.sync_keeps t path q content h

  -- No file that can be read is changed by writing a receipt, to whatever path and with whatever
  -- result.
  -- The disk behaves as documented.
  pub write_new_receipt-Holds :
      (s : D) (path q : FilePath) (receipt : Receipt) (content : Bytes)
      → Holds disk s q content
      → Holds disk (write_new_receipt disk json path receipt s).0 q content
  unfolding write_new_receipt write_durably
  write_new_receipt-Holds s path q receipt content h =
      let P : D → Type 0 = λ t. Holds disk t q content in
      let untouched = (preflight_new_receipt-IsFree disk s path).0 in
      after-keeps P (preflight_new_receipt disk path s) _ (subst P (sym untouched) h)
        (λ t _ checked.
          let here : P t = subst P (sym untouched ∙ ap (λ p. p.0) checked) h in
          after-keeps P (t, ok_or (json.to_vec_pretty receipt) serialization_failed) _ here
            (λ u document printed.
              let there : P u = subst P (ap (λ p. p.0) printed) here in
              after-keeps P (create_output disk path u) _
                (create_output-Holds u path q content there)
                (λ v _ made.
                  sync_after-Holds path q content _
                    (lawful.write_keeps u v path q _ content (created u path made) there))))

  synced :
      (path : FilePath) (answer : D × Result Text (Unit {0})) {done : D}
      → sync_after disk path answer ≡ (done, ok tt)
      → (u : D) × (answer ≡ (u, ok tt)) × ((disk.sync_all u path).0 ≡ done)
  unfolding sync_after
  synced path (t, err kind) h = cc
  synced path (t, ok done) h = (t, refl, ap (λ p. p.0) h)

  -- A receipt that was written is in its file, as JSON and a line feed.
  pub new_receipt-Holds :
      (s : D) (path : FilePath) (receipt : Receipt) {done : D}
      → write_new_receipt disk json path receipt s ≡ (done, ok tt)
      → (document : Bytes) × (json.to_vec_pretty receipt ≡ some document)
        × Holds disk done path (document ++ (b'\n' ∷ []))
  unfolding write_new_receipt write_durably
  new_receipt-Holds s path receipt {done} h =
      let (t, _, checked, more) = after-eq-ok (preflight_new_receipt disk path s) _ h in
      let (u, document, printed, rest) =
        after-eq-ok (t, ok_or (json.to_vec_pretty receipt) serialization_failed) _ more in
      let (v, _, made, last) = after-eq-ok (create_output disk path u) _ rest in
      let (w, wrote, e) = synced path (disk.write_all v path (document ++ (b'\n' ∷ []))) last in
      (
        document,
        printed_ok (json.to_vec_pretty receipt) (ap (λ p. p.1) printed),
        subst (λ x. Holds disk x path (document ++ (b'\n' ∷ []))) e
            (lawful.sync_keeps w path path (document ++ (b'\n' ∷ [])) (
              lawful.write_holds u v w path (document ++ (b'\n' ∷ [])) (created u path made)
                wrote)),
      )
    where
      printed_ok : (o : Option Bytes) {b : Bytes} → ok_or o serialization_failed ≡ ok b → o ≡ some b
      printed_ok none e = cc
      printed_ok (some b) e = cc
