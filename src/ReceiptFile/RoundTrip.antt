-- ===== src/ReceiptFile/RoundTrip.antt =====
-- What is read back of a receipt that was written.
use cmdtrail.Prelude.{
  ◌+◌, ◌≡◌, refl, ◌∙◌, true, false, some, [], ◌∷◌, ◌++◌, arith, ltb, leb, leb→le, ◌<◌, ℕ, take_all,
  if◌then◌else◌, length, length-append, len_u64, u64_max, take, Bool-cases, inl, inr,
}
use cmdtrail.Text.{Bytes}
use cmdtrail.FilePath.{FilePath}
use cmdtrail.Result.{ok, err, ok_or}
use cmdtrail.Model.{Receipt}
use cmdtrail.Disk.{Disk, Holds, IsDisk}
use cmdtrail.ReceiptFile.{
  ReceiptJson, max_receipt_bytes, too_large, parse_failed, parse_receipt_document,
  write_new_receipt, read_receipt,
}
use cmdtrail.ReceiptFile.Storage.{new_receipt-Holds}

-- `serde_json` reads back what it printed, a line feed behind it or not.
abbrev pub ReadsBack : ReceiptJson → Type 0
ReadsBack json =
    (receipt : Receipt) (document : Bytes)
    → json.to_vec_pretty receipt ≡ some document
    → json.from_slice (document ++ (b'\n' ∷ [])) ≡ some receipt

-- A document that is cut off behind the limit is too large exactly if it is too large itself, and
-- is all of it otherwise.
cut_fits :
    (max : ℕ) (content : Bytes)
    → max < u64_max
    → leb (length content) max ≡ true
    → (ltb max (length content) ≡ false)
      × (take (max + 1) content ≡ content)
      × (ltb max (len_u64 content) ≡ false)
cut_fits max content small fits =
    let n = leb→le (length content) max fits in
    (ground arith, take_all (max + 1) content (omega arith), ground arith)

over_limit : (max n : ℕ) → leb n max ≡ false → ltb max n ≡ true
over_limit max n over = ground arith

module _ {D : Type 0} (disk : Disk D) (json : ReceiptJson) where
  -- A file is read as its document, if that is not too large.
  pub read_receipt-Holds :
      (s : D) (path : FilePath) (content : Bytes)
      → Holds disk s path content
      → read_receipt disk json path s ≡ (
        s,
        if leb (length content) max_receipt_bytes
            then ok_or (json.from_slice content) parse_failed
            else err too_large,
      )
  unfolding read_receipt parse_receipt_document
  read_receipt-Holds s path content h =
      let (m, found, regular, size) = h.found in
      elim (Bool-cases (leb (length content) max_receipt_bytes)) [
        | inl fits ↦
            let (a, b, c) = cut_fits max_receipt_bytes content (omega arith) fits in
            simp (fits, found, regular, size, h.opens, h.reads (max_receipt_bytes + 1), a, b, c)
              refl
        | inr over ↦
            let gt = over_limit max_receipt_bytes (length content) over in
            simp (over, found, regular, size, gt) refl
      ]

module _ {D : Type 0} (disk : Disk D) (lawful : IsDisk disk) (json : ReceiptJson)
    (faithful : ReadsBack json) where
  -- A file with the receipt and a line feed is read as the receipt, if it is not too large.
  pub read_receipt-printed :
      (s : D) (path : FilePath) (receipt : Receipt) (document : Bytes)
      → json.to_vec_pretty receipt ≡ some document
      → Holds disk s path (document ++ (b'\n' ∷ []))
      → read_receipt disk json path s
        ≡ (s, if leb (length document + 1) max_receipt_bytes then ok receipt else err too_large)
  read_receipt-printed s path receipt document printed held =
      read_receipt-Holds disk json s path (document ++ (b'\n' ∷ [])) held
      ∙ simp (faithful receipt document printed, length-append document (b'\n' ∷ [])) refl

  -- A receipt that was written, and was not changed since, is read back as itself, if with its
  -- line feed it is at most 64 MiB long; a longer one is written as well, but is refused as too large.
  -- The disk behaves as documented, and `serde_json` reads back what it prints.
  pub read_receipt-write_new_receipt :
      (s : D) (path : FilePath) (receipt : Receipt) {t : D}
      → write_new_receipt disk json path receipt s ≡ (t, ok tt)
      → (document : Bytes) × (json.to_vec_pretty receipt ≡ some document)
        × (read_receipt disk json path t ≡ (
          t,
          if leb (length document + 1) max_receipt_bytes then ok receipt else err too_large,
        ))
  read_receipt-write_new_receipt s path receipt {t} wrote =
      let (document, printed, held) = new_receipt-Holds disk lawful json s path receipt wrote in
      (document, printed, read_receipt-printed t path receipt document printed held)
