-- ===== src/Integrity/Sealing.antt =====
-- A receipt that `finalize_receipt` has sealed passes `verify_receipt`; a report is valid exactly
-- when it names no error.
use cmdtrail.Prelude.{◌≡◌, refl, ◌↔◌, true, none, [], arith}
use cmdtrail.Text.{Text}
use cmdtrail.Text.Search.{text_eq_refl}
use cmdtrail.Result.{ok, >>=-eq-ok}
use cmdtrail.Model.{Receipt}
use cmdtrail.Integrity.{
  Hashing, receipt_schema, finalize_receipt, verify_receipt, chain_valid, chain_head, id_of_digest,
  hash_events, hash_receipt,
}

-- A receipt without the digests that sealing gives it.
abbrev pub unsealed : Receipt → Receipt
unsealed receipt = record receipt {
  receipt_id = [];
  receipt_sha256 = [];
  events_sha256 = [];
  event_chain_head_sha256 = [];
}

module _ (h : Hashing) (version : Text) where
  -- A report is valid exactly when its list of errors is empty.
  pub integrity_valid-errors :
      (receipt : Receipt)
      → ((verify_receipt h version receipt).integrity_valid ≡ true)
        ↔ ((verify_receipt h version receipt).errors ≡ [])
  unfolding verify_receipt
  integrity_valid-errors receipt = ground arith

  -- The receipt before and after its own digest is known.
  abbrev draft : Receipt → Text → Receipt
  draft receipt events_digest = record receipt {
    events_sha256 = events_digest;
    event_chain_head_sha256 = chain_head receipt.events;
    receipt_id = [];
    receipt_sha256 = [];
  }

  abbrev final : Receipt → Text → Text → Receipt
  final receipt events_digest digest = record (draft receipt events_digest) {
    receipt_id = id_of_digest digest;
    receipt_sha256 = digest;
  }

  final-valid :
      (receipt : Receipt) (events_digest digest : Text)
      → receipt.schema_version ≡ receipt_schema
      → chain_valid h none 0 receipt.events ≡ true
      → hash_events h receipt.events ≡ ok events_digest
      → hash_receipt h (draft receipt events_digest) ≡ ok digest
      → (verify_receipt h version (final receipt events_digest digest)).integrity_valid ≡ true
  unfolding verify_receipt
  final-valid receipt events_digest digest schema chain he hr =
      simp (he, hr, chain, text_eq_refl) (simp (schema, text_eq_refl))

  -- Sealing a receipt of the supported schema whose events form a valid chain gives a receipt that
  -- verifies, with no error.
  pub verify-finalize :
      (receipt : Receipt) {sealed : Receipt}
      → receipt.schema_version ≡ receipt_schema
      → chain_valid h none 0 receipt.events ≡ true
      → finalize_receipt h receipt ≡ ok sealed
      → ((verify_receipt h version sealed).integrity_valid ≡ true)
        × ((verify_receipt h version sealed).errors ≡ [])
  unfolding finalize_receipt
  verify-finalize receipt {sealed} schema chain made =
      let (events_digest, he, more) = >>=-eq-ok (hash_events h receipt.events) _ made in
      let (digest, hr, done) = >>=-eq-ok (hash_receipt h (draft receipt events_digest)) _ more in
      let e : final receipt events_digest digest ≡ sealed = cc (done) in
      let valid : (verify_receipt h version sealed).integrity_valid ≡ true =
        rw (← e) (final-valid receipt events_digest digest schema chain he hr) in
      (valid, (integrity_valid-errors sealed).0 valid)

  -- Sealing adds the digests of a receipt and leaves all else.
  pub finalize_receipt-unsealed :
      (receipt : Receipt) {sealed : Receipt}
      → finalize_receipt h receipt ≡ ok sealed
      → unsealed sealed ≡ unsealed receipt
  unfolding finalize_receipt
  finalize_receipt-unsealed receipt {sealed} made =
      let (events_digest, he, more) = >>=-eq-ok (hash_events h receipt.events) _ made in
      let (digest, hr, done) = >>=-eq-ok (hash_receipt h (draft receipt events_digest)) _ more in
      let e : final receipt events_digest digest ≡ sealed = cc (done) in rw (← e) refl
