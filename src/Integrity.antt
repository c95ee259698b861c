-- ===== src/Integrity.antt =====
-- integrity.rs: domain-separated digests, the event chain, sealing and verifying a receipt. The
-- hash function of `sha2` and the canonical JSON of `serde_jcs` are parameters.
pub mod Envelope
pub mod Chain
pub mod Sealing
pub mod Binding
pub mod Samples
mod Tests
use cmdtrail.Prelude.{
  ℕ, zero, suc, ◌+◌, Bool, true, false, not, ◌&&◌, Option, none, some, List, [], ◌∷◌, ◌++◌, map,
  ◌==◌, if◌then◌else◌, min, u64_max, length, take, last?, len_u64, decided,
}
use cmdtrail.Text.{Text, Bytes, codes, text_eq}
use cmdtrail.Encoding.{hex_lower, u64_be_bytes}
use cmdtrail.Result.{Result, ok, err, ◌>>=◌, ok_or}
use cmdtrail.Error.{AppError, io}
use cmdtrail.Model.{Event, EventData, Receipt, VerificationReport}

-- What the crates supply: SHA-256, and the canonical JSON of the three types that are hashed
-- (`none` where serialization fails).
pub record Hashing : Type 0 where
  pub sha256 : Bytes → Bytes
  pub event_jcs : Event → Option Bytes
  pub events_jcs : List Event → Option Bytes
  pub receipt_jcs : Receipt → Option Bytes

abbrev pub receipt_schema : Text
receipt_schema = codes "cmdtrail.receipt.v1"

-- The bytes that are hashed: a fixed prefix, the domain, and the encoded value behind its length.
unfoldable pub envelope : Text → Bytes → Bytes
envelope domain encoded =
    codes "cmdtrail.integrity.v1"
    ++ (0 ∷ (domain ++ (0 ∷ (u64_be_bytes (len_u64 encoded) ++ encoded))))

abbrev serialization_failed : AppError
serialization_failed =
    io (codes "canonical_serialization_failed")
      (codes "could not serialize RFC 8785 integrity material")

unfoldable pub hash_serializable :
    {T : Type 0} → (Bytes → Bytes) → (T → Option Bytes) → Text → T → Result AppError Text
hash_serializable sha256 jcs domain value = do
  encoded ← ok_or (jcs value) serialization_failed
  ok (hex_lower (sha256 (envelope domain encoded)))

abbrev pub digest_of : Option Event → Option Text
digest_of none = none
digest_of (some event) = some event.event_sha256

-- `events.last().map_or_else(String::new, |event| event.event_sha256.clone())`
abbrev pub chain_head : List Event → Text
chain_head events = elim (last? events) [ none ↦ [] | some event ↦ event.event_sha256 ]

-- A receipt with empty identifiers, as it is hashed.
abbrev pub cleared : Receipt → Receipt
cleared receipt = record receipt { receipt_id = []; receipt_sha256 = [] }

abbrev pub id_of_digest : Text → Text
id_of_digest digest = codes "ct_" ++ take 24 digest

-- `digest.as_ref().is_ok_and(|digest| digest == expected)`
abbrev pub is_ok_and_eq : Result AppError Text → Text → Bool
is_ok_and_eq (ok digest) expected = text_eq digest expected
is_ok_and_eq (err e) expected = false

abbrev pub option_eq : Option Text → Option Text → Bool
option_eq none none = true
option_eq (some a) (some b) = text_eq a b
option_eq _ _ = false

abbrev error_unless : Bool → Text → List Text → List Text
error_unless true code errors = errors
error_unless false code errors = errors ++ (code ∷ [])

id_valid : Result AppError Text → Text → Bool
id_valid (ok digest) id = text_eq id (id_of_digest digest)
id_valid (err e) id = false

module _ (h : Hashing) where
  unfoldable pub hash_event : Event → Result AppError Text
  hash_event event =
      hash_serializable h.sha256 h.event_jcs (codes "event") (record event { event_sha256 = [] })

  hash_events : List Event → Result AppError Text
  hash_events events = hash_serializable h.sha256 h.events_jcs (codes "events") events

  hash_receipt : Receipt → Result AppError Text
  hash_receipt receipt = hash_serializable h.sha256 h.receipt_jcs (codes "receipt") receipt

  unfoldable pub append_event : List Event → ℕ → EventData → Result AppError (List Event)
  append_event events observed_at event_data = do
    let event : Event = record {
      sequence = len_u64 events;
      observed_at_unix_ms = observed_at;
      previous_event_sha256 = digest_of (last? events);
      event = event_data;
      event_sha256 = [];
    }
    digest ← hash_event event
    ok (events ++ (record event { event_sha256 = digest } ∷ []))

  unfoldable pub finalize_receipt : Receipt → Result AppError Receipt
  unfolding hash_events hash_receipt
  finalize_receipt receipt = do
    events_digest ← hash_events receipt.events
    let sealed : Receipt = record receipt {
      events_sha256 = events_digest;
      event_chain_head_sha256 = chain_head receipt.events;
      receipt_id = [];
      receipt_sha256 = [];
    }
    digest ← hash_receipt sealed
    ok (record sealed { receipt_id = id_of_digest digest; receipt_sha256 = digest })

  unfoldable pub event_valid : Option Text → ℕ → Event → Bool
  event_valid previous index event =
      event.sequence == min index u64_max
      && (option_eq event.previous_event_sha256 previous
          && is_ok_and_eq (hash_event event) event.event_sha256)

  -- The loop over the events, with the digest of the event before and the position.
  unfoldable pub chain_valid : Option Text → ℕ → List Event → Bool
  chain_valid previous index [] = true
  chain_valid previous index (event ∷ events) =
      event_valid previous index event && chain_valid (some event.event_sha256) (suc index) events

  -- The version is that of the build.
  unfoldable pub verify_receipt : Text → Receipt → VerificationReport
  unfolding hash_events hash_receipt id_valid
  verify_receipt version receipt =
      let schema_supported = text_eq receipt.schema_version receipt_schema in
      let events_digest_valid = is_ok_and_eq (hash_events receipt.events) receipt.events_sha256 in
      let chain = chain_valid none 0 receipt.events in
      let head_valid = text_eq receipt.event_chain_head_sha256 (chain_head receipt.events) in
      let event_chain_valid = chain && head_valid in
      let expected = hash_receipt (cleared receipt) in
      let receipt_digest_valid = is_ok_and_eq expected receipt.receipt_sha256 in
      let receipt_id_valid = id_valid expected receipt.receipt_id in
      record {
        schema_version = codes "cmdtrail.verification.v1";
        tool_version = version;
        receipt_id = some receipt.receipt_id;
        integrity_valid =
            schema_supported
            && (receipt_digest_valid
                && (receipt_id_valid && (events_digest_valid && event_chain_valid)));
        receipt_digest_valid = receipt_digest_valid;
        receipt_id_valid = receipt_id_valid;
        events_digest_valid = events_digest_valid;
        event_chain_valid = event_chain_valid;
        schema_supported = schema_supported;
        errors = error_unless receipt_id_valid (codes "receipt_id_mismatch") (
            error_unless receipt_digest_valid (codes "receipt_digest_mismatch") (
              error_unless event_chain_valid (codes "event_chain_invalid") (
                error_unless events_digest_valid (codes "events_digest_mismatch")
                  (error_unless schema_supported (codes "unsupported_schema") []))));
      }
