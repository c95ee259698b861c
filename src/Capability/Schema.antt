-- ===== src/Capability/Schema.antt =====
-- capability.rs: the schema document.
use cmdtrail.Prelude.{Bool, not, Option, none, some, List, [], ◌∷◌, if◌then◌else◌}
use cmdtrail.Ord.{list_ord, nat_ord}
use cmdtrail.BTree.{BTreeMap, collect}
use cmdtrail.Text.{Text, codes}
use cmdtrail.Integrity.{receipt_schema}

pub record SchemaDocument : Type 0 where
  pub schema_version : Text
  pub tool_version : Text
  pub receipt_schema : Text
  pub event_types : List Text
  pub command_states : List Text
  pub file_effects : List Text
  pub coverage_levels : List Text
  pub integrity : BTreeMap Text Text
  pub fields : Option (BTreeMap Text Text)

abbrev field_descriptions : BTreeMap Text Text
field_descriptions = collect (
    (codes "platform", codes "operating system, architecture, and family")
    ∷ (
      codes "command",
      codes
          "redacted displays, omitted secret digests, redacted command fingerprint, and direct-child outcome",
    )
    ∷ (
      codes "observation",
      codes "backend, time envelope, working-directory handle, and blind spots",
    )
    ∷ (codes "capabilities", codes "effective coverage level, backend, and reason per capability")
    ∷ (codes "limits", codes "configured snapshot, event, hashing, and timeout bounds")
    ∷ (codes "roots", codes "opaque root handles plus before/after scan statistics")
    ∷ (codes "events", codes "bounded hash-chained command lifecycle and filesystem delta facts")
    ∷ (codes "summary", codes "command state, effect counts, drops, errors, and completeness")
    ∷ (codes "redaction", codes "applied privacy defaults and their limitations")
    ∷ [])

unfoldable pub schema_document : Text → Bool → SchemaDocument
schema_document version brief = record {
  schema_version = codes "cmdtrail.schema.v1";
  tool_version = version;
  receipt_schema = receipt_schema;
  event_types = codes "command_requested" ∷ codes "command_finished" ∷ codes "file_effect" ∷ [];
  command_states =
      codes "exited"
      ∷ codes "signaled"
      ∷ codes "timed_out"
      ∷ codes "interrupted"
      ∷ codes "spawn_failed"
      ∷ codes "observer_failed"
      ∷ [];
  file_effects = codes "created" ∷ codes "modified" ∷ codes "deleted" ∷ codes "type_changed" ∷ [];
  coverage_levels = codes "full" ∷ codes "partial" ∷ codes "unavailable" ∷ codes "unknown" ∷ [];
  integrity = collect (
      (codes "events", codes "RFC 8785 JCS parsed events array SHA-256")
      ∷ (
        codes "event_chain",
        codes "sequence and previous_event_sha256 bound into each event SHA-256",
      )
      ∷ (
        codes "receipt",
        codes "RFC 8785 JCS parsed receipt with empty receipt_id and receipt_sha256",
      )
      ∷ (codes "receipt_id", codes "ct_ plus first 24 hexadecimal characters of receipt_sha256")
      ∷ []);
  fields = if not brief then some field_descriptions else none;
}
