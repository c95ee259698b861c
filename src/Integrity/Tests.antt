-- ===== src/Integrity/Tests.antt =====
-- The theorems of the modules beside this one at a small chain and a small receipt.
use cmdtrail.Prelude.{ℕ, ◌≡◌, refl, sym, ◌∙◌, map, Option, true, ◌⊎◌, none, some, [], ◌∷◌}
use cmdtrail.Text.{Text, Bytes, codes, contains_byte, text_eq}
use cmdtrail.Encoding.{hex_lower, u64_be_bytes}
use cmdtrail.Result.{ok}
use cmdtrail.Model.{Event}
use cmdtrail.Integrity.{
  envelope, hash_serializable, hash_event, hash_events, hash_receipt, append_event,
  finalize_receipt, event_valid, chain_valid, verify_receipt, cleared,
}
use cmdtrail.Integrity.Envelope.{envelope-injective}
use cmdtrail.Integrity.Sealing.{verify-finalize}
use cmdtrail.Integrity.Binding.{Collision, receipt_binding, material, chain_binding}
use cmdtrail.Integrity.Samples.{
  toy, finished, first_events, both_events, small, sealed, renamed, sealed_valid, renamed_valid,
}

first_chain : chain_valid toy none 0 first_events ≡ true
unfolding append_event hash_event hash_serializable hex_lower envelope chain_valid event_valid
    text_eq u64_be_bytes
first_chain = refl

both_made : append_event toy first_events 9 finished ≡ ok both_events
unfolding append_event hash_event hash_serializable hex_lower envelope u64_be_bytes
both_made = refl

both_chain : chain_valid toy none 0 both_events ≡ true
unfolding append_event hash_event hash_serializable hex_lower envelope chain_valid event_valid
    text_eq u64_be_bytes
both_chain = refl

sealed_made : finalize_receipt toy small ≡ ok sealed
unfolding finalize_receipt hash_events hash_receipt hash_serializable hex_lower envelope
    u64_be_bytes append_event hash_event
sealed_made = refl

verify-finalize_example :
    ((verify_receipt toy (codes "0.1.0") sealed).integrity_valid ≡ true)
    × ((verify_receipt toy (codes "0.1.0") sealed).errors ≡ [])
verify-finalize_example =
    verify-finalize toy (codes "0.1.0") small (unfold append_event in refl) both_chain sealed_made

receipt_binding_example :
    ((x : Bytes) × (toy.receipt_jcs (cleared sealed) ≡ some x)
      × (toy.receipt_jcs (cleared renamed) ≡ some x))
    ⊎ Collision toy.sha256
receipt_binding_example =
    receipt_binding toy (codes "0.1.0") sealed renamed sealed_valid renamed_valid refl

material_link :
    (a b : Event) (x : Bytes)
    → material toy a ≡ some x
    → material toy b ≡ some x
    → a.previous_event_sha256 ≡ b.previous_event_sha256
material_link a b x ha hb =
    same_link a.previous_event_sha256 b.previous_event_sha256 a.observed_at_unix_ms
      b.observed_at_unix_ms (ha ∙ sym hb)
  where
    coded : Option Text → Bytes
    coded none = []
    coded (some d) = 1 ∷ d

    same_link : (a b : Option Text) (n m : ℕ) → some (n ∷ coded a) ≡ some (m ∷ coded b) → a ≡ b
    same_link none none n m h = refl
    same_link none (some b) n m h = cc
    same_link (some a) none n m h = cc
    same_link (some a) (some b) n m h = cc

chain_binding_example :
    (map (material toy) both_events ≡ map (material toy) both_events) ⊎ Collision toy.sha256
chain_binding_example =
    chain_binding toy material_link both_events both_events both_chain both_chain refl

envelope-injective_example : (codes "event" ≡ codes "event") × (codes "{}" ≡ codes "{}")
envelope-injective_example =
    envelope-injective (codes "event") (codes "event") (codes "{}") (codes "{}")
      (unfold contains_byte in refl) (unfold contains_byte in refl) refl
