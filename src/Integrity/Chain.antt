-- ===== src/Integrity/Chain.antt =====
-- Appending an event keeps the chain valid, and the chain's positions and links are as declared.
use cmdtrail.Prelude.{
  ℕ, suc, ◌+◌, ◌≡◌, refl, true, Option, none, some, List, [], ◌∷◌, ◌++◌, arith, ==_refl, length,
  last?, len_u64, length-append,
}
use cmdtrail.Text.{Text}
use cmdtrail.Text.Search.{text_eq_refl}
use cmdtrail.Result.{ok, >>=-eq-ok}
use cmdtrail.Model.{Event, EventData}
use cmdtrail.Integrity.{
  Hashing, hash_event, append_event, chain_valid, event_valid, digest_of, option_eq,
}

option_eq_refl : (o : Option Text) → option_eq o o ≡ true
option_eq_refl none = refl
option_eq_refl (some t) = text_eq_refl t

-- The digest that the next event must name, after the given events.
abbrev pub link : Option Text → List Event → Option Text
link previous [] = previous
link previous (e ∷ es) = link (some e.event_sha256) es

link-last :
    (previous : Option Text) (e : Event) (es : List Event)
    → link previous (e ∷ es) ≡ digest_of (last? (e ∷ es))
link-last previous e [] = refl
link-last previous e (f ∷ es) = link-last (some e.event_sha256) f es

pub link_start : (es : List Event) → link none es ≡ digest_of (last? es)
link_start [] = refl
link_start (e ∷ es) = link-last none e es

module _ (h : Hashing) where
  chain_valid-append :
      (es : List Event) (previous : Option Text) (index : ℕ) (e : Event)
      → chain_valid h previous index es ≡ true
      → event_valid h (link previous es) (index + length es) e ≡ true
      → chain_valid h previous index (es ++ (e ∷ [])) ≡ true
  unfolding chain_valid
  chain_valid-append [] previous index e valid last =
      let here : index + 0 ≡ index = omega arith in ground (arith, rw here at last)
  chain_valid-append (f ∷ es) previous index e valid last =
      let here : index + suc (length es) ≡ suc index + length es = omega arith in
      ground (arith, chain_valid-append es (some f.event_sha256) (suc index) e, rw here at last)

  -- The event that `append_event` makes, before and after its digest is known.
  abbrev pub draft : List Event → ℕ → EventData → Text → Event
  draft events at payload digest = record {
    sequence = len_u64 events;
    observed_at_unix_ms = at;
    previous_event_sha256 = digest_of (last? events);
    event = payload;
    event_sha256 = digest;
  }

  draft-valid :
      (events : List Event) (at : ℕ) (payload : EventData) (digest : Text)
      → hash_event h (draft events at payload []) ≡ ok digest
      → event_valid h (link none events) (0 + length events) (draft events at payload digest) ≡ true
  unfolding event_valid hash_event
  draft-valid events at payload digest made =
      let here : 0 + length events ≡ length events = omega arith in
      rw (here, link_start events, made)
        (ground (
          arith,
          ==_refl (len_u64 events),
          option_eq_refl (digest_of (last? events)),
          text_eq_refl digest,
        ))

  -- What is appended is the draft with its digest.
  pub append_event-ok :
      (events : List Event) (at : ℕ) (payload : EventData) {events' : List Event}
      → append_event h events at payload ≡ ok events'
      → (digest : Text) × (hash_event h (draft events at payload []) ≡ ok digest)
        × ((events ++ (draft events at payload digest ∷ [])) ≡ events')
  unfolding append_event
  append_event-ok events at payload made =
      let (digest, hashed, done) = >>=-eq-ok (hash_event h (draft events at payload [])) _ made in
      (digest, hashed, cc (done))

  -- The events that `append_event` returns are the old ones and one more, and they form a valid
  -- chain if the old ones did.
  pub append_event-chain :
      (events : List Event) (at : ℕ) (payload : EventData) {events' : List Event}
      → chain_valid h none 0 events ≡ true
      → append_event h events at payload ≡ ok events'
      → (chain_valid h none 0 events' ≡ true) × (length events' ≡ length events + 1)
  append_event-chain events at payload valid made =
      let (digest, hashed, e) = append_event-ok events at payload made in
      (
        rw (← e) (
            chain_valid-append events none 0 (draft events at payload digest) valid
              (draft-valid events at payload digest hashed)),
        rw (← e) (length-append events (draft events at payload digest ∷ [])),
      )
