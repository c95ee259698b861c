-- ===== src/Record/Events/Contents.antt =====
-- What the recorded events say, in their order: the command, its outcome, and the first effects.
use cmdtrail.Prelude.{ℕ, ◌≡◌, refl, sym, List, [], ◌∷◌, ◌++◌, map, take, append_assoc, append-nil}
use mathlib.Core.List.{map-append}
use cmdtrail.Result.{ok, >>=-eq-ok}
use cmdtrail.Model.{
  Event, EventData, file_effect, command_requested, command_finished, CommandRequested,
  CommandOutcome, FileEffect,
}
use cmdtrail.Integrity.{Hashing, append_event}
use cmdtrail.Integrity.Chain.{draft, append_event-ok}
use cmdtrail.Record.Events.{file_slots, append_effects, record_events}

-- What an event says, and when.
abbrev pub said : Event → ℕ × EventData
said e = (e.observed_at_unix_ms, e.event)

abbrev pub effects_said : ℕ → List FileEffect → List (ℕ × EventData)
effects_said at effects = map (λ effect. (at, file_effect effect)) effects

module _ (h : Hashing) where
  pub append_event-said :
      (events : List Event) (at : ℕ) (payload : EventData) {events' : List Event}
      → append_event h events at payload ≡ ok events'
      → map said events' ≡ map said events ++ ((at, payload) ∷ [])
  append_event-said events at payload made =
      let (digest, hashed, e) = append_event-ok h events at payload made in
      rw (← e) (map-append said events (draft h events at payload digest ∷ []))

  append_effects-said :
      (events : List Event) (at : ℕ) (effects : List FileEffect) {done : List Event}
      → append_effects h events at effects ≡ ok done
      → map said done ≡ map said events ++ effects_said at effects
  unfolding append_effects
  append_effects-said events at [] {done} made =
      let e : events ≡ done = cc (made) in rw (← e) (sym (append-nil (map said events)))
  append_effects-said events at (effect ∷ effects) {done} made =
      let (more, one, rest) = >>=-eq-ok (append_event h events at (file_effect effect)) _ made in
      rw
        (
          append_effects-said more at effects rest,
          append_event-said events at (file_effect effect) one,
        )
        (append_assoc (map said events) ((at, file_effect effect) ∷ []) (effects_said at effects))

  -- The events tell, in this order and with these times, which command was started, how it ended,
  -- and the first effects that the event limit leaves room for.
  pub record_events-said :
      (started : ℕ) (requested : CommandRequested) (finished : ℕ) (outcome : CommandOutcome)
      (finished_at max_events : ℕ) (effects : List FileEffect) {events : List Event}
      → record_events h started requested finished outcome finished_at max_events effects
        ≡ ok events
      → map said events ≡ (
          (started, command_requested requested)
          ∷ (finished, command_finished outcome)
          ∷ effects_said finished_at (take (file_slots max_events) effects))
  unfolding record_events
  record_events-said started requested finished outcome finished_at max_events effects made =
      let (first, one, more) =
        >>=-eq-ok (append_event h [] started (command_requested requested)) _ made in
      let (second, two, rest) =
        >>=-eq-ok (append_event h first finished (command_finished outcome)) _ more in
      rw
        (
          append_effects-said second finished_at (take (file_slots max_events) effects) rest,
          append_event-said first finished (command_finished outcome) two,
          append_event-said [] started (command_requested requested) one,
        )
        refl
