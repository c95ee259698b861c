-- ===== src/Record/Events/Laws.antt =====
-- The recorded events form a valid chain within the event limit, and the counts of retained and
-- dropped effects agree with it.
use cmdtrail.Prelude.{
  ℕ, ◌+◌, ◌-◌, ◌≤◌, ◌≡◌, refl, true, none, List, [], ◌∷◌, arith, length, length-take, map, take,
  u64_max,
}
use cmdtrail.Result.{ok, >>=-eq-ok}
use cmdtrail.Model.{
  Event, file_effect, command_requested, command_finished, CommandRequested, CommandOutcome,
  FileEffect,
}
use cmdtrail.Integrity.{Hashing, append_event, chain_valid}
use cmdtrail.Integrity.Chain.{append_event-chain}
use cmdtrail.Record.Events.Contents.{said, effects_said, record_events-said}
use cmdtrail.Record.Events.{
  file_slots, retained_effect_count, dropped_file_effects, file_slots, append_effects,
  record_events,
}

module _ (h : Hashing) where
  append_effects-chain :
      (events : List Event) (at : ℕ) (effects : List FileEffect) {done : List Event}
      → chain_valid h none 0 events ≡ true
      → append_effects h events at effects ≡ ok done
      → (chain_valid h none 0 done ≡ true) × (length done ≡ length events + length effects)
  unfolding append_effects
  append_effects-chain events at [] {done} valid made =
      let e : events ≡ done = cc (made) in rw (← e) (valid, omega arith)
  append_effects-chain events at (effect ∷ effects) {done} valid made =
      let (more, one, rest) = >>=-eq-ok (append_event h events at (file_effect effect)) _ made in
      let (valid', sizes) = append_event-chain h events at (file_effect effect) valid one in
      let (all_valid, all) = append_effects-chain more at effects valid' rest in
      (all_valid, omega (arith, all, sizes))

  -- The events of a recording are a valid chain, two more than the effects that were taken.
  pub record_events-valid :
      (started : ℕ) (requested : CommandRequested) (finished : ℕ) (outcome : CommandOutcome)
      (finished_at max_events : ℕ) (effects : List FileEffect) {events : List Event}
      → record_events h started requested finished outcome finished_at max_events effects
        ≡ ok events
      → (chain_valid h none 0 events ≡ true)
        × (length events ≡ 2 + length (take (file_slots max_events) effects))
  unfolding record_events chain_valid
  record_events-valid started requested finished outcome finished_at max_events effects {events}
        made =
      let (first, one, more) =
        >>=-eq-ok (append_event h [] started (command_requested requested)) _ made in
      let (second, two, rest) =
        >>=-eq-ok (append_event h first finished (command_finished outcome)) _ more in
      let (valid1, size1) =
        append_event-chain h [] started (command_requested requested) refl one in
      let (valid2, size2) =
        append_event-chain h first finished (command_finished outcome) valid1 two in
      let (valid, size) =
        append_effects-chain second finished_at (take (file_slots max_events) effects) valid2
          rest in
      (valid, omega arith)

  -- The recorded events are, in this order and with the given times, which command was started, how
  -- it ended, and the first effects that the event limit leaves room for. They form a valid chain,
  -- which is no longer than the event limit; the retained and the dropped effects are all effects.
  -- The event limit is at least 2, and the number of effects fits a u64.
  pub record_events-chain :
      (started : ℕ) (requested : CommandRequested) (finished : ℕ) (outcome : CommandOutcome)
      (finished_at max_events : ℕ) (effects : List FileEffect) {events : List Event}
      → 2 ≤ max_events
      → length effects ≤ u64_max
      → record_events h started requested finished outcome finished_at max_events effects
        ≡ ok events
      → (map said events ≡ (
          (started, command_requested requested)
          ∷ (finished, command_finished outcome)
          ∷ effects_said finished_at (take (file_slots max_events) effects)))
        × (chain_valid h none 0 events ≡ true)
        × (length events ≡ 2 + retained_effect_count max_events effects)
        × (length events ≤ max_events)
        × (retained_effect_count max_events effects + dropped_file_effects max_events effects
            ≡ length effects)
  unfolding retained_effect_count dropped_file_effects file_slots
  record_events-chain started requested finished outcome finished_at max_events effects {events} low
        fits made =
      let (valid, size) =
        record_events-valid started requested finished outcome finished_at max_events effects
          made in
      let taken = length-take (max_events - 2) effects in
      (
        record_events-said h started requested finished outcome finished_at max_events effects made,
        valid,
        omega arith,
        omega arith,
        omega arith,
      )
