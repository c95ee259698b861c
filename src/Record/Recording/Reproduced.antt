-- ===== src/Record/Recording/Reproduced.antt =====
-- The comparison of two recordings that saw the same changes.
use cmdtrail.Prelude.{
  ℕ, ◌≡◌, refl, sym, ap, ◌∙◌, true, false, List, [], ◌∷◌, map, take, filter_map, if◌then◌else◌,
  decided, decided_of,
}
use cmdtrail.Result.{ok}
use cmdtrail.Model.{
  Event, EventData, FileEffect, Receipt, DiffResult, CommandOutcome-discrete, Capabilities-discrete,
}
use cmdtrail.Capability.{portable_capabilities}
use cmdtrail.Snapshot.Compare.{compare}
use cmdtrail.Diff.{key_of, diff_effects, diff_receipts}
use cmdtrail.Diff.Receipts.{diff_receipts-verified}
use cmdtrail.Diff.Keys.{key_told, diff_effects_alike}
use cmdtrail.Record.{RecordOptions, validate_options}
use cmdtrail.Record.Events.{file_slots}
use cmdtrail.Record.Events.Contents.{said, effects_said}
use cmdtrail.Record.Draft.{Prepared, Observed, draft_receipt, command_record}
use cmdtrail.Record.Recording.{Machine, seal}
use cmdtrail.Record.Recording.Sound.{IsSound, seal-IsSound}

events_said : (events : List Event) → map (λ e. e.event) events ≡ map (λ x. x.1) (map said events)
events_said [] = refl
events_said (e ∷ es) = ap (λ ds. e.event ∷ ds) (events_said es)

keys_said :
    (at : ℕ) (effects : List FileEffect)
    → filter_map key_told (map (λ x. x.1) (effects_said at effects)) ≡ map key_of effects
keys_said at [] = refl
keys_said at (e ∷ es) = ap (λ ks. key_of e ∷ ks) (keys_said at es)

-- The differences that the event limit leaves room for.
abbrev pub retained : RecordOptions → Observed → List FileEffect
retained o seen = take (file_slots o.max_events) (compare seen.before seen.after)

module _ {D : Type 0} (machine : Machine D) where
  told_keys :
      (o : RecordOptions) (p : Prepared) (seen : Observed) {receipt : Receipt}
      → IsSound machine o p seen receipt
      → filter_map key_told (map (λ e. e.event) receipt.events) ≡ map key_of (retained o seen)
  told_keys o p seen {receipt} sound =
      ap (filter_map key_told)
        (events_said receipt.events ∙ ap (map (λ (x : ℕ × EventData). x.1)) sound.told)
      ∙ keys_said seen.finished_at (retained o seen)

  -- Two recordings are sealed by one build that retain differences with the same roots, paths and kinds of effect,
  -- whenever they ran and whatever the contents were. Then their receipts can be compared, and no effect
  -- is added or removed; the outcome of the command is reported as changed exactly if it did, and the
  -- declared capabilities did not. The options are within their limits.
  pub diff_recordings :
      (o o' : RecordOptions) (p p' : Prepared) (seen seen' : Observed) {before after : Receipt}
      → validate_options o ≡ ok tt
      → validate_options o' ≡ ok tt
      → seal machine o p seen ≡ ok before
      → seal machine o' p' seen' ≡ ok after
      → map key_of (retained o seen) ≡ map key_of (retained o' seen')
      → (d : DiffResult) × (diff_receipts machine.hashing machine.build.version before after ≡ ok d)
        × (d.added_effects ≡ [])
        × (d.removed_effects ≡ [])
        × (d.command_outcome_changed
            ≡ (if decided (CommandOutcome-discrete seen.run.0 seen'.run.0) then false else true))
        × (d.capability_declaration_changed ≡ false)
  unfolding diff_effects draft_receipt command_record portable_capabilities
  diff_recordings o o' p p' seen seen' {before} {after} valid valid' sealed sealed' same =
      let first = seal-IsSound machine o p seen valid sealed in
      let second = seal-IsSound machine o' p' seen' valid' sealed' in
      let alike = told_keys o p seen first ∙ same ∙ sym (told_keys o' p' seen' second) in
      let (none_added, none_removed) =
        diff_effects_alike before after alike machine.hashing machine.build.version in
      let outcome = ap (λ (r : Receipt). r.command.outcome) first.drafted in
      let outcome' = ap (λ (r : Receipt). r.command.outcome) second.drafted in
      let declared = ap (λ (r : Receipt). r.capabilities) first.drafted in
      let declared' = ap (λ (r : Receipt). r.capabilities) second.drafted in
      (
        diff_effects machine.hashing machine.build.version before after,
        diff_receipts-verified machine.hashing machine.build.version before after
            ∙ rw (first.intact, second.intact) refl,
        none_added,
        none_removed,
        rw (outcome, outcome') refl,
        rw (declared, declared')
            (rw
              (decided_of (Capabilities-discrete portable_capabilities portable_capabilities) refl)
              refl),
      )
