-- ===== src/Record/Recording/Sound.antt =====
-- A receipt that a recording seals verifies and says what was observed.
use cmdtrail.Prelude.{
  ◌≤◌, ◌-◌, ◌≡◌, refl, sym, ap, ◌∙◌, List, ◌∷◌, true, map, take, arith, length, length-take,
}
use cmdtrail.Result.{ok, >>=-eq-ok}
use cmdtrail.Model.{Event, Receipt, command_requested, command_finished}
use cmdtrail.Integrity.{verify_receipt, finalize_receipt}
use cmdtrail.Integrity.Sealing.{unsealed, verify-finalize, finalize_receipt-unsealed}
use cmdtrail.Redact.{RedactedCommand, command}
use cmdtrail.Snapshot.Compare.{compare}
use cmdtrail.Record.{RecordOptions, validate_options}
use cmdtrail.Record.Options.{validate_options-IsAllowed}
use cmdtrail.Record.Events.{file_slots}
use cmdtrail.Record.Events.Contents.{said, effects_said, record_events-said}
use cmdtrail.Record.Events.Laws.{record_events-valid}
use cmdtrail.Record.Draft.{Prepared, Observed, draft_receipt, receipt_summary, command_record}
use cmdtrail.Record.Recording.{Machine, events_of, seal}

module _ {D : Type 0} (machine : Machine D) (o : RecordOptions) (p : Prepared)
    (seen : Observed) where
  abbrev pub shown : RedactedCommand
  shown = command machine.hashing.sha256 p.redactor o.command

  abbrev pub drafted_with : List Event → Receipt
  drafted_with = draft_receipt machine.hashing.sha256 machine.build o p seen shown

  -- A receipt of what was observed: it verifies, keeps to the event limit, tells the command, its
  -- outcome and the first differences between the two snapshots, and is the draft but for the digests.
  pub record IsSound (receipt : Receipt) : Type 0 where
    pub intact :
        (verify_receipt machine.hashing machine.build.version receipt).integrity_valid ≡ true
    pub bounded : length receipt.events ≤ o.max_events
    pub state : receipt.summary.command_state ≡ receipt.command.outcome.state
    pub told : map said receipt.events ≡ (
        (
          seen.command_started_at,
          command_requested (record {
            executable_sha256 = shown.executable_sha256;
            command_sha256 = shown.command_sha256;
          }),
        )
        ∷ (seen.command_finished_at, command_finished seen.run.0)
        ∷ effects_said seen.finished_at
            (take (file_slots o.max_events) (compare seen.before seen.after)))
    pub drafted : unsealed receipt ≡ unsealed (drafted_with receipt.events)

  sealed-IsSound :
      (events : List Event) {receipt : Receipt}
      → validate_options o ≡ ok tt
      → events_of machine o seen shown ≡ ok events
      → finalize_receipt machine.hashing (drafted_with events) ≡ ok receipt
      → IsSound receipt
  unfolding events_of draft_receipt receipt_summary command_record file_slots
  sealed-IsSound events {receipt} valid listed sealed =
      let (valid_chain, size) =
        record_events-valid machine.hashing _ _ _ _ _ o.max_events _ listed in
      let same : unsealed receipt ≡ unsealed (drafted_with events) =
        finalize_receipt-unsealed machine.hashing machine.build.version _ sealed in
      let taken = length-take (o.max_events - 2) (compare seen.before seen.after) in
      let enough : 2 ≤ o.max_events = ((validate_options-IsAllowed o).0 valid).some_events in
      let same_events : receipt.events ≡ events = ap (λ (r : Receipt). r.events) same in
      let sizes : length receipt.events ≡ length events = ap length same_events in
      record {
        intact =
            (verify-finalize machine.hashing machine.build.version _ refl valid_chain sealed).0;
        bounded = omega (arith, sizes, size, taken, enough);
        state =
            ap (λ (r : Receipt). r.summary.command_state) same
            ∙ sym (ap (λ (r : Receipt). r.command.outcome.state) same);
        told =
            ap (map said) same_events
            ∙ record_events-said machine.hashing _ _ _ _ _ o.max_events _ listed;
        drafted = same ∙ ap (λ es. unsealed (drafted_with es)) (sym same_events);
      }

  pub seal-IsSound :
      {receipt : Receipt}
      → validate_options o ≡ ok tt
      → seal machine o p seen ≡ ok receipt
      → IsSound receipt
  unfolding seal
  seal-IsSound valid made =
      let (events, listed, sealed) = >>=-eq-ok (events_of machine o seen shown) _ made in
      sealed-IsSound events valid listed sealed
