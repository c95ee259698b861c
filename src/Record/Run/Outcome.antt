-- ===== src/Record/Run/Outcome.antt =====
-- What the outcome of one way to end a run says.
use cmdtrail.Prelude.{
  ℕ, ◌≡◌, ◌≢◌, refl, sym, ◌∙◌, ◌↔◌, Bool, true, false, Option, none, some, inl, inr, ◌⊎◌, List, [],
  ◌∷◌, OneOf, if◌then◌else◌, subst,
}
use cmdtrail.Text.{Text, codes}
use cmdtrail.Model.{
  ℤ, pos, CommandOutcome, CommandState, exited, signaled, timed_out, interrupted, spawn_failed,
  observer_failed,
}
use cmdtrail.Record.Run.{
  ExitStatus, ended, Child, Run, finish_run, outcome_from_status, unconfirmed, no_status,
  wait_failure, stopped, interrupted_before_spawn, not_spawned,
}
use cmdtrail.Record.Run.Cause.{finish_run-keeps}
use cmdtrail.Record.Run.Killed.{wait_failure-some, stopped-some}

-- On Unix a status is successful only if it is the exit code 0.
abbrev pub IsStatus : ExitStatus → Type 0
IsStatus status = status.success ≡ true → status.code ≡ some (pos 0)

abbrev pub AreStatuses : Child → Type 0
AreStatuses child =
    (n : ℕ) (status : ExitStatus) → child.try_wait n ≡ ended status → IsStatus status

-- The error kinds that go with a state.
abbrev pub IsKindOf : CommandState → Option Text → Type 0
IsKindOf exited kind = kind ≡ none
IsKindOf signaled kind = kind ≡ none
IsKindOf timed_out kind = (kind ≡ none) ⊎ (kind ≡ some (codes "termination_not_confirmed"))
IsKindOf interrupted kind = (kind ≡ none) ⊎ (kind ≡ some (codes "termination_not_confirmed"))
IsKindOf spawn_failed kind = kind ≢ none
IsKindOf observer_failed kind = kind ≡ some (codes "wait_failed")

-- What a run may say.
pub record IsShaped (run : Run) : Type 0 where
  pub succeeded : run.0.success ≡ true → (run.0.state ≡ exited) × (run.0.exit_code ≡ some (pos 0))
  pub coded : (run.0.exit_code ≢ none) ↔ (run.0.state ≡ exited)
  pub signalled : run.0.signal ≢ none → (run.0.state ≡ exited) ⊎ (run.0.state ≡ signaled)
  pub kind : IsKindOf run.0.state run.0.spawn_error_kind
  pub confessed :
      run.0.state ≢ spawn_failed
      → run.0.spawn_error_kind ≡ some (codes "termination_not_confirmed")
      → OneOf unconfirmed run.1

state_of_code : Option ℤ → CommandState
state_of_code code = elim code [ none ↦ signaled | some c ↦ exited ]

coded_iff : (code : Option ℤ) → (code ≢ none) ↔ (state_of_code code ≡ exited)
unfolding state_of_code
coded_iff none = (λ h. absurd (h refl), λ h. cc)
coded_iff (some c) = (λ h. refl, λ h. cc)

coded_or_signaled :
    (code : Option ℤ) → (state_of_code code ≡ exited) ⊎ (state_of_code code ≡ signaled)
unfolding state_of_code
coded_or_signaled none = inr refl
coded_or_signaled (some c) = inl refl

code-IsKindOf : (code : Option ℤ) → IsKindOf (state_of_code code) none
unfolding state_of_code
code-IsKindOf none = refl
code-IsKindOf (some c) = refl

pub status-IsShaped :
    (status : ExitStatus) → IsStatus status → IsShaped (outcome_from_status status, [])
unfolding outcome_from_status state_of_code
status-IsShaped status honest = record {
  succeeded = λ h.
      let zero_code = honest h in
      ((coded_iff status.code).0 (λ missing. some_none (sym zero_code ∙ missing)), zero_code);
  coded = coded_iff status.code;
  signalled = λ h. coded_or_signaled status.code;
  kind = code-IsKindOf status.code;
  confessed = λ started h. cc;
}
  where
    some_none : {c : ℤ} → some c ≡ none → ⊥
    some_none e = cc

-- Finishing keeps the outcome and the blind spots.
pub finish_run-IsShaped :
    (outcome : CommandOutcome) (spots : List Text) (forwarders : List (Option Bool)) {run : Run}
    → IsShaped (outcome, spots)
    → finish_run outcome spots forwarders ≡ some run
    → IsShaped run
finish_run-IsShaped outcome spots forwarders shaped made =
    let (more, same, grows) = finish_run-keeps outcome spots forwarders made in
    subst IsShaped same (record {
      succeeded = shaped.succeeded;
      coded = shaped.coded;
      signalled = shaped.signalled;
      kind = shaped.kind;
      confessed = λ started h. grows unconfirmed (shaped.confessed started h);
    })

other_kind : some (codes "wait_failed") ≡ some (codes "termination_not_confirmed") → ⊥
other_kind h = cc

lost-IsShaped :
    (spots : List Text) → IsShaped (no_status observer_failed (some (codes "wait_failed")), spots)
lost-IsShaped spots = record {
  succeeded = λ h. cc;
  coded = (λ h. absurd (h refl), λ h. cc);
  signalled = λ h. absurd (h refl);
  kind = refl;
  confessed = λ started h. absurd (other_kind h);
}

pub wait_failure-IsShaped :
    (child : Child) (n : ℕ) {run : Run} → wait_failure child n ≡ some run → IsShaped run
wait_failure-IsShaped child n made =
    let (confirmed, k, e) = wait_failure-some child n made in
    finish_run-IsShaped _ _ child.pipes (lost-IsShaped _) e

-- A run that was stopped, with whether the termination was confirmed.
stop-IsShaped :
    (early confirmed : Bool)
    → IsShaped (
      no_status
          (if early then interrupted else timed_out)
          (if confirmed then none else some (codes "termination_not_confirmed")),
      if confirmed then [] else unconfirmed ∷ [],
    )
stop-IsShaped early confirmed = record {
  succeeded = λ h. cc;
  coded = (λ h. absurd (h refl), λ h. absurd (not_exited early h));
  signalled = λ h. absurd (h refl);
  kind = of_kind early confirmed;
  confessed = λ started h. by_kill confirmed h;
}
  where
    not_exited : (b : Bool) → (if b then interrupted else timed_out) ≡ exited → ⊥
    not_exited true h = cc
    not_exited false h = cc

    of_kind :
        (b confirmed : Bool)
        → IsKindOf
            (if b then interrupted else timed_out)
            (if confirmed then none else some (codes "termination_not_confirmed"))
    of_kind true true = inl refl
    of_kind true false = inr refl
    of_kind false true = inl refl
    of_kind false false = inr refl

    by_kill :
        (confirmed : Bool)
        → (if confirmed then none else some (codes "termination_not_confirmed"))
          ≡ some (codes "termination_not_confirmed")
        → OneOf unconfirmed (if confirmed then [] else unconfirmed ∷ [])
    by_kill true h = cc
    by_kill false h = inl refl

pub stopped-IsShaped :
    (child : Child) (early : Bool) (n : ℕ) {run : Run}
    → stopped child early n ≡ some run
    → IsShaped run
stopped-IsShaped child early n made =
    let (confirmed, k, e) = stopped-some child n early made in
    finish_run-IsShaped _ _ child.pipes (stop-IsShaped early confirmed) e

pub before-IsShaped : IsShaped interrupted_before_spawn
unfolding interrupted_before_spawn
before-IsShaped = record {
  succeeded = λ h. cc;
  coded = (λ h. absurd (h refl), λ h. cc);
  signalled = λ h. absurd (h refl);
  kind = inl refl;
  confessed = λ started h. cc;
}

pub not_spawned-IsShaped : (kind : Text) → IsShaped (not_spawned kind)
unfolding not_spawned
not_spawned-IsShaped kind = record {
  succeeded = λ h. cc;
  coded = (λ h. absurd (h refl), λ h. cc);
  signalled = λ h. absurd (h refl);
  kind = λ h. cc;
  confessed = λ started h. absurd (started refl);
}
