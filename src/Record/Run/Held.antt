-- ===== src/Record/Run/Held.antt =====
-- A run of which a forwarding thread never ends, as where a descendant of the child that outlives it
-- holds a pipe open.
use cmdtrail.Prelude.{
  ℕ, ◌≡◌, refl, Bool, true, false, Option, Option-cases, none, some, List, [], ◌∷◌, inl, inr, OneOf,
}
use cmdtrail.Text.{Text}
use cmdtrail.Result.{ok}
use cmdtrail.Model.{CommandOutcome}
use cmdtrail.Record.Run.{
  Child, Run, any_failed, finish_run, wait_failure, stopped, poll_loop, run_command,
}
use cmdtrail.Record.Run.Killed.{wait_failure-some, stopped-some}
use cmdtrail.Record.Run.Steps.{
  Phase, polling, over, Step, Steps, exits, is_lost, is_interrupted, runs_out, sleeps, here, next,
  poll_loop-Steps,
}

any_failed_held :
    (forwarders : List (Option Bool)) → OneOf none forwarders → any_failed forwarders ≡ none
any_failed_held [] held = absurd held
any_failed_held (none ∷ rest) held = refl
any_failed_held (some forwarded ∷ rest) (inl e) = cc
any_failed_held (some forwarded ∷ rest) (inr held) = rw (any_failed_held rest held) refl

module _ (child : Child) (held : OneOf none child.pipes) where
  finish_run_held :
      (outcome : CommandOutcome) (spots : List Text) {run : Run}
      → finish_run outcome spots child.pipes ≡ some run
      → ⊥
  unfolding finish_run
  finish_run_held outcome spots made =
      cc (rw (finish_run, any_failed_held child.pipes held) at made)

  wait_failure_held : (n : ℕ) {run : Run} → wait_failure child n ≡ some run → ⊥
  wait_failure_held n made =
      let (confirmed, k, e) = wait_failure-some child n made in finish_run_held _ _ e

  stopped_held : (early : Bool) (n : ℕ) {run : Run} → stopped child early n ≡ some run → ⊥
  stopped_held early n made =
      let (confirmed, k, e) = stopped-some child n early made in finish_run_held _ _ e

  module _ (flag : ℕ → Bool) (timeout_ms : Option ℕ) where
    abbrev IsOpen : Phase → Type 0
    IsOpen (polling n) = Unit
    IsOpen (over run) = ⊥

    Step-IsOpen : {p q : Phase} → Step flag timeout_ms child p q → IsOpen q
    Step-IsOpen (exits status w e) = finish_run_held _ _ e
    Step-IsOpen (is_lost {n} w e) = wait_failure_held n e
    Step-IsOpen (is_interrupted {n} w set e) = stopped_held true n e
    Step-IsOpen (runs_out {n} w clear due e) = stopped_held false n e
    Step-IsOpen (sleeps w clear early) = tt

    Steps-IsOpen : {p q : Phase} → Steps flag timeout_ms child p q → IsOpen p → IsOpen q
    Steps-IsOpen here open_yet = open_yet
    Steps-IsOpen (next step steps) open_yet = Steps-IsOpen steps (Step-IsOpen step)

    -- Where a thread that forwards the output of a started child never ends, the run never ends, not
    -- even after the child has exited, the time limit has passed or the recording was interrupted.
    pub run_command_held :
        (fuel : ℕ) → flag 0 ≡ false → run_command flag timeout_ms fuel (ok child) ≡ none
    unfolding run_command
    run_command_held fuel clear =
        rw clear (elim (Option-cases (poll_loop flag timeout_ms fuel child 0)) [
          | inl ends ↦ ends
          | inr (run, e) ↦
              absurd (Steps-IsOpen ((poll_loop-Steps flag timeout_ms child 0 run).0 (fuel, e)) tt)
        ])
