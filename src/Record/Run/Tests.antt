-- ===== src/Record/Run/Tests.antt =====
-- A child that exits in the third round, one that never ends, and the theorems about them.
use cmdtrail.Prelude.{
  ℕ, zero, suc, ◌*◌, ◌≡◌, ◌↔◌, refl, subst, Bool, true, false, none, some, [], ◌∷◌,
}
use cmdtrail.Text.{Text, codes}
use cmdtrail.Result.{Result, ok, err}
use cmdtrail.Model.{pos, timed_out, interrupted, spawn_failed}
use cmdtrail.Record.Run.{
  ExitStatus, Wait, ended, running, Child, Run, finish_run, outcome_from_status, no_status,
  unconfirmed, not_forwarded, poll, poll_loop, run_command, stopped, not_spawned,
}
use cmdtrail.Record.Run.Steps.{polling, over, Steps, poll_loop-Steps}
use cmdtrail.Record.Run.Awaited.{Ends, IsAwaitable}
use cmdtrail.Record.Run.Ending.{run_command_interrupted}

abbrev success_status : ExitStatus
success_status = record { code = some (pos 0); signal = none; success = true }

abbrev third_round : ℕ → Wait
third_round zero = running
third_round (suc zero) = running
third_round (suc (suc n)) = ended success_status

abbrev quick : Child
quick = record {
  try_wait = third_round;
  elapsed_ns = λ n. n * 10000000;
  kill = λ n. true;
  wait_after_kill = λ n. some true;
  pipes = some true ∷ some true ∷ [];
}

-- A child that cannot be killed and never ends.
abbrev endless : Child
endless = record {
  try_wait = λ n. running;
  elapsed_ns = λ n. n * 10000000;
  kill = λ n. false;
  wait_after_kill = λ n. some true;
  pipes = some true ∷ some false ∷ [];
}

abbrev never : ℕ → Bool
never n = false

abbrev second_load : ℕ → Bool
second_load zero = false
second_load (suc n) = true

abbrev succeeded : Run
succeeded = (outcome_from_status success_status, [])

quick_needs_three_rounds : run_command never none 2 (ok quick) ≡ none
unfolding run_command poll_loop poll
quick_needs_three_rounds = refl

endless_times_out :
    run_command never (some 15) 3 (ok endless)
    ≡ some (
      no_status timed_out (some (codes "termination_not_confirmed")),
      unconfirmed ∷ not_forwarded ∷ [],
    )
unfolding run_command poll_loop poll stopped finish_run
endless_times_out = refl

interrupt_comes_first :
    run_command second_load (some 0) 1 (ok endless)
    ≡ some (
      no_status interrupted (some (codes "termination_not_confirmed")),
      unconfirmed ∷ not_forwarded ∷ [],
    )
unfolding run_command poll_loop poll stopped finish_run
interrupt_comes_first = refl

spawn_errors_are_named :
    run_command never none 0 (err (codes "NotFound"))
    ≡ some (no_status spawn_failed (some (codes "notfound")), [])
unfolding run_command not_spawned
spawn_errors_are_named = refl

poll_loop-Steps_example :
    ((fuel : ℕ) × (poll_loop never none fuel quick 0 ≡ some succeeded))
    ↔ Steps never none quick (polling 0) (over succeeded)
poll_loop-Steps_example = poll_loop-Steps never none quick 0 succeeded

endless-IsAwaitable :
    (child : Child) → ◌≡◌ {A = Result Text Child} (ok endless) (ok child) → IsAwaitable child
endless-IsAwaitable child e =
    let same : endless ≡ child = cc (e) in
    subst IsAwaitable same (record { waits = λ n h. cc; joins = tt })

run_command_interrupted_example : Ends (run_command second_load none 1 (ok endless))
run_command_interrupted_example =
    run_command_interrupted second_load none (ok endless) 0 endless-IsAwaitable refl
