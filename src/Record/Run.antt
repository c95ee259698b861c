-- ===== src/Record/Run.antt =====
-- `run_command`: the child is started, then polled until it has ended, has run out of time, or the
-- recording is interrupted. What the operating system answers is a parameter: the answers of one
-- child, each in the round of the loop in which it is asked for.
pub mod Steps
pub mod Killed
pub mod Awaited
pub mod Ending
pub mod Cause
pub mod Outcome
pub mod Shape
pub mod Held
mod Tests
use cmdtrail.Prelude.{
  ℕ, zero, suc, ◌*◌, Bool, true, false, ◌||◌, ◌&&◌, not, Option, none, some, List, [], ◌∷◌, ◌++◌,
  leb, if◌then◌else◌,
}
use cmdtrail.Text.{Text, Bytes, codes, to_ascii_lowercase}
use cmdtrail.FilePath.{FilePath}
use cmdtrail.Result.{Result, ok, err}
use cmdtrail.Model.{
  ℤ, CommandOutcome, CommandState, exited, signaled, timed_out, interrupted, spawn_failed,
  observer_failed,
}

-- What `code`, `signal` and `success` say of an `ExitStatus`.
pub record ExitStatus : Type 0 where
  pub code : Option ℤ
  pub signal : Option ℤ
  pub success : Bool

-- The answer of `try_wait`.
pub data Wait : Type 0 where
  ended : ExitStatus → Wait
  running wait_error : Wait

-- A started child. In round `n` of the loop, `try_wait n` is asked first, then the time since the
-- start in nanoseconds; `kill n` says whether killing succeeds, and `wait_after_kill n` whether
-- the wait after it does, `none` where that wait never returns. The pipes are those that could be
-- taken, each with whether its forwarding thread ends well, `none` where the thread never ends (a
-- descendant of the child may hold the pipe open).
pub record Child : Type 0 where
  pub try_wait : ℕ → Wait
  pub elapsed_ns : ℕ → ℕ
  pub kill : ℕ → Bool
  pub wait_after_kill : ℕ → Option Bool
  pub pipes : List (Option Bool)

-- An outcome with the blind spots that the run leaves.
abbrev pub Run : Type 0
Run = CommandOutcome × List Text

abbrev pub not_forwarded : Text
not_forwarded =
    codes "at least one observed-command output stream could not be fully passed through to stderr"

-- Every thread is joined; `none` where a join never returns.
abbrev pub any_failed : List (Option Bool) → Option Bool
any_failed [] = some false
any_failed (none ∷ rest) = none
any_failed (some forwarded ∷ rest) = elim (any_failed rest) [
  | none ↦ none
  | some failed ↦ some (not forwarded || failed)
]

unfoldable pub finish_run : CommandOutcome → List Text → List (Option Bool) → Option Run
finish_run outcome blind_spots forwarders = elim (any_failed forwarders) [
  | none ↦ none
  | some failed ↦
      some (outcome, if failed then blind_spots ++ (not_forwarded ∷ []) else blind_spots)
]

-- On Unix.
abbrev pub exit_signal : ExitStatus → Option ℤ
exit_signal status = status.signal

unfoldable pub outcome_from_status : ExitStatus → CommandOutcome
outcome_from_status status = record {
  state = elim status.code [ none ↦ signaled | some code ↦ exited ];
  exit_code = status.code;
  signal = exit_signal status;
  success = status.success;
  spawn_error_kind = none;
}

-- An outcome without a status.
abbrev pub no_status : CommandState → Option Text → CommandOutcome
no_status state kind = record {
  state = state;
  exit_code = none;
  signal = none;
  success = false;
  spawn_error_kind = kind;
}

abbrev pub unconfirmed_after_failure : Text
unconfirmed_after_failure =
    codes "direct child termination could not be confirmed after a wait failure"

abbrev pub unconfirmed : Text
unconfirmed =
    codes "direct child termination could not be confirmed; the process may still be running"

abbrev pub before_spawn : Text
before_spawn = codes "observation was interrupted before direct-command spawn"

-- `child.kill().and_then(|()| child.wait()).is_ok()`; `none` where the wait never returns.
abbrev pub kill_confirmed : Child → ℕ → Option Bool
kill_confirmed child n = if child.kill n then child.wait_after_kill n else some false

-- `timeout_ms.is_some_and(|limit| started.elapsed() >= Duration::from_millis(limit))`
abbrev pub is_timed_out : Child → Option ℕ → ℕ → Bool
is_timed_out child none n = false
is_timed_out child (some limit) n = leb (limit * 1000000) (child.elapsed_ns n)

unfoldable pub wait_failure : Child → ℕ → Option Run
wait_failure child n = elim (kill_confirmed child n) [
  | none ↦ none
  | some confirmed ↦
      finish_run (no_status observer_failed (some (codes "wait_failed")))
        (if confirmed then [] else unconfirmed_after_failure ∷ []) child.pipes
]

unfoldable pub stopped : Child → Bool → ℕ → Option Run
stopped child was_interrupted n = elim (kill_confirmed child n) [
  | none ↦ none
  | some confirmed ↦
      finish_run
        (no_status (if was_interrupted then interrupted else timed_out)
          (if confirmed then none else some (codes "termination_not_confirmed")))
        (if confirmed then [] else unconfirmed ∷ []) child.pipes
]

unfoldable pub interrupted_before_spawn : Run
interrupted_before_spawn = (no_status interrupted none, before_spawn ∷ [])

unfoldable pub not_spawned : Text → Run
not_spawned kind = (no_status spawn_failed (some (to_ascii_lowercase kind)), [])

-- The flag of the interrupt handler is loaded once before the spawn and then once a round: `flag n`
-- is what load `n` gives.
module _ (flag : ℕ → Bool) (timeout_ms : Option ℕ) where
  -- One round: `none` where the loop sleeps and goes on. Otherwise the loop is left, with a run or,
  -- where a wait or a join never returns, with `none`.
  unfoldable pub poll : Child → ℕ → Option (Option Run)
  poll child n = elim (child.try_wait n) [
    | ended status ↦ some (finish_run (outcome_from_status status) [] child.pipes)
    | wait_error ↦ some (wait_failure child n)
    | running ↦
        if is_timed_out child timeout_ms n || flag (suc n)
        then some (stopped child (flag (suc n)) n)
        else none
  ]

  -- The loop from round `n`; `none` where it has not ended after `fuel` rounds, or never returns.
  unfoldable pub poll_loop : ℕ → Child → ℕ → Option Run
  poll_loop zero child n = none
  poll_loop (suc fuel) child n = elim (poll child n) [
    | some answer ↦ answer
    | none ↦ poll_loop fuel child (suc n)
  ]

  -- The command is started where the flag is not set; a start that fails gives the `Debug` name of
  -- its error kind.
  unfoldable pub run_command : ℕ → Result Text Child → Option Run
  run_command fuel start =
      if flag 0
      then some interrupted_before_spawn
      else elim start [ err kind ↦ some (not_spawned kind) | ok child ↦ poll_loop fuel child 0 ]
