-- ===== src/Record/Run/Ending.antt =====
-- When the polling ends: after an interrupt, and within the time limit.
use cmdtrail.Prelude.{
  ℕ, zero, suc, ◌+◌, ◌*◌, ◌≤◌, ◌<◌, ◌≡◌, ◌≢◌, refl, sym, ap, ◌∙◌, Bool, true, ◌||◌, Bool-cases,
  Option, Option-cases, none, some, inl, inr, arith, if◌then◌else◌, subst, false, [],
}
use cmdtrail.Text.{Text}
use cmdtrail.Result.{Result, ok, err}
use cmdtrail.Record.{RecordOptions, validate_options}
use cmdtrail.Record.Options.{IsTimeout, validate_options-IsAllowed}
use cmdtrail.Record.Run.{
  Child, Wait, ended, running, wait_error, Run, is_timed_out, poll, poll_loop, run_command,
  interrupted_before_spawn, not_spawned, outcome_from_status,
}
use cmdtrail.Record.Run.Steps.{timed_out_iff, poll_running, loop_found, loop_sleeps}
use cmdtrail.Record.Run.Awaited.{
  IsAwaitable, Ends, finish_run-Ends, wait_failure-Ends, stopped-Ends,
}

-- `thread::sleep(10 ms)` sleeps at least that long: from one round to the next, the time since the
-- start grows by ten million nanoseconds.
abbrev pub SleepsTenMs : Child → Type 0
SleepsTenMs child = (n : ℕ) → child.elapsed_ns n + 10000000 ≤ child.elapsed_ns (suc n)

module _ (flag : ℕ → Bool) (timeout_ms : Option ℕ) (child : Child) where
  -- A round in which the loop is left gives a run, where the blocking calls return.
  poll-Ends :
      (n : ℕ) {answer : Option Run}
      → IsAwaitable child
      → poll flag timeout_ms child n ≡ some answer
      → Ends answer
  unfolding poll
  poll-Ends n {answer} awaitable e = by_wait (child.try_wait n) refl
    where
      left :
          (given : Option Run)
          → Ends given
          → poll flag timeout_ms child n ≡ some given
          → Ends answer
      left given (run, f) made = (run, unwrapped (sym e ∙ made) ∙ f)
        where
          unwrapped : {a b : Option Run} → ◌≡◌ {A = Option (Option Run)} (some a) (some b) → a ≡ b
          unwrapped p = cc

      by_wait : (wait : Wait) → child.try_wait n ≡ wait → Ends answer
      by_wait (ended status) w =
          left _ (finish_run-Ends (outcome_from_status status) [] child.pipes awaitable.joins)
            (rw (poll, w))
      by_wait wait_error w = left _ (wait_failure-Ends child awaitable n) (rw (poll, w))
      by_wait running w = by_test (is_timed_out child timeout_ms n || flag (suc n)) refl
        where
          by_test :
              (test : Bool) → (is_timed_out child timeout_ms n || flag (suc n)) ≡ test → Ends answer
          by_test true t =
              left _ (stopped-Ends child awaitable n (flag (suc n)))
                (poll_running flag timeout_ms child n w ∙ rw t refl)
          by_test false t =
              absurd (none_some (sym (poll_running flag timeout_ms child n w ∙ rw t refl) ∙ e))
            where
              none_some : {a : Option Run} → ◌≡◌ {A = Option (Option Run)} none (some a) → ⊥
              none_some p = cc

  -- A round that does not sleep ends the loop, if the fuel reaches it.
  Ends-by :
      (fuel n m : ℕ)
      → IsAwaitable child
      → n ≤ m
      → m < n + fuel
      → poll flag timeout_ms child m ≢ none
      → Ends (poll_loop flag timeout_ms fuel child n)
  Ends-by zero n m awaitable from to awake = absurd (omega arith)
  Ends-by (suc fuel) n m awaitable from to awake =
      elim (Option-cases (poll flag timeout_ms child n)) [
        | inr (answer, e) ↦
            let (run, f) = poll-Ends n awaitable e in
            (run, loop_found flag timeout_ms child fuel n answer e ∙ f)
        | inl asleep ↦
            let past : n ≢ m = λ e. awake (ap (poll flag timeout_ms child) (sym e) ∙ asleep) in
            let (run, rest) =
              Ends-by fuel (suc n) m awaitable (omega (arith, past)) (omega arith) awake in
            (run, loop_sleeps flag timeout_ms child fuel n asleep ∙ rest)
      ]

  -- A round in which the flag is set, or the time is over, does not sleep.
  awake_when :
      (n : ℕ)
      → (is_timed_out child timeout_ms n || flag (suc n)) ≡ true
      → poll flag timeout_ms child n ≢ none
  unfolding poll
  awake_when n now asleep = by_wait (child.try_wait n) refl
    where
      by_wait : (wait : Wait) → child.try_wait n ≡ wait → ⊥
      by_wait (ended status) w = cc (rw (poll, w) at asleep)
      by_wait wait_error w = cc (rw (poll, w) at asleep)
      by_wait running w = none_if _ _ (sym (poll_running flag timeout_ms child n w) ∙ asleep) now
        where
          none_if :
              (test : Bool) (answer : Option Run)
              → ◌≡◌ {A = Option (Option Run)} (if test then some answer else none) none
              → test ≡ true
              → ⊥
          none_if test answer e is = cc (rw is at e)

  slept : SleepsTenMs child → (n : ℕ) → n * 10000000 ≤ child.elapsed_ns n
  slept tick zero = omega arith
  slept tick (suc n) = omega (arith, slept tick n, tick n)

  -- With the time limit over in a round, that round does not sleep.
  due_in :
      (limit n : ℕ)
      → SleepsTenMs child
      → timeout_ms ≡ some limit
      → limit ≤ 10 * n
      → poll flag timeout_ms child n ≢ none
  due_in limit n tick limited late = awake_when n (
      ground (
        arith,
        (timed_out_iff flag timeout_ms child n).1 (rw limited (omega (arith, slept tick n, late))),
      ))

module _ (flag : ℕ → Bool) (timeout_ms : Option ℕ) where
  -- A run has ended if the polling of a started child has.
  once_started :
      (fuel : ℕ) (start : Result Text Child)
      → ((child : Child) → start ≡ ok child → Ends (poll_loop flag timeout_ms fuel child 0))
      → Ends (run_command flag timeout_ms fuel start)
  unfolding run_command
  once_started fuel start polled = elim (Bool-cases (flag 0)) [
    | inl early ↦ (interrupted_before_spawn, rw early)
    | inr clear ↦ rw clear (by_start start polled)
  ]
    where
      by_start :
          (start : Result Text Child)
          → ((child : Child) → start ≡ ok child → Ends (poll_loop flag timeout_ms fuel child 0))
          → Ends (elim start [
            | err kind ↦ some (not_spawned kind)
            | ok child ↦ poll_loop flag timeout_ms fuel child 0
          ])
      by_start (err kind) polled = (not_spawned kind, refl)
      by_start (ok child) polled = polled child refl

  -- If the interrupt flag is found set in the load of round `n`, the run has ended by the end of
  -- that round, whatever the child does, where the waits after a kill return and the forwarding
  -- threads end.
  pub run_command_interrupted :
      (start : Result Text Child) (n : ℕ)
      → ((child : Child) → start ≡ ok child → IsAwaitable child)
      → flag (suc n) ≡ true
      → Ends (run_command flag timeout_ms (suc n) start)
  run_command_interrupted start n awaitable set = once_started (suc n) start (λ child e.
      Ends-by flag timeout_ms child (suc n) 0 n (awaitable child e) (omega arith) (omega arith)
        (awake_when flag timeout_ms child n (ground (arith, set))))

-- With a time limit that the options allow, the run has ended after 8,640,001 rounds, whatever the
-- child does and whether or not the recording is interrupted. A round sleeps at least 10 ms, the
-- waits after a kill return, and the forwarding threads end.
pub run_command-Ends :
    (flag : ℕ → Bool) (o : RecordOptions) (limit : ℕ) (start : Result Text Child)
    → validate_options o ≡ ok tt
    → o.timeout_ms ≡ some limit
    → ((child : Child) → start ≡ ok child → SleepsTenMs child × IsAwaitable child)
    → Ends (run_command flag o.timeout_ms 8640001 start)
run_command-Ends flag o limit start valid limited tick =
    let within : IsTimeout (some limit) =
      subst IsTimeout limited (((validate_options-IsAllowed o).0 valid).timeout) in
    once_started flag o.timeout_ms 8640001 start (λ child e.
      Ends-by flag o.timeout_ms child 8640001 0 8640000 (tick child e).1 (omega arith) (omega arith)
        (due_in flag o.timeout_ms child limit 8640000 (tick child e).0 limited
          (omega (arith, within))))
