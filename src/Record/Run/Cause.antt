-- ===== src/Record/Run/Cause.antt =====
-- What a run says against what happened: the start, the status of the child, or the kill.
use cmdtrail.Prelude.{
  ℕ, ◌≡◌, refl, Bool, true, false, Option, none, some, List, [], ◌∷◌, ◌++◌, inl, inr, OneOf,
  if◌then◌else◌, subst,
}
use cmdtrail.Text.{Text, codes, to_ascii_lowercase}
use cmdtrail.Result.{Result, ok, err}
use cmdtrail.Model.{
  ℤ, CommandOutcome, CommandState, exited, signaled, timed_out, interrupted, spawn_failed,
  observer_failed,
}
use cmdtrail.Record.Run.{
  ExitStatus, ended, Child, Run, any_failed, finish_run, outcome_from_status, no_status,
  before_spawn, unconfirmed, unconfirmed_after_failure, not_forwarded, kill_confirmed, wait_failure,
  stopped, interrupted_before_spawn, not_spawned, poll_loop, run_command,
}
use cmdtrail.Record.Run.Killed.{wait_failure-some, stopped-some}
use cmdtrail.Record.Run.Steps.{
  Phase, polling, over, Step, Steps, exits, is_lost, is_interrupted, runs_out, sleeps, here, next,
  poll_loop-Steps,
}

-- The run tells the status that the child ended with.
abbrev pub IsEnd : Child → Run → Type 0
IsEnd child run =
    (n : ℕ) × (status : ExitStatus) × (child.try_wait n ≡ ended status)
    × (run.0.exit_code ≡ status.code)
    × (run.0.signal ≡ status.signal)
    × (run.0.success ≡ status.success)
    × (run.0.spawn_error_kind ≡ none)

-- The run tells whether the kill of the child was confirmed.
abbrev pub IsStop : Child → Run → Type 0
IsStop child run =
    (n : ℕ) × (confirmed : Bool) × (kill_confirmed child n ≡ some confirmed)
    × (run.0.spawn_error_kind
        ≡ (if confirmed then none else some (codes "termination_not_confirmed")))
    × (if confirmed then Unit {0} else OneOf unconfirmed run.1)

-- The same after a failed wait.
abbrev pub IsLoss : Child → Run → Type 0
IsLoss child run =
    (n : ℕ) × (confirmed : Bool) × (kill_confirmed child n ≡ some confirmed)
    × (run.0.spawn_error_kind ≡ some (codes "wait_failed"))
    × (if confirmed then Unit {0} else OneOf unconfirmed_after_failure run.1)

abbrev pub IsOfChild : Child → Run → CommandState → Type 0
IsOfChild child run exited = IsEnd child run
IsOfChild child run signaled = IsEnd child run
IsOfChild child run timed_out = IsStop child run
IsOfChild child run interrupted = IsStop child run
IsOfChild child run observer_failed = IsLoss child run
IsOfChild child run spawn_failed = ⊥

-- What a run says where the interrupt flag was set before the start or not, and the start gave this.
abbrev pub IsCaused : Bool → Result Text Child → Run → Type 0
IsCaused true start run =
    (run.0.state ≡ interrupted) × (run.0.spawn_error_kind ≡ none) × OneOf before_spawn run.1
IsCaused false (err kind) run =
    (run.0.state ≡ spawn_failed) × (run.0.spawn_error_kind ≡ some (to_ascii_lowercase kind))
IsCaused false (ok child) run = IsOfChild child run run.0.state

pub OneOf-append : (w : Text) (xs ys : List Text) → OneOf w xs → OneOf w (xs ++ ys)
OneOf-append w [] ys h = absurd h
OneOf-append w (x ∷ xs) ys (inl e) = inl e
OneOf-append w (x ∷ xs) ys (inr m) = inr (OneOf-append w xs ys m)

-- Finishing keeps the outcome and the blind spots.
pub finish_run-keeps :
    (outcome : CommandOutcome) (spots : List Text) (forwarders : List (Option Bool)) {run : Run}
    → finish_run outcome spots forwarders ≡ some run
    → (more : List Text) × ◌≡◌ {A = Run} (outcome, more) run
      × ((w : Text) → OneOf w spots → OneOf w more)
unfolding finish_run
finish_run-keeps outcome spots forwarders {run} made = by_join (any_failed forwarders) made
  where
    kept :
        (test : Bool) (w : Text)
        → OneOf w spots
        → OneOf w (if test then spots ++ (not_forwarded ∷ []) else spots)
    kept true w m = OneOf-append w spots (not_forwarded ∷ []) m
    kept false w m = m

    by_join :
        (joined : Option Bool)
        → ◌≡◌ {A = Option Run}
            (elim joined [
              | none ↦ none
              | some failed ↦
                  some (outcome, if failed then spots ++ (not_forwarded ∷ []) else spots)
            ])
            (some run)
        → (more : List Text) × ◌≡◌ {A = Run} (outcome, more) run
          × ((w : Text) → OneOf w spots → OneOf w more)
    by_join none e = cc
    by_join (some failed) e = (_, cc (e), kept failed)

module _ (child : Child) where
  IsOfChild-more :
      (outcome : CommandOutcome) (spots more : List Text) (state : CommandState)
      → ((w : Text) → OneOf w spots → OneOf w more)
      → IsOfChild child (outcome, spots) state
      → IsOfChild child (outcome, more) state
  IsOfChild-more outcome spots more exited grows is = is
  IsOfChild-more outcome spots more signaled grows is = is
  IsOfChild-more outcome spots more timed_out grows (n, true, k, e, m) = (n, true, k, e, tt)
  IsOfChild-more outcome spots more timed_out grows (n, false, k, e, m) =
      (n, false, k, e, grows unconfirmed m)
  IsOfChild-more outcome spots more interrupted grows (n, true, k, e, m) = (n, true, k, e, tt)
  IsOfChild-more outcome spots more interrupted grows (n, false, k, e, m) =
      (n, false, k, e, grows unconfirmed m)
  IsOfChild-more outcome spots more observer_failed grows (n, true, k, e, m) = (n, true, k, e, tt)
  IsOfChild-more outcome spots more observer_failed grows (n, false, k, e, m) =
      (n, false, k, e, grows unconfirmed_after_failure m)
  IsOfChild-more outcome spots more spawn_failed grows is = is

  finish_run-IsOfChild :
      (outcome : CommandOutcome) (spots : List Text) {run : Run}
      → IsOfChild child (outcome, spots) outcome.state
      → finish_run outcome spots child.pipes ≡ some run
      → IsOfChild child run run.0.state
  finish_run-IsOfChild outcome spots is made =
      let (more, same, grows) = finish_run-keeps outcome spots child.pipes made in
      subst (λ (r : Run). IsOfChild child r r.0.state) same
        (IsOfChild-more outcome spots more outcome.state grows is)

  status-IsOfChild :
      (n : ℕ) (status : ExitStatus)
      → child.try_wait n ≡ ended status
      → IsOfChild child (outcome_from_status status, []) (outcome_from_status status).state
  unfolding outcome_from_status
  status-IsOfChild n status w = by_code status.code (n, status, w, refl, refl, refl, refl)
    where
      by_code :
          (code : Option ℤ)
          → IsEnd child (outcome_from_status status, [])
          → IsOfChild child
              (outcome_from_status status, [])
              (elim code [ none ↦ signaled | some c ↦ exited ])
      by_code none is = is
      by_code (some c) is = is

  wait_failure-IsOfChild :
      (n : ℕ) {run : Run} → wait_failure child n ≡ some run → IsOfChild child run run.0.state
  wait_failure-IsOfChild n made =
      let (confirmed, k, e) = wait_failure-some child n made in
      finish_run-IsOfChild _ _ (n, confirmed, k, refl, spots confirmed) e
    where
      spots :
          (confirmed : Bool)
          → if confirmed
            then Unit {0}
            else OneOf unconfirmed_after_failure
                (if confirmed then [] else unconfirmed_after_failure ∷ [])
      spots true = tt
      spots false = inl refl

  stopped-IsOfChild :
      (early : Bool) (n : ℕ) {run : Run}
      → stopped child early n ≡ some run
      → IsOfChild child run run.0.state
  stopped-IsOfChild early n made =
      let (confirmed, k, e) = stopped-some child n early made in
      finish_run-IsOfChild _ _ (by_flag early confirmed k) e
    where
      spots :
          (confirmed : Bool)
          → if confirmed
            then Unit {0}
            else OneOf unconfirmed (if confirmed then [] else unconfirmed ∷ [])
      spots true = tt
      spots false = inl refl

      by_flag :
          (early confirmed : Bool)
          → kill_confirmed child n ≡ some confirmed
          → IsOfChild child
              (
                no_status
                    (if early then interrupted else timed_out)
                    (if confirmed then none else some (codes "termination_not_confirmed")),
                if confirmed then [] else unconfirmed ∷ [],
              )
              (if early then interrupted else timed_out)
      by_flag true confirmed k = (n, confirmed, k, refl, spots confirmed)
      by_flag false confirmed k = (n, confirmed, k, refl, spots confirmed)

  module _ (flag : ℕ → Bool) (timeout_ms : Option ℕ) where
    abbrev IsTold : Phase → Type 0
    IsTold (polling n) = Unit
    IsTold (over run) = IsOfChild child run run.0.state

    Step-IsTold : {p q : Phase} → Step flag timeout_ms child p q → IsTold q
    Step-IsTold (exits {n} status w e) = finish_run-IsOfChild _ _ (status-IsOfChild n status w) e
    Step-IsTold (is_lost {n} w e) = wait_failure-IsOfChild n e
    Step-IsTold (is_interrupted {n} w set e) = stopped-IsOfChild true n e
    Step-IsTold (runs_out {n} w clear due e) = stopped-IsOfChild false n e
    Step-IsTold (sleeps w clear early) = tt

    pub Steps-IsTold : {p q : Phase} → Steps flag timeout_ms child p q → IsTold p → IsTold q
    Steps-IsTold here told = told
    Steps-IsTold (next step steps) told = Steps-IsTold steps (Step-IsTold step)

-- A run that has ended says what happened.
pub run_command-IsCaused :
    (flag : ℕ → Bool) (timeout_ms : Option ℕ) (fuel : ℕ) (start : Result Text Child) {run : Run}
    → run_command flag timeout_ms fuel start ≡ some run
    → IsCaused (flag 0) start run
unfolding run_command interrupted_before_spawn not_spawned
run_command-IsCaused flag timeout_ms fuel start {run} made = by_flag (flag 0) start made
  where
    same : {a b : Run} → some a ≡ some b → a ≡ b
    same p = cc

    early-IsCaused : IsCaused true start interrupted_before_spawn
    early-IsCaused = (refl, refl, inl refl)

    by_flag :
        (early : Bool) (start : Result Text Child)
        → (if early then some interrupted_before_spawn else elim start [
          | err kind ↦ some (not_spawned kind)
          | ok child ↦ poll_loop flag timeout_ms fuel child 0
        ])
          ≡ some run
        → IsCaused early start run
    by_flag true start e = subst (IsCaused true start) (same e) early-IsCaused
    by_flag false (err kind) e = subst (IsCaused false (err kind)) (same e) (refl, refl)
    by_flag false (ok child) e =
        Steps-IsTold child flag timeout_ms
          ((poll_loop-Steps flag timeout_ms child 0 run).0 (fuel, e)) tt
