-- ===== src/Record/Run/Steps.antt =====
-- A child that is watched, as a relation between phases, and the loop as a run of that relation.
use cmdtrail.Prelude.{
  ℕ, zero, suc, ◌*◌, ◌≤◌, ◌≡◌, refl, sym, ap, ◌∙◌, ◌↔◌, inl, inr, Bool, true, false, ◌||◌, Option,
  none, some, Bool-cases, [], arith, if◌then◌else◌, subst,
}
use cmdtrail.Record.Run.{
  ExitStatus, Wait, ended, running, wait_error, Child, Run, finish_run, outcome_from_status,
  is_timed_out, wait_failure, stopped, poll, poll_loop,
}

pub data Phase : Type 0 where
  polling : ℕ → Phase
  over : Run → Phase

-- The time limit has passed.
abbrev pub IsDue : Option ℕ → ℕ → Type 0
IsDue none elapsed = ⊥
IsDue (some limit) elapsed = limit * 1000000 ≤ elapsed

module _ (flag : ℕ → Bool) (timeout_ms : Option ℕ) (child : Child) where
  -- What may happen to a watched child in round `n`. An end that was seen comes first, then the
  -- interrupt, then the time limit. Where a wait or a join never returns, no step is possible.
  pub data Step : Phase → Phase → Type 0 where
    exits :
        {n : ℕ} {run : Run} (status : ExitStatus)
        → child.try_wait n ≡ ended status
        → finish_run (outcome_from_status status) [] child.pipes ≡ some run
        → Step (polling n) (over run)
    is_lost :
        {n : ℕ} {run : Run}
        → child.try_wait n ≡ wait_error
        → wait_failure child n ≡ some run
        → Step (polling n) (over run)
    is_interrupted :
        {n : ℕ} {run : Run}
        → child.try_wait n ≡ running
        → flag (suc n) ≡ true
        → stopped child true n ≡ some run
        → Step (polling n) (over run)
    runs_out :
        {n : ℕ} {run : Run}
        → child.try_wait n ≡ running
        → flag (suc n) ≡ false
        → IsDue timeout_ms (child.elapsed_ns n)
        → stopped child false n ≡ some run
        → Step (polling n) (over run)
    sleeps :
        {n : ℕ}
        → child.try_wait n ≡ running
        → flag (suc n) ≡ false
        → ¬ IsDue timeout_ms (child.elapsed_ns n)
        → Step (polling n) (polling (suc n))

  pub data Steps : Phase → Phase → Type 0 where
    here : {p : Phase} → Steps p p
    next : {p q r : Phase} → Step p q → Steps q r → Steps p r

  pub timed_out_iff :
      (n : ℕ) → (is_timed_out child timeout_ms n ≡ true) ↔ IsDue timeout_ms (child.elapsed_ns n)
  timed_out_iff n = by_limit timeout_ms
    where
      by_limit :
          (limit : Option ℕ)
          → (is_timed_out child limit n ≡ true) ↔ IsDue limit (child.elapsed_ns n)
      by_limit none = (λ h. cc, λ h. absurd h)
      by_limit (some l) = (λ h. ground arith, λ h. ground arith)

  pub poll_running :
      (n : ℕ)
      → child.try_wait n ≡ running
      → poll flag timeout_ms child n ≡ (
          if is_timed_out child timeout_ms n || flag (suc n)
          then some (stopped child (flag (suc n)) n)
          else none)
  unfolding poll
  poll_running n w = rw (poll, w)

  -- What a round makes of the loop: it is left with a run, is left and never returns, or sleeps.
  data Round (n : ℕ) : Type 0 where
    gives :
        (run : Run)
        → poll flag timeout_ms child n ≡ some (some run)
        → Step (polling n) (over run)
        → Round n
    blocks : poll flag timeout_ms child n ≡ some none → Round n
    goes_on : poll flag timeout_ms child n ≡ none → Step (polling n) (polling (suc n)) → Round n

  left-Round :
      (n : ℕ) (answer : Option Run)
      → poll flag timeout_ms child n ≡ some answer
      → ((run : Run) → answer ≡ some run → Step (polling n) (over run))
      → Round n
  left-Round n none e step = blocks e
  left-Round n (some run) e step = gives run e (step run refl)

  poll-Step : (n : ℕ) (wait : Wait) → child.try_wait n ≡ wait → Round n
  unfolding poll
  poll-Step n (ended status) w =
      left-Round n (finish_run (outcome_from_status status) [] child.pipes) (rw (poll, w))
        (λ run e. exits status w e)
  poll-Step n wait_error w =
      left-Round n (wait_failure child n) (rw (poll, w)) (λ run e. is_lost w e)
  poll-Step n running w = elim (Bool-cases (flag (suc n))) [
    | inl set ↦
        left-Round n (stopped child true n) (poll_running n w ∙ ground (arith, set))
          (λ run e. is_interrupted w set e)
    | inr clear ↦ elim (Bool-cases (is_timed_out child timeout_ms n)) [
      | inl due ↦
          left-Round n (stopped child false n) (poll_running n w ∙ rw (due, clear))
            (λ run e. runs_out w clear ((timed_out_iff n).0 due) e)
      | inr early ↦
          goes_on (poll_running n w ∙ rw (early, clear))
            (sleeps w clear (λ due. differ ((timed_out_iff n).1 due) early))
    ]
  ]
    where
      differ : {b : Bool} → b ≡ true → b ≡ false → ⊥
      differ p q = cc

  pub loop_found :
      (fuel n : ℕ) (answer : Option Run)
      → poll flag timeout_ms child n ≡ some answer
      → poll_loop flag timeout_ms (suc fuel) child n ≡ answer
  unfolding poll_loop
  loop_found fuel n answer e = rw (poll_loop, e)

  pub loop_sleeps :
      (fuel n : ℕ)
      → poll flag timeout_ms child n ≡ none
      → poll_loop flag timeout_ms (suc fuel) child n ≡ poll_loop flag timeout_ms fuel child (suc n)
  unfolding poll_loop
  loop_sleeps fuel n e = rw (poll_loop, e)

  poll_loop_sound :
      (fuel n : ℕ) {run : Run}
      → poll_loop flag timeout_ms fuel child n ≡ some run
      → Steps (polling n) (over run)
  unfolding poll_loop
  poll_loop_sound zero n h = cc
  poll_loop_sound (suc fuel) n {run} h = elim (poll-Step n (child.try_wait n) refl) [
    | gives found e step ↦
        subst (λ r. Steps (polling n) (over r))
          (some_eq (sym (loop_found fuel n (some found) e) ∙ h)) (next step here)
    | blocks e ↦ absurd (none_some (sym (loop_found fuel n none e) ∙ h))
    | goes_on e step ↦ next step (poll_loop_sound fuel (suc n) (sym (loop_sleeps fuel n e) ∙ h))
  ]
    where
      some_eq : {a b : Run} → some a ≡ some b → a ≡ b
      some_eq p = cc

      none_some : {a : Run} → none ≡ some a → ⊥
      none_some p = cc

  -- The run that a step ends in is the one that the round gives.
  Step-poll :
      {n : ℕ} {run : Run}
      → Step (polling n) (over run)
      → poll flag timeout_ms child n ≡ some (some run)
  unfolding poll
  Step-poll {n} (exits status w e) = rw (poll, w) (ap some e)
  Step-poll {n} (is_lost w e) = rw (poll, w) (ap some e)
  Step-poll {n} (is_interrupted w set e) = poll_running n w ∙ ground (arith, set, e)
  Step-poll {n} (runs_out w clear due e) =
      poll_running n w ∙ rw ((timed_out_iff n).1 due, clear) (ap some e)

  Step_sleeps :
      {n m : ℕ} → Step (polling n) (polling m) → (poll flag timeout_ms child n ≡ none) × (m ≡ suc n)
  Step_sleeps {n} (sleeps w clear early) =
      (poll_running n w ∙ by_test (is_timed_out child timeout_ms n) refl, refl)
    where
      by_test :
          (due : Bool)
          → is_timed_out child timeout_ms n ≡ due
          → (if due || flag (suc n) then some (stopped child (flag (suc n)) n) else none) ≡ none
      by_test true due = absurd (early ((timed_out_iff n).0 due))
      by_test false due = rw clear

  abbrev Wins : Phase → Phase → Type 0
  Wins (polling n) (over run) = (fuel : ℕ) × (poll_loop flag timeout_ms fuel child n ≡ some run)
  Wins (over a) (over b) = a ≡ b
  Wins p (polling n) = Unit

  Step-Wins : (p q r : Phase) → Step p q → Wins q r → Wins p r
  Step-Wins (polling n) (over a) (over b) step e =
      (1, loop_found 0 n (some b) (Step-poll step ∙ ap (λ r. some (some r)) e))
  Step-Wins (polling n) (polling m) (over b) step (fuel, won) =
      let (asleep, e) = Step_sleeps step in
      (
        suc fuel,
        loop_sleeps fuel n asleep ∙ (ap (poll_loop flag timeout_ms fuel child) (sym e) ∙ won),
      )
  Step-Wins (over a) q r step w = absurd (no_step step)
    where
      no_step : {q : Phase} → Step (over a) q → ⊥
      no_step s = elim s [ ]
  Step-Wins p q (polling n) step w = tt

  Steps-Wins : {p q : Phase} → Steps p q → Wins p q
  Steps-Wins {p} here = by_phase p
    where
      by_phase : (p : Phase) → Wins p p
      by_phase (polling n) = tt
      by_phase (over run) = refl
  Steps-Wins {p} {q = r} (next {q = q} step steps) = Step-Wins p q r step (Steps-Wins steps)

  -- The loop gives a run with some fuel exactly when the steps of the watched child lead to it.
  pub poll_loop-Steps :
      (n : ℕ) (run : Run)
      → ((fuel : ℕ) × (poll_loop flag timeout_ms fuel child n ≡ some run))
        ↔ Steps (polling n) (over run)
  poll_loop-Steps n run = (λ h. poll_loop_sound h.0 n h.1, λ steps. Steps-Wins steps)
