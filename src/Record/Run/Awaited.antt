-- ===== src/Record/Run/Awaited.antt =====
-- That a run is left with a result where the calls that block return.
use cmdtrail.Prelude.{
  ℕ, ◌≡◌, ◌≢◌, refl, Bool, ◌||◌, Bool-cases, Option, Option-cases, none, some, inl, inr, false, not,
  List, [], ◌∷◌,
}
use cmdtrail.Text.{Text}
use cmdtrail.Model.{CommandOutcome}
use cmdtrail.Record.Run.{Child, Run, any_failed, finish_run, kill_confirmed, wait_failure, stopped}

-- Every forwarding thread ends.
abbrev pub AllEnd : List (Option Bool) → Type 0
AllEnd [] = Unit
AllEnd (none ∷ rest) = ⊥
AllEnd (some forwarded ∷ rest) = AllEnd rest

-- The blocking calls return: a wait after a kill, and the joins of the forwarding threads.
pub record IsAwaitable (child : Child) : Type 0 where
  pub waits : (n : ℕ) → child.wait_after_kill n ≢ none
  pub joins : AllEnd child.pipes

-- What the loop gives with some fuel.
abbrev pub Ends : Option Run → Type 0
Ends outcome = (run : Run) × (outcome ≡ some run)

-- What the joins give where every thread ends.
joined :
    (forwarders : List (Option Bool))
    → AllEnd forwarders
    → (failed : Bool) × (any_failed forwarders ≡ some failed)
joined [] ends = (false, refl)
joined (none ∷ rest) ends = absurd ends
joined (some forwarded ∷ rest) ends =
    let (failed, e) = joined rest ends in (not forwarded || failed, rw e refl)

-- What follows a call that returns.
after_call {ℓ} :
    {A : Type ℓ} (answer : Option A) (f : A → Option Run)
    → ((a : A) × (answer ≡ some a))
    → ((a : A) → Ends (f a))
    → Ends (elim answer [ none ↦ none | some a ↦ f a ])
after_call none f returned ends = absurd (none_some returned.1)
  where
    none_some : {A : Type ℓ} {a : A} → none ≡ some a → ⊥
    none_some e = cc
after_call (some a) f returned ends = ends a

pub finish_run-Ends :
    (outcome : CommandOutcome) (spots : List Text) (forwarders : List (Option Bool))
    → AllEnd forwarders
    → Ends (finish_run outcome spots forwarders)
unfolding finish_run
finish_run-Ends outcome spots forwarders ends =
    after_call (any_failed forwarders) _ (joined forwarders ends) (λ failed. (_, refl))

module _ (child : Child) (awaitable : IsAwaitable child) (n : ℕ) where
  killed : (confirmed : Bool) × (kill_confirmed child n ≡ some confirmed)
  killed = elim (Bool-cases (child.kill n)) [
    | inl dead ↦ elim (Option-cases (child.wait_after_kill n)) [
      | inl never ↦ absurd (awaitable.waits n never)
      | inr (confirmed, e) ↦ (confirmed, rw dead e)
    ]
    | inr alive ↦ (false, rw alive refl)
  ]

  pub wait_failure-Ends : Ends (wait_failure child n)
  unfolding wait_failure
  wait_failure-Ends =
      after_call (kill_confirmed child n) _ killed
        (λ confirmed. finish_run-Ends _ _ child.pipes awaitable.joins)

  pub stopped-Ends : (early : Bool) → Ends (stopped child early n)
  unfolding stopped
  stopped-Ends early =
      after_call (kill_confirmed child n) _ killed
        (λ confirmed. finish_run-Ends _ _ child.pipes awaitable.joins)
