-- ===== src/Record/Run/Killed.antt =====
-- What led to a run that ended by a kill: the kill and the wait after it returned, and then the
-- threads were joined.
use cmdtrail.Prelude.{ℕ, ◌≡◌, refl, Bool, Option, none, some, [], ◌∷◌, if◌then◌else◌}
use cmdtrail.Text.{codes}
use cmdtrail.Model.{observer_failed, interrupted, timed_out}
use cmdtrail.Record.Run.{
  Child, Run, finish_run, no_status, kill_confirmed, unconfirmed, unconfirmed_after_failure,
  wait_failure, stopped,
}

module _ {ℓ κ} {A : Type ℓ} {B : Type κ} (f : A → Option B) where
  -- A chain of two calls that gave something.
  chain-some :
      (call : Option A) {b : B}
      → ◌≡◌ {A = Option B} (elim call [ none ↦ none | some a ↦ f a ]) (some b)
      → (a : A) × (call ≡ some a) × (f a ≡ some b)
  chain-some none e = cc
  chain-some (some a) e = (a, refl, e)

module _ (child : Child) (n : ℕ) {run : Run} where
  pub wait_failure-some :
      wait_failure child n ≡ some run
      → (confirmed : Bool) × (kill_confirmed child n ≡ some confirmed)
        × (finish_run
              (no_status observer_failed (some (codes "wait_failed")))
              (if confirmed then [] else unconfirmed_after_failure ∷ [])
              child.pipes
            ≡ some run)
  unfolding wait_failure
  wait_failure-some made = chain-some _ (kill_confirmed child n) made

  pub stopped-some :
      (early : Bool)
      → stopped child early n ≡ some run
      → (confirmed : Bool) × (kill_confirmed child n ≡ some confirmed)
        × (finish_run
              (no_status
                (if early then interrupted else timed_out)
                (if confirmed then none else some (codes "termination_not_confirmed")))
              (if confirmed then [] else unconfirmed ∷ [])
              child.pipes
            ≡ some run)
  unfolding stopped
  stopped-some early made = chain-some _ (kill_confirmed child n) made
