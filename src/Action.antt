-- ===== src/Action.antt =====
-- Code that changes a state and may fail: the state as it is left, and a `Result` with the program's
-- error. A failed step ends a `do` block; what was changed before it stays changed.
use cmdtrail.Prelude.{◌≡◌, refl, sym, ap, ◌∙◌}
use cmdtrail.Result.{Result, ok, err}
use cmdtrail.Error.{AppError}

abbrev pub Action : Type 0 → Type 0 → Type 0
Action State A = State → State × Result AppError A

module _ {State A B : Type 0} where
  abbrev pub after : State × Result AppError A → (A → Action State B) → State × Result AppError B
  after (t, ok a) rest = rest a t
  after (t, err problem) rest = (t, err problem)

  infixl 5 ◌>>=◌ ◌>>◌
  abbrev pub ◌>>=◌ : Action State A → (A → Action State B) → Action State B
  ◌>>=◌ step rest s = after (step s) rest

  abbrev pub ◌>>◌ : Action State A → Action State B → Action State B
  ◌>>◌ step rest s = after (step s) (λ _. rest)

  -- A sequence that succeeds does so by its parts.
  pub after-eq-ok :
      (first : State × Result AppError A) (rest : A → Action State B) {done : State} {b : B}
      → after first rest ≡ (done, ok b)
      → (t : State) × (a : A) × (first ≡ (t, ok a)) × (rest a t ≡ (done, ok b))
  after-eq-ok (t, ok a) rest e = (t, a, refl, e)
  after-eq-ok (t, err problem) rest e = cc

  -- What holds after the first part holds after the sequence if the rest keeps it.
  pub after-keeps :
      (P : State → Type 0) (first : State × Result AppError A) (rest : A → Action State B)
      → P first.0
      → ((t : State) (a : A) → first ≡ (t, ok a) → P (rest a t).0)
      → P (after first rest).0
  after-keeps P (t, ok a) rest here there = there t a refl
  after-keeps P (t, err problem) rest here there = here

module _ {State A : Type 0} where
  -- A step that only looks at the state.
  abbrev pub look : (State → Result AppError A) → Action State A
  look f s = (s, f s)

  -- A step that does not depend on the state.
  abbrev pub give : Result AppError A → Action State A
  give result s = (s, result)

  -- A step that never changes the state.
  abbrev pub Keeps : Action State A → Type 0
  Keeps step = (s : State) → (step s).0 ≡ s

module _ {State A B : Type 0} where
  -- A sequence of steps that never change the state does not change it.
  pub Keeps-bind :
      (step : Action State A) (rest : A → Action State B)
      → Keeps step
      → ((a : A) → Keeps (rest a))
      → Keeps (step >>= rest)
  Keeps-bind step rest here there s =
      after-keeps (λ t. t ≡ s) (step s) rest (here s)
        (λ t a e. there a t ∙ sym (ap (λ p. p.0) e) ∙ here s)

module _ {State A : Type 0} where
  -- What holds of the value of an action, if it has one.
  abbrev pub Ensures : (A → Type 0) → State × Result AppError A → Type 0
  Ensures P (t, ok a) = P a
  Ensures P (t, err problem) = Unit

  pub Ensures-imp :
      {P Q : A → Type 0} (f : (a : A) → P a → Q a) (answer : State × Result AppError A)
      → Ensures P answer
      → Ensures Q answer
  Ensures-imp f (t, ok a) h = f a h
  Ensures-imp f (t, err problem) h = tt

module _ {State A B : Type 0} where
  pub Ensures-bind :
      (P : B → Type 0) (first : State × Result AppError A) (rest : A → Action State B)
      → ((a : A) (t : State) → first.1 ≡ ok a → Ensures P (rest a t))
      → Ensures P (after first rest)
  Ensures-bind P (t, ok a) rest there = there a t refl
  Ensures-bind P (t, err problem) rest there = tt
