-- ===== src/Record/Run/Shape.antt =====
-- What the outcome of a run says: success, exit codes, signals and unconfirmed terminations.
use cmdtrail.Prelude.{ℕ, Bool, Option}
use cmdtrail.Text.{Text}
use cmdtrail.Result.{Result}
use cmdtrail.Record.Run.{Child, Run}
use cmdtrail.Record.Run.Steps.{Phase, polling, over, Steps}
use cmdtrail.Record.Run.Outcome.{AreStatuses, IsShaped}

module _ (flag : ℕ → Bool) (timeout_ms : Option ℕ) (child : Child)
    (honest : AreStatuses child) where
  abbrev IsFine : Phase → Type 0
  IsFine (polling n) = Unit
  IsFine (over run) = IsShaped run
