-- ===== src/Flush/Process.antt =====
-- The process that `newCachedBackend` of pkg/authorizer/authorizer.go starts for a backend, by what
-- it selects, one after the other.
pub mod Repeated
use scale_authorizer.Prelude.{ℕ, Bool, true, false, Option, none, some, List, [], ◌∷◌}
use scale_authorizer.Prelude.Outcome.{Outcome, ok, panic}
use scale_authorizer.Backend.{Host, Backend}
use scale_authorizer.Flush.Settle.{flush}

-- A tick of the process's ticker, or the closed channel `stopFlush`.
pub data Selected : Type 0 where
  ticked : Selected
  stopped : Selected

module _ {W S Q H : Type 0} (h : Host W S Q H) where
  abbrev pub after_flush :
      {A : Type 0}
      → Option (Outcome (Backend W S Q))
      → (Backend W S Q → Option (Outcome A))
      → Option (Outcome A)
  after_flush none next = none
  after_flush (some panic) next = some panic
  after_flush (some (ok b)) next = next b

  -- The backend, and whether the process still runs. The loop flushes once more before it ends.
  unfoldable pub flush_process :
      ℕ → List Selected → Backend W S Q → Option (Outcome (Backend W S Q × Bool))
  unfolding flush
  flush_process fuel [] b = some (ok (b, true))
  flush_process fuel (ticked ∷ events) b =
      after_flush (flush h fuel b) (λ b'. flush_process fuel events b')
  flush_process fuel (stopped ∷ events) b =
      after_flush (flush h fuel b) (λ b'. some (ok (b', false)))
