-- ===== src/Flush/Process/Repeated.antt =====
-- The process of a backend over a long time.
use scale_authorizer.Prelude.{ℕ, zero, suc, Option, Bool, true, false, some, List, [], ◌∷◌}
use scale_authorizer.Prelude.Outcome.{Outcome, ok}
use scale_authorizer.Application.{Application}
use scale_authorizer.LocalCache
use scale_authorizer.Backend.{Host, Backend}
use scale_authorizer.Flush.Settle.{flush}
use scale_authorizer.Flush.Process.{Selected, ticked, stopped, after_flush}

-- The process goes on until the channel is closed.
abbrev pub still_runs : List Selected → Bool
still_runs [] = true
still_runs (ticked ∷ events) = still_runs events
still_runs (stopped ∷ events) = false

-- The flushes that the events call for: one for each tick before the channel is closed, and one then.
unfoldable pub flushes : List Selected → ℕ
flushes [] = 0
flushes (ticked ∷ events) = suc (flushes events)
flushes (stopped ∷ events) = 1

-- A number of flushes, one after the other.
unfoldable pub flush_times :
    {W S Q H : Type 0} → Host W S Q H → ℕ → ℕ → Backend W S Q → Option (Outcome (Backend W S Q))
flush_times h fuel zero b = some (ok b)
flush_times h fuel (suc n) b = after_flush h (flush h fuel b) (flush_times h fuel n)
