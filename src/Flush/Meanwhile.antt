-- ===== src/Flush/Meanwhile.antt =====
-- Requests that come between the reports of a flush and its update of the cache.
use scale_authorizer.Prelude.{String, sub_int, true, some, ◌≡◌}
use scale_authorizer.Api.{UsageReport}
use scale_authorizer.Application.{Application, or_empty, counter_at, same_period}
use scale_authorizer.Counters.Deltas.{unreported}
use scale_authorizer.LocalCache
use scale_authorizer.Backend.{Host, Backend}

-- What a metric has left to report is what has come since the flush took its copy.
abbrev pub KeepsSince : Application → Application → Application → Type 0
KeepsSince copied now settled =
    (m : String) (l s r : UsageReport)
    → counter_at m 0 now.local_state ≡ some l
    → counter_at m 0 copied.local_state ≡ some s
    → counter_at m 0 (or_empty copied.remote_state) ≡ some r
    → same_period l r ≡ true
    → same_period s r ≡ true
    → unreported settled m ≡ some (sub_int l.current_value s.current_value)
