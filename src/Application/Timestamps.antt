-- ===== src/Application/Timestamps.antt =====
-- Which report `deriveTimestamp` of pkg/backend/v1/helpers.go takes the timestamp of.
use scale_authorizer.Prelude.{String, ℕ, ℤ, pos, false, List, [], ◌∷◌, ◌++◌, ◌≡◌, arith, nat_beq}
use scale_authorizer.Prelude.Outcome.{ok}
use scale_authorizer.Api.{UsageReport, UsageReports, ApiLib}
use scale_authorizer.Application.{derive_timestamp_from, derive_timestamp}

-- No metric is without reports, and none has a lowest period of a minute.
abbrev pub AllLonger : ℕ → UsageReports → Type 0
AllLonger minute [] = Unit {0}
AllLonger minute ((metric, reports) ∷ rest) =
    ((low : UsageReport) × (more : List UsageReport) × (reports ≡ low ∷ more)
      × (nat_beq low.period_window.period minute ≡ false))
    × AllLonger minute rest

derive_timestamp_from-last :
    (minute : ℕ) (timestamp : ℤ) (before : UsageReports) (metric : String) (low : UsageReport)
    (more : List UsageReport)
    → AllLonger minute before
    → derive_timestamp_from minute timestamp (before ++ (metric, low ∷ more) ∷ [])
      ≡ ok low.period_window.start
unfolding derive_timestamp_from
derive_timestamp_from-last minute timestamp [] metric low more longer = ground arith
derive_timestamp_from-last minute timestamp ((j, []) ∷ before) metric low more
      ((low', more', e, other), longer) =
    absurd (ground arith)
derive_timestamp_from-last minute timestamp ((j, r ∷ rs) ∷ before) metric low more
      ((low', more', e, other), longer) =
    let rest =
      derive_timestamp_from-last minute r.period_window.start before metric low more longer in
    ground arith

-- If no metric is limited by the minute, the timestamp is the start of the lowest period of the
-- metric that the loop visits last, whichever that is, and not of the lowest period of all.
pub derive_timestamp-last :
    (lib : ApiLib) (before : UsageReports) (metric : String) (low : UsageReport)
    (more : List UsageReport)
    → AllLonger lib.minute before
    → derive_timestamp lib (before ++ (metric, low ∷ more) ∷ []) ≡ ok low.period_window.start
unfolding derive_timestamp
derive_timestamp-last lib before metric low more longer =
    derive_timestamp_from-last lib.minute (pos 0) before metric low more longer
