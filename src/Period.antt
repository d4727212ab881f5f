-- ===== src/Period.antt =====
-- `hasSurpassedDeadline` (pkg/backend/v1/helpers.go) and `getElapsedPeriods` (backend.go).
pub mod Deadline
use scale_authorizer.Prelude.{
  ℕ, zero, suc, ℤ, pos, ◌+ℤ◌, ltb_ℤ, Bool, true, false, List, [], ◌∷◌, nat_beq, if◌then◌else◌,
}
use scale_authorizer.Api.{UsageReport, UsageReports, ApiLib}

-- `time.Time.AddDate` in the host's time zone, on Unix seconds.
pub record Zone : Type 0 where
  pub add_day : ℤ → ℤ
  pub add_month : ℤ → ℤ
  pub add_year : ℤ → ℤ

-- t.After(deadline)
abbrev pub after : ℤ → ℤ → Bool
after t deadline = ltb_ℤ deadline t

unfoldable pub has_surpassed_deadline : ApiLib → Zone → ℤ → ℕ → ℤ → Bool
unfolding ◌+ℤ◌
has_surpassed_deadline lib zone timestamp granularity end_timestamp =
    if nat_beq granularity lib.minute
    then after (timestamp +ℤ pos 60) end_timestamp
    else if nat_beq granularity lib.hour
    then after (timestamp +ℤ pos 3600) end_timestamp
    else if nat_beq granularity lib.day
    then after (zone.add_day timestamp) end_timestamp
    else if nat_beq granularity lib.week
    then false
    else if nat_beq granularity lib.month
    then after (zone.add_month timestamp) end_timestamp
    else if nat_beq granularity lib.year
    then after (zone.add_year timestamp) end_timestamp
    else false

-- The map from periods to true, as the list of its keys.
unfoldable pub is_elapsed : ℕ → List ℕ → Bool
is_elapsed period [] = false
is_elapsed period (p ∷ rest) = if nat_beq p period then true else is_elapsed period rest

-- `for i := largest; i > 0; i--`, which breaks at a period that is marked.
unfoldable pub mark_elapsed : ℕ → List ℕ → List ℕ
unfolding is_elapsed
mark_elapsed zero elapsed = elapsed
mark_elapsed (suc i) elapsed =
    let rest = mark_elapsed i (suc i ∷ elapsed) in
    if is_elapsed (suc i) elapsed then elapsed else rest

-- One round of the loop over the counters.
unfoldable pub mark_reports : ApiLib → Zone → ℤ → ℤ → List UsageReport → List ℕ → List ℕ
unfolding has_surpassed_deadline mark_elapsed
mark_reports lib zone start end [] elapsed = elapsed
mark_reports lib zone start end (report ∷ more) elapsed =
    if has_surpassed_deadline lib zone start report.period_window.period end
    then mark_elapsed report.period_window.period elapsed
    else elapsed

unfoldable pub elapsed_periods_from : ApiLib → Zone → ℤ → ℤ → UsageReports → List ℕ → List ℕ
unfolding mark_reports
elapsed_periods_from lib zone start end [] elapsed = elapsed
elapsed_periods_from lib zone start end ((metric, reports) ∷ rest) elapsed =
    elapsed_periods_from lib zone start end rest (mark_reports lib zone start end reports elapsed)

-- The sorted clone of the counters is never read, so it is left out.
unfoldable pub get_elapsed_periods : ApiLib → Zone → UsageReports → ℤ → ℤ → List ℕ
unfolding elapsed_periods_from
get_elapsed_periods lib zone counters start_of_period end_of_period =
    elapsed_periods_from lib zone start_of_period end_of_period counters []
