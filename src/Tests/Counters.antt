-- ===== src/Tests/Counters.antt =====
-- Witnesses for the counters, the periods and the synchronisation.
use scale_authorizer.Prelude.{
  String, ◌≤◌, pos, add_int, true, List, [], ◌∷◌, ◌++◌, ◌≡◌, ◌↔◌, refl, arith, length,
}
use scale_authorizer.Prelude.Map.{get, IsMap}
use scale_authorizer.Prelude.Outcome.{ok, panic}
use scale_authorizer.Application.{derive_timestamp}
use scale_authorizer.Application.Timestamps.{derive_timestamp-last}
use scale_authorizer.Api.{UsageReport, Metrics}
use scale_authorizer.Counters.{
  is_authorized, report_metrics, calculate_deltas, prune_unlimited_counter,
}
use scale_authorizer.Counters.Limits.{HasRoomFor, WithinLimits, reports_of, is_authorized_iff}
use scale_authorizer.Counters.Report.{authorized_report-WithinLimits}
use scale_authorizer.Counters.Deltas.{unreported, or_else, calculate_deltas_lem}
use scale_authorizer.Counters.Prune.{pruned_count, prune_unlimited_counter_lem}
use scale_authorizer.Period.{is_elapsed, get_elapsed_periods}
use scale_authorizer.Period.Deadline.{any_covers, get_elapsed_periods_lem}
use scale_authorizer.Sync.{has_period, get_difference_between_sets, synchronize_reports}
use scale_authorizer.Sync.Difference.{retained, missing}
use scale_authorizer.Sync.Periods.{Synchronizes, synchronize_reports_lem}
use scale_authorizer.Sync.Removals.{synchronize_reports_panics}
use scale_authorizer.Tests.World.{lib, lib-AddsMetrics, zone, report_of, hits, app}

abbrev two_hits : Metrics
two_hits = ("hits", pos 2) ∷ ("orphan", pos 1) ∷ []

two_hits-IsMap : IsMap two_hits
unfolding get
two_hits-IsMap = (refl, (refl, tt))

is_authorized_iff_example :
    (is_authorized app two_hits ≡ true) ↔ HasRoomFor app.local_state two_hits
is_authorized_iff_example = is_authorized_iff app two_hits

two_hits_authorized : is_authorized app two_hits ≡ true
unfolding is_authorized get add_int
two_hits_authorized = refl

hits-WithinLimits : WithinLimits (reports_of (get "hits" app.local_state))
unfolding get
hits-WithinLimits = omega arith

authorized_report-WithinLimits_example :
    WithinLimits (reports_of (get "hits" (report_metrics app two_hits).local_state))
authorized_report-WithinLimits_example =
    authorized_report-WithinLimits "hits" app two_hits two_hits-IsMap two_hits_authorized
      hits-WithinLimits

app-IsMap : IsMap app.local_state × IsMap app.unlimited_counter
unfolding get
app-IsMap = ((refl, tt), (refl, tt))

calculate_deltas_example :
    (d : Metrics) × (calculate_deltas lib app ≡ ok d)
    × ((k : String) → get k d ≡ or_else (get k app.unlimited_counter) (unreported app k))
calculate_deltas_example = calculate_deltas_lem lib app lib-AddsMetrics app-IsMap.0 app-IsMap.1

prune_unlimited_counter_example :
    get "orphan" (prune_unlimited_counter (("orphan", pos 1) ∷ []) app.unlimited_counter)
    ≡ pruned_count (get "orphan" (("orphan", pos 1) ∷ [])) (get "orphan" app.unlimited_counter)
prune_unlimited_counter_example =
    prune_unlimited_counter_lem "orphan" (("orphan", pos 1) ∷ []) app.unlimited_counter app-IsMap.1

get_elapsed_periods_example :
    is_elapsed 1 (get_elapsed_periods lib zone (hits 5) (pos 3600) (pos 3600))
    ≡ any_covers lib zone (pos 3600) (pos 3600) 1 (hits 5)
get_elapsed_periods_example = get_elapsed_periods_lem lib zone (pos 3600) (pos 3600) 1 (hits 5)

abbrev minute_and_hour : List UsageReport
minute_and_hour = report_of 0 1 5 ∷ report_of 1 5 10 ∷ []

abbrev hour_and_day : List UsageReport
hour_and_day = report_of 1 3 10 ∷ report_of 2 3 50 ∷ []

one_removal : length (get_difference_between_sets minute_and_hour hour_and_day) ≤ 1
unfolding get_difference_between_sets
one_removal = omega arith

synchronize_reports_example :
    Synchronizes minute_and_hour hour_and_day
    × ((r : UsageReport)
        → has_period r
            (retained minute_and_hour hour_and_day ++ missing hour_and_day minute_and_hour)
          ≡ has_period r hour_and_day)
synchronize_reports_example = synchronize_reports_lem minute_and_hour hour_and_day one_removal

two_removals : get_difference_between_sets minute_and_hour (report_of 2 3 50 ∷ []) ≡ 0 ∷ 1 ∷ []
unfolding get_difference_between_sets
two_removals = refl

synchronize_reports_panics_example :
    synchronize_reports minute_and_hour (report_of 2 3 50 ∷ []) ≡ panic
synchronize_reports_panics_example =
    synchronize_reports_panics minute_and_hour (report_of 2 3 50 ∷ []) 0 1 [] two_removals refl

-- An hour that begins at zero is visited before the hour of the other reports.
abbrev earlier : UsageReport
earlier = record (report_of 1 0 5) {
  period_window = record { period = 1; start = pos 0; end = pos 3600 };
}

derive_timestamp-last_example :
    derive_timestamp lib (("calls", earlier ∷ []) ∷ ("hits", report_of 1 3 10 ∷ []) ∷ [])
    ≡ ok (pos 3600)
derive_timestamp-last_example =
    derive_timestamp-last lib (("calls", earlier ∷ []) ∷ []) "hits" (report_of 1 3 10) []
      ((earlier, [], refl, refl), tt)
