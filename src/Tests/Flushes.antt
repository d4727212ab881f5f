-- ===== src/Tests/Flushes.antt =====
-- Witnesses for the flush.
use scale_authorizer.Prelude.{
  ℕ, pos, Dict, true, false, some, none, List, [], ◌∷◌, ◌≡◌, refl, arith,
}
use scale_authorizer.Prelude.Map.{get, IsMap}
use scale_authorizer.Prelude.Outcome.{ok, panic}
use scale_authorizer.Api.{Metrics, UsageReports}
use scale_authorizer.Application.{Application}
use scale_authorizer.Counters.{calculate_deltas}
use scale_authorizer.Counters.Deltas.{calculate_deltas_lem}
use scale_authorizer.Adjust.{HandledApp, adjust_local_state}
use scale_authorizer.Adjust.Added.{adjust_local_state_added}
use scale_authorizer.Sync.{StateChanges, no_changes}
use scale_authorizer.Backend.{Backend}
use scale_authorizer.Flush.{handle_flush_reporting}
use scale_authorizer.Flush.Reporting.{snapshots, handle_flush_reporting_lem}
use scale_authorizer.Tests.World.{
  lib, lib-AddsMetrics, zone, lane-IsDeque, Items, report_of, app, answer, logger, host, backend,
}

app-IsMap : IsMap app.local_state × IsMap app.unlimited_counter
unfolding get
app-IsMap = ((refl, tt), (refl, tt))

app-reportable : (d : Metrics) × (calculate_deltas lib app ≡ ok d)
app-reportable =
    let (d, e, _) = calculate_deltas_lem lib app lib-AddsMetrics app-IsMap.0 app-IsMap.1 in (d, e)

other-reportable : (d : Metrics) × (calculate_deltas lib (record app { owned_by = "other" }) ≡ ok d)
other-reportable =
    let (d, e, _) =
      calculate_deltas_lem lib (record app { owned_by = "other" }) lib-AddsMetrics app-IsMap.0
        app-IsMap.1 in
    (d, e)

-- Two services, so two batches.
abbrev queued : Backend ℕ (Dict Application) Items
queued =
    backend (record { result = none; error = none }) none []
      (app ∷ record app { owned_by = "other" } ∷ [])

handle_flush_reporting_example :
    (hs : List HandledApp) × (b' : Backend ℕ (Dict Application) Items) × (handle_flush_reporting
        host 5 queued
      ≡ some (ok (hs, b')))
    × (snapshots hs ≡ app ∷ record app { owned_by = "other" } ∷ [])
handle_flush_reporting_example =
    handle_flush_reporting_lem host lane-IsDeque 5 queued logger (omega arith) (omega arith) refl
      (app-reportable, (other-reportable, tt))

abbrev handled : HandledApp
handled = record {
  snapshot = app;
  reporting_err = false;
  auth_err = false;
  auth_resp = some (answer true);
  deltas = [];
}

abbrev more_metrics : UsageReports
more_metrics = ("hits", report_of 1 3 10 ∷ []) ∷ ("calls", report_of 1 0 5 ∷ []) ∷ []

calls_reports : get "calls" more_metrics ≡ some (report_of 1 0 5 ∷ [])
unfolding get
calls_reports = refl

calls_unknown : get "calls" app.local_state ≡ none
unfolding get
calls_unknown = refl

adjust_local_state_added_example :
    adjust_local_state lib zone app handled (some more_metrics) (pos 3600) ≡ panic
adjust_local_state_added_example =
    adjust_local_state_added lib zone app handled more_metrics (pos 3600) "calls"
      (report_of 1 0 5 ∷ []) calls_reports calls_unknown calls_unknown

abbrev same_periods : Dict StateChanges
same_periods = ("hits", no_changes) ∷ []
