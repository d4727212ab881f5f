-- ===== src/Adjust.antt =====
-- `adjustLocalState` of pkg/backend/v1/backend.go, the synchronisation at the end of a flush.
pub mod Added
pub mod Rounds
pub mod Steady
pub mod Open
pub mod Updated
use scale_authorizer.Prelude.{
  String, ℕ, ℤ, pos, add_int, sub_int, Dict, Bool, Option, List, [], ◌∷◌, if◌then◌else◌,
}
use mathlib.Core.Option
use scale_authorizer.Prelude.Map.{get, put, remove, alter}
use scale_authorizer.Prelude.Outcome.{Outcome, ok, ◌>>=◌, first}
use scale_authorizer.Api.{UsageReport, UsageReports, Metrics, AuthorizeResult, ApiLib}
use scale_authorizer.Application.{Application, or_empty, or_zero, contains}
use scale_authorizer.Counters.{first_at, prune_unlimited_counter}
use scale_authorizer.Period.{Zone, is_elapsed, get_elapsed_periods}
use scale_authorizer.Sync.{
  StateChanges, no_changes, has_period, compute_added_and_removed_metrics, synchronize_states,
}

-- An application on its way through the flush.
pub record HandledApp : Type 0 where
  pub snapshot : Application
  pub reporting_err : Bool
  pub auth_err : Bool
  pub auth_resp : Option AuthorizeResult
  pub deltas : Metrics

-- a.LocalState[newMetric] = a.RemoteState[newMetric], for every added metric. The loop that
-- follows in the source adds the unlimited count to copies of the reports, which are dropped.
unfoldable pub add_new_metrics : List String → UsageReports → UsageReports → UsageReports
add_new_metrics [] remote local = local
add_new_metrics (metric ∷ added) remote local =
    add_new_metrics added remote (put metric (Option.get_or (get metric remote) []) local)

-- The write to the first report of a slice.
unfoldable pub set_first : ℤ → ℤ → List UsageReport → List UsageReport
set_first current max [] = []
set_first current max (report ∷ more) =
    record report { current_value = current; max_value = max } ∷ more

-- hits + new hits of 3scale - (hits of the snapshot - hits to report) - hits reported
unfoldable pub updated_value : ℤ → ℤ → ℤ → ℤ → Bool → ℤ
updated_value local remote snapped delta reporting_err =
    sub_int (sub_int (add_int local remote) (sub_int snapped delta))
      (if reporting_err then pos 0 else delta)

-- The value that a metric without a limit goes on with: all of its hits if the report failed, and
-- else those since the snapshot.
unfoldable pub convert_removed : HandledApp → Application → String → Outcome Application
unfolding first_at
convert_removed flushing a metric = do
  now ← first_at metric a.local_state
  value ←
      (if flushing.reporting_err then ok now.current_value else do
        before ← first_at metric flushing.snapshot.local_state
        ok (sub_int now.current_value before.current_value))
  ok (record a {
    unlimited_counter = put metric value a.unlimited_counter;
    local_state = remove metric a.local_state;
  })

-- The last part of a round: the lowest period is neither new nor marked as elapsed.
unfoldable pub write_updated :
    HandledApp → Application → String → UsageReport → UsageReport → UsageReport → Application
unfolding updated_value set_first
write_updated flushing a metric low snapped remote =
    let delta = or_zero (get metric flushing.deltas) in
    let updated =
      updated_value low.current_value remote.current_value snapped.current_value delta
        flushing.reporting_err in
    record a {
      local_state = alter metric (set_first updated remote.max_value) a.local_state;
      remote_state =
          if contains metric a.shared
          then Option.map (alter metric (set_first updated remote.max_value)) a.remote_state
          else a.remote_state;
    }

-- A round of the second loop for a metric that is still limited. Where the period is marked as
-- elapsed, the source writes to a copy of the report, which is dropped.
unfoldable pub adjust_metric :
    HandledApp
    → List ℕ
    → Dict StateChanges
    → ℤ
    → Application
    → String
    → List UsageReport
    → Outcome Application
unfolding first_at write_updated
adjust_metric flushing elapsed changes remote_timestamp a metric counters = do
  low ← first counters
  snapped ← first_at metric flushing.snapshot.local_state
  remote ← first_at metric (or_empty a.remote_state)
  let a' = record a { timestamp = remote_timestamp }
  if has_period low (Option.get_or (get metric changes) no_changes).added
      then ok a'
      else if is_elapsed low.period_window.period elapsed
      then ok a'
      else ok (write_updated flushing a' metric low snapped remote)

unfoldable pub adjust_metrics :
    HandledApp
    → List ℕ
    → Dict StateChanges
    → List String
    → ℤ
    → UsageReports
    → Application
    → Outcome Application
unfolding convert_removed adjust_metric
adjust_metrics flushing elapsed changes removed remote_timestamp [] a = ok a
adjust_metrics flushing elapsed changes removed remote_timestamp ((metric, counters) ∷ rest) a = do
  a' ←
      (if contains metric removed
        then convert_removed flushing a metric
        else adjust_metric flushing elapsed changes remote_timestamp a metric counters)
  adjust_metrics flushing elapsed changes removed remote_timestamp rest a'

unfoldable pub adjust_local_state :
    ApiLib → Zone → Application → HandledApp → Option UsageReports → ℤ → Outcome Application
unfolding get_elapsed_periods compute_added_and_removed_metrics synchronize_states add_new_metrics
    adjust_metrics prune_unlimited_counter
adjust_local_state lib zone a flushing remote_state remote_timestamp =
    let elapsed = get_elapsed_periods lib zone a.local_state a.timestamp remote_timestamp in
    let (added, removed) =
      compute_added_and_removed_metrics a.local_state (or_empty remote_state) in
    do
      (synchronized, changes) ← synchronize_states lib a.local_state (or_empty remote_state)
      let local = add_new_metrics added (or_empty remote_state) synchronized
      adjust_metrics flushing elapsed changes removed remote_timestamp local (record a {
        remote_state = remote_state;
        local_state = local;
        shared = added;
        unlimited_counter =
            if flushing.reporting_err
            then a.unlimited_counter
            else prune_unlimited_counter flushing.snapshot.unlimited_counter a.unlimited_counter;
      })
