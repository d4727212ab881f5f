-- ===== src/Counters.antt =====
-- The methods of `Application` that read and write its counters (pkg/backend/v1/backend.go).
pub mod Limits
pub mod Prune
pub mod Settle
pub mod Deltas
pub mod Report
pub mod Reported
pub mod Tidy
use mathlib.Core.Option
use scale_authorizer.Prelude.{
  String, ℤ, pos, add_int, sub_int, ltb_ℤ, Dict, Bool, true, false, none, some, List, [], ◌∷◌, map,
  not, if◌then◌else◌,
}
use scale_authorizer.Prelude.Map.{get, put, alter}
use scale_authorizer.Prelude.Outcome.{Outcome, ok, panic, ◌>>=◌, first}
use scale_authorizer.Api.{UsageReport, UsageReports, Metrics, ApiLib}
use scale_authorizer.Application.{
  Application, or_empty, or_zero, contains, same_period, compare_local_to_remote_state,
}

-- counter.CurrentValue += incrementBy, through a pointer into the slice
unfoldable pub update_counters_current_value : ℤ → UsageReport → UsageReport
update_counters_current_value increment_by counter = record counter {
  current_value = add_int counter.current_value increment_by;
}

-- The loop over all reports of a slice.
unfoldable pub update_counters : ℤ → List UsageReport → List UsageReport
unfolding update_counters_current_value
update_counters increment_by = map (update_counters_current_value increment_by)

-- m[metric][0], where a key that is not there reads as the nil slice.
unfoldable pub first_at : String → UsageReports → Outcome UsageReport
first_at metric state = elim (get metric state) [ none ↦ panic | some counters ↦ first counters ]

-- One round of the first loop of `calculateDeltas`.
unfoldable pub add_limited_delta :
    ApiLib → Application → Metrics → String → List UsageReport → Outcome Metrics
unfolding first_at
add_limited_delta lib a deltas metric counters =
    if not (compare_local_to_remote_state a metric 0) then ok deltas else do
      lowest_local ← first counters
      lowest_remote ← first_at metric (or_empty a.remote_state)
      if not (same_period lowest_local lowest_remote)
          then ok deltas
          else ok (
              lib.metrics_add deltas metric
                (sub_int lowest_local.current_value lowest_remote.current_value))

unfoldable pub limited_deltas : ApiLib → Application → Metrics → UsageReports → Outcome Metrics
unfolding add_limited_delta
limited_deltas lib a deltas [] = ok deltas
limited_deltas lib a deltas ((metric, counters) ∷ rest) = do
  deltas' ← add_limited_delta lib a deltas metric counters
  limited_deltas lib a deltas' rest

-- deltas[metric] = value, for every unlimited metric
unfoldable pub put_all : Dict ℤ → Metrics → Metrics
put_all [] deltas = deltas
put_all ((metric, value) ∷ rest) deltas = put_all rest (put metric value deltas)

unfoldable pub calculate_deltas : ApiLib → Application → Outcome Metrics
unfolding limited_deltas put_all
calculate_deltas lib a = do
  deltas ← limited_deltas lib a [] a.local_state
  ok (put_all a.unlimited_counter deltas)

-- One round of the loop of `addDeltasToRemoteState`.
unfoldable pub add_delta : Application → String → ℤ → Application
unfolding update_counters
add_delta a metric value = elim (get metric (or_empty a.remote_state)) [
  | none ↦ a
  | some counters ↦ record a {
    remote_state = some (alter metric (update_counters value) (or_empty a.remote_state));
    local_state =
        if contains metric a.shared
        then alter metric (update_counters value) a.local_state
        else a.local_state;
  }
]

unfoldable pub add_deltas_to_remote_state : Application → Metrics → Application
unfolding add_delta
add_deltas_to_remote_state a [] = a
add_deltas_to_remote_state a ((metric, value) ∷ deltas) =
    add_deltas_to_remote_state (add_delta a metric value) deltas

unfoldable pub update_unlimited_counter : String → ℤ → Dict ℤ → Dict ℤ
update_unlimited_counter metric increment_by counter =
    put metric (add_int (or_zero (get metric counter)) increment_by) counter

-- What one round of the loop of `pruneUnlimitedCounter` decides: whether the entry is deleted. The
-- difference is computed on a copy of the value, so an entry that stays keeps its value.
unfoldable pub is_pruned : Dict ℤ → String → ℤ → Bool
is_pruned snapshot metric value =
    let old_value = get metric snapshot in
    let difference = sub_int value (or_zero old_value) in
    elim old_value [ none ↦ true | some _ ↦ ltb_ℤ difference (pos 1) ]

-- The rounds delete only the entry that they visit.
unfoldable pub prune_unlimited_counter : Dict ℤ → Dict ℤ → Dict ℤ
unfolding is_pruned
prune_unlimited_counter snapshot [] = []
prune_unlimited_counter snapshot ((metric, value) ∷ rest) =
    let kept = prune_unlimited_counter snapshot rest in
    if is_pruned snapshot metric value then kept else (metric, value) ∷ kept

-- One round of the loop of `localReport`.
unfoldable pub report_metric : Application → String → ℤ → Application
unfolding update_counters update_unlimited_counter
report_metric a metric increment_by = elim (get metric a.local_state) [
  | none ↦ record a {
    unlimited_counter = update_unlimited_counter metric increment_by a.unlimited_counter;
  }
  | some counters ↦ record a {
    local_state = alter metric (update_counters increment_by) a.local_state;
    remote_state =
        if contains metric a.shared
        then Option.map (alter metric (update_counters increment_by)) a.remote_state
        else a.remote_state;
  }
]

-- The loop of `localReport`, under the write lock.
unfoldable pub report_metrics : Application → Metrics → Application
unfolding report_metric
report_metrics a [] = a
report_metrics a ((metric, increment_by) ∷ rest) =
    report_metrics (report_metric a metric increment_by) rest

-- `granularity.CurrentValue+incrementBy > granularity.MaxValue` for one of the reports
unfoldable pub exceeds : ℤ → List UsageReport → Bool
exceeds increment_by [] = false
exceeds increment_by (granularity ∷ rest) =
    if ltb_ℤ granularity.max_value (add_int granularity.current_value increment_by)
    then true
    else exceeds increment_by rest

-- The loop of `isAuthorized`, which breaks at the first limit that is exceeded.
unfoldable pub is_authorized : Application → Metrics → Bool
unfolding exceeds
is_authorized a [] = true
is_authorized a ((metric, increment_by) ∷ rest) =
    let later = is_authorized a rest in
    elim (get metric a.local_state) [
      | none ↦ later
      | some cached_value ↦ if exceeds increment_by cached_value then false else later
    ]
