-- ===== src/Sync.antt =====
-- `computeAddedAndRemovedMetrics`, `getDifferenceBetweenSets` and `synchronizeStates` of
-- pkg/backend/v1/helpers.go.
pub mod Difference
pub mod Removals
pub mod Periods
use scale_authorizer.Prelude.{
  String, ℕ, zero, suc, Dict, Bool, true, false, none, some, List, [], ◌∷◌, ◌++◌, get_elem?,
  if◌then◌else◌,
}
use scale_authorizer.Prelude.Map.{get}
use scale_authorizer.Prelude.Outcome.{Outcome, ok, ◌>>=◌, deref}
use scale_authorizer.Api.{UsageReport, UsageReports, ApiLib}
use scale_authorizer.Application.{same_period}

-- The metrics of a map, in its order, that another map lacks.
unfoldable pub metrics_missing_in : UsageReports → UsageReports → List String
metrics_missing_in other [] = []
metrics_missing_in other ((metric, reports) ∷ rest) = elim (get metric other) [
  | none ↦ metric ∷ metrics_missing_in other rest
  | some _ ↦ metrics_missing_in other rest
]

unfoldable pub compute_added_and_removed_metrics :
    UsageReports → UsageReports → List String × List String
unfolding metrics_missing_in
compute_added_and_removed_metrics src dst = (metrics_missing_in src dst, metrics_missing_in dst src)

pub record StateChanges : Type 0 where
  pub added : List UsageReport
  pub removed : List UsageReport

abbrev pub no_changes : StateChanges
no_changes = record { added = []; removed = [] }

-- The inner loop: whether the period of the report is one of the list's.
unfoldable pub has_period : UsageReport → List UsageReport → Bool
has_period report [] = false
has_period report (dst_report ∷ rest) =
    if same_period report dst_report then true else has_period report rest

unfoldable pub difference_from : ℕ → List UsageReport → List UsageReport → List ℕ
unfolding has_period
difference_from index [] dst = []
difference_from index (report ∷ src) dst =
    let rest = difference_from (suc index) src dst in
    if has_period report dst then rest else index ∷ rest

unfoldable pub get_difference_between_sets : List UsageReport → List UsageReport → List ℕ
unfolding difference_from
get_difference_between_sets src dst = difference_from 0 src dst

-- A slice over its array: the elements within its length, and those behind it, which the slice
-- header taken before a removal still sees.
pub record Slice : Type 0 where
  pub live : List UsageReport
  pub stale : List UsageReport

unfoldable pub erase_at : ℕ → List UsageReport → List UsageReport
erase_at i [] = []
erase_at zero (x ∷ xs) = xs
erase_at (suc i) (x ∷ xs) = x ∷ erase_at i xs

unfoldable pub last_of : UsageReport → List UsageReport → UsageReport
last_of x [] = x
last_of x (y ∷ rest) = last_of y rest

-- append(s[:i], s[i+1:]...): the elements move down in place, and the last cell keeps its value.
unfoldable pub remove_in_place : ℕ → Slice → Slice
unfolding erase_at last_of
remove_in_place i slice = elim slice.live [
  | [] ↦ slice
  | x ∷ xs ↦ record { live = erase_at i (x ∷ xs); stale = last_of x xs ∷ slice.stale }
]

-- The loop over the removals. The call of `sort.Reverse` only builds a view of the indexes, which
-- nobody sorts, so they come in ascending order.
unfoldable pub remove_all : List ℕ → Slice → List UsageReport → Outcome (Slice × List UsageReport)
unfolding remove_in_place
remove_all [] slice removed = ok (slice, removed)
remove_all (i ∷ is) slice removed = do
  report ← deref (get_elem? slice.live i)
  remove_all is (remove_in_place i slice) (removed ++ report ∷ [])

-- new[metric][i], for each index
unfoldable pub select : List ℕ → List UsageReport → Outcome (List UsageReport)
select [] reports = ok []
select (i ∷ is) reports = do
  report ← deref (get_elem? reports i)
  rest ← select is reports
  ok (report ∷ rest)

-- One round of the loop, for a metric that both states have.
unfoldable pub synchronize_reports :
    List UsageReport → List UsageReport → Outcome (List UsageReport × StateChanges)
unfolding get_difference_between_sets remove_all select
synchronize_reports reports new_reports = do
  (slice, removed) ←
      remove_all (get_difference_between_sets reports new_reports)
        (record { live = reports; stale = [] }) []
  added ← select (get_difference_between_sets new_reports (slice.live ++ slice.stale)) new_reports
  ok (slice.live ++ added, record { added = added; removed = removed })

-- The loop over the original state. Each round rewrites only the entry that it visits.
unfoldable pub synchronize_entries :
    UsageReports → UsageReports → Outcome (UsageReports × Dict StateChanges)
unfolding synchronize_reports
synchronize_entries [] new = ok ([], [])
synchronize_entries ((metric, reports) ∷ original) new = elim (get metric new) [
  | none ↦ do
    (rest, changes) ← synchronize_entries original new
    ok ((metric, reports) ∷ rest, changes)
  | some new_reports ↦ do
    (reports', change) ← synchronize_reports reports new_reports
    (rest, changes) ← synchronize_entries original new
    ok ((metric, reports') ∷ rest, (metric, change) ∷ changes)
]

unfoldable pub synchronize_states :
    ApiLib → UsageReports → UsageReports → Outcome (UsageReports × Dict StateChanges)
unfolding synchronize_entries
synchronize_states lib original new = do
  (original', changes) ← synchronize_entries original new
  ok (lib.order_by_ascending_granularity original', changes)
