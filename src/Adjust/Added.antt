-- ===== src/Adjust/Added.antt =====
-- `adjustLocalState` where 3scale has a metric that the application does not know.
use scale_authorizer.Prelude.{
  String, ℕ, ℤ, Dict, true, false, none, some, List, [], ◌∷◌, ◌≡◌, refl, ap, arith, ◌==◌,
  if◌then◌else◌, eq_iff, Bool-cases, inl, inr, ◌∙◌,
}
use mathlib.Core.Option
use scale_authorizer.Prelude.Map.{get, put, get-put}
use scale_authorizer.Prelude.Outcome.{Outcome, Outcome-cases, panic, ◌>>=◌}
use scale_authorizer.Api.{UsageReport, UsageReports, ApiLib}
use scale_authorizer.Application.{Application, contains}
use scale_authorizer.Counters.{first_at}
use scale_authorizer.Period.{Zone}
use scale_authorizer.Sync.{
  StateChanges, metrics_missing_in, compute_added_and_removed_metrics, synchronize_states,
}
use scale_authorizer.Adjust.{
  HandledApp, add_new_metrics, convert_removed, adjust_metric, adjust_metrics, adjust_local_state,
}

-- A metric is in the list exactly when the second map has it and the first has not.
contains-metrics_missing_in :
    (k : String) (other m : UsageReports)
    → contains k (metrics_missing_in other m) ≡ elim (get k m) [
      | none ↦ false
      | some _ ↦ (elim (get k other) [ none ↦ true | some _ ↦ false ])
    ]
unfolding contains metrics_missing_in get
contains-metrics_missing_in k other [] = refl
contains-metrics_missing_in k other ((j, rs) ∷ m) =
    ground (arith, eq_iff j k, contains-metrics_missing_in k other m)

get-add_new_metrics :
    (k : String) (added : List String) (remote local : UsageReports)
    → get k (add_new_metrics added remote local)
      ≡ (if contains k added then some (Option.get_or (get k remote) []) else get k local)
unfolding add_new_metrics contains
get-add_new_metrics k [] remote local = refl
get-add_new_metrics k (j ∷ added) remote local = ground (
  arith,
  eq_iff j k,
  get-add_new_metrics k added remote (put j (Option.get_or (get j remote) []) local),
  get-put j k (Option.get_or (get j remote) []) local,
)

module _ (flushing : HandledApp) (elapsed : List ℕ) (changes : Dict StateChanges)
    (removed : List String) (timestamp : ℤ) (k : String)
    (unknown : get k flushing.snapshot.local_state ≡ none)
    (stays : contains k removed ≡ false) where
  adjust_metric_panics :
      (a : Application) (counters : List UsageReport)
      → adjust_metric flushing elapsed changes timestamp a k counters ≡ panic
  unfolding adjust_metric first_at
  adjust_metric_panics a [] = refl
  adjust_metric_panics a (low ∷ more) = rw (unknown, first_at)

  -- The rounds before that of the metric may panic too.
  adjust_metrics_panics :
      (entries : UsageReports) (counters : List UsageReport) (a : Application)
      → get k entries ≡ some counters
      → adjust_metrics flushing elapsed changes removed timestamp entries a ≡ panic
  unfolding adjust_metrics get
  adjust_metrics_panics [] counters a e = absurd (ground arith)
  adjust_metrics_panics ((j, rs) ∷ rest) counters a e = elim (Outcome-cases step) [
    | inl p ↦ ap (λ m. m >>= continue) p
    | inr (a', p) ↦ elim (Bool-cases (j == k)) [
      | inl same ↦ absurd (ground (arith, eq_iff j k, adjust_metric_panics a rs))
      | inr other ↦
          ap (λ m. m >>= continue) p ∙ adjust_metrics_panics rest counters a' (rw other at e)
    ]
  ]
    where
      step : Outcome Application
      step =
          if contains j removed
          then convert_removed flushing a j
          else adjust_metric flushing elapsed changes timestamp a j rs

      continue : Application → Outcome Application
      continue = adjust_metrics flushing elapsed changes removed timestamp rest

-- If 3scale has a metric that neither the local state nor the snapshot has, the update panics: the
-- new metric is read in the snapshot.
pub adjust_local_state_added :
    (lib : ApiLib) (zone : Zone) (a : Application) (flushing : HandledApp) (remote : UsageReports)
    (timestamp : ℤ) (k : String) (reports : List UsageReport)
    → get k remote ≡ some reports
    → get k a.local_state ≡ none
    → get k flushing.snapshot.local_state ≡ none
    → adjust_local_state lib zone a flushing (some remote) timestamp ≡ panic
unfolding adjust_local_state compute_added_and_removed_metrics
adjust_local_state_added lib zone a flushing remote timestamp k reports hr hl hs =
    elim (Outcome-cases (synchronize_states lib a.local_state remote)) [
      | inl p ↦ rw p
      | inr ((synchronized, changes), p) ↦ rw p (
          adjust_metrics_panics flushing _ changes (metrics_missing_in remote a.local_state)
            timestamp k hs (contains-metrics_missing_in k remote a.local_state ∙ rw hl) _ reports _
            (get-add_new_metrics k added remote synchronized
              ∙ ground (arith, contains-metrics_missing_in k a.local_state remote)))
    ]
  where
    added : List String
    added = metrics_missing_in a.local_state remote
