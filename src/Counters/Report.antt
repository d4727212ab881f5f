-- ===== src/Counters/Report.antt =====
-- What `localReport` does to the counters of an application.
use scale_authorizer.Prelude.{
  String, ℤ, add_int, true, Option, none, some, List, [], ◌∷◌, ◌≡◌, refl, arith, ◌==◌,
  if◌then◌else◌, eq_iff, Option-cases, inl, inr,
}
use scale_authorizer.Prelude.Map.{get, IsMap, get-alter, get-put, applied}
use scale_authorizer.Api.{UsageReport, Metrics}
use scale_authorizer.Application.{Application, or_zero}
use scale_authorizer.Counters.{
  update_counters, update_unlimited_counter, report_metric, report_metrics, is_authorized,
}
use scale_authorizer.Counters.Limits.{
  WithinLimits, reports_of, HasRoom-get, HasRoom-applied, is_authorized_iff,
}

-- The reports of a metric after an increment, if the request holds one.
abbrev pub incremented : Option ℤ → Option (List UsageReport) → Option (List UsageReport)
incremented none reports = reports
incremented (some i) reports = applied (update_counters i) reports

-- The count of a metric after an increment: only a metric without limits is counted.
abbrev pub counted : Option (List UsageReport) → Option ℤ → Option ℤ → Option ℤ
counted (some reports) increment count = count
counted none none count = count
counted none (some i) count = some (add_int (or_zero count) i)

module _ (k : String) where
  report_metric-local :
      (a : Application) (j : String) (i : ℤ)
      → get k (report_metric a j i).local_state ≡ (
          if j == k then applied (update_counters i) (get k a.local_state) else get k a.local_state)
  unfolding report_metric
  report_metric-local a j i = elim (Option-cases (get j a.local_state)) [
    | inl e ↦ rw (e, report_metric) (ground (arith, eq_iff j k))
    | inr (rs, e) ↦ rw (e, report_metric) (get-alter j k (update_counters i) a.local_state)
  ]

  report_metric-unlimited :
      (a : Application) (j : String) (i : ℤ)
      → get k (report_metric a j i).unlimited_counter ≡ (
          if j == k
          then counted (get k a.local_state) (some i) (get k a.unlimited_counter)
          else get k a.unlimited_counter)
  unfolding report_metric update_unlimited_counter
  report_metric-unlimited a j i = elim (Option-cases (get j a.local_state)) [
    | inl e ↦
        rw (e, report_metric)
          (ground (
            arith,
            eq_iff j k,
            get-put j k (add_int (or_zero (get j a.unlimited_counter)) i) a.unlimited_counter,
          ))
    | inr (rs, e) ↦ rw (e, report_metric) (ground (arith, eq_iff j k))
  ]

  report_metrics-local :
      (a : Application) (m : Metrics)
      → IsMap m
      → get k (report_metrics a m).local_state ≡ incremented (get k m) (get k a.local_state)
  unfolding report_metrics get
  report_metrics-local a [] h = refl
  report_metrics-local a ((j, i) ∷ m) h = ground (
    arith,
    eq_iff j k,
    report_metrics-local (report_metric a j i) m h.1,
    report_metric-local a j i,
  )

  report_metrics-unlimited :
      (a : Application) (m : Metrics)
      → IsMap m
      → get k (report_metrics a m).unlimited_counter
        ≡ counted (get k a.local_state) (get k m) (get k a.unlimited_counter)
  unfolding report_metrics get
  report_metrics-unlimited a [] h = ground arith
  report_metrics-unlimited a ((j, i) ∷ m) h = ground (
    arith,
    eq_iff j k,
    report_metrics-unlimited (report_metric a j i) m h.1,
    report_metric-local a j i,
    report_metric-unlimited a j i,
  )

  -- For a set of increments without a repeated metric: each report of a limited metric grows by the
  -- metric's increment, the count of a metric without limits grows by its increment, and a metric
  -- without an increment keeps its reports and its count.
  pub report_metrics_effect :
      (a : Application) (m : Metrics)
      → IsMap m
      → (get k (report_metrics a m).local_state ≡ incremented (get k m) (get k a.local_state))
        × (get k (report_metrics a m).unlimited_counter
            ≡ counted (get k a.local_state) (get k m) (get k a.unlimited_counter))
  report_metrics_effect a m h = (report_metrics-local a m h, report_metrics-unlimited a m h)

  -- After an authorized request is reported, a metric that was within its limits still is.
  pub authorized_report-WithinLimits :
      (a : Application) (m : Metrics)
      → IsMap m
      → is_authorized a m ≡ true
      → WithinLimits (reports_of (get k a.local_state))
      → WithinLimits (reports_of (get k (report_metrics a m).local_state))
  authorized_report-WithinLimits a m d auth within =
      rw (report_metrics-local a m d) (by_increment (get k m) refl)
    where
      by_increment :
          (o : Option ℤ)
          → get k m ≡ o
          → WithinLimits (reports_of (incremented o (get k a.local_state)))
      by_increment none e = within
      by_increment (some i) e =
          HasRoom-applied i (get k a.local_state)
            (HasRoom-get a.local_state m k i ((is_authorized_iff a m).0 auth) e)
