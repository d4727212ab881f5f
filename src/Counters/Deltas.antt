-- ===== src/Counters/Deltas.antt =====
-- What `calculateDeltas` reports, and how a report that went through is settled.
use scale_authorizer.Prelude.{
  String, ℤ, sub_int, Dict, Option, none, some, List, [], ◌∷◌, ◌≡◌, refl, arith, ◌==◌,
  if◌then◌else◌, eq_iff, ◌∙◌, ap, Option-cases, inl, inr,
}
use mathlib.Core.Path.{subst}
use scale_authorizer.Prelude.Outcome.{ok}
use scale_authorizer.Prelude.Map.{
  get, put, IsMap, IsMap-put, Agrees, Agrees-self, Fresh, Fresh-empty, get-put,
}
use scale_authorizer.Api.{UsageReport, UsageReports, Metrics, ApiLib}
use scale_authorizer.Application.{
  Application, or_empty, counter_at, same_period, states_are_comparable,
  compare_local_to_remote_state,
}
use scale_authorizer.Counters.{
  first_at, add_limited_delta, limited_deltas, put_all, calculate_deltas,
}

-- The documented behaviour of `api.Metrics.Add` on a metric that is not there yet.
pub record AddsMetrics (lib : ApiLib) : Type 0 where
  pub get-add :
      (m : Metrics) (k j : String) (v : ℤ)
      → get k m ≡ none
      → get j (lib.metrics_add m k v) ≡ (if k == j then some v else get j m)
  pub IsMap-add : (m : Metrics) (k : String) (v : ℤ) → IsMap m → IsMap (lib.metrics_add m k v)

-- The difference of two reports, where both are there and have one period.
abbrev pub difference : Option UsageReport → Option UsageReport → Option ℤ
difference none r = none
difference (some l) none = none
difference (some l) (some r) =
    if same_period l r then some (sub_int l.current_value r.current_value) else none

-- The hits of a limited metric that 3scale has not seen: those of its lowest period.
abbrev pub unreported : Application → String → Option ℤ
unreported a k =
    difference (counter_at k 0 a.local_state) (counter_at k 0 (or_empty a.remote_state))

abbrev pub or_else : Option ℤ → Option ℤ → Option ℤ
or_else none y = y
or_else (some x) y = some x

abbrev add_or_keep : ApiLib → Metrics → String → Option ℤ → Metrics
add_or_keep lib d k none = d
add_or_keep lib d k (some v) = lib.metrics_add d k v

module _ (lib : ApiLib) (a : Application) where
  -- One round, as long as the reports that it is given are those of the metric.
  add_limited_delta_lem :
      (d : Metrics) (k : String) (rs : List UsageReport)
      → get k a.local_state ≡ some rs
      → add_limited_delta lib a d k rs ≡ ok (add_or_keep lib d k (unreported a k))
  unfolding add_limited_delta first_at compare_local_to_remote_state states_are_comparable
      counter_at
  add_limited_delta_lem d k rs e = ground arith

  gathered : Metrics → UsageReports → Metrics
  gathered d [] = d
  gathered d ((k, rs) ∷ rest) = gathered (add_or_keep lib d k (unreported a k)) rest

  limited_deltas-gathered :
      (d : Metrics) (rest : UsageReports)
      → Agrees rest a.local_state
      → limited_deltas lib a d rest ≡ ok (gathered d rest)
  unfolding limited_deltas gathered
  limited_deltas-gathered d [] h = refl
  limited_deltas-gathered d ((k, rs) ∷ rest) h =
      rw (add_limited_delta_lem d k rs h.0)
        (limited_deltas-gathered (add_or_keep lib d k (unreported a k)) rest h.1)

  module _ (laws : AddsMetrics lib) where
    get-add_or_keep :
        (d : Metrics) (k j : String) (o : Option ℤ)
        → get k d ≡ none
        → get j (add_or_keep lib d k o) ≡ (if k == j then o else get j d)
    get-add_or_keep d k j none h = ground (arith, eq_iff k j)
    get-add_or_keep d k j (some v) h = laws.get-add d k j v h

    Fresh-add_or_keep :
        (d : Metrics) (k : String) (o : Option ℤ) (rest : UsageReports)
        → get k d ≡ none
        → get k rest ≡ none
        → Fresh rest d
        → Fresh rest (add_or_keep lib d k o)
    unfolding get
    Fresh-add_or_keep d k o [] hd hr h = tt
    Fresh-add_or_keep d k o ((j, rs) ∷ rest) hd hr h =
        ground (
          arith,
          eq_iff j k,
          eq_iff k j,
          get-add_or_keep d k j o hd,
          Fresh-add_or_keep d k o rest hd,
        )

    get-gathered :
        (k : String) (d : Metrics) (rest : UsageReports)
        → IsMap rest
        → Fresh rest d
        → get k (gathered d rest)
          ≡ elim (get k rest) [ none ↦ get k d | some _ ↦ or_else (unreported a k) (get k d) ]
    unfolding gathered get
    get-gathered k d [] m f = refl
    get-gathered k d ((j, rs) ∷ rest) m f = ground (
      arith,
      eq_iff j k,
      get-add_or_keep d j k (unreported a j) f.0,
      get-gathered k (add_or_keep lib d j (unreported a j)) rest m.1
          (Fresh-add_or_keep d j (unreported a j) rest f.0 m.0 f.1),
    )

-- The deltas hold no metric twice.
module _ (lib : ApiLib) (a : Application) (laws : AddsMetrics lib) where
  gathered-IsMap : (d : Metrics) (rest : UsageReports) → IsMap d → IsMap (gathered lib a d rest)
  unfolding gathered
  gathered-IsMap d [] m = m
  gathered-IsMap d ((k, rs) ∷ rest) m =
      gathered-IsMap (add_or_keep lib d k (unreported a k)) rest
        (elim (Option-cases (unreported a k)) [
          | inl e ↦ rw e m
          | inr (v, e) ↦ rw e (laws.IsMap-add d k v m)
        ])

  put_all-IsMap : (u : Dict ℤ) (d : Metrics) → IsMap d → IsMap (put_all u d)
  unfolding put_all
  put_all-IsMap [] d m = m
  put_all-IsMap ((k, v) ∷ u) d m = put_all-IsMap u (put k v d) (IsMap-put k v d m)

  pub calculate_deltas-IsMap :
      (d : Metrics) → IsMap a.local_state → calculate_deltas lib a ≡ ok d → IsMap d
  unfolding calculate_deltas
  calculate_deltas-IsMap d ml e =
      let gathers = limited_deltas-gathered lib a [] a.local_state (Agrees-self a.local_state ml) in
      let d' = put_all a.unlimited_counter (gathered lib a [] a.local_state) in
      let same : d' ≡ d = ground arith in
      subst (λ x. IsMap x) same
        (put_all-IsMap a.unlimited_counter (gathered lib a [] a.local_state)
          (gathered-IsMap [] a.local_state tt))

get-put_all :
    (k : String) (u : Dict ℤ) (d : Metrics)
    → IsMap u
    → get k (put_all u d) ≡ or_else (get k u) (get k d)
unfolding put_all get
get-put_all k [] d m = refl
get-put_all k ((j, v) ∷ u) d m =
    ground (arith, eq_iff j k, get-put_all k u (put j v d) m.1, get-put j k v d)

or_else-unreported :
    (a : Application) (k : String)
    → elim (get k a.local_state) [ none ↦ none | some _ ↦ or_else (unreported a k) none ]
      ≡ unreported a k
unfolding counter_at
or_else-unreported a k = ground arith

-- The deltas are always computed, without a panic. For a metric without limits they hold its count,
-- and for any other metric the difference between the lowest period's local and remote value, where
-- both states have that period. Neither map may hold a metric twice.
pub calculate_deltas_lem :
    (lib : ApiLib) (a : Application)
    → AddsMetrics lib
    → IsMap a.local_state
    → IsMap a.unlimited_counter
    → (d : Metrics) × (calculate_deltas lib a ≡ ok d)
      × ((k : String) → get k d ≡ or_else (get k a.unlimited_counter) (unreported a k))
unfolding calculate_deltas get
calculate_deltas_lem lib a laws ml mu =
    let d = gathered lib a [] a.local_state in
    (
      put_all a.unlimited_counter d,
      rw (limited_deltas-gathered lib a [] a.local_state (Agrees-self a.local_state ml)),
      λ k.
          get-put_all k a.unlimited_counter d mu
          ∙ ap (or_else (get k a.unlimited_counter)) (
              get-gathered lib a laws k [] a.local_state ml (Fresh-empty ℤ a.local_state)
              ∙ or_else-unreported a k),
    )
