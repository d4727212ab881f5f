-- ===== src/Counters/Settle.antt =====
-- What `addDeltasToRemoteState` does to the remote state, and to the next deltas.
use scale_authorizer.Prelude.{
  String, ℤ, sub_int, sub_int-add_int-sub_int, true, Option, none, some, List, [], ◌∷◌, ◌≡◌, refl,
  arith, ◌==◌, if◌then◌else◌, eq_iff, Option-cases, inl, inr, ◌∙◌, ap,
}
use scale_authorizer.Prelude.Map.{get, IsMap, get-alter, applied}
use scale_authorizer.Api.{UsageReport, Metrics}
use scale_authorizer.Application.{
  Application, or_empty, contains, counter_at, element_at, same_period,
}
use scale_authorizer.Counters.{
  update_counters_current_value, update_counters, add_delta, add_deltas_to_remote_state,
}
use scale_authorizer.Counters.Report.{incremented}
use scale_authorizer.Counters.Deltas.{unreported}

add_delta-remote :
    (a : Application) (j : String) (v : ℤ) (k : String)
    → get k (or_empty (add_delta a j v).remote_state) ≡ (
        if j == k
        then applied (update_counters v) (get k (or_empty a.remote_state))
        else get k (or_empty a.remote_state))
unfolding add_delta
add_delta-remote a j v k = elim (Option-cases (get j (or_empty a.remote_state))) [
  | inl e ↦ rw (e, add_delta) (ground (arith, eq_iff j k))
  | inr (rs, e) ↦ rw (e, add_delta) (get-alter j k (update_counters v) (or_empty a.remote_state))
]

-- A metric's remote reports all grow by its delta, if there is one.
pub add_deltas-remote :
    (a : Application) (d : Metrics) (k : String)
    → IsMap d
    → get k (or_empty (add_deltas_to_remote_state a d).remote_state)
      ≡ incremented (get k d) (get k (or_empty a.remote_state))
unfolding add_deltas_to_remote_state get
add_deltas-remote a [] k m = refl
add_deltas-remote a ((j, v) ∷ d) k m =
    ground
      (arith, eq_iff j k, add_deltas-remote (add_delta a j v) d k m.1, add_delta-remote a j v k)

add_delta-local :
    (a : Application) (j : String) (v : ℤ)
    → a.shared ≡ []
    → ((add_delta a j v).local_state ≡ a.local_state) × ((add_delta a j v).shared ≡ [])
unfolding add_delta contains
add_delta-local a j v h = ground arith

pub add_deltas-local :
    (a : Application) (d : Metrics)
    → a.shared ≡ []
    → (add_deltas_to_remote_state a d).local_state ≡ a.local_state
unfolding add_deltas_to_remote_state
add_deltas-local a [] h = refl
add_deltas-local a ((j, v) ∷ d) h =
    let step = add_delta-local a j v h in add_deltas-local (add_delta a j v) d step.1 ∙ step.0

add_delta-unlimited :
    (a : Application) (j : String) (v : ℤ)
    → (add_delta a j v).unlimited_counter ≡ a.unlimited_counter
unfolding add_delta
add_delta-unlimited a j v = ground arith

pub add_deltas-unlimited :
    (a : Application) (d : Metrics)
    → (add_deltas_to_remote_state a d).unlimited_counter ≡ a.unlimited_counter
unfolding add_deltas_to_remote_state
add_deltas-unlimited a [] = refl
add_deltas-unlimited a ((j, v) ∷ d) =
    add_deltas-unlimited (add_delta a j v) d ∙ add_delta-unlimited a j v

first_incremented :
    (o : Option (List UsageReport)) (v : ℤ) (r : UsageReport)
    → element_at 0 o ≡ some r
    → element_at 0 (applied (update_counters v) o) ≡ some (update_counters_current_value v r)
unfolding update_counters
first_incremented none v r h = absurd (ground arith)
first_incremented (some []) v r h = absurd (ground arith)
first_incremented (some (x ∷ xs)) v r h =
    ap {B = Option UsageReport}
      (λ o. elim o [ none ↦ none | some y ↦ some (update_counters_current_value v y) ]) h

counter_at-add_deltas :
    (a : Application) (d : Metrics) (k : String) (v : ℤ) (r : UsageReport)
    → IsMap d
    → get k d ≡ some v
    → counter_at k 0 (or_empty a.remote_state) ≡ some r
    → counter_at k 0 (or_empty (add_deltas_to_remote_state a d).remote_state)
      ≡ some (update_counters_current_value v r)
unfolding counter_at
counter_at-add_deltas a d k v r m hd hr =
    rw (counter_at, add_deltas-remote a d k m, hd)
      (first_incremented (get k (or_empty a.remote_state)) v r hr)

-- `l` is the local report now, `s` the one of the snapshot and `r` the remote one that the delta
-- was taken against. Once the delta is added to the remote state, what is left to report is the
-- hits since the snapshot.
pub unreported-add_deltas :
    (a : Application) (d : Metrics) (k : String) (l s r : UsageReport)
    → IsMap d
    → a.shared ≡ []
    → counter_at k 0 a.local_state ≡ some l
    → counter_at k 0 (or_empty a.remote_state) ≡ some r
    → same_period l r ≡ true
    → get k d ≡ some (sub_int s.current_value r.current_value)
    → unreported (add_deltas_to_remote_state a d) k ≡ some (sub_int l.current_value s.current_value)
unfolding update_counters
unreported-add_deltas a d k l s r m sh hl hr p hd =
    rw
      (
        counter_at-add_deltas a d k (sub_int s.current_value r.current_value) r m hd hr,
        add_deltas-local a d sh,
        hl,
        p,
      )
      (ap some (sub_int-add_int-sub_int l.current_value r.current_value s.current_value))
