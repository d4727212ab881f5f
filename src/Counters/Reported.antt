-- ===== src/Counters/Reported.antt =====
-- An application whose deltas have been reported and added to its remote state.
use scale_authorizer.Prelude.{
  sub_int_self, String, ℤ, pos, sub_int, Dict, false, true, Option, none, some, List, [], ◌∷◌, ◌≡◌,
  refl, ap, ◌∙◌, arith, Option-cases, inl, inr, ◌⊎◌, Bool-cases,
}
use scale_authorizer.Prelude.Map.{get, IsMap, Agrees}
use scale_authorizer.Api.{UsageReport, Metrics}
use scale_authorizer.Application.{Application, or_empty, counter_at, element_at, same_period}
use scale_authorizer.Counters.{
  add_deltas_to_remote_state, is_pruned, prune_unlimited_counter, update_counters,
  update_counters_current_value,
}
use scale_authorizer.Counters.Report.{incremented}
use scale_authorizer.Counters.Deltas.{difference, unreported, or_else}
use scale_authorizer.Counters.Settle.{add_deltas-remote, add_deltas-local, unreported-add_deltas}

-- The slice maps of an application hold every metric once, none shares its slices, and no metric
-- is counted both with and without limits.
pub record IsTidy (app : Application) : Type 0 where
  pub limited : IsMap app.local_state
  pub unlimited : IsMap app.unlimited_counter
  pub apart : app.shared ≡ []
  pub separate :
      (k : String) → (get k app.local_state ≡ none) ⊎ (get k app.unlimited_counter ≡ none)

-- The unreported hits once all of them are reported.
abbrev pub zeroed : Option ℤ → Option ℤ
zeroed none = none
zeroed (some v) = some (pos 0)

-- The first report of a metric whose reports all grow.
abbrev bumped : Option ℤ → Option UsageReport → Option UsageReport
bumped none r = r
bumped (some v) none = none
bumped (some v) (some r) = some (update_counters_current_value v r)

first-incremented :
    (o : Option ℤ) (reports : Option (List UsageReport))
    → element_at 0 (incremented o reports) ≡ bumped o (element_at 0 reports)
unfolding update_counters
first-incremented none reports = refl
first-incremented (some v) none = refl
first-incremented (some v) (some []) = refl
first-incremented (some v) (some (r ∷ more)) = refl

counter_at-add_deltas :
    (app : Application) (d : Metrics) (m : String)
    → IsMap d
    → counter_at m 0 (or_empty (add_deltas_to_remote_state app d).remote_state)
      ≡ bumped (get m d) (counter_at m 0 (or_empty app.remote_state))
unfolding counter_at
counter_at-add_deltas app d m h =
    ap (element_at 0) (add_deltas-remote app d m h)
    ∙ first-incremented (get m d) (get m (or_empty app.remote_state))

difference-bumped :
    (l : UsageReport) (o : Option ℤ) (r : UsageReport)
    → same_period l r ≡ false
    → difference (some l) (bumped o (some r)) ≡ none
unfolding update_counters
difference-bumped l none r e = rw e refl
difference-bumped l (some v) r e = ground arith

bumped-none : (o : Option ℤ) → bumped o none ≡ none
bumped-none none = refl
bumped-none (some v) = refl

-- The delta of a metric with a limit.
pub delta-limited :
    (app : Application) (d : Metrics) (m : String) (l r : UsageReport)
    → (get m app.local_state ≡ none) ⊎ (get m app.unlimited_counter ≡ none)
    → get m d ≡ or_else (get m app.unlimited_counter) (unreported app m)
    → counter_at m 0 app.local_state ≡ some l
    → counter_at m 0 (or_empty app.remote_state) ≡ some r
    → same_period l r ≡ true
    → get m d ≡ some (sub_int l.current_value r.current_value)
unfolding counter_at
delta-limited app d m l r (inl p) e hl hr same = absurd (ground arith)
delta-limited app d m l r (inr u) e hl hr same = e ∙ rw (u, hl, hr, same) refl

-- Once the deltas are added to the remote state, none of the reported hits is left to report.
pub unreported-settled :
    (app : Application) (d : Metrics) (m : String)
    → IsMap d
    → app.shared ≡ []
    → (get m app.local_state ≡ none) ⊎ (get m app.unlimited_counter ≡ none)
    → get m d ≡ or_else (get m app.unlimited_counter) (unreported app m)
    → unreported (add_deltas_to_remote_state app d) m ≡ zeroed (unreported app m)
unreported-settled app d m h apart separate e =
    let after : unreported (add_deltas_to_remote_state app d) m
        ≡ difference (counter_at m 0 app.local_state)
            (bumped (get m d) (counter_at m 0 (or_empty app.remote_state))) =
      rw (add_deltas-local app d apart, counter_at-add_deltas app d m h) refl in
    elim (Option-cases (counter_at m 0 app.local_state)) [
      | inl p ↦ after ∙ rw p refl
      | inr (l, p) ↦ elim (Option-cases (counter_at m 0 (or_empty app.remote_state))) [
        | inl q ↦ after ∙ rw (p, q) (ap (difference (some l)) (bumped-none (get m d)))
        | inr (r, q) ↦ elim (Bool-cases (same_period l r)) [
          | inl same ↦
              let v = sub_int l.current_value r.current_value in
              unreported-add_deltas app d m l l r h apart p q same
                (delta-limited app d m l r separate e p q same)
              ∙ ap some (sub_int_self l.current_value)
              ∙ rw (p, q, same) refl
          | inr other ↦ after ∙ rw (p, q) (difference-bumped l (get m d) r other ∙ rw other refl)
        ]
      ]
    ]

-- An entry that is not in its own map would be pruned, and so is every entry that did not grow.
pub prune_self :
    (snapshot rest : Dict ℤ) → Agrees rest snapshot → prune_unlimited_counter snapshot rest ≡ []
unfolding prune_unlimited_counter is_pruned
prune_self snapshot [] a = refl
prune_self snapshot ((k, v) ∷ rest) a = ground (arith, sub_int_self v, prune_self snapshot rest a.1)
