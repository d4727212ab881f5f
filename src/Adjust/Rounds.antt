-- ===== src/Adjust/Rounds.antt =====
-- The rounds of the second loop of `adjustLocalState`, where no metric is gone and none is shared.
use scale_authorizer.Prelude.{
  String, ℕ, ℤ, Dict, Bool, true, false, add_int, sub_int, some, List, [], ◌∷◌, ◌≡◌, refl, arith,
  ◌==◌, if◌then◌else◌, eq_iff, Bool-cases, inl, inr,
}
use mathlib.Core.Option
use scale_authorizer.Prelude.Map.{get, get-alter}
use scale_authorizer.Prelude.Outcome.{ok}
use scale_authorizer.Api.{UsageReport}
use scale_authorizer.Application.{Application, or_empty, or_zero, contains}
use scale_authorizer.Counters.{first_at}
use scale_authorizer.Period.{is_elapsed}
use scale_authorizer.Sync.{StateChanges, no_changes, has_period}
use scale_authorizer.Adjust.Updated.{updated_value_reported, updated_value_failed}
use scale_authorizer.Adjust.{HandledApp, set_first, updated_value, write_updated, adjust_metric}

-- What a round leaves alone.
abbrev pub Keeps : Application → Application → Type 0
Keeps a a' =
    (a'.remote_state ≡ a.remote_state)
    × (a'.shared ≡ [])
    × (a'.unlimited_counter ≡ a.unlimited_counter)

-- The deltas of a report that failed are counted once more.
abbrev pub caught_up : ℤ → ℤ → Bool → ℤ
caught_up value delta false = value
caught_up value delta true = add_int value delta

updated_value_lem :
    (low remote snapped delta : ℤ) (failed : Bool)
    → updated_value low remote snapped delta failed
      ≡ caught_up (add_int remote (sub_int low snapped)) delta failed
updated_value_lem low remote snapped delta false = updated_value_reported low remote snapped delta
updated_value_lem low remote snapped delta true = updated_value_failed low remote snapped delta

module _ (flushing : HandledApp) (elapsed : List ℕ) (changes : Dict StateChanges) where
  -- The first report of a metric after its round, from its first local report, that of the snapshot
  -- and that of 3scale.
  abbrev pub settled_report : String → UsageReport → UsageReport → UsageReport → UsageReport
  settled_report k low snapped remote =
      if has_period low (Option.get_or (get k changes) no_changes).added
      then low
      else if is_elapsed low.period_window.period elapsed
      then low
      else record low {
        current_value =
            caught_up
              (add_int remote.current_value (sub_int low.current_value snapped.current_value))
              (or_zero (get k flushing.deltas)) flushing.reporting_err;
        max_value = remote.max_value;
      }

  -- A round for a metric that has a first report everywhere.
  pub round :
      (timestamp : ℤ) (a : Application) (j : String) (low snapped remote : UsageReport)
      (more : List UsageReport)
      → a.shared ≡ []
      → get j a.local_state ≡ some (low ∷ more)
      → first_at j flushing.snapshot.local_state ≡ ok snapped
      → first_at j (or_empty a.remote_state) ≡ ok remote
      → (a' : Application) × (adjust_metric flushing elapsed changes timestamp a j (low ∷ more)
          ≡ ok a')
        × ((k : String)
            → get k a'.local_state ≡ (
                if j == k
                then some (settled_report j low snapped remote ∷ more)
                else get k a.local_state))
        × Keeps a a'
  unfolding adjust_metric write_updated contains set_first
  round timestamp a j low snapped remote more sh e s r =
      elim (Bool-cases (has_period low (Option.get_or (get j changes) no_changes).added)) [
        | inl new ↦ (
          record a { timestamp = timestamp },
          ground arith,
          λ k. ground (arith, eq_iff j k),
          (refl, sh, refl),
        )
        | inr old ↦ elim (Bool-cases (is_elapsed low.period_window.period elapsed)) [
          | inl passed ↦ (
            record a { timestamp = timestamp },
            ground arith,
            λ k. ground (arith, eq_iff j k),
            (refl, sh, refl),
          )
          | inr open' ↦ (
            write_updated flushing (record a { timestamp = timestamp }) j low snapped remote,
            ground arith,
            λ k. ground (
              arith,
              eq_iff j k,
              updated_value_lem low.current_value remote.current_value snapped.current_value
                  (or_zero (get j flushing.deltas)) flushing.reporting_err,
              get-alter j k
                  (set_first
                    (updated_value low.current_value remote.current_value snapped.current_value
                      (or_zero (get j flushing.deltas)) flushing.reporting_err)
                    remote.max_value)
                  a.local_state,
            ),
            (ground arith, sh, refl),
          )
        ]
      ]
