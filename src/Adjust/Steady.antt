-- ===== src/Adjust/Steady.antt =====
-- `adjustLocalState` where 3scale limits the metrics that the application has.
use scale_authorizer.Prelude.{String, ℕ, Dict, Option, none, some, List, [], ◌∷◌, ◌≡◌}
use scale_authorizer.Prelude.Outcome.{ok}
use scale_authorizer.Api.{UsageReport, UsageReports}
use scale_authorizer.Application.{Application}
use scale_authorizer.Counters.{first_at}
use scale_authorizer.Sync.{StateChanges}
use scale_authorizer.Adjust.{HandledApp}
use scale_authorizer.Adjust.Rounds.{settled_report}

-- Every metric of the list has a first report, in the list, in the snapshot and at 3scale.
abbrev pub Ready :
    UsageReports
    → (String → UsageReport)
    → UsageReports
    → (String → UsageReport)
    → UsageReports
    → Type 0
Ready snapshot snapped remote_state remote [] = Unit {0}
Ready snapshot snapped remote_state remote ((k, reports) ∷ rest) =
    (low : UsageReport) × (more : List UsageReport) × (reports ≡ low ∷ more)
    × (first_at k snapshot ≡ ok (snapped k))
    × (first_at k remote_state ≡ ok (remote k))
    × Ready snapshot snapped remote_state remote rest

module _ (flushing : HandledApp) (elapsed : List ℕ) (changes : Dict StateChanges)
    (snapped remote : String → UsageReport) where
  -- The reports of a metric after the update, by its reports before.
  abbrev pub settle : String → List UsageReport → List UsageReport
  settle k [] = []
  settle k (low ∷ more) =
      settled_report flushing elapsed changes k low (snapped k) (remote k) ∷ more

  abbrev settled_or :
      Option (List UsageReport) → String → Option (List UsageReport) → Option (List UsageReport)
  settled_or before k none = before
  settled_or before k (some reports) = some (settle k reports)
