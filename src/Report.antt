-- ===== src/Report.antt =====
-- `report` of pkg/backend/v1/backend.go: the answer, and the task that goes on in the background.
pub mod Rounds
pub mod Agreement
use scale_authorizer.Prelude.{String, ℕ, suc, Bool, true, false, Option, none, some, List, [], ◌∷◌}
use scale_authorizer.Prelude.Outcome.{Outcome, ok, ◌>>=◌, deref}
use scale_authorizer.Api.{Transaction, Request, Fallible, success, failure, Hierarchy}
use scale_authorizer.Application.{Application, new_application}
use scale_authorizer.Key.{generate_cache_key_from_request}
use scale_authorizer.Backend.{
  Host, Backend, or_else, validate_transactions, get_application_from_cache,
}
use scale_authorizer.Backend.Miss.{handle_cache_miss}
use scale_authorizer.Backend.Authorize.{local_report}

-- `ReportResult`
pub record ReportResult : Type 0 where
  pub accepted : Bool

unfoldable pub report : Request → Fallible ReportResult
unfolding validate_transactions
report request = elim (validate_transactions request.transactions) [
  | some e ↦ failure e
  | none ↦ success (record { accepted = true })
]

-- Where a round of the task stands once the hierarchy was looked for: the round goes on with an
-- application and the hierarchy, or ends.
pub data Progress : Type 0 where
  go_on : Application → Option Hierarchy → Progress
  skip : Progress

module _ {W S Q H : Type 0} (h : Host W S Q H) where
  open h use {lib}

  -- The hierarchy that a cache miss teaches: a denial leaves a nil application, which is read.
  unfoldable pub learn_hierarchy :
      Backend W S Q → Request → String → Outcome (Progress × Backend W S Q)
  unfolding handle_cache_miss
  learn_hierarchy b request cache_key = do
    (miss, b') ← handle_cache_miss h b request cache_key false
    elim miss.error [
      | some e ↦ ok (skip, b')
      | none ↦ do app ← deref miss.app; ok (go_on app app.metric_hierarchy, b')
    ]

  unfoldable pub find_hierarchy :
      Backend W S Q
      → Request
      → String
      → Application
      → Option Hierarchy
      → Outcome (Progress × Backend W S Q)
  unfolding learn_hierarchy
  find_hierarchy b request cache_key app (some hierarchy) = ok (go_on app (some hierarchy), b)
  find_hierarchy b request cache_key app none = elim app.remote_state [
    | none ↦ learn_hierarchy b request cache_key
    | some _ ↦ ok (go_on app app.metric_hierarchy, b)
  ]

  -- The end of a round: the metrics are taken with the hierarchy of the round's application.
  unfoldable pub finish_round :
      Backend W S Q
      → String
      → Transaction
      → Progress
      → Option Hierarchy
      → Option Hierarchy × Backend W S Q
  unfolding local_report
  finish_round b cache_key transaction skip hierarchy = (hierarchy, b)
  finish_round b cache_key transaction (go_on app known) hierarchy = (
    known,
    local_report h b cache_key
        (lib.add_hierarchy_to_metrics transaction.metrics app.metric_hierarchy),
  )

  unfoldable pub report_transaction :
      Backend W S Q
      → Request
      → ℕ
      → Transaction
      → Option Hierarchy
      → Outcome (Option Hierarchy × Backend W S Q)
  unfolding generate_cache_key_from_request get_application_from_cache find_hierarchy finish_round
      new_application
  report_transaction b request index transaction hierarchy = do
    cache_key ← generate_cache_key_from_request lib request index
    let (cached, b1) = get_application_from_cache h b cache_key
    (progress, b2) ← find_hierarchy b1 request cache_key (or_else cached new_application) hierarchy
    ok (finish_round b2 cache_key transaction progress hierarchy)

  unfoldable pub report_transactions :
      Backend W S Q → Request → ℕ → List Transaction → Option Hierarchy → Outcome (Backend W S Q)
  unfolding report_transaction
  report_transactions b request index [] hierarchy = ok b
  report_transactions b request index (transaction ∷ rest) hierarchy = do
    (hierarchy', b') ← report_transaction b request index transaction hierarchy
    report_transactions b' request (suc index) rest hierarchy'

  unfoldable pub report_task : Backend W S Q → Request → Outcome (Backend W S Q)
  unfolding report_transactions
  report_task b request = report_transactions b request 0 request.transactions none
