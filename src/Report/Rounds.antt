-- ===== src/Report/Rounds.antt =====
-- What a round of the report task does to the cache, and where it panics.
use scale_authorizer.Prelude.{
  String, ℕ, false, Option, none, some, List, ◌∷◌, ◌≡◌, arith, ◌==◌, if◌then◌else◌, get_elem?,
}
use scale_authorizer.Prelude.Outcome.{ok, panic}
use scale_authorizer.Api.{Transaction, Request, AuthorizeResult, UsageReports, Hierarchy}
use scale_authorizer.Application.{Application, new_application}
use scale_authorizer.Counters.{report_metrics}
use scale_authorizer.Key.{generate_cache_key_from_request}
use scale_authorizer.Host.{IsConcurrentMap}
use scale_authorizer.LocalCache
use scale_authorizer.Backend.{
  Host, Backend, get_application_from_cache, remote_auth, call_back, empty_transaction_from,
}
use scale_authorizer.Backend.Miss.{cache_response, handle_cache_miss}
use scale_authorizer.Backend.Authorize.{local_report}
use scale_authorizer.Backend.Decisions.{
  key_of, blank, affected, cache-call_back, cache-local_report,
}
use scale_authorizer.Report.{
  learn_hierarchy, find_hierarchy, finish_round, report_transaction, report_transactions,
  report_task,
}

module _ {W S Q H : Type 0} (h : Host W S Q H) where
  open h use {cmap, lib}

  module _ (b : Backend W S Q) (request : Request) (index : ℕ) (t : Transaction)
      (at : get_elem? request.transactions index ≡ some t) where
    -- Once a hierarchy is known, a transaction whose application is not cached is dropped: the round
    -- succeeds and nothing changes, the backend's world included.
    pub report_transaction_dropped :
        (hierarchy : Hierarchy)
        → cmap.get b.cache (key_of h request t) ≡ none
        → report_transaction h b request index t (some hierarchy) ≡ ok (some hierarchy, b)
    unfolding report_transaction generate_cache_key_from_request get_application_from_cache
        find_hierarchy finish_round local_report LocalCache.get
    report_transaction_dropped hierarchy missing = ground arith

    -- The hierarchy that the next round starts with.
    abbrev pub next_hierarchy : Application → Option Hierarchy → Option Hierarchy
    next_hierarchy app none = app.metric_hierarchy
    next_hierarchy app (some hierarchy) = some hierarchy

    report_transaction_known :
        (app : Application) (hierarchy : Option Hierarchy) (remote : UsageReports)
        → cmap.get b.cache (key_of h request t) ≡ some app
        → app.remote_state ≡ some remote
        → report_transaction h b request index t hierarchy
          ≡ ok (
            next_hierarchy app hierarchy,
            local_report h (call_back h b) (key_of h request t) (affected h app t),
          )
    unfolding report_transaction generate_cache_key_from_request get_application_from_cache
        find_hierarchy finish_round LocalCache.get
    report_transaction_known app none remote e r = ground arith
    report_transaction_known app (some hy) remote e r = ground arith

    -- A transaction whose application is cached and has a remote state is added to that
    -- application's counters, whatever its limits, and no other entry of the cache changes.
    pub report_transaction_cached :
        (app : Application) (hierarchy : Option Hierarchy) (remote : UsageReports)
        → IsConcurrentMap cmap
        → cmap.get b.cache (key_of h request t) ≡ some app
        → app.remote_state ≡ some remote
        → (b' : Backend W S Q) × (report_transaction h b request index t hierarchy
            ≡ ok (next_hierarchy app hierarchy, b'))
          × ((j : String)
              → cmap.get b'.cache j ≡ (
                  if key_of h request t == j
                  then some (report_metrics app (affected h app t))
                  else cmap.get b.cache j))
    report_transaction_cached app hierarchy remote laws e r = (
      local_report h (call_back h b) (key_of h request t) (affected h app t),
      report_transaction_known app hierarchy remote e r,
      λ j. ground (
        arith,
        cache-call_back h b,
        cache-local_report h (call_back h b) (key_of h request t) (affected h app t) app laws
            (rw cache-call_back e) j,
      ),
    )

  -- A report for an application that is not cached, and that 3scale denies, ends the program: the
  -- task reads the hierarchy of an application that is nil.
  pub report_task_denied :
      (b : Backend W S Q) (request : Request) (t : Transaction) (rest : List Transaction)
      (resp : AuthorizeResult)
      → request.transactions ≡ t ∷ rest
      → cmap.get b.cache (key_of h request t) ≡ none
      → (remote_auth h b (blank h request t) false).0.error ≡ none
      → (remote_auth h b (blank h request t) false).0.result ≡ some resp
      → resp.authorized ≡ false
      → report_task h b request ≡ panic
  unfolding report_task report_transactions report_transaction generate_cache_key_from_request
      get_application_from_cache find_hierarchy learn_hierarchy handle_cache_miss cache_response
      empty_transaction_from LocalCache.get new_application
  report_task_denied b request t rest resp e missing p q r = ground arith
