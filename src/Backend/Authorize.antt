-- ===== src/Backend/Authorize.antt =====
-- `authorize` and `authRep` of pkg/backend/v1/backend.go.
use scale_authorizer.Prelude.{String, Bool, true, false, none, some, if◌then◌else◌}
use scale_authorizer.Prelude.Outcome.{Outcome, ok, ◌>>=◌}
use scale_authorizer.Api.{Request, AuthorizeResult, Fallible, success, failure, Metrics}
use scale_authorizer.Counters.{is_authorized, report_metrics}
use scale_authorizer.Key.{generate_cache_key_from_request}
use scale_authorizer.Backend.{
  Host, Backend, validate_transactions, compute_affected_metrics, get_application_from_cache,
  set_in_cache,
}
use scale_authorizer.Backend.Miss.{Fetched, found, answered, verdict, fetch_application}

module _ {W S Q H : Type 0} (h : Host W S Q H) where
  open h use {cmap, lane, lib, zone}

  unfoldable pub local_report : Backend W S Q → String → Metrics → Backend W S Q
  unfolding get_application_from_cache report_metrics set_in_cache
  local_report b cache_key metrics =
      let (cached, b1) = get_application_from_cache h b cache_key in
      elim cached [
        | none ↦ b1
        | some application ↦ set_in_cache h b1 cache_key (report_metrics application metrics)
      ]

  -- `authorize`, once the application is known.
  unfoldable pub decide :
      Backend W S Q → Request → Fetched → Outcome (Fallible AuthorizeResult × Backend W S Q)
  unfolding compute_affected_metrics is_authorized
  decide b request (answered answer) = ok (answer, b)
  decide b request (found app) = do
    affected ← compute_affected_metrics lib app request
    ok (success (verdict (is_authorized app affected)), b)

  -- `authRep`, once the application is known.
  unfoldable pub decide_and_report :
      Backend W S Q
      → Request
      → String
      → Fetched
      → Outcome (Fallible AuthorizeResult × Backend W S Q)
  unfolding compute_affected_metrics is_authorized local_report
  decide_and_report b request cache_key (answered answer) = ok (answer, b)
  decide_and_report b request cache_key (found app) = do
    affected ← compute_affected_metrics lib app request
    if is_authorized app affected
        then ok (success (verdict true), local_report b cache_key affected)
        else ok (success (verdict false), b)

  unfoldable pub authorize :
      Backend W S Q → Request → Bool → Outcome (Fallible AuthorizeResult × Backend W S Q)
  unfolding validate_transactions generate_cache_key_from_request fetch_application decide
  authorize b request oidc = elim (validate_transactions request.transactions) [
    | some e ↦ ok (failure e, b)
    | none ↦ do
      cache_key ← generate_cache_key_from_request lib request 0
      (fetched, b') ← fetch_application h b request cache_key oidc
      decide b' request fetched
  ]

  unfoldable pub auth_rep :
      Backend W S Q → Request → Bool → Outcome (Fallible AuthorizeResult × Backend W S Q)
  unfolding validate_transactions generate_cache_key_from_request fetch_application
      decide_and_report
  auth_rep b request oidc = elim (validate_transactions request.transactions) [
    | some e ↦ ok (failure e, b)
    | none ↦ do
      cache_key ← generate_cache_key_from_request lib request 0
      (fetched, b') ← fetch_application h b request cache_key oidc
      decide_and_report b' request cache_key fetched
  ]
