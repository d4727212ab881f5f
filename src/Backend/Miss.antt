-- ===== src/Backend/Miss.antt =====
-- `handleCacheMiss` and the failure policy of pkg/backend/v1/backend.go: how a request comes by its
-- application.
use Prim.Native.String.{◌++◌}
use scale_authorizer.Prelude.{
  String, Bool, true, false, not, Option, none, some, if◌then◌else◌, ◌||◌,
}
use scale_authorizer.Prelude.Outcome.{Outcome, ok, ◌>>=◌, deref, first}
use scale_authorizer.Api.{Request, AuthorizeResult, Error, Reply, Fallible, success, failure}
use scale_authorizer.Application.{
  Application, get_application_from_response, annotate_with_request_details,
}
use scale_authorizer.Backend.{
  Host, Backend, empty_transaction_from, get_empty_auth_request, get_application_from_cache,
  remote_auth, set_in_cache,
}

-- The results of `handleCacheMiss`; `none` is nil.
pub record Miss : Type 0 where
  pub app : Option Application
  pub response : Option AuthorizeResult
  pub error : Option Error

abbrev pub verdict : Bool → AuthorizeResult
verdict authorized = record {
  authorized = authorized;
  error_code = if authorized then "" else "limits_exceeded";
  rejection_reason = "";
  usage_reports = none;
  hierarchy = none;
  raw_response = none;
}

-- An application to decide on, or the answer that ends the request.
pub data Fetched : Type 0 where
  found : Application → Fetched
  answered : Fallible AuthorizeResult → Fetched

module _ {W S Q H : Type 0} (h : Host W S Q H) where
  open h use {cmap, lane, lib, zone}

  -- What `handleCacheMiss` does with the answer of 3scale.
  unfoldable pub cache_response :
      Backend W S Q → Request → String → Reply AuthorizeResult → Outcome (Miss × Backend W S Q)
  unfolding get_application_from_response annotate_with_request_details set_in_cache
  cache_response b request cache_key reply = elim reply.error [
    | some e ↦ ok (record { app = none; response = none; error = some e }, b)
    | none ↦ do
      resp ← deref reply.result
      if not resp.authorized
          then ok (record { app = none; response = some resp; error = none }, b)
          else do
            app ← get_application_from_response lib resp
            let app' = annotate_with_request_details lib app request
            ok (
              record { app = some app'; response = some resp; error = none },
              set_in_cache h b cache_key app',
            )
  ]

  unfoldable pub handle_cache_miss :
      Backend W S Q → Request → String → Bool → Outcome (Miss × Backend W S Q)
  unfolding empty_transaction_from get_empty_auth_request remote_auth cache_response
  handle_cache_miss b request cache_key oidc = do
    transaction ← first request.transactions
    let empty_request =
        get_empty_auth_request lib request.service request.auth
          (empty_transaction_from transaction).params
    let (reply, b') = remote_auth h b empty_request oidc
    cache_response b' request cache_key reply

  -- The policy is asked only about network errors that are temporary or timeouts.
  unfoldable pub apply_policy : Backend W S Q → Error → Bool × Backend W S Q
  apply_policy b err = elim err.network [
    | none ↦ (false, b)
    | some net ↦
        if net.temporary || net.timeout
        then (elim b.policy [
          | none ↦ (false, b)
          | some policy ↦ let (allow, world) = policy b.world in (allow, record b { world = world })
        ])
        else (false, b)
  ]

  unfoldable pub handle_authorization_network_error :
      Backend W S Q → Error → Fallible AuthorizeResult × Backend W S Q
  unfolding apply_policy
  handle_authorization_network_error b err =
      let (allow, b') = apply_policy b err in
      if not allow
      then (
        failure
            (record { message = "unable to process request - " ++ err.message; network = none }),
        b',
      )
      else (success (verdict true), b')

  -- What `authorize` and `authRep` do with the results of `handleCacheMiss`.
  unfoldable pub after_miss : Miss → Backend W S Q → Outcome (Fetched × Backend W S Q)
  unfolding handle_authorization_network_error
  after_miss miss b = elim miss.error [
    | some e ↦ let (answer, b') = handle_authorization_network_error b e in ok (answered answer, b')
    | none ↦ do
      response ← deref miss.response
      if not response.authorized
          then ok (answered (success response), b)
          else do app ← deref miss.app; ok (found app, b)
  ]

  -- The lines that `authorize` and `authRep` share, up to `computeAffectedMetrics`.
  unfoldable pub fetch_application :
      Backend W S Q → Request → String → Bool → Outcome (Fetched × Backend W S Q)
  unfolding get_application_from_cache handle_cache_miss after_miss
  fetch_application b request cache_key oidc =
      let (cached, b1) = get_application_from_cache h b cache_key in
      elim cached [
        | some app ↦ ok (found app, b1)
        | none ↦ do (miss, b2) ← handle_cache_miss b1 request cache_key oidc; after_miss miss b2
      ]
