-- ===== src/InFlight.antt =====
-- `authRep` of pkg/backend/v1/backend.go with other requests in between. The source holds no lock
-- from one end of a request to the other, so a request is a thread that takes several steps. If the
-- application is cached, they are the read from the cache with `isAuthorized`, and `localReport`. If
-- not, the call of 3scale comes between the read and the answer's entry in the cache, each a step of
-- its own, so other requests may miss and write in the meantime; `isAuthorized` goes with the entry.
pub mod Counting
pub mod Served
pub mod Races
pub mod Tidy
use scale_authorizer.Prelude.{
  String, ℕ, zero, suc, Bool, true, false, Option, none, some, List, [], ◌∷◌, if◌then◌else◌,
  get_elem?,
}
use scale_authorizer.Prelude.Outcome.{Outcome, ok, ◌>>=◌, first}
use scale_authorizer.Api.{Request, AuthorizeResult, Reply, Fallible, success, failure, Metrics}
use scale_authorizer.Counters.{is_authorized}
use scale_authorizer.Key.{generate_cache_key_from_request}
use scale_authorizer.Backend.{
  Host, Backend, validate_transactions, compute_affected_metrics, empty_transaction_from,
  get_empty_auth_request, get_application_from_cache, remote_auth,
}
use scale_authorizer.Backend.Miss.{Fetched, found, answered, verdict, cache_response, after_miss}
use scale_authorizer.Backend.Authorize.{local_report}

-- Where a request stands.
pub data Stage : Type 0 where
  started : Request → Stage
  missed : Request → String → Stage
  replied : Request → String → Reply AuthorizeResult → Stage
  approved : String → Metrics → Stage
  finished : Fallible AuthorizeResult → Stage

module _ {W S Q H : Type 0} (h : Host W S Q H) where
  open h use {lib}

  unfoldable pub check :
      Backend W S Q → Request → String → Fetched → Outcome (Stage × Backend W S Q)
  unfolding compute_affected_metrics is_authorized
  check b request cache_key (answered answer) = ok (finished answer, b)
  check b request cache_key (found app) = do
    affected ← compute_affected_metrics lib app request
    if is_authorized app affected
        then ok (approved cache_key affected, b)
        else ok (finished (success (verdict false)), b)

  unfoldable pub advance : Backend W S Q → Bool → Stage → Outcome (Stage × Backend W S Q)
  unfolding validate_transactions generate_cache_key_from_request get_application_from_cache
      empty_transaction_from get_empty_auth_request remote_auth cache_response after_miss check
      local_report
  advance b oidc (started request) = elim (validate_transactions request.transactions) [
    | some e ↦ ok (finished (failure e), b)
    | none ↦ do
      cache_key ← generate_cache_key_from_request lib request 0
      let (cached, b') = get_application_from_cache h b cache_key
      elim cached [
        | some app ↦ check b' request cache_key (found app)
        | none ↦ ok (missed request cache_key, b')
      ]
  ]
  advance b oidc (missed request cache_key) = do
    transaction ← first request.transactions
    let empty_request =
        get_empty_auth_request lib request.service request.auth
          (empty_transaction_from transaction).params
    let (reply, b') = remote_auth h b empty_request oidc
    ok (replied request cache_key reply, b')
  advance b oidc (replied request cache_key reply) = do
    (miss, b1) ← cache_response h b request cache_key reply
    (fetched, b2) ← after_miss h miss b1
    check b2 request cache_key fetched
  advance b oidc (approved cache_key metrics) =
      ok (finished (success (verdict true)), local_report h b cache_key metrics)
  advance b oidc (finished answer) = ok (finished answer, b)

-- The requests in flight over one backend.
pub record System (W S Q : Type 0) : Type 0 where
  pub backend : Backend W S Q
  pub threads : List Stage

abbrev pub set : ℕ → Stage → List Stage → List Stage
set i stage [] = []
set zero stage (old ∷ rest) = stage ∷ rest
set (suc i) stage (old ∷ rest) = old ∷ set i stage rest

module _ {W S Q H : Type 0} (h : Host W S Q H) (oidc : Bool) where
  -- One step of a thread; a number that names none does nothing.
  unfoldable pub step : System W S Q → ℕ → Outcome (System W S Q)
  unfolding advance
  step s i = elim (get_elem? s.threads i) [
    | none ↦ ok s
    | some stage ↦ do
      (stage', b) ← advance h s.backend oidc stage
      ok (record { backend = b; threads = set i stage' s.threads })
  ]

  -- The threads are picked in the order of the schedule.
  unfoldable pub run : System W S Q → List ℕ → Outcome (System W S Q)
  unfolding step
  run s [] = ok s
  run s (i ∷ schedule) = do s' ← step s i; run s' schedule
