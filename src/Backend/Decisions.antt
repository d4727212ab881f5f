-- ===== src/Backend/Decisions.antt =====
-- What `authRep` answers and caches, on every path to its application.
use scale_authorizer.Prelude.{
  String, Bool, some, List, ◌∷◌, ◌≡◌, arith, ◌==◌, ◌&&◌, if◌then◌else◌, ◌∙◌,
}
use scale_authorizer.Prelude.Outcome.{ok}
use scale_authorizer.Api.{Transaction, Request, success, Metrics}
use scale_authorizer.Application.{Application}
use scale_authorizer.Counters.{is_authorized, report_metrics}
use scale_authorizer.Key.{join_key, get_app_id_from_transaction, generate_cache_key_from_request}
use scale_authorizer.Host.{IsConcurrentMap}
use scale_authorizer.LocalCache
use scale_authorizer.Backend.{
  Host, Backend, validate_transactions, get_empty_auth_request, compute_affected_metrics, call_back,
  get_application_from_cache, set_in_cache,
}
use scale_authorizer.Backend.Miss.{Fetched, found, verdict, fetch_application}
use scale_authorizer.Backend.Authorize.{
  local_report, decide, decide_and_report, authorize, auth_rep,
}

module _ {W S Q H : Type 0} (h : Host W S Q H) where
  open h use {cmap, lib}

  -- The key of the first transaction of a request.
  abbrev pub key_of : Request → Transaction → String
  key_of request t = join_key (lib.get_service_id request) (get_app_id_from_transaction t)

  -- The request that the program sends to learn the state of an application.
  abbrev pub blank : Request → Transaction → Request
  blank request t = get_empty_auth_request lib request.service request.auth t.params

  -- The increments of the first transaction.
  abbrev pub affected : Application → Transaction → Metrics
  affected app t = lib.add_hierarchy_to_metrics t.metrics app.metric_hierarchy

  module _ (b : Backend W S Q) (request : Request) (t : Transaction) (rest : List Transaction)
      (first : request.transactions ≡ t ∷ rest) where
    pub fetch_hit :
        (oidc : Bool) (app : Application)
        → cmap.get b.cache (key_of request t) ≡ some app
        → fetch_application h b request (key_of request t) oidc ≡ ok (found app, call_back h b)
    unfolding fetch_application get_application_from_cache LocalCache.get
    fetch_hit oidc app e = ground arith

    pub auth_rep_fetched :
        (oidc : Bool) (fetched : Fetched) (b' : Backend W S Q)
        → fetch_application h b request (key_of request t) oidc ≡ ok (fetched, b')
        → auth_rep h b request oidc ≡ decide_and_report h b' request (key_of request t) fetched
    unfolding auth_rep validate_transactions generate_cache_key_from_request
    auth_rep_fetched oidc fetched b' e = ground arith

    pub authorize_fetched :
        (oidc : Bool) (fetched : Fetched) (b' : Backend W S Q)
        → fetch_application h b request (key_of request t) oidc ≡ ok (fetched, b')
        → authorize h b request oidc ≡ decide h b' request fetched
    unfolding authorize validate_transactions generate_cache_key_from_request
    authorize_fetched oidc fetched b' e = ground arith

    -- The backend after a decision on an application.
    abbrev pub settled : String → Application → Backend W S Q
    settled key app =
        if is_authorized app (affected app t) then local_report h b key (affected app t) else b

    pub decide_and_report_found :
        (key : String) (app : Application)
        → decide_and_report h b request key (found app)
          ≡ ok (success (verdict (is_authorized app (affected app t))), settled key app)
    unfolding decide_and_report compute_affected_metrics
    decide_and_report_found key app = ground arith

    pub decide_found :
        (app : Application)
        → decide h b request (found app)
          ≡ ok (success (verdict (is_authorized app (affected app t))), b)
    unfolding decide compute_affected_metrics
    decide_found app = ground arith

  -- A report to the cache changes one entry, if there is one.
  pub cache-local_report :
      (b : Backend W S Q) (key : String) (m : Metrics) (app : Application)
      → IsConcurrentMap cmap
      → cmap.get b.cache key ≡ some app
      → (j : String)
      → cmap.get (local_report h b key m).cache j
        ≡ (if key == j then some (report_metrics app m) else cmap.get b.cache j)
  unfolding local_report get_application_from_cache LocalCache.get set_in_cache call_back
  cache-local_report b key m app laws e j =
      ground (arith, laws.get-set b.cache key j (report_metrics app m))

  pub cache-call_back : (b : Backend W S Q) → (call_back h b).cache ≡ b.cache
  unfolding call_back
  cache-call_back b = ground arith

  module _ (b : Backend W S Q) (request : Request) (t : Transaction) (rest : List Transaction)
      (first : request.transactions ≡ t ∷ rest) where
    -- The backend after a request for a cached application.
    abbrev pub after_hit : Application → Backend W S Q
    after_hit = settled (call_back h b) request t rest first (key_of request t)

    -- On a cached application the answer is the verdict of `isAuthorized`, whatever 3scale would
    -- say. If it is positive the cached application takes the increments; nothing else changes in
    -- the cache.
    pub auth_rep_hit :
        (oidc : Bool) (app : Application)
        → IsConcurrentMap cmap
        → cmap.get b.cache (key_of request t) ≡ some app
        → (auth_rep h b request oidc
            ≡ ok (success (verdict (is_authorized app (affected app t))), after_hit app))
          × ((j : String)
              → cmap.get (after_hit app).cache j ≡ (
                  if is_authorized app (affected app t) && key_of request t == j
                  then some (report_metrics app (affected app t))
                  else cmap.get b.cache j))
    auth_rep_hit oidc app laws e =
        let c = call_back h b in
        (
          auth_rep_fetched b request t rest first oidc (found app) c
                (fetch_hit b request t rest first oidc app e)
              ∙ decide_and_report_found c request t rest first (key_of request t) app,
          λ j. ground (
            arith,
            cache-call_back b,
            cache-local_report c (key_of request t) (affected app t) app laws (rw cache-call_back e)
                j,
          ),
        )

    -- `authorize` on a cached application gives the same verdict, and leaves the cache as it is.
    pub authorize_hit :
        (oidc : Bool) (app : Application)
        → cmap.get b.cache (key_of request t) ≡ some app
        → (authorize h b request oidc
            ≡ ok (success (verdict (is_authorized app (affected app t))), call_back h b))
          × ((call_back h b).cache ≡ b.cache)
    authorize_hit oidc app e =
        let c = call_back h b in
        (
          authorize_fetched b request t rest first oidc (found app) c
                (fetch_hit b request t rest first oidc app e)
              ∙ decide_found c request t rest first app,
          cache-call_back b,
        )
