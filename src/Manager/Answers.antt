-- ===== src/Manager/Answers.antt =====
-- What `AuthRep` of `Manager` answers.
use scale_authorizer.Prelude.{
  String, pos, ◌≤ℤ◌, Bool, true, false, none, some, List, [], ◌∷◌, ◌≡◌, refl, arith, ◌∙◌, ◌==◌,
  ◌&&◌, if◌then◌else◌, inl, inr,
}
use scale_authorizer.Prelude.Map.{get, put, get-put}
use scale_authorizer.Prelude.Outcome.{Outcome-cases, ok, panic, ◌>>=◌}
use scale_authorizer.Api.{Transaction, Request, ApiLib, Fallible, success, failure, Error}
use scale_authorizer.Application.{Application}
use scale_authorizer.Counters.{is_authorized, report_metrics}
use scale_authorizer.LocalCache
use scale_authorizer.Host.{Client, IsConcurrentMap, new_ticker}
use scale_authorizer.Backend.{Host, Backend, new_backend}
use scale_authorizer.Backend.Miss.{verdict}
use scale_authorizer.Backend.Authorize.{auth_rep}
use scale_authorizer.Backend.Decisions.{key_of, affected, after_hit, auth_rep_hit}
use scale_authorizer.Manager.{CacheKind}
use scale_authorizer.Manager.AuthRep.{
  BackendTransaction, BackendRequest, Answer, RemoteClient, Authorizer, to_api_request, answer_of,
  reply_of, passthrough_auth_rep, new_cached_backend, guarded_auth_rep, auth_rep_by,
  cached_auth_rep, manager_auth_rep,
}

-- A transaction of the manager as one of the client library.
abbrev pub api_transaction : BackendTransaction → Transaction
api_transaction t = record {
  metrics = t.metrics;
  params = record {
    app_id = t.params.app_id;
    app_key = t.params.app_key;
    user_id = t.params.user_id;
    user_key = t.params.user_key;
  };
  timestamp = pos 0;
}

abbrev pub api_request : ApiLib → BackendRequest → BackendTransaction → Request
api_request lib request t = record {
  auth = record { auth_type = request.auth.auth_type; value = request.auth.value };
  extensions = (lib.rejection_reason_header, "1") ∷ [];
  service = request.service;
  transactions = api_transaction t ∷ [];
}

-- The answer to a request on which the limits decide.
abbrev pub decided : Bool → Answer
decided authorized = record {
  response = some (record {
    authorized = authorized;
    error_code = if authorized then "" else "limits_exceeded";
    rejected_reason = "";
    raw_response = none;
  });
  error = none;
}

answer_of-verdict : (v : Bool) → answer_of (reply_of (success (verdict v))) ≡ ok (decided v)
unfolding answer_of
answer_of-verdict v = refl

module _ {W S Q H : Type 0} (h : Host W S Q H)
    (build_backend_client : String → Fallible (RemoteClient W)) (http_client : H) where
  open h use {cmap, lib}

  auth_rep_by_lem :
      (m : Authorizer W S Q) (url : String) (b b' : Backend W S Q) (request : BackendRequest)
      (t : BackendTransaction) (rest : List BackendTransaction) (oidc : Bool) (world : W) (v : Bool)
      (cb : CacheKind → W → W)
      → m.cache_hit_cb ≡ some cb
      → request.transactions ≡ t ∷ rest
      → auth_rep h (record b { world = world }) (api_request lib request t) oidc
        ≡ ok (success (verdict v), b')
      → auth_rep_by h build_backend_client http_client m url b request oidc world
        ≡ ok (decided v, (record m { cached_backends = put url b' m.cached_backends }, b'.world))
  unfolding auth_rep_by to_api_request answer_of guarded_auth_rep
  auth_rep_by_lem m url b b' request t rest oidc world v cb calls first e =
      rw (first, calls, e) refl

  known_backend :
      (m : Authorizer W S Q) (url : String) (b : Backend W S Q) (request : BackendRequest)
      (oidc : Bool) (world : W)
      → m.enable_caching ≡ true
      → get url m.cached_backends ≡ some b
      → manager_auth_rep h build_backend_client http_client m url request oidc world
        ≡ auth_rep_by h build_backend_client http_client m url b request oidc world
  unfolding manager_auth_rep cached_auth_rep
  known_backend m url b request oidc world caching known = ground arith

  unbuilt_backend :
      (m : Authorizer W S Q) (url : String) (request : BackendRequest) (oidc : Bool) (world : W)
      (e : Error)
      → m.enable_caching ≡ true
      → get url m.cached_backends ≡ none
      → h.new_client url http_client ≡ failure e
      → manager_auth_rep h build_backend_client http_client m url request oidc world ≡ (
          passthrough_auth_rep h build_backend_client http_client url request oidc world >>= λ r.
          ok (r.0, (m, r.1)))
  unfolding manager_auth_rep cached_auth_rep new_cached_backend new_backend
  unbuilt_backend m url request oidc world e caching unknown failed = ground arith

  -- With caching and a callback for cache hits, and for a backend that has the application of the request's first transaction in
  -- its cache: the cached limits decide the answer, whatever 3scale would say. If they allow the
  -- request, the cached application takes its hits. Nothing else changes in the cache of that
  -- backend, and the other backends stay as they are.
  pub manager_auth_rep_hit :
      (m : Authorizer W S Q) (url : String) (b : Backend W S Q) (request : BackendRequest)
      (t : BackendTransaction) (rest : List BackendTransaction) (oidc : Bool) (world : W)
      (app : Application) (cb : CacheKind → W → W)
      → m.enable_caching ≡ true
      → m.cache_hit_cb ≡ some cb
      → get url m.cached_backends ≡ some b
      → request.transactions ≡ t ∷ rest
      → IsConcurrentMap cmap
      → cmap.get b.cache (key_of h (api_request lib request t) (api_transaction t)) ≡ some app
      → (b' : Backend W S Q) × (m' : Authorizer W S Q) × (manager_auth_rep h build_backend_client
            http_client m url request oidc world
          ≡ ok (decided (is_authorized app (affected h app (api_transaction t))), (m', b'.world)))
        × ((j : String)
            → get j m'.cached_backends ≡ (if url == j then some b' else get j m.cached_backends))
        × ((j : String)
            → cmap.get b'.cache j ≡ (
                if is_authorized app (affected h app (api_transaction t))
                  && key_of h (api_request lib request t) (api_transaction t) == j
                then some (report_metrics app (affected h app (api_transaction t)))
                else cmap.get b.cache j))
  manager_auth_rep_hit m url b request t rest oidc world app cb caching calls known first laws e =
      let req = api_request lib request t in
      let b0 : Backend W S Q = record b { world = world } in
      let (replied, cached) = auth_rep_hit h b0 req (api_transaction t) [] refl oidc app laws e in
      let b' = after_hit h b0 req (api_transaction t) [] refl app in
      (
        b',
        record m { cached_backends = put url b' m.cached_backends },
        known_backend m url b request oidc world caching known
            ∙ auth_rep_by_lem m url b b' request t rest oidc world
                (is_authorized app (affected h app (api_transaction t))) cb calls first replied,
        λ j. get-put url j b' m.cached_backends,
        cached,
      )

  -- If caching is on and the backend of an unknown URL cannot be built, the request is answered as
  -- without caching, and the manager stays as it is.
  pub manager_auth_rep_unbuilt :
      (m : Authorizer W S Q) (url : String) (request : BackendRequest) (oidc : Bool) (world : W)
      (e : Error)
      → m.enable_caching ≡ true
      → get url m.cached_backends ≡ none
      → h.new_client url http_client ≡ failure e
      → manager_auth_rep h build_backend_client http_client m url request oidc world ≡ (
          manager_auth_rep h build_backend_client http_client
            (record m { enable_caching = false })
            url
            request
            oidc
            world
          >>= λ r. ok (r.0, (m, r.1.1)))
  unfolding manager_auth_rep
  manager_auth_rep_unbuilt m url request oidc world e caching unknown failed =
      unbuilt_backend m url request oidc world e caching unknown failed
      ∙ elim (Outcome-cases
          (passthrough_auth_rep h build_backend_client http_client url request oidc world)) [
            | inl p ↦ rw p refl
            | inr (r, p) ↦ rw p refl
          ]

  -- If caching is on without a positive interval for the flushes, the first request for a URL whose
  -- backend can be built panics.
  pub manager_auth_rep_unticked :
      (m : Authorizer W S Q) (url : String) (client : Client W) (request : BackendRequest)
      (oidc : Bool) (world : W)
      → m.enable_caching ≡ true
      → get url m.cached_backends ≡ none
      → h.new_client url http_client ≡ success client
      → m.cache_flush_interval ≤ℤ pos 0
      → manager_auth_rep h build_backend_client http_client m url request oidc world ≡ panic
  unfolding manager_auth_rep cached_auth_rep new_cached_backend new_backend new_ticker
  manager_auth_rep_unticked m url client request oidc world caching unknown built still =
      ground arith
