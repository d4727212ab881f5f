-- ===== src/Manager/AuthRep.antt =====
-- `AuthRep` of `Manager` (pkg/authorizer/authorizer.go): by a cached backend, or straight by a client.
use Prim.Native.String.{◌++◌ as str_append}
use scale_authorizer.Prelude.{
  String, ℕ, ℤ, pos, Dict, Bool, true, false, Option, none, some, List, [], ◌∷◌, if◌then◌else◌,
}
use scale_authorizer.Prelude.Map.{get, put}
use scale_authorizer.Prelude.Outcome.{Outcome, ok, panic, ◌>>=◌, deref}
use scale_authorizer.Api.{
  Metrics, Request, AuthorizeResult, Error, Reply, Fallible, success, failure, ApiLib,
}
use scale_authorizer.Counters.{is_authorized}
use scale_authorizer.Key.{generate_cache_key_from_request}
use scale_authorizer.Host.{Logger, new_ticker}
use scale_authorizer.LocalCache
use scale_authorizer.Backend.{
  Host, Backend, compute_affected_metrics, new_backend, set_cache_hit_callback,
}
use scale_authorizer.Backend.Miss.{found, answered, fetch_application}
use scale_authorizer.Backend.Authorize.{auth_rep}
use scale_authorizer.Manager.{CacheKind, backend, wrapped}

pub record BackendAuth : Type 0 where
  pub auth_type : String
  pub value : String

pub record BackendParams : Type 0 where
  pub app_id : String
  pub app_key : String
  pub user_id : String
  pub user_key : String

pub record BackendTransaction : Type 0 where
  pub metrics : Option Metrics
  pub params : BackendParams

pub record BackendRequest : Type 0 where
  pub auth : BackendAuth
  pub service : String
  pub transactions : List BackendTransaction

pub record BackendResponse : Type 0 where
  pub authorized : Bool
  pub error_code : String
  pub rejected_reason : String
  pub raw_response : Option ℕ

-- `(*BackendResponse, error)`
pub record Answer : Type 0 where
  pub response : Option BackendResponse
  pub error : Option Error

-- The client of 3scale-go-client that the builder makes, as far as `authRep` calls it.
pub record RemoteClient (W : Type 0) : Type 0 where
  pub auth_rep : Request → W → Reply AuthorizeResult × W
  pub oauth_auth_rep : Request → W → Reply AuthorizeResult × W

-- Only the first transaction is passed on.
unfoldable pub to_api_request : ApiLib → BackendRequest → Fallible Request
to_api_request lib request = elim request.transactions [
  | [] ↦ failure (record { message = "cannot process emtpy transaction"; network = none })
  | transaction ∷ rest ↦ success (record {
    auth = record { auth_type = request.auth.auth_type; value = request.auth.value };
    extensions = (lib.rejection_reason_header, "1") ∷ [];
    service = request.service;
    transactions =
        record {
          metrics = transaction.metrics;
          params = record {
            app_id = transaction.params.app_id;
            app_key = transaction.params.app_key;
            user_id = transaction.params.user_id;
            user_key = transaction.params.user_key;
          };
          timestamp = pos 0;
        }
        ∷ [];
  })
]

-- The part of `Manager` that AuthRep reads. The backends of the map are pointers: what a call
-- changes stays in the map.
pub record Authorizer (W S Q : Type 0) : Type 0 where
  pub enable_caching : Bool
  pub logger : Option (Logger W)
  pub policy : Option (W → Bool × W)
  pub cache_flush_interval : ℤ
  pub cached_backends : Dict (Backend W S Q)
  pub cache_hit_cb : Option (CacheKind → W → W)

-- What `authRep` makes of the results of its client.
unfoldable pub answer_of : Reply AuthorizeResult → Outcome Answer
answer_of reply = elim reply.error [
  | some e ↦ ok (record {
    response = some (record {
      authorized = false;
      error_code = "";
      rejected_reason = "";
      raw_response = elim reply.result [ none ↦ none | some res ↦ res.raw_response ];
    });
    error = some (wrapped "error calling AuthRep - " e);
  })
  | none ↦ do
    res ← deref reply.result
    ok (record {
      response = some (record {
        authorized = res.authorized;
        error_code = res.error_code;
        rejected_reason = res.rejection_reason;
        raw_response = res.raw_response;
      });
      error = none;
    })
]

-- (*threescale.AuthorizeResult, error) of a backend, which has no result beside an error.
abbrev pub reply_of : Fallible AuthorizeResult → Reply AuthorizeResult
reply_of (success result) = record { result = some result; error = none }
reply_of (failure e) = record { result = none; error = some e }

abbrev pub refused : Error → Answer
refused e = record { response = none; error = some e }

module _ {W S Q H : Type 0} (h : Host W S Q H)
    (build_backend_client : String → Fallible (RemoteClient W)) (http_client : H) where
  open h use {cmap, lib}

  unfoldable pub passthrough_auth_rep : String → BackendRequest → Bool → W → Outcome (Answer × W)
  unfolding to_api_request answer_of
  passthrough_auth_rep backend_url request oidc world = elim (build_backend_client backend_url) [
    | failure e ↦
        ok (refused (wrapped "unable to build required client for 3scale backend - " e), world)
    | success client ↦ elim (to_api_request lib request) [
      | failure e ↦ ok (refused (wrapped "unable to build request to 3scale - " e), world)
      | success req ↦
          let (reply, world') =
            (if oidc then client.oauth_auth_rep req world else client.auth_rep req world) in
          do answer ← answer_of reply; ok (answer, world')
    ]
  ]

  -- Whether `authRep` of a backend comes to call its callback for cache hits: if the application is
  -- cached, and if it is learned and authorizes the request, since `localReport` reads it from the
  -- cache.
  unfoldable pub calls_back : Backend W S Q → Request → Bool → Outcome Bool
  unfolding generate_cache_key_from_request LocalCache.get fetch_application
      compute_affected_metrics is_authorized
  calls_back b req oidc = do
    cache_key ← generate_cache_key_from_request lib req 0
    elim (LocalCache.get cmap b.cache cache_key) [
      | some app ↦ ok true
      | none ↦ do
        (fetched, b') ← fetch_application h b req cache_key oidc
        elim fetched [
          | answered answer ↦ ok false
          | found app ↦ do
            affected ← compute_affected_metrics lib app req
            ok (is_authorized app affected)
        ]
    ]

  -- The callback of a cached backend calls `CacheHitCB` of the reporter without a look at it, so it
  -- panics where that is nil.
  unfoldable pub guarded_auth_rep :
      Option (CacheKind → W → W)
      → Backend W S Q
      → Request
      → Bool
      → Outcome (Fallible AuthorizeResult × Backend W S Q)
  unfolding calls_back auth_rep
  guarded_auth_rep (some cb) b req oidc = auth_rep h b req oidc
  guarded_auth_rep none b req oidc = do
    called ← calls_back b req oidc
    if called then panic else auth_rep h b req oidc

  -- The callback of a new backend; where there is none, `guarded_auth_rep` panics at its call.
  abbrev pub callback_of : Option (CacheKind → W → W) → W → W
  callback_of none world = world
  callback_of (some cb) world = cb backend world

  -- The process that flushes the new backend is `flush_process` of Flush/Process.antt. The logger is
  -- called whether it is there or not.
  unfoldable pub new_cached_backend :
      Authorizer W S Q → String → W → Outcome (Fallible (Backend W S Q) × W)
  unfolding new_backend set_cache_hit_callback new_ticker
  new_cached_backend m url world =
      elim (new_backend h url (some http_client) m.logger m.policy world) [
        | failure e ↦ ok (failure e, world)
        | success b ↦ do
          ticker ← new_ticker m.cache_flush_interval
          logger ← deref m.logger
          ok (
            success (set_cache_hit_callback h b (some (callback_of m.cache_hit_cb))),
            logger.infof (str_append "created new cached backend for " url) world,
          )
      ]

  -- `authRep` with a backend of the map as its client.
  unfoldable pub auth_rep_by :
      Authorizer W S Q
      → String
      → Backend W S Q
      → BackendRequest
      → Bool
      → W
      → Outcome (Answer × (Authorizer W S Q × W))
  unfolding to_api_request answer_of guarded_auth_rep
  auth_rep_by m backend_url b request oidc world = elim (to_api_request lib request) [
    | failure e ↦ ok (
      refused (wrapped "unable to build request to 3scale - " e),
      (record m { cached_backends = put backend_url b m.cached_backends }, world),
    )
    | success req ↦ do
      (result, b') ← guarded_auth_rep m.cache_hit_cb (record b { world = world }) req oidc
      answer ← answer_of (reply_of result)
      ok (answer, (record m { cached_backends = put backend_url b' m.cached_backends }, b'.world))
  ]

  unfoldable pub cached_auth_rep :
      Authorizer W S Q
      → String
      → BackendRequest
      → Bool
      → W
      → Outcome (Answer × (Authorizer W S Q × W))
  unfolding passthrough_auth_rep new_cached_backend auth_rep_by
  cached_auth_rep m backend_url request oidc world = elim (get backend_url m.cached_backends) [
    | some b ↦ auth_rep_by m backend_url b request oidc world
    | none ↦ do
      (created, world1) ← new_cached_backend m backend_url world
      elim created [
        | success b ↦ auth_rep_by m backend_url b request oidc world1
        | failure e ↦ do
          (answer, world2) ← passthrough_auth_rep backend_url request oidc world1
          ok (answer, (m, world2))
      ]
  ]

  -- `AuthRep`, and `OauthAuthRep` with the flag set.
  unfoldable pub manager_auth_rep :
      Authorizer W S Q
      → String
      → BackendRequest
      → Bool
      → W
      → Outcome (Answer × (Authorizer W S Q × W))
  unfolding passthrough_auth_rep cached_auth_rep
  manager_auth_rep m backend_url request oidc world =
      if m.enable_caching then cached_auth_rep m backend_url request oidc world else (do
        (answer, world') ← passthrough_auth_rep backend_url request oidc world
        ok (answer, (m, world')))
