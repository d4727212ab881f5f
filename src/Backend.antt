-- ===== src/Backend.antt =====
-- `Backend` of pkg/backend/v1/backend.go: authorization against the cache, and local reports. A
-- method returns the new backend beside its result; the world that its client, its policy, its
-- logger and its callback act on is a field.
pub mod Miss
pub mod Authorize
pub mod Misses
pub mod Tidy
pub mod Decisions
use Prim.Native.String.{◌++◌}
use scale_authorizer.Prelude.{
  String, ℕ, suc, ℤ, pos, Dict, Bool, true, false, not, Option, none, some, List, [], ◌∷◌,
  if◌then◌else◌, get_elem?, ◌||◌,
}
use scale_authorizer.Prelude.Outcome.{Outcome, ok, panic, ◌>>=◌, deref, first}
use scale_authorizer.Api.{
  Transaction, Request, Params, ClientAuth, AuthorizeResult, Error, Reply, Fallible, success,
  failure, Metrics, Hierarchy, ApiLib,
}
use scale_authorizer.Application.{
  Application, new_application, get_application_from_response, annotate_with_request_details,
}
use scale_authorizer.Counters.{is_authorized, report_metrics}
use scale_authorizer.Key.{generate_cache_key_from_request}
use scale_authorizer.Period.{Zone}
use scale_authorizer.Host.{ConcurrentMap, Deque, Client, Logger, no_op_logger}
use scale_authorizer.LocalCache
use scale_authorizer.Queue

-- The packages and the machine that the program runs on.
pub record Host (W S Q H : Type 0) : Type 0 where
  pub cmap : ConcurrentMap S Application
  pub lane : Deque Q Application
  pub lib : ApiLib
  pub zone : Zone
  pub new_client : String → H → Fallible (Client W)
  pub client_with_timeout : ℕ → H

pub record Backend (W S Q : Type 0) : Type 0 where
  pub client : Client W
  pub cache : S
  pub queue : Q
  pub policy : Option (W → Bool × W)
  pub logger : Option (Logger W)
  pub cache_hit_callback : Option (W → W)
  pub world : W

unfoldable pub fail_open_policy : {W : Type 0} → W → Bool × W
fail_open_policy w = (true, w)

unfoldable pub fail_closed_policy : {W : Type 0} → W → Bool × W
fail_closed_policy w = (false, w)

abbrev pub or_else : {A : Type 0} → Option A → A → A
or_else none a = a
or_else (some b) a = b

-- helpers.go: whether the transactions are missing
unfoldable pub validate_transactions : List Transaction → Option Error
validate_transactions [] =
    some (record { message = "transaction must be non-nil and non-empty"; network = none })
validate_transactions (t ∷ rest) = none

unfoldable pub empty_transaction_from : Transaction → Transaction
empty_transaction_from t = record t { metrics = none }

unfoldable pub get_empty_auth_request : ApiLib → String → ClientAuth → Params → Request
get_empty_auth_request lib service auth params = record {
  auth = auth;
  extensions = (lib.hierarchy_extension, "1") ∷ [];
  service = service;
  transactions = record { metrics = none; params = params; timestamp = pos 0 } ∷ [];
}

unfoldable pub compute_affected_metrics : ApiLib → Application → Request → Outcome Metrics
compute_affected_metrics lib app request = do
  transaction ← first request.transactions
  ok (lib.add_hierarchy_to_metrics transaction.metrics app.metric_hierarchy)

module _ {W S Q H : Type 0} (h : Host W S Q H) where
  open h use {cmap, lane, lib, zone, new_client, client_with_timeout}

  -- The logger that is passed in is given a default and then left out of the backend.
  unfoldable pub new_backend :
      String → Option H → Option (Logger W) → Option (W → Bool × W) → W → Fallible (Backend W S Q)
  unfolding fail_closed_policy LocalCache.new_local_cache Queue.new_queue
  new_backend url client logger policy world =
      let defaulted : Logger W = or_else logger no_op_logger in
      elim (new_client url (or_else client (client_with_timeout 10))) [
        | failure e ↦ failure e
        | success threescale_client ↦ success (record {
          client = threescale_client;
          cache = LocalCache.new_local_cache cmap;
          queue = Queue.new_queue lane 100;
          policy = some (or_else policy fail_closed_policy);
          logger = none;
          cache_hit_callback = some (λ w. w);
          world = world;
        })
      ]

  unfoldable pub set_cache_hit_callback : Backend W S Q → Option (W → W) → Backend W S Q
  set_cache_hit_callback b f = record b { cache_hit_callback = f }

  unfoldable pub call_back : Backend W S Q → Backend W S Q
  call_back b = elim b.cache_hit_callback [ none ↦ b | some f ↦ record b { world = f b.world } ]

  unfoldable pub get_application_from_cache :
      Backend W S Q → String → Option Application × Backend W S Q
  unfolding LocalCache.get call_back
  get_application_from_cache b key = elim (LocalCache.get cmap b.cache key) [
    | none ↦ (none, b)
    | some app ↦ (some app, call_back b)
  ]

  unfoldable pub remote_auth :
      Backend W S Q → Request → Bool → Reply AuthorizeResult × Backend W S Q
  remote_auth b request oidc =
      let (reply, world) =
        (if oidc
          then b.client.oauth_authorize request b.world
          else b.client.authorize request b.world) in
      (reply, record b { world = world })

  unfoldable pub set_in_cache : Backend W S Q → String → Application → Backend W S Q
  unfolding LocalCache.set
  set_in_cache b key app = record b { cache = LocalCache.set cmap b.cache key app }
