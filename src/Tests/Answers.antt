-- ===== src/Tests/Answers.antt =====
-- Witnesses for the answers of the manager.
use scale_authorizer.Prelude.{
  String, ℕ, suc, Option, Dict, true, false, some, none, [], ◌∷◌, ◌≡◌, refl, pos, ◌==◌, ◌&&◌,
  if◌then◌else◌,
}
use scale_authorizer.Prelude.Map.{get}
use scale_authorizer.Prelude.Outcome.{ok}
use scale_authorizer.Api.{success, Fallible}
use scale_authorizer.Application.{Application}
use scale_authorizer.Counters.{is_authorized, report_metrics}
use scale_authorizer.Key.{get_app_id_from_transaction, join_key}
use scale_authorizer.Backend.{Backend}
use scale_authorizer.Backend.Decisions.{key_of, affected}
use scale_authorizer.Manager.{CacheKind}
use scale_authorizer.Manager.AuthRep.{
  BackendTransaction, BackendRequest, RemoteClient, Authorizer, manager_auth_rep,
}
use scale_authorizer.Manager.Answers.{api_transaction, api_request, decided, manager_auth_rep_hit}
use scale_authorizer.Tests.World.{
  lib, cmap-IsConcurrentMap, Items, app, answer, timed_out, host, backend, logger,
}

abbrev client : RemoteClient ℕ
client = record {
  auth_rep = λ r w. (record { result = some (answer true); error = none }, w);
  oauth_auth_rep = λ r w. (record { result = some (answer true); error = none }, w);
}

abbrev build : String → Fallible (RemoteClient ℕ)
build url = success client

abbrev call : BackendTransaction
call = record {
  metrics = some (("hits", pos 2) ∷ []);
  params = record { app_id = "app"; app_key = ""; user_id = ""; user_key = "" };
}

abbrev calls : BackendRequest
calls = record {
  auth = record { auth_type = "service_token"; value = "token" };
  service = "svc";
  transactions = call ∷ [];
}

abbrev warm : Backend ℕ (Dict Application) Items
warm = backend (record { result = none; error = some timed_out }) none (("svc_app", app) ∷ []) []

abbrev authorizer :
    Option (CacheKind → ℕ → ℕ)
    → Dict (Backend ℕ (Dict Application) Items)
    → Authorizer ℕ (Dict Application) Items
authorizer cb backends = record {
  enable_caching = true;
  logger = some logger;
  policy = none;
  cache_flush_interval = pos 15;
  cached_backends = backends;
  cache_hit_cb = cb;
}

abbrev counts : Option (CacheKind → ℕ → ℕ)
counts = some (λ kind w. suc w)

known :
    get "https://su1" (authorizer counts (("https://su1", warm) ∷ [])).cached_backends ≡ some warm
unfolding get
known = refl

in_cache :
    get (key_of host (api_request lib calls call) (api_transaction call)) warm.cache ≡ some app
unfolding get join_key get_app_id_from_transaction
in_cache = refl

manager_auth_rep_hit_example :
    (b' : Backend ℕ (Dict Application) Items) × (m' : Authorizer ℕ (Dict Application) Items)
    × (manager_auth_rep host build tt
          (authorizer counts (("https://su1", warm) ∷ []))
          "https://su1"
          calls
          false
          0
        ≡ ok (
          decided (is_authorized app (affected host app (api_transaction call))),
          (m', b'.world),
        ))
    × ((j : String)
        → get j m'.cached_backends
          ≡ (if "https://su1" == j then some b' else get j (("https://su1", warm) ∷ [])))
    × ((j : String)
        → get j b'.cache ≡ (
            if is_authorized app (affected host app (api_transaction call))
              && key_of host (api_request lib calls call) (api_transaction call) == j
            then some (report_metrics app (affected host app (api_transaction call)))
            else get j warm.cache))
manager_auth_rep_hit_example =
    manager_auth_rep_hit host build tt (authorizer counts (("https://su1", warm) ∷ []))
      "https://su1" warm calls call [] false 0 app (λ kind w. suc w) refl refl known refl
      cmap-IsConcurrentMap in_cache
