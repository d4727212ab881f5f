-- ===== src/Tests/Managers.antt =====
-- Witnesses for the start and the end of a manager.
use scale_authorizer.Prelude.{ℕ, pos, Dict, true, false, none, some, [], ◌∷◌, ◌≡◌, ◌↔◌, refl, arith}
use scale_authorizer.Prelude.Map.{get}
use scale_authorizer.Prelude.Outcome.{ok, panic, ◌>>=◌}
use scale_authorizer.Api.{AuthorizeResult, Reply, success}
use scale_authorizer.Application.{Application}
use scale_authorizer.Manager.{SystemCache}
use scale_authorizer.Manager.AuthRep.{
  BackendTransaction, BackendRequest, RemoteClient, Authorizer, manager_auth_rep,
}
use scale_authorizer.Manager.Answers.{manager_auth_rep_unticked}
use scale_authorizer.Manager.Lifecycle.{Built, http_transport, no_reporter, shutdown}
use scale_authorizer.Manager.Lifecycle.Closing.{Closes, shutdown_iff}
use scale_authorizer.Tests.World.{Items, answer, client, host}

abbrev no_cache : SystemCache (Unit {0})
no_cache = record {
  configuration_cache = none;
  config = record {
    max_size = pos 1;
    num_retry_failed_refresh = pos 1;
    refresh_interval = pos 1;
    ttl = pos 1;
  };
  stop_refreshing_task = some 1;
}

abbrev manager : Built (Unit {0}) ℕ (Unit {0})
manager = record {
  transport = http_transport tt;
  system_cache = some no_cache;
  backend_conf = record {
    enable_caching = true;
    cache_flush_interval = pos 0;
    logger = none;
    policy = none;
  };
  stop_flush = 2;
  metrics_reporter = no_reporter;
}

shutdown_iff_example :
    ((shutdown (3 ∷ []) manager ≡ ok (1 ∷ 2 ∷ 3 ∷ [])) ↔ Closes (3 ∷ []) manager (1 ∷ 2 ∷ 3 ∷ []))
    × ((shutdown (3 ∷ []) manager >>= λ again. shutdown again manager) ≡ panic)
shutdown_iff_example = shutdown_iff (3 ∷ []) (1 ∷ 2 ∷ 3 ∷ []) manager

abbrev known : Reply AuthorizeResult
known = record { result = some (answer true); error = none }

abbrev remote : RemoteClient ℕ
remote = record { auth_rep = λ r w. (known, w); oauth_auth_rep = λ r w. (known, w) }

abbrev call : BackendTransaction
call = record {
  metrics = none;
  params = record { app_id = "app"; app_key = ""; user_id = ""; user_key = "" };
}

abbrev calls : BackendRequest
calls = record {
  auth = record { auth_type = "service_token"; value = "token" };
  service = "svc";
  transactions = call ∷ [];
}

-- Caching is on, and no interval is set.
abbrev unset : Authorizer ℕ (Dict Application) Items
unset = record {
  enable_caching = true;
  logger = none;
  policy = none;
  cache_flush_interval = pos 0;
  cached_backends = [];
  cache_hit_cb = none;
}

no_backend : get "https://su1" unset.cached_backends ≡ none
unfolding get
no_backend = refl

manager_auth_rep_unticked_example :
    manager_auth_rep host (λ url. success remote) tt unset "https://su1" calls false 0 ≡ panic
manager_auth_rep_unticked_example =
    manager_auth_rep_unticked host (λ url. success remote) tt unset "https://su1"
      (client known none) calls false 0 refl no_backend refl (omega arith)
