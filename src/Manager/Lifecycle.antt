-- ===== src/Manager/Lifecycle.antt =====
-- `NewManager`, `Shutdown` and the process of the system cache (pkg/authorizer/authorizer.go).
pub mod Telemetry
pub mod Closing
use mathlib.Core.Option
use scale_authorizer.Prelude.{
  String, ℕ, ℤ, Bool, true, false, Option, none, some, List, [], ◌∷◌, ◌&&◌, ◌||◌, if◌then◌else◌,
  leb,
}
use scale_authorizer.Prelude.Outcome.{Outcome, ok, panic, ◌>>=◌, deref}
use scale_authorizer.Host.{ConcurrentMap, Logger, new_ticker}
use scale_authorizer.SystemCache.{Value, ConfigCache, Event, tick, stop, work}
use scale_authorizer.ClientBuilder.{TelemetryReport}
use scale_authorizer.Manager.{CacheKind, SystemCache, Heap, Manager}
use scale_authorizer.Manager.AuthRep.{Authorizer}

-- http.RoundTripper, with transports of net/http in `T`; `other` is any other type.
pub data Transport (T W : Type 0) : Type 0 where
  http_transport : T → Transport T W
  metrics_round_tripper : T → (TelemetryReport → W → W) → Transport T W
  other : Transport T W

-- `MetricsReporter`; a callback may be nil.
pub record MetricsReporter (W : Type 0) : Type 0 where
  pub report_metrics : Bool
  pub response_cb : Option (TelemetryReport → W → W)
  pub cache_hit_cb : Option (CacheKind → W → W)

pub record BackendConfig (W : Type 0) : Type 0 where
  pub enable_caching : Bool
  pub cache_flush_interval : ℤ
  pub logger : Option (Logger W)
  pub policy : Option (W → Bool × W)

-- What a new manager is made of, with the transport of the client that its builder holds.
pub record Built (T W S : Type 0) : Type 0 where
  pub transport : Transport T W
  pub system_cache : Option (SystemCache S)
  pub backend_conf : BackendConfig W
  pub stop_flush : ℕ
  pub metrics_reporter : MetricsReporter W

abbrev pub no_reporter : {W : Type 0} → MetricsReporter W
no_reporter = record { report_metrics = false; response_cb = none; cache_hit_cb = none }

-- The transport of the client after `NewManager`, which wraps that of net/http only.
unfoldable pub wire :
    {T W : Type 0} → Bool → Option (TelemetryReport → W → W) → Transport T W → Transport T W
wire report_metrics none transport = transport
wire report_metrics (some hook) (http_transport base) =
    if report_metrics then metrics_round_tripper base hook else http_transport base
wire report_metrics (some hook) (metrics_round_tripper base older) =
    metrics_round_tripper base older
wire report_metrics (some hook) other = other

module _ {T W S : Type 0} (default_transport : T) where
  -- The client is the first argument, with its transport. It is nil for `none`, and is read through
  -- before anything else. `fresh` is the new channel.
  unfoldable pub new_manager :
      ℕ
      → Option (Option (Transport T W))
      → Option (SystemCache S)
      → BackendConfig W
      → Option (MetricsReporter W)
      → Outcome (Built T W S)
  unfolding wire
  new_manager fresh client system_cache backend_config reporter = do
    given ← deref client
    let transport = Option.get_or given (http_transport default_transport)
    let reporter' = Option.get_or reporter no_reporter
    ok (record {
      transport = wire reporter'.report_metrics reporter'.response_cb transport;
      system_cache = system_cache;
      backend_conf = backend_config;
      stop_flush = fresh;
      metrics_reporter = reporter';
    })

  -- The parts of the manager that read configurations and that answer requests.
  unfoldable pub manager_of : Built T W S → Manager W S
  manager_of m = record {
    system_cache = m.system_cache;
    cache_hit_cb = m.metrics_reporter.cache_hit_cb;
  }

unfoldable pub is_closed : ℕ → List ℕ → Bool
is_closed channel [] = false
is_closed channel (c ∷ closed) = (leb channel c && leb c channel) || is_closed channel closed

-- close(channel), where the closed channels are listed
unfoldable pub close : List ℕ → Option ℕ → Outcome (List ℕ)
unfolding is_closed
close closed none = panic
close closed (some channel) = if is_closed channel closed then panic else ok (channel ∷ closed)

module _ {T W S : Type 0} where
  -- The channels that are closed after `Shutdown`.
  unfoldable pub shutdown : List ℕ → Built T W S → Outcome (List ℕ)
  unfolding close
  shutdown closed m = do
    closed1 ← close closed (some m.stop_flush)
    system_cache ← deref m.system_cache
    close closed1 system_cache.stop_refreshing_task

-- The process of `NewManager` by what it selects; the embedded cache may be nil.
module _ {W S C : Type 0} (cmap : ConcurrentMap S (Value W C)) where
  unfoldable pub refresh_loop :
      List Event → Option (ConfigCache S) → W → Outcome (Option (ConfigCache S) × W)
  unfolding work
  refresh_loop events (some c) world =
      let (c', world') = work cmap events c world in ok (some c', world')
  refresh_loop [] none world = ok (none, world)
  refresh_loop (tick now later ∷ events) none world = panic
  refresh_loop (stop ∷ events) none world = ok (none, world)

  unfoldable pub refresh_process :
      List Event → SystemCache S → W → Outcome (Option (ConfigCache S) × W)
  unfolding refresh_loop new_ticker
  refresh_process events sc world = do
    ticker ← new_ticker sc.config.refresh_interval
    refresh_loop events sc.configuration_cache world
