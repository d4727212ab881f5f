-- ===== src/Manager/Lifecycle/Telemetry.antt =====
-- Which of the managers of one HTTP client hears of its responses.
use mathlib.Core.Option
use scale_authorizer.Prelude.{ℕ, Bool, Option, true, none, some, ◌≡◌, refl, ap, sym, ◌∙◌}
use scale_authorizer.Prelude.Outcome.{ok}
use scale_authorizer.ClientBuilder.{TelemetryReport}
use scale_authorizer.Manager.{SystemCache}
use scale_authorizer.Manager.Lifecycle.{
  http_transport, metrics_round_tripper, MetricsReporter, BackendConfig, Built, no_reporter, wire,
  new_manager,
}

wire-wire :
    {T W : Type 0} (on' : Bool) (cb : Option (TelemetryReport → W → W)) (base : T)
    (hook : TelemetryReport → W → W)
    → wire {W = W} on' cb (metrics_round_tripper base hook) ≡ metrics_round_tripper base hook
unfolding wire
wire-wire on' none base hook = refl
wire-wire on' (some other_hook) base hook = refl

wire_first :
    {T W : Type 0} (base : T) (on : Bool) (cb : Option (TelemetryReport → W → W))
    (hook : TelemetryReport → W → W)
    → on ≡ true
    → cb ≡ some hook
    → wire on cb (http_transport base) ≡ metrics_round_tripper base hook
unfolding wire
wire_first base on cb hook e e' = rw (e', e) refl

-- The first manager of a client that reports metrics wraps its transport. A second manager of the
-- same client leaves the transport as it is, whatever it is to report: its own callback is never
-- called.
pub new_manager-new_manager :
    {T W S : Type 0} (default_transport base : T) (fresh fresh' : ℕ)
    (system_cache system_cache' : Option (SystemCache S)) (conf conf' : BackendConfig W)
    (reporter : MetricsReporter W) (reporter' : Option (MetricsReporter W))
    (hook : TelemetryReport → W → W)
    → reporter.report_metrics ≡ true
    → reporter.response_cb ≡ some hook
    → (m m' : Built T W S) × (new_manager default_transport fresh
          (some (some (http_transport base)))
          system_cache
          conf
          (some reporter)
        ≡ ok m)
      × (new_manager default_transport fresh'
            (some (some m.transport))
            system_cache'
            conf'
            reporter'
          ≡ ok m')
      × (m'.transport ≡ m.transport)
      × (m.transport ≡ metrics_round_tripper base hook)
unfolding new_manager
new_manager-new_manager default_transport base fresh fresh' system_cache system_cache' conf conf'
      reporter reporter' hook on called =
    let first = wire_first base reporter.report_metrics reporter.response_cb hook on called in
    let given = Option.get_or reporter' no_reporter in
    (
      _,
      _,
      refl,
      refl,
      ap (wire given.report_metrics given.response_cb) first
          ∙ wire-wire given.report_metrics given.response_cb base hook
          ∙ sym first,
      first,
    )
