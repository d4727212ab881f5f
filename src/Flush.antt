-- ===== src/Flush.antt =====
-- `flush` of pkg/backend/v1/backend.go, phase by phase. Other calls may change the cache between
-- two phases.
pub mod Settle
pub mod Draining
pub mod Reporting
pub mod Enqueuing
pub mod Overflow
pub mod Outcomes
pub mod Phases
pub mod Whole
pub mod Outage
pub mod Sent
pub mod Unanswered
pub mod Unlogged
pub mod Meanwhile
pub mod Process
use Prim.Native.String.{◌++◌ as str_append}
use mathlib.Core.Option
use scale_authorizer.Prelude.{
  String, ℕ, zero, suc, ◌+◌, ◌*◌, ℤ, Bool, true, false, Option, none, some, List, [], ◌∷◌, ◌++◌,
  map, ◌==◌, ◌&&◌, length, if◌then◌else◌,
}
use scale_authorizer.Prelude.Outcome.{Outcome, ok, panic, ◌>>=◌, deref}
use scale_authorizer.Api.{Transaction, Request, AuthorizeResult, Reply, Metrics, ClientAuth, ApiLib}
use scale_authorizer.Application.{
  Application, deep_copy, get_application_from_response, get_cache_key,
}
use scale_authorizer.Counters.{
  calculate_deltas, add_deltas_to_remote_state, prune_unlimited_counter,
}
use scale_authorizer.Adjust.{HandledApp, adjust_local_state}
use scale_authorizer.Key.{parse_cache_key}
use scale_authorizer.LocalCache
use scale_authorizer.Queue
use scale_authorizer.Backend.{Host, Backend, get_empty_auth_request, remote_auth, set_in_cache}

-- The copy of a cached application that goes to the queue. An error of the parser is dropped.
unfoldable pub snapshot_of : String → Application → Application
unfolding deep_copy parse_cache_key
snapshot_of key app =
    let parsed = parse_cache_key key in
    record (deep_copy app) { owned_by = parsed.service; id = parsed.application }

unfoldable pub mark_failed : List HandledApp → List HandledApp
mark_failed = map {A = HandledApp} (λ app. record app { reporting_err = true })

module _ {W S Q H : Type 0} (h : Host W S Q H) where
  open h use {cmap, lane, lib, zone}

  unfoldable pub remote_report : Backend W S Q → Request → Bool × Backend W S Q
  remote_report b request =
      let (error, world) = b.client.report request b.world in
      (elim error [ none ↦ false | some _ ↦ true ], record b { world = world })

  -- b.logger.Errorf, which panics on a nil logger
  unfoldable pub log_error : Backend W S Q → String → Outcome (Backend W S Q)
  log_error b message = do
    logger ← deref b.logger
    ok (record b { world = logger.errorf message b.world })

  unfoldable pub enqueue : Backend W S Q → String → Option Application → Backend W S Q
  unfolding snapshot_of Queue.append
  enqueue b key none = b
  enqueue b key (some app) = record b {
    queue = (Queue.append lane b.queue (snapshot_of key app)).0;
  }

  unfoldable pub enqueue_keys : Backend W S Q → List String → Backend W S Q
  unfolding enqueue LocalCache.get
  enqueue_keys b [] = b
  enqueue_keys b (key ∷ keys) = enqueue_keys (enqueue b key (LocalCache.get cmap b.cache key)) keys

  -- What `append` answers is dropped, so a full queue drops the copy.
  unfoldable pub enqueue_cached_applications : Backend W S Q → Backend W S Q
  unfolding enqueue_keys LocalCache.keys
  enqueue_cached_applications b = enqueue_keys b (LocalCache.keys cmap b.cache)

  -- The loop of `reportGroupedApps` over the applications of a batch.
  unfoldable pub prepare_apps : List Application → Outcome (List Transaction × List HandledApp)
  unfolding calculate_deltas
  prepare_apps [] = ok ([], [])
  prepare_apps (app ∷ apps) = do
    deltas ← calculate_deltas lib app
    (transactions, handled) ← prepare_apps apps
    ok (
      record { metrics = some deltas; params = app.params; timestamp = app.timestamp }
          ∷ transactions,
      record {
        snapshot = app;
        reporting_err = false;
        auth_err = false;
        auth_resp = none;
        deltas = deltas;
      }
          ∷ handled,
    )

  unfoldable pub report_request : String → ClientAuth → List Transaction → Request
  report_request service auth transactions = record {
    auth = auth;
    service = service;
    transactions = transactions;
    extensions = (lib.flat_usage_extension, "1") ∷ [];
  }

  unfoldable pub report_grouped_apps :
      Backend W S Q → String → List Application → Outcome (List HandledApp × Backend W S Q)
  unfolding prepare_apps remote_report log_error report_request mark_failed
  report_grouped_apps b service [] = ok ([], b)
  report_grouped_apps b service (app ∷ apps) = do
    (transactions, handled) ← prepare_apps (app ∷ apps)
    let (failed, b1) = remote_report b (report_request service app.auth transactions)
    if failed
        then (do b2 ← log_error b1 "report failed"; ok (mark_failed handled, b2))
        else ok (handled, b1)

  -- The last batch, after the loop of `handleFlushReporting`.
  unfoldable pub finish_batches :
      Backend W S Q
      → String
      → List Application
      → List HandledApp
      → Outcome (List HandledApp × Backend W S Q)
  unfolding report_grouped_apps
  finish_batches b service_id grouped handled = do
    (last, b') ← report_grouped_apps b service_id grouped
    ok (handled ++ last, b')

  -- The loop of `handleFlushReporting` on fuel; `none` means that the fuel ran out.
  unfoldable pub drain :
      ℕ
      → Backend W S Q
      → String
      → List Application
      → List HandledApp
      → Option (Outcome (List HandledApp × Backend W S Q))
  unfolding finish_batches report_grouped_apps Queue.is_empty Queue.shift Queue.prepend
  drain zero b service_id grouped handled = none
  drain (suc fuel) b service_id grouped handled = elim (Queue.is_empty lane b.queue) [
    | true ↦ some (finish_batches b service_id grouped handled)
    | false ↦ elim (Queue.shift lane b.queue) [
      | panic ↦ some panic
      | ok (app, queue) ↦
          let service = if service_id == "" then app.owned_by else service_id in
          elim (app.owned_by == service) [
            | true ↦ drain fuel (record b { queue = queue }) service (grouped ++ app ∷ []) handled
            | false ↦
                elim (report_grouped_apps (record b { queue = (Queue.prepend lane queue app).0 })
                  service grouped) [
                    | panic ↦ some panic
                    | ok (batch, b') ↦ drain fuel b' "" [] (handled ++ batch)
                  ]
          ]
    ]
  ]

  unfoldable pub handle_flush_reporting :
      ℕ → Backend W S Q → Option (Outcome (List HandledApp × Backend W S Q))
  unfolding drain
  handle_flush_reporting fuel b = drain fuel b "" [] []
