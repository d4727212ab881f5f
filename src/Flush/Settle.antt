-- ===== src/Flush/Settle.antt =====
-- The second half of `flush` of pkg/backend/v1/backend.go: fetching the new state of each
-- application, and updating its cached entry.
use mathlib.Core.Option
use scale_authorizer.Prelude.{
  ℕ, true, false, Option, none, some, List, [], ◌∷◌, ◌&&◌, if◌then◌else◌,
}
use scale_authorizer.Prelude.Outcome.{Outcome, ok, ◌>>=◌, deref}
use scale_authorizer.Application.{Application, get_application_from_response, get_cache_key}
use scale_authorizer.Counters.{add_deltas_to_remote_state, prune_unlimited_counter}
use scale_authorizer.Adjust.{HandledApp, adjust_local_state}
use scale_authorizer.LocalCache
use scale_authorizer.Backend.{Host, Backend, get_empty_auth_request, remote_auth, set_in_cache}
use scale_authorizer.Flush.{log_error, handle_flush_reporting, enqueue_cached_applications}

module _ {W S Q H : Type 0} (h : Host W S Q H) where
  open h use {cmap, lane, lib, zone}

  unfoldable pub authorize_handled :
      Backend W S Q → HandledApp → Outcome (HandledApp × Backend W S Q)
  unfolding get_empty_auth_request remote_auth log_error
  authorize_handled b app =
      let snapshot = app.snapshot in
      let (reply, b1) =
        remote_auth h b (get_empty_auth_request lib snapshot.owned_by snapshot.auth snapshot.params)
          false in
      elim reply.error [
        | none ↦ ok (record app { auth_resp = reply.result }, b1)
        | some e ↦ do
          b2 ← log_error h b1 "failed to fetch state"
          ok (record app { auth_err = true; auth_resp = reply.result }, b2)
      ]

  unfoldable pub handle_flush_authorization :
      Backend W S Q → List HandledApp → Outcome (List HandledApp × Backend W S Q)
  unfolding authorize_handled
  handle_flush_authorization b [] = ok ([], b)
  handle_flush_authorization b (app ∷ apps) = do
    (app', b1) ← authorize_handled b app
    (apps', b2) ← handle_flush_authorization b1 apps
    ok (app' ∷ apps', b2)

  -- Case (4): the report went through, and the new state could not be fetched.
  unfoldable pub settle_reported : HandledApp → Application → Application
  unfolding add_deltas_to_remote_state prune_unlimited_counter
  settle_reported app cached =
      let settled = add_deltas_to_remote_state cached app.deltas in
      record settled {
        unlimited_counter =
            prune_unlimited_counter app.snapshot.unlimited_counter settled.unlimited_counter;
      }

  -- What a flushed application does to its cached entry, in the four cases of the source.
  unfoldable pub updated_entry : HandledApp → Application → Outcome Application
  unfolding settle_reported get_application_from_response adjust_local_state
  updated_entry app cached = if app.auth_err then ok (settle_reported app cached) else do
    resp ← deref app.auth_resp
    updated ← get_application_from_response lib resp
    adjust_local_state lib zone cached app updated.remote_state updated.timestamp

  unfoldable pub update_cached : Backend W S Q → HandledApp → Outcome (Backend W S Q)
  unfolding updated_entry LocalCache.get set_in_cache get_cache_key
  update_cached b app =
      if app.reporting_err && app.auth_err
      then ok b
      else (let cache_key = get_cache_key app.snapshot in
          elim (LocalCache.get cmap b.cache cache_key) [
            | none ↦ ok b
            | some cached ↦ do
              cached' ← updated_entry app cached
              ok (set_in_cache h b cache_key cached')
          ])

  unfoldable pub handle_flush_cache_update :
      Backend W S Q → List HandledApp → Outcome (Backend W S Q)
  unfolding update_cached
  handle_flush_cache_update b [] = ok b
  handle_flush_cache_update b (app ∷ apps) = do
    b' ← update_cached b app
    handle_flush_cache_update b' apps

  -- The phases after the reports.
  unfoldable pub settle_flush : Outcome (List HandledApp × Backend W S Q) → Outcome (Backend W S Q)
  unfolding handle_flush_authorization handle_flush_cache_update
  settle_flush reported = do
    (handled, b1) ← reported
    (authorized, b2) ← handle_flush_authorization b1 handled
    handle_flush_cache_update b2 authorized

  unfoldable pub flush : ℕ → Backend W S Q → Option (Outcome (Backend W S Q))
  unfolding enqueue_cached_applications handle_flush_reporting settle_flush
  flush fuel b =
      Option.map settle_flush (handle_flush_reporting h fuel (enqueue_cached_applications h b))
