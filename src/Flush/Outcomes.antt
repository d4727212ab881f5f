-- ===== src/Flush/Outcomes.antt =====
-- What the reports and the authorizations of a flush make of the applications, where 3scale behaves
-- in one way throughout the flush.
use scale_authorizer.Prelude.{
  String, ℕ, ◌*◌, ◌≤◌, ◌<◌, Bool, true, false, Option, none, some, List, [], ◌∷◌, ◌++◌, map, ◌≡◌,
  refl, ap, sym, ◌∙◌, arith, inl, inr, ◌⊎◌, length, if◌then◌else◌,
}
use mathlib.Core.List.{map-append}
use scale_authorizer.Prelude.Outcome.{ok, panic}
use scale_authorizer.Api.{Transaction, Request, AuthorizeResult, Reply, Error, Metrics}
use scale_authorizer.Application.{Application}
use scale_authorizer.Counters.{calculate_deltas}
use scale_authorizer.Adjust.{HandledApp}
use scale_authorizer.Host.{Client, Logger, IsDeque}
use scale_authorizer.Backend.{Host, Backend, get_empty_auth_request, remote_auth}
use scale_authorizer.Flush.{
  log_error, remote_report, prepare_apps, report_request, mark_failed, report_grouped_apps,
  handle_flush_reporting,
}
use scale_authorizer.Flush.Settle.{authorize_handled, handle_flush_authorization}
use scale_authorizer.Flush.Draining.{AllReportable, Batch, drain_lem}

abbrev pub is_error : Option Error → Bool
is_error none = false
is_error (some e) = true

-- The client fails every report or none, and its answer to an authorization depends on the request
-- only.
pub record IsSteady {W : Type 0} (client : Client W) (failed : Bool)
    (reply : Request → Reply AuthorizeResult) : Type 0 where
  pub report_lem : (r : Request) (w : W) → is_error (client.report r w).0 ≡ failed
  pub authorize_lem : (r : Request) (w : W) → (client.authorize r w).0 ≡ reply r

-- There is a logger, or nothing to log.
abbrev pub CanLog :
    {W : Type 0} → Option (Logger W) → Bool → (Request → Reply AuthorizeResult) → Type 0
CanLog logger failed reply =
    ((l : Logger _) × (logger ≡ some l))
    ⊎ ((failed ≡ false) × ((r : Request) → (reply r).error ≡ none))

abbrev logged : {W : Type 0} → Option (Logger W) → String → W → W
logged none message world = world
logged (some l) message world = l.errorf message world

module _ {W S Q H : Type 0} (h : Host W S Q H) where
  open h use {lane, lib}

  abbrev pub deltas_of : Application → Metrics
  deltas_of app = elim (calculate_deltas lib app) [ ok d ↦ d | panic ↦ [] ]

  pub deltas_of_lem :
      (app : Application) (d : Metrics) → calculate_deltas lib app ≡ ok d → deltas_of app ≡ d
  deltas_of_lem app d e = rw (e, deltas_of) refl

  abbrev pub handled_as : Bool → Application → HandledApp
  handled_as failed app = record {
    snapshot = app;
    reporting_err = failed;
    auth_err = false;
    auth_resp = none;
    deltas = deltas_of app;
  }

  -- The application after its authorization.
  abbrev pub authorized_as : Bool → (Request → Reply AuthorizeResult) → Application → HandledApp
  authorized_as failed reply app =
      let answer = reply (get_empty_auth_request lib app.owned_by app.auth app.params) in
      record (handled_as failed app) { auth_err = is_error answer.error; auth_resp = answer.result }

  pub prepare_apps-handled :
      (apps : List Application)
      → AllReportable h apps
      → (ts : List Transaction) × (prepare_apps h apps ≡ ok (ts, map (handled_as false) apps))
  unfolding prepare_apps
  prepare_apps-handled [] r = ([], refl)
  prepare_apps-handled (app ∷ apps) ((d, e), r) =
      let (ts, p) = prepare_apps-handled apps r in
      (
        record { metrics = some d; params = app.params; timestamp = app.timestamp } ∷ ts,
        ground arith,
      )

  mark_failed-handled :
      (apps : List Application)
      → mark_failed (map (handled_as false) apps) ≡ map (handled_as true) apps
  unfolding mark_failed
  mark_failed-handled [] = refl
  mark_failed-handled (app ∷ apps) = ap (◌∷◌ (handled_as true app)) (mark_failed-handled apps)

  module _ (client : Client W) (failed : Bool) (reply : Request → Reply AuthorizeResult)
      (steady : IsSteady client failed reply) (logger : Option (Logger W))
      (log : CanLog logger failed reply) (s : S) where
    -- What a flush keeps of the backend until it updates the cache.
    abbrev pub Kept : Backend W S Q → Type 0
    Kept b = (b.logger ≡ logger) × (b.client ≡ client) × (b.cache ≡ s)

    abbrev Handles : List HandledApp → List Application → Type 0
    Handles hs apps = hs ≡ map (handled_as failed) apps

    Handles-append :
        (hs hs' : List HandledApp) (apps apps' : List Application)
        → Handles hs apps
        → Handles hs' apps'
        → Handles (hs ++ hs') (apps ++ apps')
    Handles-append hs hs' apps apps' e e' = rw (e, e') (sym (map-append _ apps apps'))

    remote_report_lem :
        (b : Backend W S Q) (request : Request)
        → b.client ≡ client
        → (remote_report h b request).0 ≡ failed
    unfolding remote_report
    remote_report_lem b request e = ground (arith, steady.report_lem request b.world)

    report_grouped_apps_lem :
        (b : Backend W S Q) (service : String) (apps : List Application)
        → Kept b
        → AllReportable h apps
        → Batch h (λ done. Kept) Handles b [] apps (report_grouped_apps h b service apps)
    unfolding report_grouped_apps remote_report log_error
    report_grouped_apps_lem b service [] k r = ([], b, refl, refl, refl, k)
    report_grouped_apps_lem b service (app ∷ apps) k r =
        let (ts, p) = prepare_apps-handled (app ∷ apps) r in
        let request = report_request h service app.auth ts in
        let b1 = (remote_report h b request).1 in
        let flag = remote_report_lem b request k.1 in
        (
          map (handled_as failed) (app ∷ apps),
          if failed then record b1 { world = logged logger "report failed" b1.world } else b1,
          ground (arith, mark_failed-handled (app ∷ apps)),
          refl,
          ground arith,
          ground arith,
        )

    -- All of the queue is reported.
    pub reporting_lem :
        (laws : IsDeque lane) (fuel : ℕ) (b : Backend W S Q)
        → length (laws.to_list b.queue) ≤ laws.capacity b.queue
        → 2 * length (laws.to_list b.queue) < fuel
        → Kept b
        → AllReportable h (laws.to_list b.queue)
        → (b' : Backend W S Q) × (handle_flush_reporting h fuel b
            ≡ some (ok (map (handled_as failed) (laws.to_list b.queue), b')))
          × Kept b'
          × (laws.to_list b'.queue ≡ [])
          × (laws.capacity b'.queue ≡ laws.capacity b.queue)
    unfolding handle_flush_reporting
    reporting_lem laws fuel b c m k r =
        let (hs, b', p, s', k', empty, wide) =
          drain_lem h laws (λ done. Kept) Handles (λ done b' q k'. k') Handles-append
            (λ before. report_grouped_apps_lem) fuel b "" [] [] [] (laws.to_list b.queue) refl c
            (omega arith) k refl tt r in
        (b', p ∙ ap (λ x. some (ok (x, b'))) s', k', empty, wide)

    can_log :
        (request : Request) → ((l : Logger W) × (logger ≡ some l)) ⊎ ((reply request).error ≡ none)
    can_log request = elim log [ inl there ↦ inl there | inr (e, silent) ↦ inr (silent request) ]

    authorize_handled_lem :
        (b : Backend W S Q) (app : Application)
        → Kept b
        → (b' : Backend W S Q) × (authorize_handled h b (handled_as failed app)
            ≡ ok (authorized_as failed reply app, b'))
          × Kept b'
          × (b'.queue ≡ b.queue)
    unfolding authorize_handled remote_auth log_error
    authorize_handled_lem b app k =
        let request = get_empty_auth_request lib app.owned_by app.auth app.params in
        let b1 = (remote_auth h b request false).1 in
        (
          if is_error (reply request).error
              then record b1 { world = logged logger "failed to fetch state" b1.world }
              else b1,
          ground (arith, steady.authorize_lem request b.world, can_log request),
          ground arith,
          ground arith,
        )

    pub handle_flush_authorization_lem :
        (b : Backend W S Q) (apps : List Application)
        → Kept b
        → (b' : Backend W S Q) × (handle_flush_authorization h b (map (handled_as failed) apps)
            ≡ ok (map (authorized_as failed reply) apps, b'))
          × Kept b'
          × (b'.queue ≡ b.queue)
    unfolding handle_flush_authorization
    handle_flush_authorization_lem b [] k = (b, refl, k, refl)
    handle_flush_authorization_lem b (app ∷ apps) k =
        let (b1, p, k1, s1) = authorize_handled_lem b app k in
        let (b2, q, k2, s2) = handle_flush_authorization_lem b1 apps k1 in
        (b2, ground arith, k2, s2 ∙ s1)
