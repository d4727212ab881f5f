-- ===== src/Flush/Sent.antt =====
-- What a flush sends to 3scale.
use mathlib.Core.Option
use mathlib.Core.List.{map-append, append_assoc, append-nil}
use scale_authorizer.Prelude.{
  String, ℕ, ◌*◌, ◌≤◌, ◌<◌, Dict, false, some, List, [], ◌∷◌, ◌++◌, map, ◌≡◌, refl, ap, sym, ◌∙◌,
  arith, length, inl, inr, Bool-cases, Option-cases, some_inj, ◌&&◌,
}
use scale_authorizer.Prelude.Map.{keys}
use scale_authorizer.Prelude.Outcome.{ok, Outcome-cases}
use scale_authorizer.Api.{Transaction, Request}
use scale_authorizer.Application.{Application, get_cache_key}
use scale_authorizer.Adjust.{HandledApp}
use scale_authorizer.Host.{Client, Logger, IsDeque}
use scale_authorizer.LocalCache
use scale_authorizer.Backend.{Host, Backend, get_empty_auth_request, remote_auth, set_in_cache}
use scale_authorizer.Flush.{
  log_error, remote_report, prepare_apps, mark_failed, report_request, report_grouped_apps,
  handle_flush_reporting,
}
use scale_authorizer.Flush.Settle.{
  authorize_handled, handle_flush_authorization, updated_entry, update_cached,
  handle_flush_cache_update, settle_flush, flush,
}
use scale_authorizer.Flush.Draining.{AllReportable, Batch, drain_lem}
use scale_authorizer.Flush.Enqueuing.{Holds, copies, length-copies, enqueue_cached_applications_lem}
use scale_authorizer.Flush.Outcomes.{deltas_of, handled_as}

-- The world keeps a record of the transactions that reports send, and of nothing else.
pub record Records {W : Type 0} (client : Client W) (l : Logger W) (sent : W → List Transaction)
    : Type 0 where
  pub sent-report : (r : Request) (w : W) → sent (client.report r w).1 ≡ sent w ++ r.transactions
  pub sent-authorize : (r : Request) (w : W) → sent (client.authorize r w).1 ≡ sent w
  pub sent-errorf : (message : String) (w : W) → sent (l.errorf message w) ≡ sent w

module _ {W S Q H : Type 0} (h : Host W S Q H) where
  open h use {cmap, lane, lib}

  -- The transaction that reports an application.
  abbrev pub transaction_of : Application → Transaction
  transaction_of app = record {
    metrics = some (deltas_of h app);
    params = app.params;
    timestamp = app.timestamp;
  }

  prepare_apps-sent :
      (apps : List Application)
      → AllReportable h apps
      → prepare_apps h apps ≡ ok (map transaction_of apps, map (handled_as h false) apps)
  unfolding prepare_apps
  prepare_apps-sent [] r = refl
  prepare_apps-sent (app ∷ apps) ((d, e), r) = ground (arith, prepare_apps-sent apps r)

  module _ (client : Client W) (l : Logger W) (sent : W → List Transaction)
      (records : Records client l sent) (base : List Transaction) where
    -- The logger and the client are there, and the applications have been reported.
    abbrev Reported : List Application → Backend W S Q → Type 0
    Reported done b =
        (b.logger ≡ some l) × (b.client ≡ client) × (sent b.world ≡ base ++ map transaction_of done)

    abbrev Any : List HandledApp → List Application → Type 0
    Any hs apps = Unit {0}

    report_grouped_apps-sent :
        (before : List Application) (b : Backend W S Q) (service : String) (apps : List Application)
        → Reported before b
        → AllReportable h apps
        → Batch h Reported Any b before apps (report_grouped_apps h b service apps)
    unfolding report_grouped_apps remote_report log_error
    report_grouped_apps-sent before b service [] (logger, same, told) r = (
      [],
      b,
      refl,
      tt,
      refl,
      (logger, same, told ∙ ap (λ l. base ++ map transaction_of l) (sym (append-nil before))),
    )
    report_grouped_apps-sent before b service (app ∷ apps) (logger, same, told) r =
        let ts = map transaction_of (app ∷ apps) in
        let p = prepare_apps-sent (app ∷ apps) r in
        let request = report_request h service app.auth ts in
        let b1 = (remote_report h b request).1 in
        let after : sent (client.report request b.world).1
            ≡ base ++ map transaction_of (before ++ app ∷ apps) =
          records.sent-report request b.world
          ∙ ap (λ x. x ++ ts) told
          ∙ append_assoc base (map transaction_of before) ts
          ∙ ap (λ x. base ++ x) (sym (map-append transaction_of before (app ∷ apps))) in
        let sends : sent b1.world ≡ base ++ map transaction_of (before ++ app ∷ apps) =
          ap (λ c. sent (c.report request b.world).1) same ∙ after in
        elim (Bool-cases (remote_report h b request).0) [
          | inl failed ↦ (
            mark_failed (map (handled_as h false) (app ∷ apps)),
            record b1 { world = l.errorf "report failed" b1.world },
            ground arith,
            tt,
            refl,
            (logger, same, records.sent-errorf "report failed" b1.world ∙ sends),
          )
          | inr passed ↦ (
            map (handled_as h false) (app ∷ apps),
            b1,
            ground arith,
            tt,
            refl,
            (logger, same, sends),
          )
        ]

    handle_flush_reporting-sent :
        (laws : IsDeque lane) (fuel : ℕ) (b : Backend W S Q)
        → length (laws.to_list b.queue) ≤ laws.capacity b.queue
        → 2 * length (laws.to_list b.queue) < fuel
        → Reported [] b
        → AllReportable h (laws.to_list b.queue)
        → (hs : List HandledApp) × (b' : Backend W S Q) × (handle_flush_reporting h fuel b
            ≡ some (ok (hs, b')))
          × Reported (laws.to_list b.queue) b'
    unfolding handle_flush_reporting
    handle_flush_reporting-sent laws fuel b c m k r =
        let (hs, b', p, _, k', _, _) =
          drain_lem h laws Reported Any (λ done b' q k'. k') (λ hs hs' apps apps' a a'. tt)
            report_grouped_apps-sent fuel b "" [] [] [] (laws.to_list b.queue) refl c (omega arith)
            k tt tt r in
        (hs, b', p, k')

    authorize_handled-sent :
        (b b' : Backend W S Q) (app app' : HandledApp)
        → (b.logger ≡ some l) × (b.client ≡ client)
        → authorize_handled h b app ≡ ok (app', b')
        → (b'.logger ≡ some l) × (b'.client ≡ client) × (sent b'.world ≡ sent b.world)
    unfolding authorize_handled remote_auth log_error
    authorize_handled-sent b b' app app' (logger, same) e =
        let request =
          get_empty_auth_request lib app.snapshot.owned_by app.snapshot.auth app.snapshot.params in
        let b1 = (remote_auth h b request false).1 in
        let quiet : sent b1.world ≡ sent b.world =
          ap (λ c. sent (c.authorize request b.world).1) same
          ∙ records.sent-authorize request b.world in
        elim (Option-cases (remote_auth h b request false).0.error) [
          | inl p ↦ (ground arith, ground arith, ap sent (ground arith) ∙ quiet)
          | inr (x, p) ↦
              let now : b'.world ≡ l.errorf "failed to fetch state" b1.world = ground arith in
              (
                ground arith,
                ground arith,
                ap sent now ∙ (records.sent-errorf "failed to fetch state" b1.world ∙ quiet),
              )
        ]

    handle_flush_authorization-sent :
        (b b' : Backend W S Q) (apps apps' : List HandledApp)
        → (b.logger ≡ some l) × (b.client ≡ client)
        → handle_flush_authorization h b apps ≡ ok (apps', b')
        → sent b'.world ≡ sent b.world
    unfolding handle_flush_authorization
    handle_flush_authorization-sent b b' [] apps' k e = ground arith
    handle_flush_authorization-sent b b' (app ∷ apps) apps' k e =
        elim (Outcome-cases (authorize_handled h b app)) [
          | inl p ↦ absurd (ground arith)
          | inr (r, p) ↦
              let (logger, same, quiet) = authorize_handled-sent b r.1 app r.0 k p in
              elim (Outcome-cases (handle_flush_authorization h r.1 apps)) [
                | inl q ↦ absurd (ground arith)
                | inr (r', q) ↦
                    let rest =
                      handle_flush_authorization-sent r.1 r'.1 apps r'.0 (logger, same) q in
                    let now : b' ≡ r'.1 = ground arith in ap (λ c. sent c.world) now ∙ rest ∙ quiet
              ]
        ]

  world-update_cached :
      (b b' : Backend W S Q) (app : HandledApp) → update_cached h b app ≡ ok b' → b'.world ≡ b.world
  unfolding update_cached set_in_cache LocalCache.get
  world-update_cached b b' app e = elim (Bool-cases (app.reporting_err && app.auth_err)) [
    | inl p ↦ ground arith
    | inr p ↦ elim (Option-cases (cmap.get b.cache (get_cache_key app.snapshot))) [
      | inl q ↦ ground arith
      | inr (cached, q) ↦ elim (Outcome-cases (updated_entry h app cached)) [
        | inl r ↦ absurd (ground arith)
        | inr (x, r) ↦ ground arith
      ]
    ]
  ]

  world-handle_flush_cache_update :
      (b b' : Backend W S Q) (apps : List HandledApp)
      → handle_flush_cache_update h b apps ≡ ok b'
      → b'.world ≡ b.world
  unfolding handle_flush_cache_update
  world-handle_flush_cache_update b b' [] e = ground arith
  world-handle_flush_cache_update b b' (app ∷ apps) e =
      elim (Outcome-cases (update_cached h b app)) [
        | inl p ↦ absurd (ground arith)
        | inr (b1, p) ↦
            world-handle_flush_cache_update b1 b' apps (ground arith)
            ∙ world-update_cached b b1 app p
      ]

  settle_flush-sent :
      (client : Client W) (l : Logger W) (sent : W → List Transaction)
      (records : Records client l sent) (base : List Transaction) (hs : List HandledApp)
      (b b' : Backend W S Q)
      → (b.logger ≡ some l) × (b.client ≡ client)
      → settle_flush h (ok (hs, b)) ≡ ok b'
      → sent b'.world ≡ sent b.world
  unfolding settle_flush
  settle_flush-sent client l sent records base hs b b' k e =
      elim (Outcome-cases (handle_flush_authorization h b hs)) [
        | inl p ↦ absurd (ground arith)
        | inr (r, p) ↦
            ap sent (world-handle_flush_cache_update r.1 b' r.0 (ground arith))
            ∙ handle_flush_authorization-sent client l sent records base b r.1 hs r.0 k p
      ]

  -- A flush that ends without a panic has sent one transaction for each cached application, in the
  -- order of the cache, whatever the answers of 3scale.
  pub flush-sent :
      (client : Client W) (l : Logger W) (sent : W → List Transaction) (deque : IsDeque lane)
      (b b' : Backend W S Q) (entries : Dict Application) (fuel : ℕ)
      → Records client l sent
      → b.client ≡ client
      → b.logger ≡ some l
      → deque.to_list b.queue ≡ []
      → length entries ≤ deque.capacity b.queue
      → 2 * length entries < fuel
      → LocalCache.keys cmap b.cache ≡ keys entries
      → Holds cmap b.cache entries
      → AllReportable h (copies entries)
      → flush h fuel b ≡ some (ok b')
      → sent b'.world ≡ sent b.world ++ map transaction_of (copies entries)
  unfolding flush
  flush-sent client l sent deque b b' entries fuel records same logger empty room enough listed held
        reportable ran =
      let (q, queued, items, wide) =
        enqueue_cached_applications_lem h deque b entries listed held empty room in
      let (hs, b1, reported, (logger1, same1, told)) =
        handle_flush_reporting-sent client l sent records (sent b.world) deque fuel
          (record b { queue = q }) (omega (arith, ap length items, length-copies entries))
          (omega (arith, ap length items, length-copies entries))
          (logger, same, sym (append-nil (sent b.world))) (rw items reportable) in
      let whole : flush h fuel b ≡ some (settle_flush h (ok (hs, b1))) =
        ap (λ c. Option.map (settle_flush h) (handle_flush_reporting h fuel c)) queued
        ∙ ap (Option.map (settle_flush h)) reported in
      settle_flush-sent client l sent records (sent b.world) hs b1 b' (logger1, same1)
        (some_inj (settle_flush h (ok (hs, b1))) (ok b') (sym whole ∙ ran))
      ∙ told
      ∙ ap (λ x. sent b.world ++ map transaction_of x) items
