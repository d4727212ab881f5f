-- ===== src/Flush/Reporting.antt =====
-- The first half of a flush: every queued application is reported once, in the order of the queue.
use scale_authorizer.Prelude.{
  String, ℕ, ◌*◌, ◌≤◌, ◌<◌, false, none, some, List, [], ◌∷◌, ◌++◌, map, ◌≡◌, refl, ap, ◌∙◌, arith,
  Bool-cases, inl, inr, length,
}
use mathlib.Core.List.{map-append}
use scale_authorizer.Prelude.Outcome.{ok}
use scale_authorizer.Api.{Transaction}
use scale_authorizer.Application.{Application}
use scale_authorizer.Adjust.{HandledApp}
use scale_authorizer.Host.{Logger, IsDeque}
use scale_authorizer.Backend.{Host, Backend}
use scale_authorizer.Flush.{
  log_error, remote_report, prepare_apps, report_request, mark_failed, report_grouped_apps,
  handle_flush_reporting,
}
use scale_authorizer.Flush.Draining.{AllReportable, Batch, drain_lem}

abbrev pub snapshots : List HandledApp → List Application
snapshots = map (λ app. app.snapshot)

snapshots-mark_failed : (hs : List HandledApp) → snapshots (mark_failed hs) ≡ snapshots hs
unfolding mark_failed
snapshots-mark_failed [] = refl
snapshots-mark_failed (a ∷ hs) = ap (◌∷◌ a.snapshot) (snapshots-mark_failed hs)

-- The handled applications are these, in their order.
abbrev Snapshots : List HandledApp → List Application → Type 0
Snapshots hs apps = snapshots hs ≡ apps

Snapshots-append :
    (hs hs' : List HandledApp) (apps apps' : List Application)
    → Snapshots hs apps
    → Snapshots hs' apps'
    → Snapshots (hs ++ hs') (apps ++ apps')
Snapshots-append hs hs' apps apps' e e' = map-append _ hs hs' ∙ rw (e, e')

module _ {W S Q H : Type 0} (h : Host W S Q H) where
  open h use {lane, lib}

  prepare_apps_lem :
      (apps : List Application)
      → AllReportable h apps
      → (ts : List Transaction) × (hs : List HandledApp) × (prepare_apps h apps ≡ ok (ts, hs))
        × (snapshots hs ≡ apps)
  unfolding prepare_apps
  prepare_apps_lem [] r = ([], [], refl, refl)
  prepare_apps_lem (app ∷ apps) ((d, e), r) =
      let (ts, hs, p, s) = prepare_apps_lem apps r in
      (
        record { metrics = some d; params = app.params; timestamp = app.timestamp } ∷ ts,
        record {
          snapshot = app;
          reporting_err = false;
          auth_err = false;
          auth_resp = none;
          deltas = d;
        }
            ∷ hs,
        rw (e, p),
        ap (◌∷◌ app) s,
      )

  report_grouped_apps_lem :
      (l : Logger W) (b : Backend W S Q) (service : String) (apps : List Application)
      → b.logger ≡ some l
      → AllReportable h apps
      → Batch h
          (λ done b'. b'.logger ≡ some l)
          Snapshots
          b
          []
          apps
          (report_grouped_apps h b service apps)
  unfolding report_grouped_apps remote_report log_error
  report_grouped_apps_lem l b service [] e r = ([], b, refl, refl, refl, e)
  report_grouped_apps_lem l b service (app ∷ apps) e r =
      let (ts, hs, p, s) = prepare_apps_lem (app ∷ apps) r in
      let request = report_request h service app.auth ts in
      let b1 = (remote_report h b request).1 in
      elim (Bool-cases (remote_report h b request).0) [
        | inl failed ↦ (
          mark_failed hs,
          record b1 { world = l.errorf "report failed" b1.world },
          ground arith,
          snapshots-mark_failed hs ∙ s,
          refl,
          e,
        )
        | inr passed ↦ (hs, b1, ground arith, s, refl, e)
      ]

  module _ (laws : IsDeque lane) where
    -- If the logger is there and the deltas of every queued application can be computed, enough
    -- fuel ends the loop without a panic, and the handled applications are those of the queue, each
    -- once and in its order. Twice the number of items, and one more, is enough.
    pub handle_flush_reporting_lem :
        (fuel : ℕ) (b : Backend W S Q) (l : Logger W)
        → length (laws.to_list b.queue) ≤ laws.capacity b.queue
        → 2 * length (laws.to_list b.queue) < fuel
        → b.logger ≡ some l
        → AllReportable h (laws.to_list b.queue)
        → (hs : List HandledApp) × (b' : Backend W S Q) × (handle_flush_reporting h fuel b
            ≡ some (ok (hs, b')))
          × (snapshots hs ≡ laws.to_list b.queue)
    unfolding handle_flush_reporting
    handle_flush_reporting_lem fuel b l c m e r =
        let (hs, b', p, s, _, _, _) =
          drain_lem h laws (λ done b'. b'.logger ≡ some l) Snapshots (λ done b' q k. k)
            Snapshots-append (λ before. report_grouped_apps_lem l) fuel b "" [] [] []
            (laws.to_list b.queue) refl c (omega arith) e refl tt r in
        (hs, b', p, s)
