-- ===== src/Flush/Unlogged.antt =====
-- A flush of a backend without a logger, as `NewBackend` makes it, when the reports fail.
use mathlib.Core.Option
use scale_authorizer.Prelude.{
  String, ℕ, zero, suc, ◌≤◌, ◌<◌, Dict, true, none, some, List, [], ◌∷◌, ◌++◌, ◌≡◌, ap, ◌∙◌, arith,
  length, ◌==◌, eq_refl, Bool-cases, inl, inr,
}
use scale_authorizer.Prelude.Map.{keys}
use scale_authorizer.Prelude.Outcome.{panic}
use scale_authorizer.Api.{Request}
use scale_authorizer.Application.{Application}
use scale_authorizer.Adjust.{HandledApp}
use scale_authorizer.Host.{Client, IsDeque}
use scale_authorizer.LocalCache
use scale_authorizer.Queue
use scale_authorizer.Backend.{Host, Backend}
use scale_authorizer.Flush.{
  log_error, remote_report, report_grouped_apps, finish_batches, drain, handle_flush_reporting,
  report_request, snapshot_of,
}
use scale_authorizer.Flush.Settle.{settle_flush, flush}
use scale_authorizer.Flush.Draining.{AllReportable, shift_front, batch_service, drain_same}
use scale_authorizer.Flush.Enqueuing.{Holds, copies, length-copies, enqueue_cached_applications_lem}
use scale_authorizer.Flush.Outcomes.{is_error, prepare_apps-handled}

module _ {W S Q H : Type 0} (h : Host W S Q H) (client : Client W) (laws : IsDeque h.lane)
    (fails : (r : Request) (w : W) → is_error (client.report r w).0 ≡ true) where
  open h use {lane}

  abbrev Silent : Backend W S Q → Type 0
  Silent b = (b.logger ≡ none) × (b.client ≡ client)

  report_panics :
      (b : Backend W S Q) (service : String) (app : Application) (apps : List Application)
      → Silent b
      → AllReportable h (app ∷ apps)
      → report_grouped_apps h b service (app ∷ apps) ≡ panic
  unfolding report_grouped_apps remote_report log_error
  report_panics b service app apps (silent, same) r =
      let (ts, p) = prepare_apps-handled h (app ∷ apps) r in
      ground (arith, fails (report_request h service app.auth ts) b.world)

  AllReportable-snoc :
      (grouped : List Application) (x : Application)
      → AllReportable h grouped
      → AllReportable h (x ∷ [])
      → AllReportable h (grouped ++ x ∷ [])
  AllReportable-snoc [] x r rx = rx
  AllReportable-snoc (a ∷ grouped) x r rx = (r.0, AllReportable-snoc grouped x r.1 rx)

  -- The batch that has begun is the first to be reported.
  drain_panics :
      (f : ℕ) (b : Backend W S Q) (service : String) (first : Application)
      (grouped : List Application) (handled : List HandledApp) (items : List Application)
      → laws.to_list b.queue ≡ items
      → length items < f
      → Silent b
      → AllReportable h (first ∷ grouped)
      → AllReportable h items
      → drain h f b service (first ∷ grouped) handled ≡ some panic
  unfolding drain finish_batches Queue.is_empty Queue.prepend
  drain_panics zero b service first grouped handled items q m s rg ri = absurd (omega arith)
  drain_panics (suc f) b service first grouped handled [] q m s rg ri =
      let broken = report_panics b service first grouped s rg in
      ground (arith, laws.empty_lem b.queue)
  drain_panics (suc f) b service first grouped handled (x ∷ rest) q m s rg ri =
      let (full, shifts, left) = shift_front h laws b.queue x rest q in
      let q' = (lane.shift b.queue).0 in
      let svc = batch_service h service x in
      elim (Bool-cases (x.owned_by == svc)) [
        | inl same ↦
            drain_same h laws f b service (first ∷ grouped) handled x rest q same
            ∙ drain_panics f (record b { queue = q' }) svc first (grouped ++ x ∷ []) handled rest
                left (omega arith) s (AllReportable-snoc (first ∷ grouped) x rg (ri.0, tt)) ri.1
        | inr other ↦ rw (
          full,
          drain,
          shifts,
          drain,
          other,
          drain,
          report_panics (record b { queue = (lane.prepend q' x).0 }) svc first grouped s rg,
        )
      ]

  -- If a backend has no logger, no report to 3scale succeeds, and the empty queue has room for the
  -- cached applications, of which there is at least one and whose deltas can be computed, then the
  -- flush panics.
  pub flush_unlogged :
      (b : Backend W S Q) (key : String) (app : Application) (entries : Dict Application) (fuel : ℕ)
      → b.logger ≡ none
      → b.client ≡ client
      → laws.to_list b.queue ≡ []
      → suc (length entries) ≤ laws.capacity b.queue
      → suc (length entries) < fuel
      → LocalCache.keys h.cmap b.cache ≡ key ∷ keys entries
      → Holds h.cmap b.cache ((key, app) ∷ entries)
      → AllReportable h (copies ((key, app) ∷ entries))
      → flush h fuel b ≡ some panic
  unfolding flush settle_flush handle_flush_reporting
  flush_unlogged b key app entries (suc f) silent same empty room enough listed held reportable =
      let (q, queued, items, wide) =
        enqueue_cached_applications_lem h laws b ((key, app) ∷ entries) listed held empty room in
      let c : Backend W S Q = record b { queue = q } in
      let x = snapshot_of key app in
      let (full, shifts, left) = shift_front h laws q x (copies entries) items in
      ap (λ c'. Option.map (settle_flush h) (handle_flush_reporting h (suc f) c')) queued
      ∙ ap (Option.map (settle_flush h)) (
          drain_same h laws f c "" [] [] x (copies entries) items (eq_refl x.owned_by)
          ∙ drain_panics f (record c { queue = (lane.shift q).0 }) x.owned_by x [] []
              (copies entries) left (omega (arith, length-copies entries)) (silent, same)
              (reportable.0, tt) reportable.1)
  flush_unlogged b key app entries zero silent same empty room enough listed held reportable =
      absurd (omega arith)
