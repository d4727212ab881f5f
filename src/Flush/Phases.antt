-- ===== src/Flush/Phases.antt =====
-- The phases of `flush` up to the update of the cache, where 3scale behaves in one way throughout.
use mathlib.Core.Option
use scale_authorizer.Prelude.{
  ℕ, ◌*◌, ◌≤◌, ◌<◌, Dict, Bool, Option, some, List, [], map, ◌≡◌, refl, ap, ◌∙◌, arith, length,
}
use scale_authorizer.Prelude.Map.{keys}
use scale_authorizer.Prelude.Outcome.{ok}
use scale_authorizer.Api.{Request, AuthorizeResult, Reply}
use scale_authorizer.Application.{Application}
use scale_authorizer.Adjust.{HandledApp}
use scale_authorizer.Host.{Client, Logger, IsDeque}
use scale_authorizer.LocalCache
use scale_authorizer.Backend.{Host, Backend}
use scale_authorizer.Flush.{handle_flush_reporting}
use scale_authorizer.Flush.Settle.{
  handle_flush_authorization, handle_flush_cache_update, settle_flush, flush,
}
use scale_authorizer.Flush.Draining.{AllReportable}
use scale_authorizer.Flush.Enqueuing.{Holds, copies, length-copies, enqueue_cached_applications_lem}
use scale_authorizer.Flush.Outcomes.{
  IsSteady, CanLog, Kept, handled_as, authorized_as, reporting_lem, handle_flush_authorization_lem,
}

module _ {W S Q H : Type 0} (h : Host W S Q H) where
  open h use {cmap, lane}

  settle_flush_lem :
      (hs hs' : List HandledApp) (b1 b2 : Backend W S Q)
      → handle_flush_authorization h b1 hs ≡ ok (hs', b2)
      → settle_flush h (ok (hs, b1)) ≡ handle_flush_cache_update h b2 hs'
  unfolding settle_flush
  settle_flush_lem hs hs' b1 b2 e = ground arith

  -- Every cached application comes to the update with the outcomes of both calls, the queue is
  -- empty again, and the cache has not changed until then.
  pub flush_phases :
      (client : Client W) (failed : Bool) (reply : Request → Reply AuthorizeResult)
      (steady : IsSteady client failed reply) (logger : Option (Logger W))
      (log : CanLog logger failed reply) (deque : IsDeque lane) (b : Backend W S Q)
      (entries : Dict Application) (fuel : ℕ)
      → (b.logger ≡ logger) × (b.client ≡ client)
      → deque.to_list b.queue ≡ []
      → length entries ≤ deque.capacity b.queue
      → 2 * length entries < fuel
      → LocalCache.keys cmap b.cache ≡ keys entries
      → Holds cmap b.cache entries
      → AllReportable h (copies entries)
      → (b2 : Backend W S Q) × (flush h fuel b
          ≡ some (
              handle_flush_cache_update h b2 (map (authorized_as h failed reply) (copies entries))))
        × Kept h client failed reply steady logger log b.cache b2
        × (deque.to_list b2.queue ≡ [])
        × (deque.capacity b2.queue ≡ deque.capacity b.queue)
  unfolding flush
  flush_phases client failed reply steady logger log deque b entries fuel (kept, same) empty room
        enough listed held reportable =
      let (q, queued, items, wide) =
        enqueue_cached_applications_lem h deque b entries listed held empty room in
      let (b1, reported, k1, empty1, wide1) =
        reporting_lem h client failed reply steady logger log b.cache deque fuel
          (record b { queue = q }) (omega (arith, ap length items, length-copies entries))
          (omega (arith, ap length items, length-copies entries)) (kept, same, refl)
          (rw items reportable) in
      let (b2, authorized, k2, queue) =
        handle_flush_authorization_lem h client failed reply steady logger log b.cache b1
          (copies entries) k1 in
      (
        b2,
        ap (λ c. Option.map (settle_flush h) (handle_flush_reporting h fuel c)) queued
            ∙ ap (Option.map (settle_flush h)) reported
            ∙ ap (λ apps. some (settle_flush h (ok (map (handled_as h failed) apps, b1)))) items
            ∙ ap some (
                settle_flush_lem (map (handled_as h failed) (copies entries))
                  (map (authorized_as h failed reply) (copies entries)) b1 b2 authorized),
        k2,
        ap deque.to_list queue ∙ empty1,
        ap deque.capacity queue ∙ wide1 ∙ wide,
      )
