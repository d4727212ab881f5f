-- ===== src/Flush/Outage.antt =====
-- A flush while 3scale is out of reach.
use scale_authorizer.Prelude.{
  ℕ, ◌*◌, ◌≤◌, ◌<◌, Dict, true, some, List, [], ◌∷◌, map, ◌≡◌, refl, ap, inl, ◌∙◌, length,
}
use scale_authorizer.Prelude.Map.{keys}
use scale_authorizer.Prelude.Outcome.{ok}
use scale_authorizer.Api.{Request, AuthorizeResult, Reply, Error}
use scale_authorizer.Application.{Application}
use scale_authorizer.Host.{Client, Logger, IsDeque}
use scale_authorizer.LocalCache
use scale_authorizer.Backend.{Host, Backend, get_empty_auth_request}
use scale_authorizer.Flush.Settle.{flush, update_cached, handle_flush_cache_update}
use scale_authorizer.Flush.Draining.{AllReportable}
use scale_authorizer.Flush.Enqueuing.{Holds, copies}
use scale_authorizer.Flush.Outcomes.{IsSteady, authorized_as}
use scale_authorizer.Flush.Phases.{flush_phases}

-- A flush that loses both calls of every application.
module _ {W S Q H : Type 0} (h : Host W S Q H) (client : Client W) (l : Logger W)
    (deque : IsDeque h.lane) (reply : Request → Reply AuthorizeResult)
    (steady : IsSteady client true reply)
    (refuses : (r : Request) → (e : Error) × ((reply r).error ≡ some e)) where
  open h use {cmap, lane}

  lost_update :
      (b : Backend W S Q) (apps : List Application)
      → handle_flush_cache_update h b (map (authorized_as h true reply) apps) ≡ ok b
  unfolding handle_flush_cache_update update_cached
  lost_update b [] = refl
  lost_update b (app ∷ apps) =
      let request = get_empty_auth_request h.lib app.owned_by app.auth app.params in
      rw (refuses request).1 (lost_update b apps)

  -- The backend is as before, but for the world and the queue, which is empty again.
  abbrev pub IsIntact : Backend W S Q → Backend W S Q → Type 0
  IsIntact b b' =
      (b'.logger ≡ some l)
      × (b'.client ≡ client)
      × (b'.cache ≡ b.cache)
      × (deque.to_list b'.queue ≡ [])
      × (deque.capacity b'.queue ≡ deque.capacity b.queue)

  -- If every call to 3scale fails, a flush ends without a panic and leaves the cache as it was, as
  -- long as the logger is there, the queue is empty and has room for the
  -- cached applications, and the deltas of each can be computed. The queue is empty again.
  pub flush_outage :
      (b : Backend W S Q) (entries : Dict Application) (fuel : ℕ)
      → IsIntact b b
      → length entries ≤ deque.capacity b.queue
      → 2 * length entries < fuel
      → LocalCache.keys cmap b.cache ≡ keys entries
      → Holds cmap b.cache entries
      → AllReportable h (copies entries)
      → (b' : Backend W S Q) × (flush h fuel b ≡ some (ok b')) × IsIntact b b'
  flush_outage b entries fuel (logger, same, _, empty, _) room enough listed held reportable =
      let (b2, run, (logger2, same2, cache2), empty2, wide2) =
        flush_phases h client true reply steady (some l) (inl (l, refl)) deque b entries fuel
          (logger, same) empty room enough listed held reportable in
      (b2, run ∙ ap some (lost_update b2 (copies entries)), (logger2, same2, cache2, empty2, wide2))
