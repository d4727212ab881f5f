-- ===== src/Flush/Overflow.antt =====
-- `enqueueCachedApplications` with more cached applications than the queue has room for.
use scale_authorizer.Prelude.{
  ℕ, zero, suc, ◌+◌, Dict, [], ◌∷◌, ◌++◌, ◌≡◌, refl, ap, sym, ◌∙◌, arith, length, length-append,
  take,
}
use mathlib.Core.List.{append-nil, append_assoc}
use scale_authorizer.Prelude.Map.{keys}
use scale_authorizer.Application.{Application}
use scale_authorizer.Host.{IsDeque}
use scale_authorizer.LocalCache
use scale_authorizer.Backend.{Host, Backend}
use scale_authorizer.Flush.{snapshot_of, enqueue_keys, enqueue_cached_applications}
use scale_authorizer.Flush.Enqueuing.{Holds, copies, enqueue_lem}

module _ {W S Q H : Type 0} (h : Host W S Q H) (laws : IsDeque h.lane) where
  open h use {cmap, lane}

  -- Of the copies as many as there is room for are queued.
  enqueue_keys-take :
      (b : Backend W S Q) (entries : Dict Application) (room : ℕ)
      → Holds cmap b.cache entries
      → length (laws.to_list b.queue) + room ≡ laws.capacity b.queue
      → (q : Q) × (enqueue_keys h b (keys entries) ≡ record b { queue = q })
        × (laws.to_list q ≡ laws.to_list b.queue ++ take room (copies entries))
  unfolding enqueue_keys
  enqueue_keys-take b [] zero held room = (b.queue, refl, sym (append-nil (laws.to_list b.queue)))
  enqueue_keys-take b [] (suc r) held room =
      (b.queue, refl, sym (append-nil (laws.to_list b.queue)))
  enqueue_keys-take b ((k, app) ∷ entries) zero held room =
      let q1 = (lane.append b.queue (snapshot_of k app)).0 in
      let same : laws.to_list q1 ≡ laws.to_list b.queue =
        laws.append_full b.queue (snapshot_of k app) (omega arith) in
      let wide = laws.capacity-append b.queue (snapshot_of k app) in
      let (q, run, listed) =
        enqueue_keys-take (record b { queue = q1 }) entries zero held.1
          (omega (arith, ap length same)) in
      (
        q,
        ap (λ c. enqueue_keys h c (keys entries)) (enqueue_lem h laws b k app held.0) ∙ run,
        listed ∙ ap (λ l. l ++ []) same,
      )
  enqueue_keys-take b ((k, app) ∷ entries) (suc room) held fits =
      let copy = snapshot_of k app in
      let q1 = (lane.append b.queue copy).0 in
      let grown : laws.to_list q1 ≡ laws.to_list b.queue ++ copy ∷ [] =
        laws.to_list-append b.queue copy (omega arith) in
      let wide = laws.capacity-append b.queue copy in
      let (q, run, listed) =
        enqueue_keys-take (record b { queue = q1 }) entries room held.1
          (omega (arith, ap length grown, length-append (laws.to_list b.queue) (copy ∷ []))) in
      (
        q,
        ap (λ c. enqueue_keys h c (keys entries)) (enqueue_lem h laws b k app held.0) ∙ run,
        listed
            ∙ rw grown
                (append_assoc (laws.to_list b.queue) (copy ∷ []) (take room (copies entries))),
      )

  -- An empty queue takes the copies of the cached applications in the order of the keys until it is
  -- full; the other applications are left out of the flush without an error.
  pub enqueue_cached_applications-take :
      (b : Backend W S Q) (entries : Dict Application)
      → LocalCache.keys cmap b.cache ≡ keys entries
      → Holds cmap b.cache entries
      → laws.to_list b.queue ≡ []
      → (q : Q) × (enqueue_cached_applications h b ≡ record b { queue = q })
        × (laws.to_list q ≡ take (laws.capacity b.queue) (copies entries))
  unfolding enqueue_cached_applications
  enqueue_cached_applications-take b entries listed held empty =
      let (q, run, after) =
        enqueue_keys-take b entries (laws.capacity b.queue) held (omega (arith, ap length empty)) in
      (q, ap (enqueue_keys h b) listed ∙ run, after ∙ rw empty refl)
