-- ===== src/Flush/Enqueuing.antt =====
-- `enqueueCachedApplications`: the copies of the cached applications in the queue.
use scale_authorizer.Prelude.{
  String, suc, ◌+◌, ◌≤◌, Dict, some, List, [], ◌∷◌, ◌++◌, ◌≡◌, refl, ap, sym, ◌∙◌, arith, length,
  length-append,
}
use mathlib.Core.List.{append-nil, append_assoc}
use scale_authorizer.Prelude.Map.{keys}
use scale_authorizer.Application.{Application}
use scale_authorizer.Host.{ConcurrentMap, IsDeque}
use scale_authorizer.LocalCache
use scale_authorizer.Queue
use scale_authorizer.Backend.{Host, Backend}
use scale_authorizer.Flush.{snapshot_of, enqueue, enqueue_keys, enqueue_cached_applications}

-- The store has these entries.
abbrev pub Holds : {S : Type 0} → ConcurrentMap S Application → S → Dict Application → Type 0
Holds cmap s [] = Unit {0}
Holds cmap s ((k, app) ∷ entries) = (cmap.get s k ≡ some app) × Holds cmap s entries

-- The copies of the entries, in their order.
abbrev pub copies : Dict Application → List Application
copies [] = []
copies ((k, app) ∷ entries) = snapshot_of k app ∷ copies entries

pub length-copies : (entries : Dict Application) → length (copies entries) ≡ length entries
length-copies [] = refl
length-copies (e ∷ entries) = ap suc (length-copies entries)

module _ {W S Q H : Type 0} (h : Host W S Q H) where
  open h use {cmap, lane}

  module _ (laws : IsDeque lane) where
    pub enqueue_lem :
        (b : Backend W S Q) (k : String) (app : Application)
        → cmap.get b.cache k ≡ some app
        → enqueue h b k (LocalCache.get cmap b.cache k)
          ≡ record b { queue = (lane.append b.queue (snapshot_of k app)).0 }
    unfolding enqueue LocalCache.get Queue.append
    enqueue_lem b k app e = ground arith

    enqueue_keys_lem :
        (b : Backend W S Q) (entries : Dict Application)
        → Holds cmap b.cache entries
        → length (laws.to_list b.queue) + length entries ≤ laws.capacity b.queue
        → (q : Q) × (enqueue_keys h b (keys entries) ≡ record b { queue = q })
          × (laws.to_list q ≡ laws.to_list b.queue ++ copies entries)
          × (laws.capacity q ≡ laws.capacity b.queue)
    unfolding enqueue_keys
    enqueue_keys_lem b [] held room = (b.queue, refl, sym (append-nil (laws.to_list b.queue)), refl)
    enqueue_keys_lem b ((k, app) ∷ entries) held room =
        let q1 = (lane.append b.queue (snapshot_of k app)).0 in
        let grown : laws.to_list q1 ≡ laws.to_list b.queue ++ snapshot_of k app ∷ [] =
          laws.to_list-append b.queue (snapshot_of k app) (omega arith) in
        let wide = laws.capacity-append b.queue (snapshot_of k app) in
        let (q, run, listed, cap) =
          enqueue_keys_lem (record b { queue = q1 }) entries held.1
            (omega (
              arith,
              ap length grown,
              length-append (laws.to_list b.queue) (snapshot_of k app ∷ []),
            )) in
        (
          q,
          ap (λ c. enqueue_keys h c (keys entries)) (enqueue_lem b k app held.0) ∙ run,
          listed
              ∙ rw grown
                  (append_assoc (laws.to_list b.queue) (snapshot_of k app ∷ []) (copies entries)),
          cap ∙ wide,
        )

    -- On an empty queue with room for all of them, the copies of the cached applications are queued
    -- in the order of the keys, and the rest of the backend is as before.
    pub enqueue_cached_applications_lem :
        (b : Backend W S Q) (entries : Dict Application)
        → LocalCache.keys cmap b.cache ≡ keys entries
        → Holds cmap b.cache entries
        → laws.to_list b.queue ≡ []
        → length entries ≤ laws.capacity b.queue
        → (q : Q) × (enqueue_cached_applications h b ≡ record b { queue = q })
          × (laws.to_list q ≡ copies entries)
          × (laws.capacity q ≡ laws.capacity b.queue)
    unfolding enqueue_cached_applications
    enqueue_cached_applications_lem b entries listed held empty room =
        let (q, run, after, cap) =
          enqueue_keys_lem b entries held (omega (arith, ap length empty)) in
        (q, ap (enqueue_keys h b) listed ∙ run, after ∙ rw empty refl, cap)
