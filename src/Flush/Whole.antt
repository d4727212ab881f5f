-- ===== src/Flush/Whole.antt =====
-- A whole flush, where 3scale behaves in one way throughout it and no request comes between.
use scale_authorizer.Prelude.{
  String, ℕ, ◌*◌, ◌≤◌, ◌<◌, Dict, Bool, false, Option, none, some, [], ◌∷◌, map, ◌≡◌, refl, ap, ◌∙◌,
  arith, length, if◌then◌else◌, ◌==◌, ◌&&◌, eq_iff, inl, inr, Bool-cases,
}
use scale_authorizer.Prelude.Map.{get, keys, IsMap}
use scale_authorizer.Prelude.Outcome.{Outcome, ok}
use scale_authorizer.Api.{Request, AuthorizeResult, Reply}
use scale_authorizer.Application.{Application, get_cache_key}
use scale_authorizer.Adjust.{HandledApp}
use scale_authorizer.Host.{Client, Logger, IsConcurrentMap, IsDeque}
use scale_authorizer.LocalCache
use scale_authorizer.Backend.{Host, Backend, set_in_cache}
use scale_authorizer.Flush.{snapshot_of}
use scale_authorizer.Flush.Settle.{updated_entry, update_cached, handle_flush_cache_update, flush}
use scale_authorizer.Flush.Draining.{AllReportable}
use scale_authorizer.Flush.Enqueuing.{Holds, copies}
use scale_authorizer.Flush.Phases.{flush_phases}
use scale_authorizer.Flush.Outcomes.{IsSteady, CanLog, authorized_as}

-- Every key is that of the copy that is queued under it.
abbrev pub IsKeyed : Dict Application → Type 0
IsKeyed [] = Unit {0}
IsKeyed ((k, app) ∷ entries) = (get_cache_key (snapshot_of k app) ≡ k) × IsKeyed entries

module _ {W S Q H : Type 0} (h : Host W S Q H) (failed : Bool)
    (reply : Request → Reply AuthorizeResult) where
  open h use {cmap, lane, lib, zone}

  -- The cached application of a key on its way through the flush.
  abbrev pub flushed : String → Application → HandledApp
  flushed k app = authorized_as h failed reply (snapshot_of k app)

  -- What the flush makes of a cached application: nothing, where both calls fail.
  abbrev pub settled_entry : String → Application → Outcome Application
  settled_entry k app =
      if (flushed k app).reporting_err && (flushed k app).auth_err
      then ok app
      else updated_entry h (flushed k app) app

  -- The update of every application succeeds.
  abbrev pub Settles : (String → Application → Application) → Dict Application → Type 0
  Settles after [] = Unit {0}
  Settles after ((k, app) ∷ entries) =
      (settled_entry k app ≡ ok (after k app)) × Settles after entries

  module _ (after : String → Application → Application) where
    abbrev pub replaced : String → Option Application → Option Application → Option Application
    replaced k none before = before
    replaced k (some app) before = some (after k app)

    module _ (laws : IsConcurrentMap cmap) where
      update_cached_lem :
          (b : Backend W S Q) (k : String) (app : Application)
          → get_cache_key (snapshot_of k app) ≡ k
          → cmap.get b.cache k ≡ some app
          → settled_entry k app ≡ ok (after k app)
          → (b' : Backend W S Q) × (update_cached h b (flushed k app) ≡ ok b')
            × ((j : String)
                → cmap.get b'.cache j ≡ (if k == j then some (after k app) else cmap.get b.cache j))
      unfolding update_cached LocalCache.get set_in_cache
      update_cached_lem b k app keyed here settles =
          elim (Bool-cases ((flushed k app).reporting_err && (flushed k app).auth_err)) [
            | inl lost ↦ (b, ground arith, λ j. ground (arith, eq_iff k j))
            | inr told ↦ (
              set_in_cache h b k (after k app),
              ground arith,
              λ j. laws.get-set b.cache k j (after k app),
            )
          ]

      Holds-changed :
          (s s' : S) (k : String) (entries : Dict Application)
          → get k entries ≡ none
          → ((j : String) → (k == j) ≡ false → cmap.get s' j ≡ cmap.get s j)
          → Holds cmap s entries
          → Holds cmap s' entries
      unfolding get
      Holds-changed s s' k [] fresh same held = tt
      Holds-changed s s' k ((j, app) ∷ entries) fresh same held =
          ground (arith, eq_iff j k, eq_iff k j, same j, Holds-changed s s' k entries)

      handle_flush_cache_update_lem :
          (b : Backend W S Q) (entries : Dict Application)
          → IsMap entries
          → IsKeyed entries
          → Holds cmap b.cache entries
          → Settles after entries
          → (b' : Backend W S Q) × (handle_flush_cache_update h b
                (map (authorized_as h failed reply) (copies entries))
              ≡ ok b')
            × ((j : String) → cmap.get b'.cache j ≡ replaced j (get j entries) (cmap.get b.cache j))
      unfolding handle_flush_cache_update get
      handle_flush_cache_update_lem b [] m keyed held settles = (b, refl, λ j. refl)
      handle_flush_cache_update_lem b ((k, app) ∷ entries) m keyed held settles =
          let (b1, p, own) = update_cached_lem b k app keyed.0 held.0 settles.0 in
          let (b2, q, rest) =
            handle_flush_cache_update_lem b1 entries m.1 keyed.1
              (Holds-changed b.cache b1.cache k entries m.0 (λ j e. own j ∙ rw e) held.1)
              settles.1 in
          (b2, ground arith, λ j. rest j ∙ ground (arith, own j, eq_iff k j))

    -- If 3scale behaves in one way throughout, there is a logger if any call fails, the queue is empty and has room for the cached
    -- applications, the deltas of each can be computed and the update of each succeeds, then enough
    -- fuel ends the flush without a panic, and each cached application is replaced by its update.
    pub flush_lem :
        (client : Client W) (log : Option (Logger W)) (laws : IsConcurrentMap cmap)
        (deque : IsDeque lane) (b : Backend W S Q) (entries : Dict Application) (fuel : ℕ)
        → IsSteady client failed reply
        → CanLog log failed reply
        → b.client ≡ client
        → b.logger ≡ log
        → deque.to_list b.queue ≡ []
        → length entries ≤ deque.capacity b.queue
        → 2 * length entries < fuel
        → LocalCache.keys cmap b.cache ≡ keys entries
        → IsMap entries
        → Holds cmap b.cache entries
        → IsKeyed entries
        → AllReportable h (copies entries)
        → Settles after entries
        → (b' : Backend W S Q) × (flush h fuel b ≡ some (ok b'))
          × ((j : String) → cmap.get b'.cache j ≡ replaced j (get j entries) (cmap.get b.cache j))
    flush_lem client log laws deque b entries fuel steady heard same logger empty room enough listed
          m held keyed reportable settles =
        let (b2, run, k2, _, _) =
          flush_phases h client failed reply steady log heard deque b entries fuel (logger, same)
            empty room enough listed held reportable in
        let (b3, updated, after_update) =
          handle_flush_cache_update_lem laws b2 entries m keyed (rw k2.2 held) settles in
        (b3, run ∙ ap some updated, λ j. after_update j ∙ rw k2.2 refl)
