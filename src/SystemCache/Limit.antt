-- ===== src/SystemCache/Limit.antt =====
-- The number of entries of `ConfigCache`, whatever is done with it.
use scale_authorizer.Prelude.{
  String, ℕ, zero, ℤ, pos, ◌≤ℤ◌, ◌<ℤ◌, Option, some, suc, List, [], ◌∷◌, ◌≡◌, refl, arith, ◌⊎◌, inl,
  inr,
}
use scale_authorizer.Prelude.Outcome.{ok, Outcome-cases}
use scale_authorizer.Api.{Error}
use scale_authorizer.Host.{ConcurrentMap, CountsEntries, new_ticker}
use scale_authorizer.SystemCache.{
  Value, ConfigCache, new_config_cache, new_default_config_cache, has_room, with_expiry, set_value,
  delete, delete_all, flush_expired, expired_keys, renewed, set_all, refresh, run_refresh_worker,
}

ℕ-cases : (n : ℕ) → (n ≡ 0) ⊎ ((m : ℕ) × (n ≡ suc m))
ℕ-cases zero = inl refl
ℕ-cases (suc m) = inr (m, refl)

module _ {W S C : Type 0} (cmap : ConcurrentMap S (Value W C)) where
  -- No more entries than the limit, if there is one.
  abbrev pub WithinLimit : ConfigCache S → Type 0
  WithinLimit c = (c.limit <ℤ pos 0) ⊎ (pos (cmap.count c.cache) ≤ℤ c.limit)

  -- What the program and its users do with a cache.
  pub data Step : ConfigCache S → ConfigCache S → Type 0 where
    set_step :
        (now : ℤ) (c : ConfigCache S) (key : String) (v : Value W C)
        → Step c (set_value cmap now c key v).1
    delete_step : (c : ConfigCache S) (key : String) → Step c (delete cmap c key)
    flush_step : (now : String → ℤ) (c : ConfigCache S) → Step c (flush_expired cmap now c)
    refresh_step :
        (now : String → ℤ) (later : ℤ) (c : ConfigCache S) (world : W)
        → Step c (refresh cmap now later c world).0
    start_step :
        (c c' : ConfigCache S) (interval : ℤ) (channel : ℕ) (answer : Option Error)
        → run_refresh_worker cmap c interval channel ≡ ok (answer, c')
        → Step c c'

  pub data Reachable : ConfigCache S → Type 0 where
    built : (ttl max_entries : ℤ) → Reachable (new_config_cache cmap ttl max_entries)
    built_default : Reachable (new_default_config_cache cmap)
    next : (c c' : ConfigCache S) → Step c c' → Reachable c → Reachable c'

  module _ (laws : CountsEntries cmap) where
    set_value-WithinLimit :
        (now : ℤ) (c : ConfigCache S) (key : String) (v : Value W C)
        → WithinLimit c
        → WithinLimit (set_value cmap now c key v).1
    unfolding set_value has_room
    set_value-WithinLimit now c key v h =
        ground (arith, laws.count-set c.cache key (with_expiry cmap now c v))

    delete-WithinLimit :
        (c : ConfigCache S) (key : String) → WithinLimit c → WithinLimit (delete cmap c key)
    unfolding delete
    delete-WithinLimit c key h = ground (arith, laws.count-remove c.cache key)

    delete_all-WithinLimit :
        (ks : List String) (c : ConfigCache S) → WithinLimit c → WithinLimit (delete_all cmap ks c)
    unfolding delete_all
    delete_all-WithinLimit [] c h = h
    delete_all-WithinLimit (k ∷ ks) c h =
        delete_all-WithinLimit ks (delete cmap c k) (delete-WithinLimit c k h)

    set_all-WithinLimit :
        (now : ℤ) (items : List (String × Value W C)) (c : ConfigCache S)
        → WithinLimit c
        → WithinLimit (set_all cmap now items c)
    unfolding set_all
    set_all-WithinLimit now [] c h = h
    set_all-WithinLimit now ((k, v) ∷ items) c h =
        set_all-WithinLimit now items (set_value cmap now c k v).1
          (set_value-WithinLimit now c k v h)

    run_refresh_worker-WithinLimit :
        (c c' : ConfigCache S) (interval : ℤ) (channel : ℕ) (answer : Option Error)
        → run_refresh_worker cmap c interval channel ≡ ok (answer, c')
        → WithinLimit c
        → WithinLimit c'
    unfolding run_refresh_worker
    run_refresh_worker-WithinLimit c c' interval channel answer e h =
        elim (ℕ-cases c.refresh_worker_running) [
          | inl p ↦ elim (Outcome-cases (new_ticker interval)) [
            | inl q ↦ absurd (ground arith)
            | inr (t, q) ↦
                let now : c'
                    ≡ record c { refresh_worker_running = 1; stop_refresh_worker = some channel } =
                  ground arith in
                rw now h
          ]
          | inr (n, p) ↦ let now : c' ≡ c = ground arith in rw now h
        ]

    Step-WithinLimit : (c c' : ConfigCache S) → Step c c' → WithinLimit c → WithinLimit c'
    unfolding flush_expired refresh
    Step-WithinLimit c c' (set_step now _ key v) h = set_value-WithinLimit now c key v h
    Step-WithinLimit c c' (delete_step _ key) h = delete-WithinLimit c key h
    Step-WithinLimit c c' (flush_step now _) h =
        delete_all-WithinLimit (expired_keys now (cmap.entries c.cache)) c h
    Step-WithinLimit c c' (refresh_step now later _ world) h =
        set_all-WithinLimit later (renewed cmap now c (cmap.entries c.cache) world).0 c h
    Step-WithinLimit c c' (start_step _ _ interval channel answer started) h =
        run_refresh_worker-WithinLimit c c' interval channel answer started h

    -- Whatever is set, deleted, flushed or refreshed, a cache that was built with a limit never
    -- holds more entries than that.
    pub Reachable-WithinLimit : (c : ConfigCache S) → Reachable c → WithinLimit c
    unfolding new_config_cache new_default_config_cache
    Reachable-WithinLimit c (built ttl max_entries) = ground (arith, laws.count-new)
    Reachable-WithinLimit c built_default = ground arith
    Reachable-WithinLimit c (next c0 _ s r) = Step-WithinLimit c0 c s (Reachable-WithinLimit c0 r)
