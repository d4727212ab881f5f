-- ===== src/Manager/Configurations.antt =====
-- What `GetSystemConfiguration` answers, and what it leaves in the cache.
use scale_authorizer.Prelude.{
  ℕ, String, ℤ, pos, ◌+ℤ◌, ◌<ℤ◌, true, none, some, ◌≡◌, refl, arith, ap, ◌∙◌, sym, eq_of_parts,
  +ℤ_parts, eq_refl,
}
use mathlib.Core.Option.{Option}
use mathlib.Core.Option
use scale_authorizer.Api.{Error, success, failure}
use scale_authorizer.Host.{ConcurrentMap, IsConcurrentMap}
use scale_authorizer.SystemCache.{
  Value, ConfigCache, get_value, has_room, with_expiry, set_value, is_zero, is_expired,
  new_config_cache, get_expiry_time, default_cache_ttl,
}
use scale_authorizer.Manager.{
  SystemRequest, SystemCacheConfig, SystemCache, system, Heap, Builder, Manager,
  validate_system_request, generate_system_cache_key, wrapped, fetch_system_config_remotely,
  new_system_cache,
}
use scale_authorizer.Manager.Lookup.{
  set_value_from_config, fetch_system_config_from_cache, get_system_configuration,
}

module _ {W S C : Type 0} (builder : Builder W C) (cmap : ConcurrentMap S (Value (Heap W) C))
    (m : Manager W S) (sc : SystemCache S) (c : ConfigCache S) (cached : m.system_cache ≡ some sc)
    (embedded : sc.configuration_cache ≡ some c) where
  hit :
      (now : ℤ) (system_url : String) (request : SystemRequest) (heap : Heap W)
      (v : Value (Heap W) C)
      → validate_system_request request ≡ none
      → get_value cmap c (generate_system_cache_key system_url request.service_id) ≡ some v
      → get_system_configuration builder cmap now m system_url request heap ≡ (
        success v.item,
        (
          m,
          elim m.cache_hit_cb [
            | none ↦ heap
            | some f ↦ record heap { outside = f system heap.outside }
          ],
        ),
      )
  unfolding get_system_configuration fetch_system_config_from_cache
  hit now system_url request heap v valid e = ground arith

  -- If the configuration cannot be fetched, the answer is the error, and the cache is as before.
  pub get_system_configuration_failed :
      (now : ℤ) (system_url : String) (request : SystemRequest) (heap : Heap W) (config : C)
      (e : Error) (world : W)
      → validate_system_request request ≡ none
      → get_value cmap c (generate_system_cache_key system_url request.service_id) ≡ none
      → fetch_system_config_remotely builder system_url request heap.outside
        ≡ ((config, some e), world)
      → get_system_configuration builder cmap now m system_url request heap ≡ (
        failure (wrapped "cannot get 3scale system config - " e),
        (m, record heap { outside = world }),
      )
  unfolding get_system_configuration fetch_system_config_from_cache
  get_system_configuration_failed now system_url request heap config e world valid miss fetched =
      ground arith

module _ {W S C : Type 0} (builder : Builder W C) (cmap : ConcurrentMap S (Value (Heap W) C))
    (m : Manager W S) (sc : SystemCache S) (c : ConfigCache S) (cached : m.system_cache ≡ some sc)
    (embedded : sc.configuration_cache ≡ some c) where
  -- What a miss stores: the configuration with the callback of its own request.
  abbrev stored : ℤ → String → SystemRequest → Heap W → C → Value (Heap W) C
  stored now system_url request heap config =
      with_expiry cmap now c
        (set_value_from_config builder cmap sc.config system_url request
          (record { item = config; expires = pos 0; refresh_with = none }) heap).0

  abbrev manager_with : S → Manager W S
  manager_with store = record m {
    system_cache = some (record sc { configuration_cache = some (record c { cache = store }) });
  }

  miss :
      (now : ℤ) (system_url : String) (request : SystemRequest) (heap : Heap W) (config : C)
      (world : W)
      → validate_system_request request ≡ none
      → get_value cmap c (generate_system_cache_key system_url request.service_id) ≡ none
      → has_room cmap c ≡ true
      → fetch_system_config_remotely builder system_url request heap.outside
        ≡ ((config, none), world)
      → (heap' : Heap W) × (heap'.outside ≡ world)
        × (get_system_configuration builder cmap now m system_url request heap ≡ (
          success config,
          (
            manager_with (
                cmap.set c.cache
                  (generate_system_cache_key system_url request.service_id)
                  (stored now system_url request heap config)),
            heap',
          ),
        ))
  unfolding get_system_configuration fetch_system_config_from_cache set_value set_value_from_config
  miss now system_url request heap config world valid absent room fetched = (
    (set_value_from_config builder cmap sc.config system_url request
        (record { item = config; expires = pos 0; refresh_with = none })
        (record heap { outside = world })).1,
    refl,
    ground arith,
  )

  stored-item :
      (now : ℤ) (system_url : String) (request : SystemRequest) (heap : Heap W) (config : C)
      → (stored now system_url request heap config).item ≡ config
  unfolding with_expiry set_value_from_config
  stored-item now system_url request heap config = ground arith

  -- If a valid request misses the cache, which has room, and fetches a configuration, then that is
  -- the answer, and also the answer to the request that comes directly afterwards, if it is valid and
  -- for the same service and system, whatever its access token and its environment and whenever it
  -- comes, without a further fetch: of the outside, only the callback for cache hits is called.
  pub get_system_configuration_shared :
      (now now' : ℤ) (system_url : String) (request request' : SystemRequest) (heap : Heap W)
      (config : C) (world : W)
      → IsConcurrentMap cmap
      → validate_system_request request ≡ none
      → validate_system_request request' ≡ none
      → request'.service_id ≡ request.service_id
      → get_value cmap c (generate_system_cache_key system_url request.service_id) ≡ none
      → has_room cmap c ≡ true
      → fetch_system_config_remotely builder system_url request heap.outside
        ≡ ((config, none), world)
      → (m1 : Manager W S) × (heap1 heap2 : Heap W) × (get_system_configuration builder cmap now m
            system_url request heap
          ≡ (success config, (m1, heap1)))
        × (get_system_configuration builder cmap now' m1 system_url request' heap1
            ≡ (success config, (m1, heap2)))
        × (heap2.outside ≡ elim m.cache_hit_cb [ none ↦ world | some f ↦ f system world ])
  unfolding get_value
  get_system_configuration_shared now now' system_url request request' heap config world laws valid
        valid' same absent room fetched =
      let key = generate_system_cache_key system_url request.service_id in
      let v = stored now system_url request heap config in
      let (heap1, outside, run) =
        miss now system_url request heap config world valid absent room fetched in
      let m1 = manager_with (cmap.set c.cache key v) in
      let at : cmap.get (cmap.set c.cache key v)
            (generate_system_cache_key system_url request'.service_id)
          ≡ some v =
        ap
          (λ service.
            cmap.get (cmap.set c.cache key v) (generate_system_cache_key system_url service))
          same
        ∙ laws.get-set c.cache key key v
        ∙ rw eq_refl in
      (
        m1,
        heap1,
        after_hit heap1,
        run,
        hit builder cmap m1
              (record sc {
                configuration_cache = some (record c { cache = cmap.set c.cache key v });
              })
              (record c { cache = cmap.set c.cache key v }) refl refl now' system_url request' heap1
              v valid' at
            ∙ ap (λ x. (success x, (m1, after_hit heap1)))
                (stored-item now system_url request heap config),
        ground arith,
      )
    where
      after_hit : Heap W → Heap W
      after_hit heap = elim m.cache_hit_cb [
        | none ↦ heap
        | some f ↦ record heap { outside = f system heap.outside }
      ]

+ℤ_zero : (n : ℤ) → n +ℤ pos 0 ≡ n
+ℤ_zero n = eq_of_parts (n +ℤ pos 0) n (omega (arith, +ℤ_parts n (pos 0)))

-- The time to live that is left out is not filled in where it counts: with a zero TTL in the
-- configuration, the settings show the default, and a value that is set without an expiry in the
-- cache that is built has expired at every later instant.
pub new_system_cache_ttl :
    {W S C : Type 0} (cmap : ConcurrentMap S (Value (Heap W) C)) (config : SystemCacheConfig)
    (channel : Option ℕ) (c : ConfigCache S) (now later : ℤ) (v : Value (Heap W) C)
    → config.ttl ≡ pos 0
    → (new_system_cache cmap config channel).configuration_cache ≡ some c
    → is_zero v.expires ≡ true
    → now <ℤ later
    → ((new_system_cache cmap config channel).config.ttl ≡ default_cache_ttl)
      × (is_expired later (with_expiry cmap now c v) ≡ true)
unfolding new_system_cache new_config_cache with_expiry is_expired get_expiry_time is_zero ◌+ℤ◌
new_system_cache_ttl cmap config channel c now later v zero built blank after =
    let ttl = ap (λ o. (Option.get_or o c).ttl) (sym built) ∙ zero in
    (ground arith, rw blank (rw (ttl, +ℤ_zero now) (ground arith)))
