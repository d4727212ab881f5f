-- ===== src/Manager/Lookup.antt =====
-- GetSystemConfiguration of pkg/authorizer/authorizer.go, with the cache and without.
use scale_authorizer.Prelude.{String, ℤ, pos, Option, none, some, [], ◌∷◌, ◌++◌, length}
use scale_authorizer.Api.{Error, Fallible, success, failure}
use scale_authorizer.Host.{ConcurrentMap}
use scale_authorizer.SystemCache.{Value, ConfigCache, get_value, set_value, set_refresh_callback}
use scale_authorizer.Manager.{
  SystemRequest, SystemCacheConfig, SystemCache, CacheKind, system, Heap, Builder, Manager,
  validate_system_request, generate_system_cache_key, wrapped, fetch_system_config_remotely,
  refresh_callback,
}

module _ {W C : Type 0} (builder : Builder W C) where
  module _ {S : Type 0} (cmap : ConcurrentMap S (Value (Heap W) C)) where
    -- The variable of a new closure is a new cell.
    unfoldable pub set_value_from_config :
        SystemCacheConfig
        → String
        → SystemRequest
        → Value (Heap W) C
        → Heap W
        → Value (Heap W) C × Heap W
    unfolding refresh_callback set_refresh_callback
    set_value_from_config config system_url request value heap = (
      set_refresh_callback
          (refresh_callback builder (length heap.retry_attempts) system_url request) value,
      record heap { retry_attempts = heap.retry_attempts ++ config.num_retry_failed_refresh ∷ [] },
    )

    abbrev pub on_heap : {A : Type 0} → Heap W → A × W → A × Heap W
    on_heap heap (answer, world) = (answer, record heap { outside = world })

    -- `c` is the embedded cache, which is returned with what is stored. The error of `Set` is
    -- dropped.
    unfoldable pub fetch_system_config_from_cache :
        ℤ
        → Option (CacheKind → W → W)
        → SystemCacheConfig
        → ConfigCache S
        → String
        → SystemRequest
        → Heap W
        → (C × Option Error) × (ConfigCache S × Heap W)
    unfolding generate_system_cache_key get_value fetch_system_config_remotely set_value_from_config
        set_value
    fetch_system_config_from_cache now cache_hit_cb config c system_url request heap =
        let cache_key = generate_system_cache_key system_url request.service_id in
        elim (get_value cmap c cache_key) [
          | some cached_value ↦ (
            (cached_value.item, none),
            (
              c,
              elim cache_hit_cb [
                | none ↦ heap
                | some f ↦ record heap { outside = f system heap.outside }
              ],
            ),
          )
          | none ↦
              let ((fetched, err), heap1) =
                on_heap heap
                  (fetch_system_config_remotely builder system_url request heap.outside) in
              elim err [
                | some e ↦ ((fetched, some e), (c, heap1))
                | none ↦
                    let (value, heap2) =
                      set_value_from_config config system_url request
                        (record { item = fetched; expires = pos 0; refresh_with = none }) heap1 in
                    ((fetched, none), ((set_value cmap now c cache_key value).1, heap2))
              ]
        ]

    abbrev pub with_cache : Manager W S → SystemCache S → ConfigCache S → Manager W S
    with_cache m sc c = record m {
      system_cache = some (record sc { configuration_cache = some c });
    }

    abbrev pub reported : C × Option Error → Fallible C
    reported (config, none) = success config
    reported (config, some e) = failure (wrapped "cannot get 3scale system config - " e)

    unfoldable pub get_system_configuration :
        ℤ → Manager W S → String → SystemRequest → Heap W → Fallible C × (Manager W S × Heap W)
    unfolding validate_system_request fetch_system_config_from_cache fetch_system_config_remotely
    get_system_configuration now m system_url request heap =
        elim (validate_system_request request) [
          | some e ↦ (failure e, (m, heap))
          | none ↦ elim m.system_cache [
            | none ↦
                let (answer, heap') =
                  on_heap heap
                    (fetch_system_config_remotely builder system_url request heap.outside) in
                (reported answer, (m, heap'))
            | some sc ↦ elim sc.configuration_cache [
              | none ↦
                  let (answer, heap') =
                    on_heap heap
                      (fetch_system_config_remotely builder system_url request heap.outside) in
                  (reported answer, (m, heap'))
              | some c ↦
                  let (answer, (c', heap')) =
                    fetch_system_config_from_cache now m.cache_hit_cb sc.config c system_url request
                      heap in
                  (reported answer, (with_cache m sc c', heap'))
            ]
          ]
        ]
