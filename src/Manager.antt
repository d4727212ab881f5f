-- ===== src/Manager.antt =====
-- pkg/authorizer/authorizer.go: how `Manager` comes by the configuration of a service.
pub mod Lookup
pub mod Configurations
pub mod Retries
pub mod AuthRep
pub mod Answers
pub mod Lifecycle
use Prim.Native.String.{◌++◌ as str_append}
use scale_authorizer.Prelude.{
  String, ℕ, zero, suc, ℤ, pos, negsuc, Bool, true, false, Option, none, some, List, [], ◌∷◌, ◌++◌,
  ◌==◌, ◌||◌, ◌-◌, length, get_elem?, if◌then◌else◌,
}
use mathlib.Core.Option
use scale_authorizer.Api.{Error, Fallible, success, failure}
use scale_authorizer.Host.{ConcurrentMap}
use scale_authorizer.SystemCache.{
  Value, ConfigCache, is_zero, new_config_cache, default_cache_ttl, default_cache_refresh_interval,
  get_value, set_value, set_refresh_callback,
}

pub record SystemRequest : Type 0 where
  pub access_token : String
  pub service_id : String
  pub environment : String

pub record SystemCacheConfig : Type 0 where
  pub max_size : ℤ
  pub num_retry_failed_refresh : ℤ
  pub refresh_interval : ℤ
  pub ttl : ℤ

-- The embedded cache may be nil, and so may the channel, which is its number.
pub record SystemCache (S : Type 0) : Type 0 where
  pub configuration_cache : Option (ConfigCache S)
  pub config : SystemCacheConfig
  pub stop_refreshing_task : Option ℕ

-- `Cache` of metrics.go
pub data CacheKind : Type 0 where
  system : CacheKind
  backend : CacheKind

-- What the clients act on, and the variables `retryAttempts` that refresh callbacks hold.
pub record Heap (W : Type 0) : Type 0 where
  pub outside : W
  pub retry_attempts : List ℤ

-- builder.go: `SystemClient`
pub record SystemClient (W C : Type 0) : Type 0 where
  pub get_latest_proxy_config : String → String → W → (C × Option Error) × W

-- The part of `builder` for system, and the zero value of a configuration.
pub record Builder (W C : Type 0) : Type 0 where
  pub build_system_client : String → String → Fallible (SystemClient W C)
  pub no_config : C

pub record Manager (W S : Type 0) : Type 0 where
  pub system_cache : Option (SystemCache S)
  pub cache_hit_cb : Option (CacheKind → W → W)

-- validateSystemRequest
unfoldable pub validate_system_request : SystemRequest → Option Error
validate_system_request request =
    if request.environment == "" || request.service_id == "" || request.access_token == ""
    then some (record { message = "invalid arguements provided"; network = none })
    else none

unfoldable pub generate_system_cache_key : String → String → String
generate_system_cache_key system_url svc_id = str_append system_url (str_append "_" svc_id)

abbrev pub wrapped : String → Error → Error
wrapped prefix e = record { message = str_append prefix e.message; network = none }

-- variable[i] = value
unfoldable pub set_elem : ℕ → ℤ → List ℤ → List ℤ
set_elem i n [] = []
set_elem zero n (old ∷ rest) = n ∷ rest
set_elem (suc i) n (old ∷ rest) = old ∷ set_elem i n rest

-- How often `retryAttempts > 0` may hold while the variable counts down.
abbrev pub attempts_of : ℤ → ℕ
attempts_of (pos n) = n
attempts_of (negsuc n) = 0

module _ {W S C : Type 0} (cmap : ConcurrentMap S (Value (Heap W) C)) where
  -- The cache is built from the given configuration, before the defaults are filled in.
  unfoldable pub new_system_cache : SystemCacheConfig → Option ℕ → SystemCache S
  unfolding new_config_cache is_zero
  new_system_cache config stop_refreshing = record {
    configuration_cache = some (new_config_cache cmap config.ttl config.max_size);
    stop_refreshing_task = stop_refreshing;
    config = record config {
      refresh_interval =
          if is_zero config.refresh_interval
          then default_cache_refresh_interval
          else config.refresh_interval;
      ttl = if is_zero config.ttl then default_cache_ttl else config.ttl;
    };
  }

module _ {W C : Type 0} (builder : Builder W C) where
  open builder use {build_system_client, no_config}

  unfoldable pub fetch_system_config_remotely : String → SystemRequest → W → (C × Option Error) × W
  fetch_system_config_remotely system_url request world =
      elim (build_system_client system_url request.access_token) [
        | failure e ↦ (
          (
            no_config,
            some (
                wrapped
                  (str_append "unable to build system client for " (str_append system_url " - "))
                  e),
          ),
          world,
        )
        | success client ↦
            let ((config, err), world') =
              client.get_latest_proxy_config request.service_id request.environment world in
            (
              elim err [
                | some e ↦ (
                  no_config,
                  some (wrapped "unable to fetch required data from 3scale system - " e),
                )
                | none ↦ (config, none)
              ],
              world',
            )
      ]

  -- A call of the closure of `refreshCallback` whose variable is positive `n` times.
  unfoldable pub attempt : ℕ → String → SystemRequest → W → (C × Option Error) × W
  unfolding fetch_system_config_remotely
  attempt zero system_url request world = fetch_system_config_remotely system_url request world
  attempt (suc n) system_url request world =
      let ((config, err), world') = fetch_system_config_remotely system_url request world in
      let again = attempt n system_url request world' in
      elim err [ none ↦ ((config, none), world') | some e ↦ again ]

  -- The closure that a value holds: a failed first fetch counts its variable down for good.
  unfoldable pub refresh_callback :
      ℕ → String → SystemRequest → Heap W → (C × Option Error) × Heap W
  unfolding attempt set_elem fetch_system_config_remotely
  refresh_callback variable system_url request heap =
      let left = attempts_of (Option.get_or (get_elem? heap.retry_attempts variable) (pos 0)) in
      let first = fetch_system_config_remotely system_url request heap.outside in
      let (answer, world) = attempt left system_url request heap.outside in
      (
        answer,
        record {
          outside = world;
          retry_attempts = elim left [
            | zero ↦ heap.retry_attempts
            | suc n ↦ (elim first.0.1 [
              | none ↦ heap.retry_attempts
              | some e ↦ set_elem variable (pos n) heap.retry_attempts
            ])
          ];
        },
      )
