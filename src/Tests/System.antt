-- ===== src/Tests/System.antt =====
-- Witnesses for the cache of configurations and the manager.
use mathlib.Core.Option
use scale_authorizer.Prelude.{
  String, ℕ, zero, suc, ◌≤◌, pos, ◌+ℤ◌, Dict, true, false, none, some, [], ◌∷◌, ◌≡◌, refl, arith,
  length, eq_iff, get_elem?,
}
use scale_authorizer.Prelude.Map.{get, put, remove}
use scale_authorizer.Api.{Error, success, failure}
use scale_authorizer.Host.{CountsEntries, Enumerates}
use scale_authorizer.SystemCache.{
  Value, ConfigCache, is_zero, get_expiry_time, get_value, has_room, set_value, new_config_cache,
  refresh,
}
use scale_authorizer.SystemCache.Limit.{WithinLimit, set_step, built, next, Reachable-WithinLimit}
use scale_authorizer.SystemCache.Renewals.{all_called, world_at, refreshed}
use scale_authorizer.SystemCache.Refreshes.{refresh_lem}
use scale_authorizer.Manager.{
  SystemRequest, SystemCacheConfig, SystemCache, Heap, SystemClient, Builder, Manager,
  validate_system_request, wrapped, generate_system_cache_key, fetch_system_config_remotely,
  refresh_callback,
}
use scale_authorizer.Manager.Lookup.{get_system_configuration}
use scale_authorizer.Manager.Configurations.{get_system_configuration_shared}
use scale_authorizer.Manager.Retries.{refresh_callback_recovers, refresh_callback_fails}
use scale_authorizer.Tests.World.{cmap, cmap-IsConcurrentMap}

length-put :
    {V : Type 0} (s : Dict V) (k : String) (v : V)
    → length (put k v s) ≡ elim (get k s) [ none ↦ suc (length s) | some _ ↦ length s ]
unfolding put get
length-put [] k v = refl
length-put ((j, w) ∷ s) k v = ground (arith, eq_iff j k, length-put s k v)

length-remove : {V : Type 0} (s : Dict V) (k : String) → length (remove k s) ≤ length s
unfolding remove
length-remove [] k = omega arith
length-remove ((j, w) ∷ s) k = ground (arith, length-remove s k)

cmap-CountsEntries : {V : Type 0} → CountsEntries (cmap {V = V})
cmap-CountsEntries = record {
  count-new = refl;
  count-set = length-put;
  count-remove = length-remove;
}

-- The outside counts the fetches; the first one fails.
abbrev Config : Type 0
Config = Value (Heap ℕ) ℕ

abbrev portal : SystemClient ℕ ℕ
portal = record {
  get_latest_proxy_config = λ service environment n. elim n [
    | zero ↦ ((0, some (record { message = "unavailable"; network = none })), 1)
    | suc m ↦ ((7, none), suc (suc m))
  ];
}

abbrev builder : Builder ℕ ℕ
builder = record { build_system_client = λ url token. success portal; no_config = 0 }

abbrev request : SystemRequest
request = record { access_token = "token"; service_id = "123"; environment = "production" }

abbrev intruder : SystemRequest
intruder = record { access_token = "wrong"; service_id = "123"; environment = "sandbox" }

-- Room for two configurations, which live for ten; one is there that expires at 20.
abbrev value : Config
value = record {
  item = 5;
  expires = pos 20;
  refresh_with = some (refresh_callback builder 0 "https://system" request);
}

abbrev cache : ConfigCache (Dict Config)
cache = record {
  cache = ("https://system_1", value) ∷ [];
  limit = pos 2;
  refresh_worker_running = 0;
  stop_refresh_worker = none;
  ttl = pos 10;
}

abbrev settings : SystemCacheConfig
settings = record {
  max_size = pos 2;
  num_retry_failed_refresh = pos 3;
  refresh_interval = pos 0;
  ttl = pos 0;
}

abbrev system_cache : SystemCache (Dict Config)
system_cache = record {
  configuration_cache = some cache;
  config = settings;
  stop_refreshing_task = some 0;
}

abbrev manager : Manager ℕ (Dict Config)
manager = record { system_cache = some system_cache; cache_hit_cb = none }

-- A failed fetch is behind, and a callback has two retries left.
abbrev heap : ℕ → Heap ℕ
heap n = record { outside = n; retry_attempts = pos 2 ∷ [] }

cache-Enumerates : Enumerates cmap cache.cache
unfolding get
cache-Enumerates = ((refl, tt), λ k. refl)

cache-has_room : has_room cmap cache ≡ true
unfolding has_room
cache-has_room = refl

Reachable-WithinLimit_example :
    WithinLimit cmap (set_value cmap (pos 0) (new_config_cache cmap (pos 10) (pos 2)) "k" value).1
Reachable-WithinLimit_example =
    Reachable-WithinLimit cmap cmap-CountsEntries _
      (next _ _ (set_step (pos 0) _ "k" value) (built (pos 10) (pos 2)))

later_than_zero : is_zero (get_expiry_time (pos 15) cache) ≡ false
unfolding is_zero get_expiry_time ◌+ℤ◌
later_than_zero = refl

refresh_example :
    ((refresh cmap (λ k. pos 15) (pos 16) cache (heap 1)).1 ≡ all_called cmap cache.cache (heap 1))
    × (get_value cmap (refresh cmap (λ k. pos 15) (pos 16) cache (heap 1)).0 "https://system_1"
        ≡ Option.map
            (refreshed cmap
              (get_expiry_time (pos 15) cache)
              (world_at cmap "https://system_1" cache.cache (heap 1)))
            (get_value cmap cache "https://system_1"))
refresh_example =
    refresh_lem cmap (λ k. pos 15) (pos 16) cache (heap 1) "https://system_1" cmap-IsConcurrentMap
      cmap-CountsEntries cache-Enumerates cache-has_room (λ j. later_than_zero)

unseen : get_value cmap cache (generate_system_cache_key "https://system" "123") ≡ none
unfolding get_value get generate_system_cache_key
unseen = refl

valid : validate_system_request request ≡ none
unfolding validate_system_request
valid = refl

valid_intruder : validate_system_request intruder ≡ none
unfolding validate_system_request
valid_intruder = refl

fetched_once : fetch_system_config_remotely builder "https://system" request 1 ≡ ((7, none), 2)
unfolding fetch_system_config_remotely
fetched_once = refl

get_system_configuration_shared_example :
    (m1 : Manager ℕ (Dict Config)) × (heap1 heap2 : Heap ℕ) × (get_system_configuration builder cmap
        (pos 1)
        manager
        "https://system"
        request
        (heap 1)
      ≡ (success 7, (m1, heap1)))
    × (get_system_configuration builder cmap (pos 2) m1 "https://system" intruder heap1
        ≡ (success 7, (m1, heap2)))
    × (heap2.outside ≡ 2)
get_system_configuration_shared_example =
    get_system_configuration_shared builder cmap manager system_cache cache refl refl (pos 1)
      (pos 2) "https://system" request intruder (heap 1) 7 2 cmap-IsConcurrentMap valid
      valid_intruder refl unseen cache-has_room fetched_once

abbrev outage : Error
outage =
    wrapped "unable to fetch required data from 3scale system - "
      (record { message = "unavailable"; network = none })

refresh_callback_recovers_example :
    ((refresh_callback builder 0 "https://system" request (heap 0)).0 ≡ (7, none))
    × ((refresh_callback builder 0 "https://system" request (heap 0)).1.outside ≡ 2)
unfolding fetch_system_config_remotely
refresh_callback_recovers_example =
    refresh_callback_recovers builder "https://system" request 0 2 1 (heap 0) 7 2 refl (omega arith)
      ((outage, refl), tt) refl

-- A portal that is down.
abbrev down : Builder ℕ ℕ
down = record {
  build_system_client = λ url token. failure (record { message = "down"; network = none });
  no_config = 0;
}

refresh_callback_fails_example :
    ((e : Error) × ((refresh_callback down 0 "https://system" request (heap 0)).0.1 ≡ some e))
    × ((refresh_callback down 0 "https://system" request (heap 0)).1.outside ≡ 0)
    × (get_elem? (refresh_callback down 0 "https://system" request (heap 0)).1.retry_attempts 0
        ≡ some (pos 1))
unfolding fetch_system_config_remotely
refresh_callback_fails_example =
    refresh_callback_fails down "https://system" request 0 2 (heap 0) refl
      ((_, refl), ((_, refl), ((_, refl), tt)))
