-- ===== src/SystemCache.antt =====
-- pkg/system/v1/cache/system.go: `ConfigCache`, the cache of configurations. An instant is a number
-- of nanoseconds since the zero time. What the clock shows is an argument, for each reading.
pub mod Limit
pub mod Expiry
pub mod Renewals
pub mod Refreshes
pub mod History
use scale_authorizer.Prelude.{
  String, ℕ, zero, suc, ℤ, pos, negsuc, ◌+ℤ◌, ltb_ℤ, Dict, Bool, true, false, Option, none, some,
  List, [], ◌∷◌, ◌||◌, if◌then◌else◌,
}
use scale_authorizer.Prelude.Map.{put}
use scale_authorizer.Api.{Error}
use scale_authorizer.Host.{ConcurrentMap, new_ticker}
use scale_authorizer.Prelude.Outcome.{Outcome, ok, ◌>>=◌}

-- time.Time's IsZero
unfoldable pub is_zero : ℤ → Bool
is_zero (pos zero) = true
is_zero (pos (suc n)) = false
is_zero (negsuc n) = false

-- `Value`, with configurations in `C`; a callback acts on the world.
pub record Value (W C : Type 0) : Type 0 where
  pub item : C
  pub expires : ℤ
  pub refresh_with : Option (W → (C × Option Error) × W)

-- `ConfigCache`, with stores in `S`; a channel is its number.
pub record ConfigCache (S : Type 0) : Type 0 where
  pub cache : S
  pub limit : ℤ
  pub refresh_worker_running : ℕ
  pub stop_refresh_worker : Option ℕ
  pub ttl : ℤ

abbrev default_cache_limit : ℤ
default_cache_limit = negsuc 0

-- five minutes
abbrev pub default_cache_ttl : ℤ
default_cache_ttl = pos 300000000000

-- three minutes
abbrev pub default_cache_refresh_interval : ℤ
default_cache_refresh_interval = pos 180000000000

module _ {W C : Type 0} where
  unfoldable pub set_expiry : ℤ → Value W C → Value W C
  set_expiry t v = record v { expires = t }

  unfoldable pub set_refresh_callback : (W → (C × Option Error) × W) → Value W C → Value W C
  set_refresh_callback fn v = record v { refresh_with = some fn }

  unfoldable pub is_expired : ℤ → Value W C → Bool
  is_expired now v = ltb_ℤ v.expires now

  -- The loop of `FlushExpired`; the clock is read for every key.
  unfoldable pub expired_keys : (String → ℤ) → List (String × Value W C) → List String
  unfolding is_expired
  expired_keys now [] = []
  expired_keys now ((key, v) ∷ rest) =
      let later = expired_keys now rest in if is_expired (now key) v then key ∷ later else later

unfoldable pub get_expiry_time : {S : Type 0} → ℤ → ConfigCache S → ℤ
get_expiry_time now c = now +ℤ c.ttl

-- The task that RunRefreshWorker starts: what it selects, one after the other.
pub data Event : Type 0 where
  tick : (String → ℤ) → ℤ → Event
  stop : Event

module _ {W S C : Type 0} (cmap : ConcurrentMap S (Value W C)) where
  unfoldable pub new_config_cache : ℤ → ℤ → ConfigCache S
  new_config_cache ttl max_entries = record {
    cache = cmap.new;
    limit = max_entries;
    refresh_worker_running = 0;
    stop_refresh_worker = none;
    ttl = ttl;
  }

  unfoldable pub new_default_config_cache : ConfigCache S
  new_default_config_cache = record {
    cache = cmap.new;
    limit = default_cache_limit;
    refresh_worker_running = 0;
    stop_refresh_worker = none;
    ttl = default_cache_ttl;
  }

  unfoldable pub get_value : ConfigCache S → String → Option (Value W C)
  get_value c key = cmap.get c.cache key

  -- The guard of `Set`.
  unfoldable pub has_room : ConfigCache S → Bool
  has_room c = ltb_ℤ c.limit (pos 0) || ltb_ℤ (pos (cmap.count c.cache)) c.limit

  unfoldable pub with_expiry : ℤ → ConfigCache S → Value W C → Value W C
  unfolding is_zero get_expiry_time
  with_expiry now c v =
      if is_zero v.expires then record v { expires = get_expiry_time now c } else v

  unfoldable pub set_value : ℤ → ConfigCache S → String → Value W C → Option Error × ConfigCache S
  unfolding has_room with_expiry
  set_value now c key v =
      if has_room c
      then (none, record c { cache = cmap.set c.cache key (with_expiry now c v) })
      else (
        some (record {
          message = "error - cache is full, cannot add more elements";
          network = none;
        }),
        c,
      )

  unfoldable pub delete : ConfigCache S → String → ConfigCache S
  delete c key = record c { cache = cmap.remove c.cache key }

  unfoldable pub delete_all : List String → ConfigCache S → ConfigCache S
  unfolding delete
  delete_all [] c = c
  delete_all (key ∷ rest) c = delete_all rest (delete c key)

  unfoldable pub flush_expired : (String → ℤ) → ConfigCache S → ConfigCache S
  unfolding expired_keys delete_all
  flush_expired now c = delete_all (expired_keys now (cmap.entries c.cache)) c

  -- One round of the first loop of `Refresh`: the value that the callback renews, if it does.
  unfoldable pub renew : ℤ → ConfigCache S → Value W C → W → Option (Value W C) × W
  unfolding get_expiry_time
  renew now c v world = elim v.refresh_with [
    | none ↦ (none, world)
    | some callback ↦
        let ((resp, err), world1) = callback world in
        (
          elim err [
            | some e ↦ none
            | none ↦ some (record {
              item = resp;
              expires = get_expiry_time now c;
              refresh_with = some callback;
            })
          ],
          world1,
        )
  ]

  -- refreshItems[key] = value
  abbrev pub with_item :
      String → Option (Value W C) → List (String × Value W C) → List (String × Value W C)
  with_item key none items = items
  with_item key (some value) items = (key, value) ∷ items

  unfoldable pub renewed :
      (String → ℤ) → ConfigCache S → List (String × Value W C) → W → List (String × Value W C) × W
  unfolding renew
  renewed now c [] world = ([], world)
  renewed now c ((key, v) ∷ rest) world =
      let (value, world1) = renew (now key) c v world in
      let (items, world2) = renewed now c rest world1 in (with_item key value items, world2)

  -- The second loop; the error of `Set` is dropped.
  unfoldable pub set_all : ℤ → List (String × Value W C) → ConfigCache S → ConfigCache S
  unfolding set_value
  set_all now [] c = c
  set_all now ((key, v) ∷ rest) c = set_all now rest (set_value now c key v).1

  unfoldable pub refresh : (String → ℤ) → ℤ → ConfigCache S → W → ConfigCache S × W
  unfolding renewed set_all
  refresh now later c world =
      let (items, world') = renewed now c (cmap.entries c.cache) world in
      (set_all later items c, world')

  -- The compare-and-swap, the channel, and the ticker, which panics unless the interval is positive.
  unfoldable pub run_refresh_worker : ConfigCache S → ℤ → ℕ → Outcome (Option Error × ConfigCache S)
  unfolding new_ticker
  run_refresh_worker c interval channel = elim c.refresh_worker_running [
    | zero ↦ do
      let c' = record c { refresh_worker_running = 1; stop_refresh_worker = some channel }
      ticker ← new_ticker interval
      ok (none, c')
    | suc n ↦ ok (some (record { message = "worker has already been started"; network = none }), c)
  ]

  unfoldable pub work : List Event → ConfigCache S → W → ConfigCache S × W
  unfolding refresh
  work [] c world = (c, world)
  work (stop ∷ events) c world = (c, world)
  work (tick now later ∷ events) c world =
      let (c', world') = refresh now later c world in work events c' world'
