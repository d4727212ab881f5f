-- ===== src/SystemCache/History.antt =====
-- `ConfigCache` without a limit, as its users see it: what is read under a key follows from what
-- was done before, whatever the store is.
use scale_authorizer.Prelude.{
  String, ℤ, pos, ◌+ℤ◌, ◌<ℤ◌, ap, Option, none, some, List, [], ◌∷◌, ◌≡◌, refl, ◌∙◌, arith, ◌==◌,
  if◌then◌else◌,
}
use scale_authorizer.Host.{ConcurrentMap, IsConcurrentMap, Enumerates}
use scale_authorizer.SystemCache.{
  Value, ConfigCache, is_zero, is_expired, get_expiry_time, new_config_cache, get_value, has_room,
  with_expiry, set_value, delete, delete_all, expired_keys, flush_expired,
}
use scale_authorizer.SystemCache.Expiry.{flush_expired_lem}

-- The operations that change a cache, with what the clock shows.
pub data Operation (W C : Type 0) : Type 0 where
  setting : ℤ → String → Value W C → Operation W C
  deleting : String → Operation W C
  flushing : (String → ℤ) → Operation W C

module _ {W C : Type 0} where
  -- A value as it is stored: it lives for the default time unless it says otherwise.
  abbrev pub stored : ℤ → ℤ → Value W C → Value W C
  stored ttl now v = if is_zero v.expires then record v { expires = now +ℤ ttl } else v

  abbrev pub unless_expired : ℤ → Option (Value W C) → Option (Value W C)
  unless_expired now none = none
  unless_expired now (some v) = if is_expired now v then none else some v

  -- What a history leaves under a key, the latest operation first: the value that was last set,
  -- unless it was deleted since, or found expired by a flush since.
  unfoldable pub latest : ℤ → String → List (Operation W C) → Option (Value W C)
  unfolding is_zero is_expired
  latest ttl k [] = none
  latest ttl k (setting now key v ∷ past) =
      let before = latest ttl k past in if key == k then some (stored ttl now v) else before
  latest ttl k (deleting key ∷ past) =
      let before = latest ttl k past in if key == k then none else before
  latest ttl k (flushing now ∷ past) = unless_expired (now k) (latest ttl k past)

module _ {W S C : Type 0} (cmap : ConcurrentMap S (Value W C)) where
  unfoldable pub perform : Operation W C → ConfigCache S → ConfigCache S
  unfolding set_value delete flush_expired
  perform (setting now key v) c = (set_value cmap now c key v).1
  perform (deleting key) c = delete cmap c key
  perform (flushing now) c = flush_expired cmap now c

  -- The operations of a history, the earliest first.
  unfoldable pub perform_all : List (Operation W C) → ConfigCache S → ConfigCache S
  unfolding perform
  perform_all [] c = c
  perform_all (operation ∷ past) c = perform operation (perform_all past c)

  -- A cache keeps the settings that it was built with.
  abbrev IsConfigured : ℤ → ℤ → ConfigCache S → Type 0
  IsConfigured ttl limit c = (c.ttl ≡ ttl) × (c.limit ≡ limit)

  delete_all-IsConfigured :
      (ttl limit : ℤ) (ks : List String) (c : ConfigCache S)
      → IsConfigured ttl limit c
      → IsConfigured ttl limit (delete_all cmap ks c)
  unfolding delete_all delete
  delete_all-IsConfigured ttl limit [] c h = h
  delete_all-IsConfigured ttl limit (k ∷ ks) c h =
      delete_all-IsConfigured ttl limit ks (delete cmap c k) h

  perform-IsConfigured :
      (ttl limit : ℤ) (operation : Operation W C) (c : ConfigCache S)
      → IsConfigured ttl limit c
      → IsConfigured ttl limit (perform operation c)
  unfolding perform set_value delete flush_expired
  perform-IsConfigured ttl limit (setting now key v) c h = ground arith
  perform-IsConfigured ttl limit (deleting key) c h = h
  perform-IsConfigured ttl limit (flushing now) c h =
      delete_all-IsConfigured ttl limit (expired_keys now (cmap.entries c.cache)) c h

  perform_all-IsConfigured :
      (ttl limit : ℤ) (past : List (Operation W C)) (c : ConfigCache S)
      → IsConfigured ttl limit c
      → IsConfigured ttl limit (perform_all past c)
  unfolding perform_all
  perform_all-IsConfigured ttl limit [] c h = h
  perform_all-IsConfigured ttl limit (operation ∷ past) c h =
      perform-IsConfigured ttl limit operation (perform_all past c)
        (perform_all-IsConfigured ttl limit past c h)

  module _ (laws : IsConcurrentMap cmap) (listing : (s : S) → Enumerates cmap s) where
    get-perform :
        (ttl limit : ℤ) (operation : Operation W C) (past : List (Operation W C))
        (c : ConfigCache S) (k : String)
        → limit <ℤ pos 0
        → IsConfigured ttl limit c
        → get_value cmap c k ≡ latest ttl k past
        → get_value cmap (perform operation c) k ≡ latest ttl k (operation ∷ past)
    unfolding perform get_value set_value has_room with_expiry get_expiry_time delete latest
    get-perform ttl limit (setting now key v) past c k unlimited (t, l) e =
        ground (arith, laws.get-set c.cache key k (with_expiry cmap now c v))
    get-perform ttl limit (deleting key) past c k unlimited h e =
        ground (arith, laws.get-remove c.cache key k)
    get-perform ttl limit (flushing now) past c k unlimited h e =
        flush_expired_lem cmap laws now c k (listing c.cache) ∙ ap (unless_expired (now k)) e

    -- A cache that is built without a limit answers after any history of sets, deletions and
    -- flushes with the value that was last set under the key, if there is one that was neither
    -- deleted nor found expired by a flush since.
    pub get-perform_all :
        (ttl limit : ℤ) (past : List (Operation W C)) (k : String)
        → limit <ℤ pos 0
        → get_value cmap (perform_all past (new_config_cache cmap ttl limit)) k ≡ latest ttl k past
    unfolding perform_all get_value new_config_cache latest
    get-perform_all ttl limit [] k unlimited = laws.get-new k
    get-perform_all ttl limit (operation ∷ past) k unlimited =
        let c = perform_all past (new_config_cache cmap ttl limit) in
        get-perform ttl limit operation past c k unlimited
          (perform_all-IsConfigured ttl limit past (new_config_cache cmap ttl limit) (refl, refl))
          (get-perform_all ttl limit past k unlimited)
