-- ===== src/SystemCache/Refreshes.antt =====
-- What `Refresh` leaves in the cache.
use mathlib.Core.Option
use scale_authorizer.Prelude.{
  String, ℤ, true, false, some, List, [], ◌∷◌, ◌≡◌, refl, arith, sym, ◌∙◌, inl, inr, eq_iff, ◌==◌,
  if◌then◌else◌, Bool-cases,
}
use scale_authorizer.Prelude.Map.{get, IsMap, Agrees-self}
use scale_authorizer.Host.{ConcurrentMap, IsConcurrentMap, CountsEntries, Enumerates}
use scale_authorizer.SystemCache.{
  Value, ConfigCache, is_zero, get_expiry_time, get_value, has_room, with_expiry, set_value,
  renewed, set_all, refresh,
}
use scale_authorizer.SystemCache.Renewals.{
  all_called, world_at, refreshed, renewed_or, Present, renewed-IsMap, renewed-Present,
  renewed-all_called, renewed_lem,
}

module _ {W S C : Type 0} (cmap : ConcurrentMap S (Value W C)) where
  set_all_full :
      (now : ℤ) (items : List (String × Value W C)) (c : ConfigCache S)
      → has_room cmap c ≡ false
      → set_all cmap now items c ≡ c
  unfolding set_all set_value
  set_all_full now [] c full = refl
  set_all_full now ((k, v) ∷ items) c full = rw full (set_all_full now items c full)

  -- A full cache is not refreshed at all: `Set` refuses the renewed values, although their keys are
  -- there already, and the errors are dropped.
  pub refresh_full :
      (now : String → ℤ) (later : ℤ) (c : ConfigCache S) (world : W)
      → has_room cmap c ≡ false
      → (refresh cmap now later c world).0 ≡ c
  unfolding refresh
  refresh_full now later c world full =
      set_all_full later (renewed cmap now c (cmap.entries c.cache) world).0 c full

  module _ (laws : IsConcurrentMap cmap) (counts : CountsEntries cmap) where
    -- Setting a value that is there keeps the room and the keys.
    set_value_present :
        (now : ℤ) (c : ConfigCache S) (k : String) (v old : Value W C)
        → has_room cmap c ≡ true
        → get_value cmap c k ≡ some old
        → is_zero v.expires ≡ false
        → (has_room cmap (set_value cmap now c k v).1 ≡ true)
          × ((j : String)
              → get_value cmap (set_value cmap now c k v).1 j
                ≡ (if k == j then some v else get_value cmap c j))
    unfolding set_value has_room with_expiry get_value
    set_value_present now c k v old room e z = (
      ground (arith, counts.count-set c.cache k v),
      λ j. ground (arith, laws.get-set c.cache k j v),
    )

    Present-set :
        (now : ℤ) (c : ConfigCache S) (k : String) (v old : Value W C)
        (items : List (String × Value W C))
        → has_room cmap c ≡ true
        → get_value cmap c k ≡ some old
        → is_zero v.expires ≡ false
        → Present cmap items c
        → Present cmap items (set_value cmap now c k v).1
    Present-set now c k v old [] room e z h = tt
    Present-set now c k v old ((j, u) ∷ items) room e z (found, at, positive, h) =
        let same = (set_value_present now c k v old room e z).1 j in
        let later = Present-set now c k v old items room e z h in
        elim (Bool-cases (k == j)) [
          | inl p ↦ (v, same ∙ rw p, positive, later)
          | inr p ↦ (found, same ∙ rw (p, at), positive, later)
        ]

    get-set_all :
        (now : ℤ) (items : List (String × Value W C)) (c : ConfigCache S) (k : String)
        → has_room cmap c ≡ true
        → IsMap items
        → Present cmap items c
        → get_value cmap (set_all cmap now items c) k
          ≡ renewed_or cmap (get_value cmap c k) (get k items)
    unfolding set_all get
    get-set_all now [] c k room m h = refl
    get-set_all now ((j, v) ∷ items) c k room m (old, at, positive, h) =
        let (room', after) = set_value_present now c j v old room at positive in
        get-set_all now items (set_value cmap now c j v).1 k room' m.1
          (Present-set now c j v old items room at positive h)
        ∙ ground (arith, after k, eq_iff j k)

  -- If the cache has room and the clock shows no instant that makes an expiry the zero time, a
  -- refresh calls the callback of each entry once, in their order, and keeps the keys. A value whose
  -- callback succeeds in its call gets the callback's item and the time to live from the instant of
  -- its renewal; one without a callback, or whose callback fails in its call, stays as it is.
  pub refresh_lem :
      (now : String → ℤ) (later : ℤ) (c : ConfigCache S) (world : W) (k : String)
      → IsConcurrentMap cmap
      → CountsEntries cmap
      → Enumerates cmap c.cache
      → has_room cmap c ≡ true
      → ((j : String) → is_zero (get_expiry_time (now j) c) ≡ false)
      → ((refresh cmap now later c world).1 ≡ all_called cmap (cmap.entries c.cache) world)
        × (get_value cmap (refresh cmap now later c world).0 k
            ≡ Option.map
                (refreshed cmap
                  (get_expiry_time (now k) c)
                  (world_at cmap k (cmap.entries c.cache) world))
                (get_value cmap c k))
  unfolding refresh get_value
  refresh_lem now later c world k laws counts (m, same) room positive =
      let entries = cmap.entries c.cache in
      let items = (renewed cmap now c entries world).0 in
      let after =
        get-set_all laws counts later items c k room (renewed-IsMap cmap now c entries world m) (
          renewed-Present cmap now c positive entries entries world (Agrees-self entries m) same) in
      (
        renewed-all_called cmap now c entries world,
        rw (after, sym (same k)) (renewed_lem cmap now c entries world k m),
      )
