-- ===== src/SystemCache/Expiry.antt =====
-- What `FlushExpired` leaves in the cache.
use scale_authorizer.Prelude.{
  String, ℤ, false, none, some, List, [], ◌∷◌, ◌≡◌, refl, arith, ◌∙◌, eq_iff, if◌then◌else◌,
}
use scale_authorizer.Prelude.Map.{get, IsMap}
use scale_authorizer.Application.{contains}
use scale_authorizer.Host.{ConcurrentMap, IsConcurrentMap, Enumerates}
use scale_authorizer.SystemCache.{
  Value, ConfigCache, is_expired, expired_keys, get_value, delete, delete_all, flush_expired,
}

contains-expired_keys :
    {W C : Type 0} (now : String → ℤ) (k : String) (entries : List (String × Value W C))
    → IsMap entries
    → contains k (expired_keys now entries)
      ≡ elim (get k entries) [ none ↦ false | some v ↦ is_expired (now k) v ]
unfolding expired_keys contains get
contains-expired_keys now k [] m = refl
contains-expired_keys now k ((j, v) ∷ entries) m =
    ground (arith, eq_iff j k, contains-expired_keys now k entries m.1)

module _ {W S C : Type 0} (cmap : ConcurrentMap S (Value W C)) (laws : IsConcurrentMap cmap) where
  get-delete_all :
      (k : String) (ks : List String) (c : ConfigCache S)
      → get_value cmap (delete_all cmap ks c) k
        ≡ (if contains k ks then none else get_value cmap c k)
  unfolding delete_all delete contains get_value
  get-delete_all k [] c = refl
  get-delete_all k (j ∷ ks) c =
      ground (arith, eq_iff j k, get-delete_all k ks (delete cmap c j), laws.get-remove c.cache j k)

  -- Exactly the values that are expired when the loop visits them are gone; the others stay as they
  -- are.
  pub flush_expired_lem :
      (now : String → ℤ) (c : ConfigCache S) (k : String)
      → Enumerates cmap c.cache
      → get_value cmap (flush_expired cmap now c) k ≡ elim (get_value cmap c k) [
        | none ↦ none
        | some v ↦ if is_expired (now k) v then none else some v
      ]
  unfolding flush_expired get_value
  flush_expired_lem now c k (m, same) =
      get-delete_all k (expired_keys now (cmap.entries c.cache)) c
      ∙ ground (arith, contains-expired_keys now k (cmap.entries c.cache) m, same k)
