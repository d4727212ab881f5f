-- ===== src/Tests/Histories.antt =====
-- A store that holds every key once, and the witness for the histories of the cache.
use scale_authorizer.Prelude.{ℤ, pos, negsuc, Dict, none, [], ◌∷◌, List, ◌≡◌, refl, arith, length}
use scale_authorizer.Prelude.Map.{
  get, put, remove, keys, IsMap, IsMap-put, IsMap-remove, get-put, get-remove,
}
use scale_authorizer.Host.{ConcurrentMap, IsConcurrentMap}
use scale_authorizer.SystemCache.{Value, new_config_cache, get_value}
use scale_authorizer.SystemCache.History.{
  Operation, setting, deleting, flushing, latest, perform_all, get-perform_all,
}

record Store (V : Type 0) : Type 0 where
  items : Dict V
  once : IsMap items

abbrev store_map : {V : Type 0} → ConcurrentMap (Store V) V
store_map = record {
  new = record { items = []; once = tt };
  get = λ s k. get k s.items;
  set = λ s k v. record { items = put k v s.items; once = IsMap-put k v s.items s.once };
  remove = λ s k. record { items = remove k s.items; once = IsMap-remove k s.items s.once };
  keys = λ s. keys s.items;
  count = λ s. length s.items;
  entries = λ s. s.items;
}

store_map-IsConcurrentMap : {V : Type 0} → IsConcurrentMap (store_map {V = V})
unfolding get
store_map-IsConcurrentMap = record {
  get-new = λ k. refl;
  get-set = λ s k j v. get-put k j v s.items;
  get-remove = λ s k j. get-remove k j s.items;
}

-- Set at 3 to live for ten, set again at 8 to be kept until 50, read after a flush at 20.
abbrev lasting : ℤ → Value (Unit {0}) ℤ
lasting t = record { item = t; expires = t; refresh_with = none }

abbrev past : List (Operation (Unit {0}) ℤ)
past =
    flushing (λ k. pos 20)
    ∷ setting (pos 8) "b" (lasting (pos 50))
    ∷ deleting "a"
    ∷ setting (pos 3) "b" (lasting (pos 0))
    ∷ setting (pos 1) "a" (lasting (pos 0))
    ∷ []

get-perform_all_example :
    get_value store_map
      (perform_all store_map past (new_config_cache store_map (pos 10) (negsuc 0)))
      "b"
    ≡ latest (pos 10) "b" past
get-perform_all_example =
    get-perform_all store_map store_map-IsConcurrentMap (λ s. (s.once, λ k. refl)) (pos 10)
      (negsuc 0) past "b" (omega arith)
