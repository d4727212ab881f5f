-- ===== src/Prelude/Map.antt =====
-- Go's `map[string]V`, as the list of its entries in the order in which a `range` visits them.
-- A theorem for every list of entries holds for every such order.
use Prim.Native.String.{String}
use mathlib.Core.Path.{◌≡◌, refl}
use mathlib.Core.Option.{Option, none, some}
use mathlib.Core.List.{List, [], ◌∷◌, map}
use native.Mathlib.Omega.{arith}
use text.Mathlib.Text.{◌==◌}
use text.Mathlib.TextEquality.{eq_iff}
use text.Mathlib.TextPositions.{eq_refl}
use scale_authorizer.Prelude.Tests.{if◌then◌else◌}

abbrev pub Dict {ℓ} : Type ℓ → Type ℓ
Dict V = List (String × V)

module _ {ℓ} {V : Type ℓ} where
  -- v, ok := m[k]
  unfoldable pub get : String → Dict V → Option V
  get key [] = none
  get key ((key', value) ∷ rest) = if key' == key then some value else get key rest

  -- m[k] = v
  unfoldable pub put : String → V → Dict V → Dict V
  put key value [] = (key, value) ∷ []
  put key value ((key', old) ∷ rest) =
      if key' == key then (key', value) ∷ rest else (key', old) ∷ put key value rest

  -- delete(m, k)
  unfoldable pub remove : String → Dict V → Dict V
  remove k [] = []
  remove k ((j, v) ∷ m) = if j == k then remove k m else (j, v) ∷ remove k m

  -- The entry stands where it stood, changed by `f`.
  unfoldable pub alter : String → (V → V) → Dict V → Dict V
  alter k f [] = []
  alter k f ((j, v) ∷ m) = (if j == k then (j, f v) else (j, v)) ∷ alter k f m

  abbrev pub keys : Dict V → List String
  keys m = map (λ e. e.0) m

  -- No key occurs twice.
  abbrev pub IsMap : Dict V → Type ℓ
  IsMap [] = Unit {ℓ}
  IsMap ((k, v) ∷ m) = (get k m ≡ none) × IsMap m

  pub get-put :
      (key j : String) (value : V) (m : Dict V)
      → get j (put key value m) ≡ (if key == j then some value else get j m)
  unfolding get put
  get-put key j value [] = refl
  get-put key j value ((i, old) ∷ rest) =
      ground (arith, get-put key j value rest, eq_iff i j, eq_iff key j, eq_iff i key)

  pub get-remove :
      (k j : String) (m : Dict V) → get j (remove k m) ≡ (if k == j then none else get j m)
  unfolding get remove
  get-remove k j [] = ground arith
  get-remove k j ((i, w) ∷ m) = ground (arith, eq_iff k j, eq_iff i k, eq_iff i j, get-remove k j m)

  pub IsMap-put : (k : String) (v : V) (m : Dict V) → IsMap m → IsMap (put k v m)
  unfolding get put
  IsMap-put k v [] h = (refl, tt)
  IsMap-put k v ((i, w) ∷ m) h =
      ground (arith, eq_iff i k, eq_iff k i, get-put k i v m, IsMap-put k v m h.1)

  pub IsMap-remove : (k : String) (m : Dict V) → IsMap m → IsMap (remove k m)
  unfolding get remove
  IsMap-remove k [] h = tt
  IsMap-remove k ((i, w) ∷ m) h = ground (arith, get-remove k i m, IsMap-remove k m h.1)

module _ {V : Type 0} where
  abbrev pub applied : (V → V) → Option V → Option V
  applied f none = none
  applied f (some v) = some (f v)

  pub get-alter :
      (k j : String) (f : V → V) (m : Dict V)
      → get j (alter k f m) ≡ (if k == j then applied f (get j m) else get j m)
  unfolding get alter
  get-alter k j f [] = ground arith
  get-alter k j f ((i, w) ∷ m) =
      ground (arith, eq_iff k j, eq_iff i k, eq_iff i j, get-alter k j f m)

  pub IsMap-alter : (k : String) (f : V → V) (m : Dict V) → IsMap m → IsMap (alter k f m)
  unfolding get alter
  IsMap-alter k f [] h = h
  IsMap-alter k f ((i, w) ∷ m) h =
      ground (arith, eq_iff i k, get-alter k i f m, IsMap-alter k f m h.1)

  -- Every entry of the first list is what the second map reads at its key.
  abbrev pub Agrees : Dict V → Dict V → Type 0
  Agrees [] m = Unit {0}
  Agrees ((k, v) ∷ rest) m = (get k m ≡ some v) × Agrees rest m

  Agrees-cons :
      (j : String) (w : V) (rest m : Dict V)
      → get j rest ≡ none
      → Agrees rest m
      → Agrees rest ((j, w) ∷ m)
  unfolding get
  Agrees-cons j w [] m e h = tt
  Agrees-cons j w ((k, v) ∷ rest) m e h =
      ground (arith, eq_iff j k, eq_iff k j, Agrees-cons j w rest m)

  -- A map reads each of its entries.
  pub Agrees-self : (m : Dict V) → IsMap m → Agrees m m
  unfolding get
  Agrees-self [] h = tt
  Agrees-self ((k, v) ∷ m) h = (rw eq_refl, Agrees-cons k v m m h.0 (Agrees-self m h.1))

  -- The keys of the first list are not in the map.
  abbrev pub Fresh : {W : Type 0} → Dict V → Dict W → Type 0
  Fresh [] m = Unit {0}
  Fresh ((k, v) ∷ rest) m = (get k m ≡ none) × Fresh rest m

  pub Fresh-empty : (W : Type 0) (rest : Dict V) → Fresh {W = W} rest []
  unfolding get
  Fresh-empty W [] = tt
  Fresh-empty W ((k, v) ∷ rest) = (refl, Fresh-empty W rest)
