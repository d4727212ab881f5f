-- ===== src/SystemCache/Renewals.antt =====
-- The values that the first loop of `Refresh` renews.
use mathlib.Core.Option
use scale_authorizer.Prelude.{
  String, ℤ, false, Option, none, some, List, [], ◌∷◌, ◌≡◌, refl, arith, ap, sym, ◌∙◌, ◌⊎◌, inl,
  inr, eq_iff, ◌==◌, if◌then◌else◌, Option-cases, Bool-cases,
}
use scale_authorizer.Prelude.Map.{get, IsMap, Agrees}
use scale_authorizer.Api.{Error}
use scale_authorizer.Host.{ConcurrentMap}
use scale_authorizer.SystemCache.{
  Value, ConfigCache, is_zero, get_expiry_time, get_value, renew, renewed,
}

module _ {W S C : Type 0} (cmap : ConcurrentMap S (Value W C)) where
  -- The value has no callback, or its callback fails.
  abbrev pub IsNotRenewed : Value W C → Type 0
  IsNotRenewed v =
      (v.refresh_with ≡ none)
      ⊎ ((f : W → (C × Option Error) × W) × (world : W) × (e : Error) × (v.refresh_with ≡ some f)
          × ((f world).0.1 ≡ some e))

  -- The callback succeeds, and its item is there with the expiry and the same callback.
  abbrev pub IsRenewed : ℤ → Value W C → Value W C → Type 0
  IsRenewed expiry v v' =
      (f : W → (C × Option Error) × W) × (world : W) × (v.refresh_with ≡ some f)
      × ((f world).0.1 ≡ none)
      × (v' ≡ record { item = (f world).0.0; expires = expiry; refresh_with = some f })

  -- The world after the callback of a value has been called.
  abbrev pub called : Value W C → W → W
  called v world = elim v.refresh_with [ none ↦ world | some f ↦ (f world).1 ]

  -- The callbacks are called in the order of the entries, each once.
  unfoldable pub all_called : List (String × Value W C) → W → W
  all_called [] world = world
  all_called ((k, v) ∷ entries) world = all_called entries (called v world)

  -- The world in which the callback of the key is called.
  unfoldable pub world_at : String → List (String × Value W C) → W → W
  world_at k [] world = world
  world_at k ((j, v) ∷ entries) world =
      let rest = world_at k entries (called v world) in if j == k then world else rest

  -- What a refresh makes of a value whose callback is called in the world.
  abbrev pub refreshed : ℤ → W → Value W C → Value W C
  refreshed expiry world v = elim v.refresh_with [
    | none ↦ v
    | some f ↦ elim (f world).0.1 [
      | some e ↦ v
      | none ↦ record { item = (f world).0.0; expires = expiry; refresh_with = some f }
    ]
  ]

  -- The value that stands at a key once the renewed values are set.
  abbrev pub renewed_or : Option (Value W C) → Option (Value W C) → Option (Value W C)
  renewed_or before none = before
  renewed_or before (some v) = some v

  abbrev pub Present : List (String × Value W C) → ConfigCache S → Type 0
  Present [] c = Unit {0}
  Present ((k, v) ∷ items) c =
      (old : Value W C) × (get_value cmap c k ≡ some old)
      × (is_zero v.expires ≡ false)
      × Present items c

  module _ (now : String → ℤ) (c : ConfigCache S) where
    renew_cases :
        (t : ℤ) (v : Value W C) (world : W)
        → (((renew cmap t c v world).0 ≡ none) × IsNotRenewed v)
          ⊎ ((v' : Value W C) × ((renew cmap t c v world).0 ≡ some v')
              × IsRenewed (get_expiry_time t c) v v')
    unfolding renew
    renew_cases t v world = elim (Option-cases v.refresh_with) [
      | inl p ↦ inl (ground arith, inl p)
      | inr (f, p) ↦ elim (Option-cases (f world).0.1) [
        | inl q ↦ inr (
          record { item = (f world).0.0; expires = get_expiry_time t c; refresh_with = some f },
          ground arith,
          (f, world, p, q, refl),
        )
        | inr (e, q) ↦ inl (ground arith, inr (f, world, e, p, q))
      ]
    ]

    renewed_fresh :
        (entries : List (String × Value W C)) (world : W) (k : String)
        → get k entries ≡ none
        → get k (renewed cmap now c entries world).0 ≡ none
    unfolding renewed get
    renewed_fresh [] world k e = refl
    renewed_fresh ((j, v) ∷ entries) world k e = elim (renew_cases (now j) v world) [
      | inl (p, _) ↦ rw p (ground (arith, renewed_fresh entries (renew cmap (now j) c v world).1 k))
      | inr (v', p, _) ↦
          rw p (ground (arith, renewed_fresh entries (renew cmap (now j) c v world).1 k))
    ]

    pub renewed-IsMap :
        (entries : List (String × Value W C)) (world : W)
        → IsMap entries
        → IsMap (renewed cmap now c entries world).0
    unfolding renewed
    renewed-IsMap [] world m = tt
    renewed-IsMap ((j, v) ∷ entries) world m = elim (renew_cases (now j) v world) [
      | inl (p, _) ↦ rw p (renewed-IsMap entries (renew cmap (now j) c v world).1 m.1)
      | inr (v', p, _) ↦ rw p (
        renewed_fresh entries (renew cmap (now j) c v world).1 j m.0,
        renewed-IsMap entries (renew cmap (now j) c v world).1 m.1,
      )
    ]

    pub renewed-Present :
        (positive : (k : String) → is_zero (get_expiry_time (now k) c) ≡ false)
        (entries m : List (String × Value W C)) (world : W)
        → Agrees entries m
        → ((k : String) → get k m ≡ get_value cmap c k)
        → Present (renewed cmap now c entries world).0 c
    unfolding renewed
    renewed-Present positive [] m world a same = tt
    renewed-Present positive ((j, v) ∷ entries) m world a same =
        elim (renew_cases (now j) v world) [
          | inl (p, _) ↦
              rw p (renewed-Present positive entries m (renew cmap (now j) c v world).1 a.1 same)
          | inr (v', p, (f, w, _, _, q)) ↦ rw p (
            v,
            sym (same j) ∙ a.0,
            ap (λ r. is_zero r.expires) q ∙ positive j,
            renewed-Present positive entries m (renew cmap (now j) c v world).1 a.1 same,
          )
        ]

    get-renewed :
        (j : String) (v : Value W C) (entries : List (String × Value W C)) (world : W) (k : String)
        → IsMap ((j, v) ∷ entries)
        → get k (renewed cmap now c ((j, v) ∷ entries) world).0 ≡ (
            if j == k
            then (renew cmap (now k) c v world).0
            else get k (renewed cmap now c entries (renew cmap (now j) c v world).1).0)
    unfolding renewed get
    get-renewed j v entries world k m =
        let fresh = renewed_fresh entries (renew cmap (now j) c v world).1 j m.0 in
        elim (Option-cases (renew cmap (now j) c v world).0) [
          | inl e ↦ rw e (ground (arith, eq_iff j k))
          | inr (v', e) ↦ rw e (ground (arith, eq_iff j k))
        ]

    renew_lem :
        (t : ℤ) (v : Value W C) (world : W)
        → (renewed_or (some v) (renew cmap t c v world).0
            ≡ some (refreshed (get_expiry_time t c) world v))
          × ((renew cmap t c v world).1 ≡ called v world)
    unfolding renew
    renew_lem t v world = elim (Option-cases v.refresh_with) [
      | inl p ↦ (ground arith, ground arith)
      | inr (f, p) ↦ elim (Option-cases (f world).0.1) [
        | inl q ↦ (ground arith, ground arith)
        | inr (e, q) ↦ (ground arith, ground arith)
      ]
    ]

    pub renewed-all_called :
        (entries : List (String × Value W C)) (world : W)
        → (renewed cmap now c entries world).1 ≡ all_called entries world
    unfolding renewed all_called
    renewed-all_called [] world = refl
    renewed-all_called ((j, v) ∷ entries) world =
        renewed-all_called entries (renew cmap (now j) c v world).1
        ∙ ap (all_called entries) (renew_lem (now j) v world).1

    pub renewed_lem :
        (entries : List (String × Value W C)) (world : W) (k : String)
        → IsMap entries
        → renewed_or (get k entries) (get k (renewed cmap now c entries world).0)
          ≡ Option.map
              (refreshed (get_expiry_time (now k) c) (world_at k entries world))
              (get k entries)
    unfolding get renewed world_at
    renewed_lem [] world k m = refl
    renewed_lem ((j, v) ∷ entries) world k m = elim (Bool-cases (j == k)) [
      | inl p ↦ rw (get-renewed j v entries world k m, p) (renew_lem (now k) v world).0
      | inr p ↦
          rw (get-renewed j v entries world k m, p)
            (renewed_lem entries (renew cmap (now j) c v world).1 k m.1
              ∙ ap
                  (λ w.
                    Option.map (refreshed (get_expiry_time (now k) c) (world_at k entries w))
                      (get k entries))
                  (renew_lem (now j) v world).1)
    ]
