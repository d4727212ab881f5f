-- ===== src/Prelude/Outcome.antt =====
-- Computations that may panic, and the actions of an object: they read and write a state, may
-- panic, and panic for good, since the program recovers from none.
use mathlib.Core.Path.{◌≡◌, refl}
use mathlib.Core.Option.{Option, none, some}
use mathlib.Core.List.{List, [], ◌∷◌}
use mathlib.Core.Logic.{◌⊎◌, inl, inr}

pub data Outcome {ℓ} (A : Type ℓ) : Type ℓ where
  ok : A → Outcome A
  panic : Outcome A

infixl 5 ◌>>=◌
abbrev pub ◌>>=◌ {ℓ κ} : {X : Type ℓ} {Y : Type κ} → Outcome X → (X → Outcome Y) → Outcome Y
panic >>= next = panic
ok x >>= next = next x

-- A read through a pointer that may be nil.
abbrev pub deref {ℓ} : {A : Type ℓ} → Option A → Outcome A
deref none = panic
deref (some a) = ok a

-- xs[0]
abbrev pub first {ℓ} : {A : Type ℓ} → List A → Outcome A
first [] = panic
first (x ∷ xs) = ok x

pub Outcome-cases {ℓ} : {A : Type ℓ} (m : Outcome A) → (m ≡ panic) ⊎ ((a : A) × (m ≡ ok a))
Outcome-cases panic = inl refl
Outcome-cases (ok a) = inr (a, refl)
