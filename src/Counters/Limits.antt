-- ===== src/Counters/Limits.antt =====
-- `isAuthorized` against the limits, and what a report under its verdict does to the counters.
use mathlib.Core.Path.{subst₂}
use scale_authorizer.Prelude.{
  String, ℤ, add_int, ◌≤ℤ◌, true, false, Option, none, some, List, [], ◌∷◌, ◌≡◌, ◌↔◌, refl, arith,
  ◌==◌, eq_iff, Option-cases, Bool-cases, inl, inr,
}
use scale_authorizer.Prelude.Map.{get, applied}
use scale_authorizer.Api.{UsageReport, UsageReports, Metrics}
use scale_authorizer.Application.{Application}
use scale_authorizer.Counters.{update_counters, exceeds, is_authorized}

-- Every report has room for the increment.
abbrev pub HasRoom : ℤ → List UsageReport → Type 0
HasRoom increment [] = Unit {0}
HasRoom increment (r ∷ rest) =
    (add_int r.current_value increment ≤ℤ r.max_value) × HasRoom increment rest

-- No report is above its limit.
abbrev pub WithinLimits : List UsageReport → Type 0
WithinLimits [] = Unit {0}
WithinLimits (r ∷ rest) = (r.current_value ≤ℤ r.max_value) × WithinLimits rest

-- A metric that is not limited has no reports.
abbrev pub reports_of : Option (List UsageReport) → List UsageReport
reports_of none = []
reports_of (some reports) = reports

-- Every metric of the list has room in each of its reports.
abbrev pub HasRoomFor : UsageReports → Metrics → Type 0
HasRoomFor state [] = Unit {0}
HasRoomFor state ((metric, increment) ∷ rest) =
    HasRoom increment (reports_of (get metric state)) × HasRoomFor state rest

exceeds_sound : (i : ℤ) (rs : List UsageReport) → exceeds i rs ≡ false → HasRoom i rs
unfolding exceeds
exceeds_sound i [] h = tt
exceeds_sound i (r ∷ rs) h = ground (arith, exceeds_sound i rs)

exceeds_complete : (i : ℤ) (rs : List UsageReport) → HasRoom i rs → exceeds i rs ≡ false
unfolding exceeds
exceeds_complete i [] h = refl
exceeds_complete i (r ∷ rs) h = ground (arith, exceeds_complete i rs h.1)

is_authorized_sound :
    (a : Application) (m : Metrics) → is_authorized a m ≡ true → HasRoomFor a.local_state m
unfolding is_authorized
is_authorized_sound a [] h = tt
is_authorized_sound a ((k, i) ∷ m) h = elim (Option-cases (get k a.local_state)) [
  | inl e ↦ rw e (tt, is_authorized_sound a m (rw (e, is_authorized) at h))
  | inr (rs, e) ↦ rw e (ground (arith, exceeds_sound i rs, is_authorized_sound a m))
]

is_authorized_complete :
    (a : Application) (m : Metrics) → HasRoomFor a.local_state m → is_authorized a m ≡ true
unfolding is_authorized
is_authorized_complete a [] h = refl
is_authorized_complete a ((k, i) ∷ m) h = elim (Option-cases (get k a.local_state)) [
  | inl e ↦ rw (e, is_authorized) (is_authorized_complete a m h.1)
  | inr (rs, e) ↦
      rw (e, is_authorized, exceeds_complete i rs (rw e at h.0)) (is_authorized_complete a m h.1)
]

-- A request is authorized exactly when every limit of every metric that it affects has room for
-- the metric's increment; a metric without limits is no obstacle.
pub is_authorized_iff :
    (a : Application) (m : Metrics) → (is_authorized a m ≡ true) ↔ HasRoomFor a.local_state m
is_authorized_iff a m = (is_authorized_sound a m, is_authorized_complete a m)

-- A metric of the list with its increment has room in its reports.
pub HasRoom-get :
    (state : UsageReports) (m : Metrics) (k : String) (i : ℤ)
    → HasRoomFor state m
    → get k m ≡ some i
    → HasRoom i (reports_of (get k state))
unfolding get
HasRoom-get state [] k i h e = absurd (ground arith)
HasRoom-get state ((j, n) ∷ m) k i h e = elim (Bool-cases (j == k)) [
  | inl same ↦
      let jk : j ≡ k = (eq_iff j k).0 same in
      let ni : n ≡ i = ground arith in
      subst₂ (λ x y. HasRoom x (reports_of (get y state))) ni jk h.0
  | inr other ↦ HasRoom-get state m k i h.1 (rw other at e)
]

HasRoom-update :
    (i : ℤ) (rs : List UsageReport) → HasRoom i rs → WithinLimits (update_counters i rs)
unfolding update_counters
HasRoom-update i [] h = tt
HasRoom-update i (r ∷ rs) h = (h.0, HasRoom-update i rs h.1)

pub HasRoom-applied :
    (i : ℤ) (o : Option (List UsageReport))
    → HasRoom i (reports_of o)
    → WithinLimits (reports_of (applied (update_counters i) o))
HasRoom-applied i none h = tt
HasRoom-applied i (some rs) h = HasRoom-update i rs h
