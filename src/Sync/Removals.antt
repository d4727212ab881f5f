-- ===== src/Sync/Removals.antt =====
-- The removals of `synchronizeStates` where two limits of one metric are gone.
use scale_authorizer.Prelude.{
  ℕ, zero, suc, ◌+◌, ◌<◌, List, [], ◌∷◌, ◌≡◌, refl, arith, get_elem?, get_elem?_beyond,
  get_elem?-lt, length, Option-cases, inl, inr,
}
use scale_authorizer.Prelude.Outcome.{panic}
use scale_authorizer.Api.{UsageReport}
use scale_authorizer.Sync.{
  get_difference_between_sets, erase_at, remove_in_place, remove_all, synchronize_reports,
}

length-erase_at :
    (xs : List UsageReport) (i : ℕ) → i < length xs → length (erase_at i xs) + 1 ≡ length xs
unfolding erase_at
length-erase_at [] i h = elim h [ ]
length-erase_at (x ∷ xs) zero h = omega arith
length-erase_at (x ∷ xs) (suc i) h = omega (arith, length-erase_at xs i (omega arith))

live-remove_in_place :
    (xs ys : List UsageReport) (i : ℕ)
    → (remove_in_place i (record { live = xs; stale = ys })).live ≡ erase_at i xs
unfolding remove_in_place erase_at
live-remove_in_place [] ys i = refl
live-remove_in_place (x ∷ xs) ys i = refl

-- The first removal shortens the slice, so the index of its last report is out of range.
remove_all_beyond :
    (reports : List UsageReport) (i j : ℕ) (is : List ℕ)
    → suc j ≡ length reports
    → remove_all (i ∷ j ∷ is) (record { live = reports; stale = [] }) [] ≡ panic
unfolding remove_all
remove_all_beyond reports i j is h = elim (Option-cases (get_elem? reports i)) [
  | inl e ↦ rw (e, remove_all)
  | inr (r, e) ↦
      let short = length-erase_at reports i (get_elem?-lt reports i r e) in
      rw (
        e,
        remove_all,
        live-remove_in_place reports [] i,
        get_elem?_beyond (erase_at i reports) j (omega arith),
      )
]

-- If two reports' periods are gone from the new state, and the second of them is the last report of
-- the metric, the round panics: the indexes are used in ascending order, and the first removal has
-- shortened the slice.
pub synchronize_reports_panics :
    (reports new : List UsageReport) (i j : ℕ) (is : List ℕ)
    → get_difference_between_sets reports new ≡ i ∷ j ∷ is
    → suc j ≡ length reports
    → synchronize_reports reports new ≡ panic
unfolding synchronize_reports
synchronize_reports_panics reports new i j is e h =
    ground (arith, remove_all_beyond reports i j is h)
