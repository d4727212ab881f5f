-- ===== src/Sync/Periods.antt =====
-- `synchronizeStates` on the reports of one metric: the periods of the result, and the panic where
-- two limits were removed.
use scale_authorizer.Prelude.{
  ℕ, ◌≤◌, true, false, some, List, [], ◌∷◌, ◌++◌, ◌≡◌, refl, arith, ◌||◌, get_elem?, length,
  if◌then◌else◌, Bool-cases, List-cases, inl, inr,
}
use mathlib.Core.List.{append-nil}
use scale_authorizer.Prelude.Outcome.{ok}
use scale_authorizer.Api.{UsageReport}
use scale_authorizer.Application.{same_period}
use scale_authorizer.Sync.{
  has_period, get_difference_between_sets, erase_at, last_of, remove_all, synchronize_reports,
}
use scale_authorizer.Sync.Difference.{
  retained, missing, select-difference, no_difference, one_difference,
}

has_period-append :
    (r : UsageReport) (xs ys : List UsageReport)
    → has_period r (xs ++ ys) ≡ (has_period r xs || has_period r ys)
unfolding has_period
has_period-append r [] ys = ground arith
has_period-append r (x ∷ xs) ys = ground (arith, has_period-append r xs ys)

-- Whether a list has a period depends only on the period.
has_period_congr :
    (r s : UsageReport) (xs : List UsageReport)
    → same_period r s ≡ true
    → has_period r xs ≡ has_period s xs
unfolding has_period
has_period_congr r s [] e = refl
has_period_congr r s (x ∷ xs) e = ground (arith, has_period_congr r s xs e)

has_period-retained :
    (r : UsageReport) (src dst : List UsageReport)
    → has_period r (retained src dst) ≡ (if has_period r dst then has_period r src else false)
unfolding has_period retained
has_period-retained r [] dst = ground arith
has_period-retained r (x ∷ src) dst =
    ground (arith, has_period-retained r src dst, has_period_congr r x dst)

has_period-missing :
    (r : UsageReport) (src dst : List UsageReport)
    → has_period r (missing src dst) ≡ (if has_period r dst then false else has_period r src)
unfolding has_period missing
has_period-missing r [] dst = ground arith
has_period-missing r (x ∷ src) dst =
    ground (arith, has_period-missing r src dst, has_period_congr r x dst)

last_of-not_period :
    (r x : UsageReport) (xs : List UsageReport)
    → has_period r (x ∷ xs) ≡ false
    → has_period r (last_of x xs ∷ []) ≡ false
unfolding has_period last_of
last_of-not_period r x [] e = e
last_of-not_period r x (y ∷ xs) e = last_of-not_period r y xs (ground arith)

-- Two lists that have the same of the periods of `ys` lack the same reports of `ys`.
missing_congr :
    (ys new xs xs' : List UsageReport)
    → ((y : UsageReport) → has_period y new ≡ true → has_period y xs ≡ has_period y xs')
    → ((y : UsageReport) → has_period y ys ≡ true → has_period y new ≡ true)
    → missing ys xs ≡ missing ys xs'
unfolding missing has_period
missing_congr [] new xs xs' h sub = refl
missing_congr (y ∷ ys) new xs xs' h sub =
    ground (
      arith,
      h y (sub y (ground arith)),
      missing_congr ys new xs xs' h (λ z e. sub z (ground arith)),
    )

remove_one :
    (x : UsageReport) (xs : List UsageReport) (i : ℕ) (r : UsageReport)
    → get_elem? (x ∷ xs) i ≡ some r
    → remove_all (i ∷ []) (record { live = x ∷ xs; stale = [] }) []
      ≡ ok (record { live = erase_at i (x ∷ xs); stale = last_of x xs ∷ [] }, r ∷ [])
unfolding remove_all
remove_one x xs i r h = rw (h, remove_all)

module _ (reports new : List UsageReport) where
  -- The array after the removal of the one report that is not in the new state has the periods of
  -- the new state that the reports have.
  array_after :
      (x : UsageReport) (xs : List UsageReport)
      → reports ≡ x ∷ xs
      → (y : UsageReport) → has_period y new ≡ true
      → has_period y (retained reports new ++ last_of x xs ∷ []) ≡ has_period y reports
  array_after x xs e y h = elim (Bool-cases (has_period y (x ∷ xs))) [
    | inl t ↦ ground (
      arith,
      has_period-append y (retained reports new) (last_of x xs ∷ []),
      has_period-retained y reports new,
    )
    | inr f ↦ ground (
      arith,
      has_period-append y (retained reports new) (last_of x xs ∷ []),
      has_period-retained y reports new,
      last_of-not_period y x xs f,
    )
  ]

  periods_of_result :
      (r : UsageReport)
      → has_period r (retained reports new ++ missing new reports) ≡ has_period r new
  periods_of_result r = ground (
    arith,
    has_period-append r (retained reports new) (missing new reports),
    has_period-retained r reports new,
    has_period-missing r new reports,
  )

  -- What a round makes of the reports of a metric, and the changes that it notes.
  abbrev pub Synchronizes : Type 0
  Synchronizes =
      synchronize_reports reports new
      ≡ ok (
        retained reports new ++ missing new reports,
        record { added = missing new reports; removed = missing reports new },
      )

  synchronize_none : get_difference_between_sets reports new ≡ [] → Synchronizes
  unfolding synchronize_reports remove_all
  synchronize_none h =
      let none' = no_difference reports new h in
      ground (arith, select-difference new reports, append-nil reports, none'.0, none'.1)

  synchronize_one : (i : ℕ) → get_difference_between_sets reports new ≡ i ∷ [] → Synchronizes
  unfolding synchronize_reports
  synchronize_one i h =
      let (r, at, one, erased, out) = one_difference reports new i h in
      elim (List-cases reports) [
        | inl e ↦ absurd (ground arith)
        | inr (x, xs, e) ↦ ground (
          arith,
          remove_one x xs i r,
          select-difference new (retained reports new ++ last_of x xs ∷ []),
          missing_congr new new (retained reports new ++ last_of x xs ∷ []) reports
              (array_after x xs e) (λ y p. p),
        )
      ]

  -- If at most one report's period is gone from the new state, the round succeeds. The report goes,
  -- the reports whose periods are new are appended, both are noted as changes, and the result has
  -- exactly the periods of the new state.
  pub synchronize_reports_lem :
      length (get_difference_between_sets reports new) ≤ 1
      → Synchronizes
        × ((r : UsageReport)
            → has_period r (retained reports new ++ missing new reports) ≡ has_period r new)
  synchronize_reports_lem h =
      (by_removals (get_difference_between_sets reports new) refl h, periods_of_result)
    where
      by_removals :
          (is : List ℕ)
          → get_difference_between_sets reports new ≡ is
          → length is ≤ 1
          → Synchronizes
      by_removals [] e k = synchronize_none e
      by_removals (i ∷ []) e k = synchronize_one i e
      by_removals (i ∷ j ∷ is) e k = absurd (omega arith)
