-- ===== src/Sync/Difference.antt =====
-- `getDifferenceBetweenSets` against filters, and the selection by its indexes.
use scale_authorizer.Prelude.{
  ℕ, suc, true, false, some, List, [], ◌∷◌, map, ◌≡◌, refl, arith, get_elem?, if◌then◌else◌,
  Bool-cases, inl, inr, ap, sym, ◌∙◌,
}
use scale_authorizer.Prelude.Outcome.{ok}
use scale_authorizer.Api.{UsageReport}
use scale_authorizer.Sync.{
  has_period, difference_from, get_difference_between_sets, select, erase_at,
}

-- The reports whose period is one of the list's, and the others.
unfoldable pub retained : List UsageReport → List UsageReport → List UsageReport
retained [] dst = []
retained (r ∷ src) dst = if has_period r dst then r ∷ retained src dst else retained src dst

unfoldable pub missing : List UsageReport → List UsageReport → List UsageReport
missing [] dst = []
missing (r ∷ src) dst = if has_period r dst then missing src dst else r ∷ missing src dst

difference_from-suc :
    (k : ℕ) (src dst : List UsageReport)
    → difference_from (suc k) src dst ≡ map suc (difference_from k src dst)
unfolding difference_from
difference_from-suc k [] dst = refl
difference_from-suc k (r ∷ src) dst = elim (Bool-cases (has_period r dst)) [
  | inl e ↦ rw e (difference_from-suc (suc k) src dst)
  | inr e ↦ rw e (ap (◌∷◌ (suc k)) (difference_from-suc (suc k) src dst))
]

select-suc :
    (is : List ℕ) (x : UsageReport) (xs : List UsageReport)
    → select (map suc is) (x ∷ xs) ≡ select is xs
unfolding select
select-suc [] x xs = refl
select-suc (i ∷ is) x xs = rw (select-suc is x xs)

-- The indexes select the reports whose period is missing.
pub select-difference :
    (src dst : List UsageReport)
    → select (get_difference_between_sets src dst) src ≡ ok (missing src dst)
unfolding get_difference_between_sets difference_from select missing
select-difference [] dst = refl
select-difference (r ∷ src) dst = elim (Bool-cases (has_period r dst)) [
  | inl e ↦
      rw (e, difference_from-suc 0 src dst, select-suc (difference_from 0 src dst) r src)
        (select-difference src dst)
  | inr e ↦ rw (
    e,
    difference_from-suc 0 src dst,
    select-suc (difference_from 0 src dst) r src,
    select-difference src dst,
  )
]

map-suc_nil : (l : List ℕ) → map suc l ≡ [] → l ≡ []
map-suc_nil [] h = refl
map-suc_nil (x ∷ l) h = absurd (ground arith)

map-suc_one : (l : List ℕ) (i : ℕ) → map suc l ≡ i ∷ [] → (j : ℕ) × (i ≡ suc j) × (l ≡ j ∷ [])
map-suc_one [] i h = absurd (ground arith)
map-suc_one (x ∷ []) i h = (x, ground arith, refl)
map-suc_one (x ∷ y ∷ l) i h = absurd (ground arith)

-- The indexes of the tail of a list, from those of the whole.
difference_kept :
    (r : UsageReport) (src dst : List UsageReport)
    → has_period r dst ≡ true
    → get_difference_between_sets (r ∷ src) dst ≡ map suc (get_difference_between_sets src dst)
unfolding get_difference_between_sets difference_from
difference_kept r src dst e = rw e (difference_from-suc 0 src dst)

difference_dropped :
    (r : UsageReport) (src dst : List UsageReport)
    → has_period r dst ≡ false
    → get_difference_between_sets (r ∷ src) dst ≡ 0 ∷ map suc (get_difference_between_sets src dst)
unfolding get_difference_between_sets difference_from
difference_dropped r src dst e = rw e (ap (◌∷◌ 0) (difference_from-suc 0 src dst))

-- No index: every report stays.
pub no_difference :
    (src dst : List UsageReport)
    → get_difference_between_sets src dst ≡ []
    → (retained src dst ≡ src) × (missing src dst ≡ [])
unfolding retained missing
no_difference [] dst h = (refl, refl)
no_difference (r ∷ src) dst h = elim (Bool-cases (has_period r dst)) [
  | inl e ↦
      let ih = no_difference src dst (
        map-suc_nil (get_difference_between_sets src dst)
          (sym (difference_kept r src dst e) ∙ h)) in
      rw e (ap (◌∷◌ r) ih.0, ih.1)
  | inr e ↦ absurd (ground (arith, difference_dropped r src dst e))
]

-- One index: it is in range, it selects the one report that is missing, and erasing it leaves the
-- others.
pub one_difference :
    (src dst : List UsageReport) (i : ℕ)
    → get_difference_between_sets src dst ≡ i ∷ []
    → (x : UsageReport) × (get_elem? src i ≡ some x)
      × (missing src dst ≡ x ∷ [])
      × (erase_at i src ≡ retained src dst)
      × (has_period x dst ≡ false)
unfolding retained missing erase_at
one_difference [] dst i h =
    absurd (unfold get_difference_between_sets difference_from in ground arith)
one_difference (r ∷ src) dst i h = elim (Bool-cases (has_period r dst)) [
  | inl e ↦
      let (j, ij, one) =
        map-suc_one (get_difference_between_sets src dst) i
          (sym (difference_kept r src dst e) ∙ h) in
      let (x, at, miss, erased, out) = one_difference src dst j one in
      rw (e, ij) (x, at, miss, ap (◌∷◌ r) erased, out)
  | inr e ↦
      let z : i ≡ 0 = ground (arith, difference_dropped r src dst e) in
      let n : map suc (get_difference_between_sets src dst) ≡ [] =
        ground (arith, difference_dropped r src dst e) in
      let none' = no_difference src dst (map-suc_nil (get_difference_between_sets src dst) n) in
      rw (e, z) (r, refl, ap (◌∷◌ r) none'.1, sym none'.0, e)
]
