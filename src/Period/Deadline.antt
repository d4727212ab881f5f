-- ===== src/Period/Deadline.antt =====
-- `hasSurpassedDeadline` and `getElapsedPeriods`: what is marked as elapsed, and when.
use scale_authorizer.Prelude.{
  ℕ, zero, suc, ◌≤◌, ◌<◌, ℤ, pos, ◌+ℤ◌, ◌<ℤ◌, ltb_ℤ_iff, leb, ltb, Bool, true, false, ◌&&◌, ◌||◌,
  List, [], ◌∷◌, ◌≡◌, ◌↔◌, arith, Bool-cases, inl, inr,
}
use scale_authorizer.Api.{UsageReport, UsageReports, ApiLib}
use scale_authorizer.Period.{
  Zone, has_surpassed_deadline, is_elapsed, mark_elapsed, mark_reports, elapsed_periods_from,
  get_elapsed_periods,
}

-- The constants of the package api stand for different periods.
pub record AreDistinct (lib : ApiLib) : Type 0 where
  pub minute-lt-hour : lib.minute < lib.hour
  pub hour-lt-day : lib.hour < lib.day
  pub day-lt-week : lib.day < lib.week

-- For a minute, an hour and a day the test holds exactly while the end lies before the deadline, so
-- for a window that has not elapsed; for a week it never holds.
pub has_surpassed_deadline_lem :
    (lib : ApiLib) (zone : Zone) (start end : ℤ)
    → AreDistinct lib
    → ((has_surpassed_deadline lib zone start lib.minute end ≡ true) ↔ (end <ℤ start +ℤ pos 60))
      × ((has_surpassed_deadline lib zone start lib.hour end ≡ true) ↔ (end <ℤ start +ℤ pos 3600))
      × ((has_surpassed_deadline lib zone start lib.day end ≡ true) ↔ (end <ℤ zone.add_day start))
      × (has_surpassed_deadline lib zone start lib.week end ≡ false)
unfolding has_surpassed_deadline
has_surpassed_deadline_lem lib zone start end d = (
  ground (arith, ltb_ℤ_iff end (start +ℤ pos 60)),
  ground (arith, ltb_ℤ_iff end (start +ℤ pos 3600)),
  ground (arith, ltb_ℤ_iff end (zone.add_day start)),
  ground arith,
)

-- Below a bound, a marked period has all lower ones marked but 0.
abbrev IsClosedBelow : ℕ → List ℕ → Type 0
IsClosedBelow bound elapsed =
    (p q : ℕ)
    → p ≤ bound
    → is_elapsed p elapsed ≡ true
    → 0 < q
    → q ≤ p
    → is_elapsed q elapsed ≡ true

is_elapsed-mark :
    (i q : ℕ) (elapsed : List ℕ)
    → IsClosedBelow i elapsed
    → is_elapsed q (mark_elapsed i elapsed) ≡ (is_elapsed q elapsed || (ltb 0 q && leb q i))
unfolding mark_elapsed is_elapsed
is_elapsed-mark zero q elapsed c = ground arith
is_elapsed-mark (suc i) q elapsed c = elim (Bool-cases (is_elapsed (suc i) elapsed)) [
  | inl e ↦ rw e (ground (arith, c (suc i) q))
  | inr e ↦
      rw e (
        ground
          (arith, is_elapsed-mark i q (suc i ∷ elapsed) (λ p r b m z l. ground (arith, c p r))))
]

-- With no bound: the marked periods are closed downwards, but for 0.
abbrev IsClosed : List ℕ → Type 0
IsClosed elapsed =
    (p q : ℕ) → is_elapsed p elapsed ≡ true → 0 < q → q ≤ p → is_elapsed q elapsed ≡ true

is_elapsed-mark_closed :
    (i q : ℕ) (elapsed : List ℕ)
    → IsClosed elapsed
    → is_elapsed q (mark_elapsed i elapsed) ≡ (is_elapsed q elapsed || (ltb 0 q && leb q i))
is_elapsed-mark_closed i q elapsed c = is_elapsed-mark i q elapsed (λ p r b m z l. c p r m z l)

IsClosed-mark : (i : ℕ) (elapsed : List ℕ) → IsClosed elapsed → IsClosed (mark_elapsed i elapsed)
IsClosed-mark i elapsed c p q m z l =
    ground
      (arith, is_elapsed-mark_closed i p elapsed c, is_elapsed-mark_closed i q elapsed c, c p q)

module _ (lib : ApiLib) (zone : Zone) (start end : ℤ) where
  -- Whether the first of the reports marks a period.
  abbrev pub covers : ℕ → List UsageReport → Bool
  covers p [] = false
  covers p (report ∷ more) =
      has_surpassed_deadline lib zone start report.period_window.period end
      && (ltb 0 p && leb p report.period_window.period)

  abbrev pub any_covers : ℕ → UsageReports → Bool
  any_covers p [] = false
  any_covers p ((metric, reports) ∷ rest) = covers p reports || any_covers p rest

  IsClosed-mark_reports :
      (reports : List UsageReport) (elapsed : List ℕ)
      → IsClosed elapsed
      → IsClosed (mark_reports lib zone start end reports elapsed)
  unfolding mark_reports
  IsClosed-mark_reports [] elapsed c = c
  IsClosed-mark_reports (r ∷ more) elapsed c =
      elim (Bool-cases (has_surpassed_deadline lib zone start r.period_window.period end)) [
        | inl e ↦ rw e (IsClosed-mark r.period_window.period elapsed c)
        | inr e ↦ rw e c
      ]

  is_elapsed-mark_reports :
      (p : ℕ) (reports : List UsageReport) (elapsed : List ℕ)
      → IsClosed elapsed
      → is_elapsed p (mark_reports lib zone start end reports elapsed)
        ≡ (is_elapsed p elapsed || covers p reports)
  unfolding mark_reports
  is_elapsed-mark_reports p [] elapsed c = ground arith
  is_elapsed-mark_reports p (r ∷ more) elapsed c =
      ground (arith, is_elapsed-mark_closed r.period_window.period p elapsed c)

  is_elapsed-from :
      (p : ℕ) (counters : UsageReports) (elapsed : List ℕ)
      → IsClosed elapsed
      → is_elapsed p (elapsed_periods_from lib zone start end counters elapsed)
        ≡ (is_elapsed p elapsed || any_covers p counters)
  unfolding elapsed_periods_from
  is_elapsed-from p [] elapsed c = ground arith
  is_elapsed-from p ((metric, reports) ∷ rest) elapsed c = ground (
    arith,
    is_elapsed-from p rest (mark_reports lib zone start end reports elapsed)
        (IsClosed-mark_reports reports elapsed c),
    is_elapsed-mark_reports p reports elapsed c,
  )

  -- A period is marked exactly when, for some metric, it is at most the period of the metric's first
  -- report and not 0, and the test holds for that first report; the later reports, those of longer
  -- periods, play no part.
  pub get_elapsed_periods_lem :
      (p : ℕ) (counters : UsageReports)
      → is_elapsed p (get_elapsed_periods lib zone counters start end) ≡ any_covers p counters
  unfolding get_elapsed_periods is_elapsed
  get_elapsed_periods_lem p counters =
      is_elapsed-from p counters [] (λ q r m z l. absurd (ground arith))
