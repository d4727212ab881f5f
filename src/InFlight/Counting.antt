-- ===== src/InFlight/Counting.antt =====
-- What the threads of requests in flight count, and which of them have been told that they are
-- authorized.
use mathlib.Core.Path.{subst}
use scale_authorizer.Prelude.{
  ℕ, zero, suc, ◌+◌, Bool, true, false, some, List, [], ◌∷◌, ◌≡◌, refl, arith, ◌∙◌, some_inj,
  get_elem?, if◌then◌else◌,
}
use scale_authorizer.Api.{success, failure, Metrics}
use scale_authorizer.Application.{Application}
use scale_authorizer.Counters.{report_metrics, report_metric}
use scale_authorizer.InFlight.{Stage, started, missed, replied, approved, finished, set}

-- The application after a series of local reports.
unfoldable pub replay : Application → List Metrics → Application
replay app [] = app
replay app (m ∷ log) = replay (report_metrics app m) log

-- One for a request that has been told that it is authorized.
unfoldable pub served : Stage → ℕ
served (started request) = 0
served (missed request key) = 0
served (replied request key reply) = 0
served (approved key m) = 0
served (finished (failure e)) = 0
served (finished (success answer)) = if answer.authorized then 1 else 0

pub served_at : List Stage → ℕ → ℕ
unfolding served
served_at [] i = 0
served_at (stage ∷ rest) zero = served stage
served_at (stage ∷ rest) (suc i) = served_at rest i

pub same : ℕ → ℕ → Bool
same zero zero = true
same zero (suc j) = false
same (suc i) zero = false
same (suc i) (suc j) = same i j

-- How often a number stands in a list.
unfoldable pub occurrences : ℕ → List ℕ → ℕ
unfolding same
occurrences i [] = 0
occurrences i (j ∷ rest) = (if same j i then 1 else 0) + occurrences i rest

pub served_at-set :
    (i j : ℕ) (stage old : Stage) (l : List Stage)
    → get_elem? l i ≡ some old
    → served_at (set i stage l) j ≡ (if same i j then served stage else served_at l j)
unfolding served_at same
served_at-set i j stage old [] e = absurd (ground arith)
served_at-set zero zero stage old (x ∷ rest) e = refl
served_at-set zero (suc j) stage old (x ∷ rest) e = refl
served_at-set (suc i) zero stage old (x ∷ rest) e = refl
served_at-set (suc i) (suc j) stage old (x ∷ rest) e = served_at-set i j stage old rest e

pub served_at-get_elem? :
    (i j : ℕ) (stage : Stage) (l : List Stage)
    → get_elem? l i ≡ some stage
    → same i j ≡ true
    → served_at l j ≡ served stage
unfolding served_at same
served_at-get_elem? i j stage [] e p = absurd (ground arith)
served_at-get_elem? zero zero stage (x ∷ rest) e p = ground arith
served_at-get_elem? zero (suc j) stage (x ∷ rest) e p = absurd (ground arith)
served_at-get_elem? (suc i) zero stage (x ∷ rest) e p = absurd (ground arith)
served_at-get_elem? (suc i) (suc j) stage (x ∷ rest) e p = served_at-get_elem? i j stage rest e p

-- What holds of each thread, by its number.
abbrev pub AllAt : (ℕ → Stage → Type 0) → List Stage → Type 0
AllAt P l = (i : ℕ) (stage : Stage) → get_elem? l i ≡ some stage → P i stage

pub set-AllAt :
    (P : ℕ → Stage → Type 0) (i : ℕ) (stage : Stage) (l : List Stage)
    → P i stage
    → AllAt P l
    → AllAt P (set i stage l)
set-AllAt P i stage [] p all j x e = absurd (ground arith)
set-AllAt P zero stage (old ∷ rest) p all zero x e = subst (P 0) (some_inj stage x e) p
set-AllAt P zero stage (old ∷ rest) p all (suc j) x e = all (suc j) x e
set-AllAt P (suc i) stage (old ∷ rest) p all zero x e = all zero x e
set-AllAt P (suc i) stage (old ∷ rest) p all (suc j) x e =
    set-AllAt (λ n. P (suc n)) i stage rest p (λ n. all (suc n)) j x e

pub report_metrics-hierarchy :
    (app : Application) (m : Metrics)
    → (report_metrics app m).metric_hierarchy ≡ app.metric_hierarchy
unfolding report_metrics report_metric
report_metrics-hierarchy app [] = refl
report_metrics-hierarchy app ((k, v) ∷ m) =
    report_metrics-hierarchy (report_metric app k v) m ∙ ground arith
