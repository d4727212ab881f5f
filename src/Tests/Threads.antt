-- ===== src/Tests/Threads.antt =====
-- Witnesses for the requests in flight.
use mathlib.Core.Path.{subst}
use scale_authorizer.Prelude.{
  some_inj, ℕ, zero, suc, ◌+◌, arith, map, get_elem?, pos, Dict, true, false, none, some, List, [],
  ◌∷◌, ◌≡◌, refl, add_int,
}
use scale_authorizer.Prelude.Map.{get, alter, IsMap}
use scale_authorizer.Prelude.Outcome.{Outcome, ok, panic}
use scale_authorizer.Api.{Reply, AuthorizeResult, Request, Transaction}
use scale_authorizer.Application.{get_application_from_response, Application, or_empty, ordered}
use scale_authorizer.Counters.{is_authorized, report_metrics}
use scale_authorizer.LocalCache
use scale_authorizer.Backend.{
  Backend, validate_transactions, get_application_from_cache, empty_transaction_from,
  get_empty_auth_request, remote_auth, compute_affected_metrics,
}
use scale_authorizer.Backend.Miss.{cache_response, after_miss}
use scale_authorizer.Backend.Decisions.{affected}
use scale_authorizer.Key.{generate_cache_key_from_request, get_app_id_from_transaction, join_key}
use scale_authorizer.InFlight.{Stage, started, System, run, step, advance, check}
use scale_authorizer.InFlight.Counting.{replay, served_at, occurrences}
use scale_authorizer.InFlight.Served.{AllAbout, IsAbout, increments_at, run-Serves}
use scale_authorizer.InFlight.Races.{Compete, answer, in_turn-interleaved}
use scale_authorizer.Backend.Tidy.{IsListing}
use scale_authorizer.InFlight.Tidy.{SystemIsTidy, IsListed, run-SystemIsTidy}
use scale_authorizer.Flush.Unanswered.{get-AllTidy}
use scale_authorizer.Tests.World.{
  lib, client, answer as told, cmap-IsConcurrentMap, Items, app, transaction, request, timed_out,
  host, backend,
}

abbrev busy : Backend ℕ (Dict Application) Items
busy = backend (record { result = none; error = some timed_out }) none (("svc_app", app) ∷ []) []

-- Three more hits on five of ten.
abbrev hit : Transaction
hit = record transaction { metrics = some (("hits", pos 3) ∷ []) }

abbrev three : Request
three = record request { transactions = hit ∷ [] }

abbrev two_requests : System ℕ (Dict Application) Items
two_requests = record { backend = busy; threads = started three ∷ started request ∷ [] }

two_requests-AllAbout : AllAbout host "svc_app" two_requests.threads
unfolding AllAbout IsAbout join_key get_app_id_from_transaction
two_requests-AllAbout = ((hit, [], refl, refl), ((transaction, [], refl, refl), tt))

busy_hit : get "svc_app" busy.cache ≡ some app
unfolding get
busy_hit = refl

run-Serves_example :
    (s' : System ℕ (Dict Application) Items) × (order : List ℕ) × (run host false two_requests
        (0 ∷ 1 ∷ 1 ∷ 0 ∷ [])
      ≡ ok s')
    × (get "svc_app" s'.backend.cache
        ≡ some (replay app (map (increments_at host app two_requests.threads) order)))
    × ((i : ℕ) → served_at s'.threads i ≡ occurrences i order + served_at two_requests.threads i)
run-Serves_example =
    run-Serves host false cmap-IsConcurrentMap "svc_app" (0 ∷ 1 ∷ 1 ∷ 0 ∷ []) two_requests app
      two_requests-AllAbout busy_hit

fits_lem : is_authorized app (affected host app hit) ≡ true
unfolding is_authorized get add_int
fits_lem = refl

exceeds_lem :
    is_authorized
      (report_metrics app (affected host app hit))
      (affected host (report_metrics app (affected host app hit)) hit)
    ≡ false
unfolding is_authorized report_metrics get add_int alter
exceeds_lem = refl

same_app : get (join_key "svc" (get_app_id_from_transaction hit)) busy.cache ≡ some app
unfolding get join_key get_app_id_from_transaction
same_app = refl

abbrev rivals : Compete host busy app three three
rivals = record {
  t = hit;
  t' = hit;
  rest = [];
  rest' = [];
  first = refl;
  first' = refl;
  same_key = refl;
  cached = same_app;
  fits = fits_lem;
  fits' = fits_lem;
  exceeds = exceeds_lem;
}

in_turn-interleaved_example :
    ((b' : Backend ℕ (Dict Application) Items) × (run host false
          (record { backend = busy; threads = started three ∷ started three ∷ [] })
          (0 ∷ 0 ∷ 1 ∷ 1 ∷ [])
        ≡ ok (record { backend = b'; threads = answer true ∷ answer false ∷ [] })))
    × ((b' : Backend ℕ (Dict Application) Items) × (run host false
            (record { backend = busy; threads = started three ∷ started three ∷ [] })
            (0 ∷ 1 ∷ 0 ∷ 1 ∷ [])
          ≡ ok (record { backend = b'; threads = answer true ∷ answer true ∷ [] }))
        × (get (join_key "svc" (get_app_id_from_transaction hit)) b'.cache
            ≡ some (
                report_metrics
                  (report_metrics app (affected host app hit))
                  (affected host app hit))))
in_turn-interleaved_example =
    in_turn-interleaved host false cmap-IsConcurrentMap busy app three three rivals

-- 3scale knows the application.
abbrev knows : Reply AuthorizeResult
knows = record { result = some (told true); error = none }

knows-IsListing : IsListing lib (client knows none)
unfolding get
knows-IsListing = record {
  listed = λ r w resp e.
      subst (λ a. IsMap (or_empty (ordered lib a.usage_reports))) (some_inj (told true) resp e)
        (refl, tt);
  listed_oauth = λ r w resp e.
      subst (λ a. IsMap (or_empty (ordered lib a.usage_reports))) (some_inj (told true) resp e)
        (refl, tt);
}

-- Two requests that both miss: each asks 3scale before the other's answer is in the cache.
abbrev cold_system : System ℕ (Dict Application) Items
cold_system = record two_requests { backend = backend knows none [] [] }

cold_system-SystemIsTidy :
    SystemIsTidy host cmap-IsConcurrentMap (client knows none) knows-IsListing cold_system
unfolding IsListed get
cold_system-SystemIsTidy =
    ((refl, λ k a e. get-AllTidy [] k a tt e), λ i stage e. started_threads i stage e)
  where
    started_threads :
        (i : ℕ) (stage : Stage)
        → get_elem? two_requests.threads i ≡ some stage
        → IsListed host cmap-IsConcurrentMap (client knows none) knows-IsListing stage
    started_threads zero stage e =
        subst (IsListed host cmap-IsConcurrentMap (client knows none) knows-IsListing)
          (some_inj (started three) stage e) tt
    started_threads (suc zero) stage e =
        subst (IsListed host cmap-IsConcurrentMap (client knows none) knows-IsListing)
          (some_inj (started request) stage e) tt
    started_threads (suc (suc i)) stage e = absurd (ground arith)

abbrev crossed : List ℕ
crossed = 0 ∷ 1 ∷ 0 ∷ 1 ∷ 1 ∷ 0 ∷ 0 ∷ 1 ∷ []

abbrev after_run : Outcome (System ℕ (Dict Application) Items) → System ℕ (Dict Application) Items
after_run panic = cold_system
after_run (ok s) = s

-- The system after both requests.
abbrev both_served : System ℕ (Dict Application) Items
both_served = after_run (run host false cold_system crossed)

crossed_lem : run host false cold_system crossed ≡ ok both_served
unfolding run step advance validate_transactions generate_cache_key_from_request
    get_application_from_cache LocalCache.get get join_key get_app_id_from_transaction
    empty_transaction_from get_empty_auth_request remote_auth cache_response after_miss
    get_application_from_response check compute_affected_metrics add_int
crossed_lem = refl

run-SystemIsTidy_example :
    SystemIsTidy host cmap-IsConcurrentMap (client knows none) knows-IsListing both_served
run-SystemIsTidy_example =
    run-SystemIsTidy host cmap-IsConcurrentMap (client knows none) knows-IsListing false crossed
      cold_system both_served cold_system-SystemIsTidy crossed_lem
