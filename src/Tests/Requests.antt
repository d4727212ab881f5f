-- ===== src/Tests/Requests.antt =====
-- Witnesses for the requests and the reports.
use scale_authorizer.Prelude.{
  String, ℕ, Dict, true, false, some, none, [], ◌∷◌, ◌≡◌, refl, add_int, ◌==◌, ◌&&◌, if◌then◌else◌,
  ap, ◌⊎◌,
}
use scale_authorizer.Prelude.Map.{get}
use scale_authorizer.Prelude.Outcome.{ok, panic}
use scale_authorizer.Api.{Fallible, AuthorizeResult, Reply, success, failure}
use scale_authorizer.Application.{Application, get_application_from_response}
use scale_authorizer.Counters.{is_authorized, report_metrics}
use scale_authorizer.Key.{get_app_id_from_transaction, join_key}
use scale_authorizer.Backend.{Backend, remote_auth}
use scale_authorizer.Backend.Miss.{verdict}
use scale_authorizer.Backend.Authorize.{authorize, auth_rep}
use scale_authorizer.Backend.Decisions.{key_of, blank, affected, after_hit, auth_rep_hit}
use scale_authorizer.Backend.Misses.{
  Allows, asked, learned, after_learning, auth_rep_error, auth_rep_denied, auth_rep_miss,
}
use scale_authorizer.Report.{report_transaction, report_task}
use scale_authorizer.Report.Rounds.{next_hierarchy, report_transaction_cached, report_task_denied}
use scale_authorizer.Report.Agreement.{authorize-report_task}
use scale_authorizer.Tests.World.{
  lib, cmap-IsConcurrentMap, Items, hits, app, transaction, request, answer, timed_out, host,
  backend,
}

abbrev down : Reply AuthorizeResult
down = record { result = none; error = some timed_out }

abbrev denies : Reply AuthorizeResult
denies = record { result = some (answer false); error = none }

abbrev knows : Reply AuthorizeResult
knows = record { result = some (answer true); error = none }

abbrev warm : Backend ℕ (Dict Application) Items
warm = backend down none (("svc_app", app) ∷ []) []

abbrev cold : Reply AuthorizeResult → Backend ℕ (Dict Application) Items
cold reply = backend reply none [] []

warm_hit : get (key_of host request transaction) warm.cache ≡ some app
unfolding get join_key get_app_id_from_transaction
warm_hit = refl

cold_miss :
    (reply : Reply AuthorizeResult)
    → get (key_of host request transaction) (cold reply).cache ≡ none
unfolding get
cold_miss reply = refl

auth_rep_hit_example :
    (auth_rep host warm request false
      ≡ ok (
        success (verdict (is_authorized app (affected host app transaction))),
        after_hit host warm request transaction [] refl app,
      ))
    × ((j : String)
        → get j (after_hit host warm request transaction [] refl app).cache ≡ (
            if is_authorized app (affected host app transaction)
              && key_of host request transaction == j
            then some (report_metrics app (affected host app transaction))
            else get j warm.cache))
auth_rep_hit_example =
    auth_rep_hit host warm request transaction [] refl false app cmap-IsConcurrentMap warm_hit

asked_down :
    (remote_auth host (cold down) (blank host request transaction) false).0.error ≡ some timed_out
unfolding remote_auth
asked_down = refl

abbrev asked_by : Reply AuthorizeResult → Backend ℕ (Dict Application) Items
asked_by reply = asked host (cold reply) request transaction [] refl false (cold_miss reply)

auth_rep_error_example :
    (told : Fallible AuthorizeResult) × (b' : Backend ℕ (Dict Application) Items) × (auth_rep host
        (cold down)
        request
        false
      ≡ ok (told, b'))
    × ((Allows host (asked_by down) timed_out × (told ≡ success (verdict true)))
        ⊎ ((¬ Allows host (asked_by down) timed_out)
            × (told
                ≡ failure
                    (record { message = "unable to process request - timeout"; network = none }))))
    × (b'.cache ≡ (cold down).cache)
auth_rep_error_example =
    auth_rep_error host (cold down) request transaction [] refl false (cold_miss down) timed_out
      asked_down

replied :
    (reply : Reply AuthorizeResult)
    → (remote_auth host (cold reply) (blank host request transaction) false).0 ≡ reply
unfolding remote_auth
replied reply = refl

auth_rep_denied_example :
    (auth_rep host (cold denies) request false
      ≡ ok (
        success (answer false),
        asked host (cold denies) request transaction [] refl false (cold_miss denies),
      ))
    × ((asked host (cold denies) request transaction [] refl false (cold_miss denies)).cache
        ≡ (cold denies).cache)
auth_rep_denied_example =
    auth_rep_denied host (cold denies) request transaction [] refl false (cold_miss denies)
      (answer false) (ap (λ (r : Reply AuthorizeResult). r.error) (replied denies))
      (ap (λ (r : Reply AuthorizeResult). r.result) (replied denies)) refl

abbrev fresh : Application
fresh = record app {
  local_state = hits 3;
  unlimited_counter = [];
  auth = record { auth_type = ""; value = "" };
  params = record { app_id = ""; app_key = ""; user_id = ""; user_key = "" };
  id = "";
  owned_by = "";
}

fresh_lem : get_application_from_response lib (answer true) ≡ ok fresh
unfolding get_application_from_response
fresh_lem = refl

abbrev known : Application → Application
known = learned host (cold knows) request transaction [] refl false (cold_miss knows)

abbrev after : Application → Backend ℕ (Dict Application) Items
after = after_learning host (cold knows) request transaction [] refl false (cold_miss knows)

auth_rep_miss_example :
    (auth_rep host (cold knows) request false
      ≡ ok (
        success (verdict (is_authorized (known fresh) (affected host (known fresh) transaction))),
        after (known fresh),
      ))
    × ((j : String)
        → get j (after (known fresh)).cache ≡ (
            if key_of host request transaction == j
            then some (
                if is_authorized (known fresh) (affected host (known fresh) transaction)
                then report_metrics (known fresh) (affected host (known fresh) transaction)
                else known fresh)
            else get j (cold knows).cache))
auth_rep_miss_example =
    auth_rep_miss host (cold knows) request transaction [] refl false (cold_miss knows)
      (answer true) fresh cmap-IsConcurrentMap
      (ap (λ (r : Reply AuthorizeResult). r.error) (replied knows))
      (ap (λ (r : Reply AuthorizeResult). r.result) (replied knows)) refl fresh_lem

report_transaction_cached_example :
    (b' : Backend ℕ (Dict Application) Items) × (report_transaction host warm request 0 transaction
        none
      ≡ ok (next_hierarchy host warm request 0 transaction refl app none, b'))
    × ((j : String)
        → get j b'.cache ≡ (
            if key_of host request transaction == j
            then some (report_metrics app (affected host app transaction))
            else get j warm.cache))
report_transaction_cached_example =
    report_transaction_cached host warm request 0 transaction refl app none (hits 3)
      cmap-IsConcurrentMap warm_hit refl

report_task_denied_example : report_task host (cold denies) request ≡ panic
report_task_denied_example =
    report_task_denied host (cold denies) request transaction [] (answer false) refl
      (cold_miss denies) (ap (λ (r : Reply AuthorizeResult). r.error) (replied denies))
      (ap (λ (r : Reply AuthorizeResult). r.result) (replied denies)) refl

warm_authorized : is_authorized app (affected host app transaction) ≡ true
unfolding is_authorized get add_int
warm_authorized = refl

authorize-report_task_example :
    (b1 b2 b3 : Backend ℕ (Dict Application) Items) × (auth_rep host warm request false
      ≡ ok (success (verdict true), b1))
    × (authorize host warm request false ≡ ok (success (verdict true), b2))
    × (report_task host b2 request ≡ ok b3)
    × ((j : String) → get j b3.cache ≡ get j b1.cache)
authorize-report_task_example =
    authorize-report_task host warm request transaction false app (hits 3) refl cmap-IsConcurrentMap
      warm_hit refl warm_authorized
