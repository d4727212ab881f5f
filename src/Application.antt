-- ===== src/Application.antt =====
-- `Application` of pkg/backend/v1/backend.go, and its methods on the counters. The mutex is not
-- part of the record: a method here runs under the lock that the source holds around it.
pub mod Timestamps
use scale_authorizer.Prelude.{
  String, ℕ, ℤ, pos, Dict, Bool, true, false, Option, none, some, List, [], ◌∷◌, ◌==◌, nat_beq,
  get_elem?, if◌then◌else◌,
}
use scale_authorizer.Prelude.Map.{get}
use scale_authorizer.Prelude.Outcome.{Outcome, ok, panic, ◌>>=◌}
use scale_authorizer.Api.{
  UsageReport, UsageReports, Hierarchy, ClientAuth, Params, Request, AuthorizeResult, ApiLib,
}
use scale_authorizer.Key.{get_app_id_from_transaction, join_key}

-- `shared` names the metrics whose slices in the local and the remote state are one array: the
-- assignment of helpers' callers `a.LocalState[m] = a.RemoteState[m]` copies the slice's header.
pub record Application : Type 0 where
  pub remote_state : Option UsageReports
  pub local_state : UsageReports
  pub unlimited_counter : Dict ℤ
  pub metric_hierarchy : Option Hierarchy
  pub auth : ClientAuth
  pub params : Params
  pub timestamp : ℤ
  pub id : String
  pub owned_by : String
  pub shared : List String

-- A nil map reads as an empty one.
abbrev pub or_empty : {V : Type 0} → Option (Dict V) → Dict V
or_empty none = []
or_empty (some m) = m

abbrev pub or_zero : Option ℤ → ℤ
or_zero none = pos 0
or_zero (some n) = n

unfoldable pub contains : String → List String → Bool
contains key [] = false
contains key (value ∷ rest) = if value == key then true else contains key rest

abbrev no_auth : ClientAuth
no_auth = record { auth_type = ""; value = "" }

abbrev no_params : Params
no_params = record { app_id = ""; app_key = ""; user_id = ""; user_key = "" }

unfoldable pub new_application : Application
new_application = record {
  remote_state = none;
  local_state = [];
  unlimited_counter = [];
  metric_hierarchy = none;
  auth = no_auth;
  params = no_params;
  timestamp = pos 0;
  id = "";
  owned_by = "";
  shared = [];
}

-- The loop of `deriveTimestamp`: it ends at the first minute, and panics on an empty slice.
unfoldable pub derive_timestamp_from : ℕ → ℤ → UsageReports → Outcome ℤ
derive_timestamp_from minute timestamp [] = ok timestamp
derive_timestamp_from minute timestamp ((metric, []) ∷ rest) = panic
derive_timestamp_from minute timestamp ((metric, lowest ∷ more) ∷ rest) =
    let start = lowest.period_window.start in
    let continue = derive_timestamp_from minute start rest in
    if nat_beq lowest.period_window.period minute then ok start else continue

unfoldable pub derive_timestamp : ApiLib → UsageReports → Outcome ℤ
unfolding derive_timestamp_from
derive_timestamp lib reports = derive_timestamp_from lib.minute (pos 0) reports

abbrev pub ordered : ApiLib → Option UsageReports → Option UsageReports
ordered lib none = none
ordered lib (some reports) = some (lib.order_by_ascending_granularity reports)

-- The response's slices are sorted in place, so the remote state is the sorted one.
unfoldable pub get_application_from_response : ApiLib → AuthorizeResult → Outcome Application
unfolding derive_timestamp new_application
get_application_from_response lib resp =
    let sorted = ordered lib resp.usage_reports in
    do
      timestamp ← derive_timestamp lib (or_empty sorted)
      ok (record new_application {
        remote_state = sorted;
        local_state = or_empty sorted;
        metric_hierarchy = resp.hierarchy;
        timestamp = timestamp;
      })

unfoldable pub annotate_with_request_details : ApiLib → Application → Request → Application
annotate_with_request_details lib a request = elim request.transactions [
  | [] ↦ record a { owned_by = lib.get_service_id request; auth = request.auth }
  | transaction ∷ rest ↦ record a {
    id = get_app_id_from_transaction transaction;
    params = transaction.params;
    owned_by = lib.get_service_id request;
    auth = request.auth;
  }
]

-- The slices of the copy are its own, and the hierarchy and the identity are left out.
unfoldable pub deep_copy : Application → Application
unfolding new_application
deep_copy a = record new_application {
  remote_state = some (or_empty a.remote_state);
  local_state = a.local_state;
  unlimited_counter = a.unlimited_counter;
  params = a.params;
  auth = a.auth;
  timestamp = a.timestamp;
}

unfoldable pub get_cache_key : Application → String
unfolding join_key
get_cache_key a = join_key a.owned_by a.id

abbrev pub same_period : UsageReport → UsageReport → Bool
same_period r s = nat_beq r.period_window.period s.period_window.period

-- The nil slice of a key that is not there has no elements.
abbrev pub element_at : ℕ → Option (List UsageReport) → Option UsageReport
element_at index none = none
element_at index (some counters) = get_elem? counters index

unfoldable pub counter_at : String → ℕ → UsageReports → Option UsageReport
counter_at metric index state = element_at index (get metric state)

abbrev pub both_same_period : Option UsageReport → Option UsageReport → Bool
both_same_period none r = false
both_same_period (some l) none = false
both_same_period (some l) (some r) = same_period l r

-- The tests on the key and on the length of the slice are those of `counter_at`.
unfoldable pub states_are_comparable : String → ℕ → UsageReports → UsageReports → Bool
unfolding counter_at
states_are_comparable metric index state compare_to =
    both_same_period (counter_at metric index state) (counter_at metric index compare_to)

unfoldable pub compare_local_to_remote_state : Application → String → ℕ → Bool
unfolding states_are_comparable
compare_local_to_remote_state a metric index =
    states_are_comparable metric index a.local_state (or_empty a.remote_state)
