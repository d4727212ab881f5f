-- ===== src/Tests/World.antt =====
-- Concrete instances of the packages, and a small application.
use scale_authorizer.Prelude.{
  ℕ, ◌+◌, ◌<◌, ◌≤◌, pos, ◌+ℤ◌, Dict, Bool, true, false, Option, none, some, List, [], ◌∷◌, ◌++◌,
  ◌≡◌, refl, arith, ltb, leb, length, if◌then◌else◌,
}
use scale_authorizer.Prelude.Map.{get, put, IsMap-put, remove, get-put, get-remove, keys}
use scale_authorizer.Api.{
  UsageReport, UsageReports, ClientAuth, Params, Transaction, Request, AuthorizeResult, Error,
  Reply, success, ApiLib,
}
use scale_authorizer.Application.{Application, or_empty}
use scale_authorizer.Counters.Deltas.{AddsMetrics}
use scale_authorizer.Period.{Zone}
use scale_authorizer.Period.Deadline.{AreDistinct}
use scale_authorizer.Host.{
  ConcurrentMap, IsConcurrentMap, Deque, IsDeque, Client, Logger, shifted, is_nil,
}
use scale_authorizer.Backend.{Host, Backend, fail_open_policy}

abbrev pub lib : ApiLib
lib = record {
  add_hierarchy_to_metrics = λ m hierarchy. or_empty m;
  metrics_add = λ m k v. put k v m;
  order_by_ascending_granularity = λ reports. reports;
  get_service_id = λ r. r.service;
  minute = 0;
  hour = 1;
  day = 2;
  week = 3;
  month = 4;
  year = 5;
  rejection_reason_header = "rejection_reason_header";
  hierarchy_extension = "hierarchy";
  flat_usage_extension = "flat_usage";
}

pub lib-AddsMetrics : AddsMetrics lib
lib-AddsMetrics = record {
  get-add = λ m k j v e. get-put k j v m;
  IsMap-add = λ m k v h. IsMap-put k v m h;
}

pub lib-AreDistinct : AreDistinct lib
lib-AreDistinct = omega arith

-- UTC; a month of thirty days serves the tests
abbrev pub zone : Zone
zone = record {
  add_day = λ t. t +ℤ pos 86400;
  add_month = λ t. t +ℤ pos 2592000;
  add_year = λ t. t +ℤ pos 31536000;
}

abbrev pub cmap : {V : Type 0} → ConcurrentMap (Dict V) V
cmap = record {
  new = [];
  get = λ s k. get k s;
  set = λ s k v. put k v s;
  remove = λ s k. remove k s;
  keys = keys;
  count = length;
  entries = λ s. s;
}

pub cmap-IsConcurrentMap : {V : Type 0} → IsConcurrentMap (cmap {V = V})
unfolding get
cmap-IsConcurrentMap = record {
  get-new = λ k. refl;
  get-set = λ s k j v. get-put k j v s;
  get-remove = λ s k j. get-remove k j s;
}

-- A queue is its capacity and its items.
pub record Items : Type 0 where
  pub capacity : ℕ
  pub items : List Application

abbrev pub lane : Deque Items Application
lane = record {
  new_capped = λ n. record { capacity = n; items = [] };
  append = λ q a.
      if ltb (length q.items) q.capacity
      then (record q { items = q.items ++ a ∷ [] }, true)
      else (q, false);
  prepend = λ q a.
      if ltb (length q.items) q.capacity
      then (record q { items = a ∷ q.items }, true)
      else (q, false);
  first = λ q. (shifted q.items).1;
  last = λ q. none;
  shift = λ q. (record q { items = (shifted q.items).0 }, (shifted q.items).1);
  pop = λ q. (q, none);
  full = λ q. leb q.capacity (length q.items);
  empty = λ q. is_nil q.items;
}

pub to_list-lane_append :
    (q : Items) (a : Application)
    → length q.items < q.capacity
    → (lane.append q a).0.items ≡ q.items ++ a ∷ []
to_list-lane_append q a l = ground arith

pub lane_append_full :
    (q : Items) (a : Application)
    → q.capacity ≤ length q.items
    → (lane.append q a).0.items ≡ q.items
lane_append_full q a l = ground arith

pub capacity-lane_append : (q : Items) (a : Application) → (lane.append q a).0.capacity ≡ q.capacity
capacity-lane_append q a = ground arith

pub to_list-lane_prepend :
    (q : Items) (a : Application)
    → length q.items < q.capacity
    → (lane.prepend q a).0.items ≡ a ∷ q.items
to_list-lane_prepend q a l = ground arith

pub capacity-lane_prepend :
    (q : Items) (a : Application) → (lane.prepend q a).0.capacity ≡ q.capacity
capacity-lane_prepend q a = ground arith

abbrev pub lane-IsDeque : IsDeque lane
lane-IsDeque = record {
  to_list = λ q. q.items;
  capacity = λ q. q.capacity;
  to_list-new = λ n. refl;
  capacity-new = λ n. refl;
  to_list-append = to_list-lane_append;
  append_full = lane_append_full;
  capacity-append = capacity-lane_append;
  to_list-prepend = to_list-lane_prepend;
  capacity-prepend = capacity-lane_prepend;
  to_list-shift = λ q. refl;
  shift_item = λ q. refl;
  capacity-shift = λ q. refl;
  empty_lem = λ q. refl;
}

abbrev pub report_of : ℕ → ℕ → ℕ → UsageReport
report_of period current max = record {
  period_window = record { period = period; start = pos 3600; end = pos 7200 };
  max_value = pos max;
  current_value = pos current;
}

abbrev pub hits : ℕ → UsageReports
hits n = ("hits", report_of 1 n 10 ∷ []) ∷ []

abbrev pub params : Params
params = record { app_id = "app"; app_key = ""; user_id = ""; user_key = "" }

abbrev pub auth : ClientAuth
auth = record { auth_type = "service_token"; value = "token" }

-- Five hits locally, three of them known to 3scale, and four hits of a metric without limits.
abbrev pub app : Application
app = record {
  remote_state = some (hits 3);
  local_state = hits 5;
  unlimited_counter = ("orphan", pos 4) ∷ [];
  metric_hierarchy = some [];
  auth = auth;
  params = params;
  timestamp = pos 3600;
  id = "app";
  owned_by = "svc";
  shared = [];
}

abbrev pub transaction : Transaction
transaction = record {
  metrics = some (("hits", pos 2) ∷ ("orphan", pos 1) ∷ []);
  params = params;
  timestamp = pos 0;
}

abbrev pub request : Request
request = record { auth = auth; extensions = []; service = "svc"; transactions = transaction ∷ [] }

-- What 3scale says of the application: authorized or not, with its hits.
abbrev pub answer : Bool → AuthorizeResult
answer authorized = record {
  authorized = authorized;
  error_code = "";
  rejection_reason = "";
  usage_reports = some (hits 3);
  hierarchy = some [];
  raw_response = none;
}

abbrev pub timed_out : Error
timed_out = record {
  message = "timeout";
  network = some (record { temporary = false; timeout = true });
}

-- The world counts the calls of the client.
abbrev pub client : Reply AuthorizeResult → Option Error → Client ℕ
client reply reported = record {
  authorize = λ r w. (reply, w + 1);
  oauth_authorize = λ r w. (reply, w + 1);
  report = λ r w. (reported, w + 1);
  peer = "peer";
}

abbrev pub logger : Logger ℕ
logger = record { infof = λ m w. w; errorf = λ m w. w; debugf = λ m w. w }

abbrev pub host : Host ℕ (Dict Application) Items (Unit {0})
host = record {
  cmap = cmap;
  lane = lane;
  lib = lib;
  zone = zone;
  new_client =
      λ url c. success (client (record { result = some (answer true); error = none }) none);
  client_with_timeout = λ n. tt;
}

abbrev pub backend :
    Reply AuthorizeResult
    → Option Error
    → Dict Application
    → List Application
    → Backend ℕ (Dict Application) Items
backend reply reported cache items = record {
  client = client reply reported;
  cache = cache;
  queue = record { capacity = 100; items = items };
  policy = some fail_open_policy;
  logger = some logger;
  cache_hit_callback = none;
  world = 0;
}
