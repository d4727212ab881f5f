-- ===== src/Api.antt =====
-- What the program takes from 3scale-go-client (threescale, threescale/api): the fields of its
-- types that the program reads or writes, and, as a parameter, the functions that it calls.
use scale_authorizer.Prelude.{ℕ, ℤ, String, Bool, Option, List, Dict}

-- A period is the number of its constant.
pub record PeriodWindow : Type 0 where
  pub period : ℕ
  pub start : ℤ
  pub end : ℤ

pub record UsageReport : Type 0 where
  pub period_window : PeriodWindow
  pub max_value : ℤ
  pub current_value : ℤ

-- `LimitCounter` of backend.go is this map under another name.
abbrev pub UsageReports : Type 0
UsageReports = Dict (List UsageReport)

abbrev pub Metrics : Type 0
Metrics = Dict ℤ

abbrev pub Hierarchy : Type 0
Hierarchy = Dict (List String)

pub record ClientAuth : Type 0 where
  pub auth_type : String
  pub value : String

pub record Params : Type 0 where
  pub app_id : String
  pub app_key : String
  pub user_id : String
  pub user_key : String

-- `none` is a nil map.
pub record Transaction : Type 0 where
  pub metrics : Option Metrics
  pub params : Params
  pub timestamp : ℤ

pub record Request : Type 0 where
  pub auth : ClientAuth
  pub extensions : Dict String
  pub service : String
  pub transactions : List Transaction

-- The raw response is opaque to the program: nil, or the number of a value.
pub record AuthorizeResult : Type 0 where
  pub authorized : Bool
  pub error_code : String
  pub rejection_reason : String
  pub usage_reports : Option UsageReports
  pub hierarchy : Option Hierarchy
  pub raw_response : Option ℕ

-- What `net.Error` says of an error.
pub record NetError : Type 0 where
  pub temporary : Bool
  pub timeout : Bool

pub record Error : Type 0 where
  pub message : String
  pub network : Option NetError

-- A Go result `(T, error)` of the program's own functions.
pub data Fallible {ℓ} (A : Type ℓ) : Type ℓ where
  success : A → Fallible A
  failure : Error → Fallible A

-- The answer of a client: both parts may be there, and both may be nil.
pub record Reply {ℓ} (A : Type ℓ) : Type ℓ where
  pub result : Option A
  pub error : Option Error

-- The functions and constants of the package api that the program uses.
pub record ApiLib : Type 0 where
  pub add_hierarchy_to_metrics : Option Metrics → Option Hierarchy → Metrics
  pub metrics_add : Metrics → String → ℤ → Metrics
  pub order_by_ascending_granularity : UsageReports → UsageReports
  pub get_service_id : Request → String
  pub minute : ℕ
  pub hour : ℕ
  pub day : ℕ
  pub week : ℕ
  pub month : ℕ
  pub year : ℕ
  pub rejection_reason_header : String
  pub hierarchy_extension : String
  pub flat_usage_extension : String
