-- ===== src/Config.antt =====
-- internal/config/config.go: the document that is decoded, as far as the defaults and the validation
-- read it. Durations are nanoseconds, and may be negative.
pub mod Filling
pub mod Filled
pub mod Validation
pub mod Document
pub mod Names
pub mod Validity
mod Scenarios
use nina.Prelude.{ℕ, Bool, Option, List, Str, ℤ}
use nina.Prelude.Map.{Map}

pub record ScanGuard : Type 0 where
  pub max_misses : ℤ
  pub window : ℤ
  pub ban : ℤ
  pub max_ban : ℤ
  pub trap_paths : Option (List Str)
  pub allow_cidrs : List Str
  pub v6_prefix : ℤ
  pub store : Str

pub record Server : Type 0 where
  pub listen : Str
  pub read_header_timeout : ℤ
  pub idle_timeout : ℤ
  pub max_request_body : ℤ
  pub scan_guard : Option ScanGuard

pub record SpecPublish : Type 0 where
  pub title : Str
  pub version : Str
  pub dedupe : Option Bool
  pub hide_tags : List Str

pub record Retry : Type 0 where
  pub attempts : ℤ
  pub backoff : ℤ
  pub jitter : Bool
  pub idempotent_only : Option Bool

-- The ratio is a fraction: its numerator, and a denominator that is not 0.
pub record CircuitBreaker : Type 0 where
  pub failure_ratio : ℤ × ℕ
  pub min_requests : ℤ
  pub open_for : ℤ

pub record Defaults : Type 0 where
  pub timeout : ℤ
  pub retry : Option Retry
  pub circuit_breaker : Option CircuitBreaker

pub record SpecSource : Type 0 where
  pub file : Str
  pub url : Str
  pub refresh : ℤ
  pub on_error : Str

pub record HealthCheck : Type 0 where
  pub path : Str
  pub interval : ℤ
  pub timeout : ℤ
  pub unhealthy_after : ℤ
  pub healthy_after : ℤ

pub record Backend : Type 0 where
  pub name : Str
  pub spec : SpecSource
  pub hosts : List Str
  pub load_balance : Str
  pub health_check : Option HealthCheck
  pub retry : Option Retry
  pub circuit_breaker : Option CircuitBreaker
  pub namespace : Str
  pub strip_prefix : Str

pub record Override : Type 0 where
  pub path : Str
  pub middleware : List Str

pub record Expose : Type 0 where
  pub backend : Str
  pub prefix : Str
  pub middleware : List Str
  pub overrides : Map Str Override

-- A middleware is its type.
pub record Config : Type 0 where
  pub version : ℤ
  pub server : Server
  pub spec : SpecPublish
  pub defaults : Defaults
  pub backends : List Backend
  pub expose : List Expose
  pub middleware : Map Str Str
  pub redis : Bool
