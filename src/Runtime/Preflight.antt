-- ===== src/Runtime/Preflight.antt =====
-- internal/runtime/build.go: addPreflightRoutes with preflightTerminal and contains, retryPolicy and
-- breakerConfig. A handler is of any type `H`, and what the router holds for a route of any type `T`.
pub mod Wanted
pub mod Added
pub mod Registered
mod Scenarios
use nina.Prelude.{
  ℕ, Bool, true, false, not, ◌&&◌, ◌||◌, Option, none, some, List, [], ◌∷◌, ◌++◌, if◌then◌else◌,
  contains, Str, lit, str_eq, ◌==◌, join, sort_strings, pos_part, pos,
}
use nina.Prelude.Map.{Map, lookup, insert}
use nina.Http.{set_header}
use nina.Http.Writing.{Action, change, write_header}
use nina.RouteTable.Build.{Route, Backend}
use nina.Chain.{Category, cat_cors, Instance, Assembled, Error, ok, err, assemble}
use nina.Chain.Registry.{keys}
use nina.Router.{Router, add, ConflictError}
use nina.Config.{Retry, CircuitBreaker}
use nina.Proxy.Forward.{RetryPolicy}
use nina.Proxy.Breaker.{BreakerConfig, Ratio}

pub record PathInfo : Type 0 where
  pub methods : List Str
  pub cors : List Str
  pub sample : Route

abbrev is_cors_category : Category → Bool
is_cors_category cat_cors = true
is_cors_category _ = false

module _ {H R : Type 0} (instances : Map Str (Instance H R)) where
  abbrev of_cors : Option (Instance H R) → Bool
  of_cors none = false
  of_cors (some i) = is_cors_category i.category

  -- Whether a name is a CORS middleware's.
  abbrev pub is_cors : Str → Bool
  is_cors name = of_cors (lookup name instances)

  -- The loop over the middleware of a route, with the names so far.
  unfoldable pub add_cors : List Str → List Str → List Str
  add_cors cors [] = cors
  add_cors cors (n ∷ ns) =
      add_cors (if is_cors n && not (contains cors n) then cors ++ n ∷ [] else cors) ns

  abbrev pub noted : Route → Option PathInfo → PathInfo
  noted r none = record { methods = r.method ∷ []; cors = add_cors [] r.middleware; sample = r }
  noted r (some pi) = record pi {
    methods = pi.methods ++ r.method ∷ [];
    cors = add_cors pi.cors r.middleware;
  }

  -- The loop over the routes.
  unfoldable pub collect : Map Str PathInfo → List Route → Map Str PathInfo
  collect m [] = m
  collect m (r ∷ rs) = collect (insert r.gateway_path (noted r (lookup r.gateway_path m)) m) rs

  abbrev no_cors : List Str → Bool
  no_cors [] = true
  no_cors (n ∷ ns) = false

  -- The synthetic route of a path, if it gets one.
  abbrev preflight_route : Str → PathInfo → Route
  preflight_route p pi = record {
    method = lit "OPTIONS";
    gateway_path = p;
    id = lit "preflight";
    backend = pi.sample.backend;
    upstream_path = [];
    upstream_id = [];
    middleware = pi.cors;
    timeout = 0;
    allowed_methods = pi.sample.allowed_methods;
    hidden = false;
  }

  abbrev pub route_of_info : Str → Option PathInfo → Option Route
  route_of_info p none = none
  route_of_info p (some pi) =
      if no_cors pi.cors || contains pi.methods (lit "OPTIONS")
      then none
      else some (preflight_route p pi)

  -- The methods that a plain OPTIONS request is told.
  abbrev pub allow_of : Option PathInfo → List Str
  allow_of none = []
  allow_of (some pi) = sort_strings (pi.methods ++ lit "OPTIONS" ∷ [])

-- preflightTerminal
abbrev pub preflight_terminal : List Str → List Action
preflight_terminal allow =
    change (set_header (lit "Allow") (join (lit ", ") allow)) ∷ write_header 204 ∷ []

pub data BuildError : Type 0 where
  not_assembled : Error → BuildError
  conflict : ConflictError → BuildError

module _ {H T : Type 0} (instances : Map Str (Instance H Route)) (terminal : List Str → H)
    (bind : Route → H → T) where
  abbrev after_add :
      (Router T → Router T × Option BuildError)
      → Router T × Option ConflictError
      → Router T × Option BuildError
  after_add next (router, none) = next router
  after_add next (router, some c) = (router, some (conflict c))

  abbrev add_assembled :
      (Router T → Router T × Option BuildError)
      → Route
      → Router T
      → Assembled H
      → Router T × Option BuildError
  add_assembled next r router (err x) = (router, some (not_assembled x))
  add_assembled next r router (ok h) =
      after_add next (add (lit "OPTIONS") r.gateway_path (bind r h) router)

  abbrev add_preflight :
      (Router T → Router T × Option BuildError)
      → List Str
      → Router T
      → Option Route
      → Router T × Option BuildError
  add_preflight next allow router none = next router
  add_preflight next allow router (some r) =
      add_assembled next r router (assemble r.middleware instances r (terminal allow))

  -- The loop over the sorted paths.
  unfoldable pub add_preflights :
      Map Str PathInfo → List Str → Router T → Router T × Option BuildError
  add_preflights m [] router = (router, none)
  add_preflights m (p ∷ ps) router =
      add_preflight (add_preflights m ps) (allow_of instances (lookup p m)) router
        (route_of_info instances p (lookup p m))

  -- addPreflightRoutes
  unfoldable pub add_preflight_routes : List Route → Router T → Router T × Option BuildError
  add_preflight_routes routes router =
      let by_path = collect instances [] routes in
      add_preflights by_path (sort_strings (keys by_path)) router

abbrev chosen : {A : Type 0} → Option A → Option A → Option A
chosen none d = d
chosen (some a) d = some a

abbrev true_unless : Option Bool → Bool
true_unless none = true
true_unless (some b) = b

abbrev policy_of : Option Retry → RetryPolicy
policy_of none = record { attempts = pos 0; backoff = 0; jitter = false; idempotent_only = false }
policy_of (some r) = record {
  attempts = r.attempts;
  backoff = pos_part r.backoff;
  jitter = r.jitter;
  idempotent_only = true_unless r.idempotent_only;
}

-- retryPolicy: a backend's own policy, or the default one; the validation has seen to it that a
-- backoff is not negative.
unfoldable pub retry_policy : Option Retry → Option Retry → RetryPolicy
retry_policy b d = policy_of (chosen b d)

abbrev breaker_of : Option CircuitBreaker → BreakerConfig
breaker_of none = record {
  failure_ratio = record { num = pos 0; den = 1 };
  min_requests = pos 0;
  open_for = pos 0;
  on_change = false;
}
breaker_of (some c) = record {
  failure_ratio = record { num = c.failure_ratio.0; den = c.failure_ratio.1 };
  min_requests = c.min_requests;
  open_for = c.open_for;
  on_change = false;
}

-- breakerConfig
unfoldable pub breaker_config : Option CircuitBreaker → Option CircuitBreaker → BreakerConfig
breaker_config b d = breaker_of (chosen b d)
