-- ===== src/Runtime/Assembly.antt =====
-- internal/runtime/build.go: Build, with what it releases if a later step fails. What the steps before
-- the routes make of the configuration is an argument: whether the stores and the scan guard could be
-- made, the build of the middleware, the documents, the route table and the backends' proxies.
pub mod Owned
mod Scenarios
use nina.Prelude.{
  Bool, true, false, Option, none, some, List, [], ◌∷◌, ◌++◌, map, if◌then◌else◌, Str, str_eq,
}
use nina.Prelude.Map.{Map, lookup, insert}
use nina.Router.{Router, add, ConflictError}
use nina.RouteTable.Build.{Route}
use nina.Chain.{Instance, Assembled, ok, err, assemble}
use nina.Chain.Registry.{Run, items, close_all}
use nina.Runtime.Preflight.{BuildError, not_assembled, conflict, add_preflight_routes}

-- What has to be released: the context of the background work, an instance that has a Close, the
-- proxy of a backend, and the stores.
pub data Resource (I B : Type 0) : Type 0 where
  the_context : Resource I B
  instance_of : I → Resource I B
  backend_of : B → Resource I B
  the_stores : Resource I B

pub data StageFailure : Type 0 where
  stores_failed guard_failed middleware_failed spec_failed table_failed backend_failed :
      StageFailure
  routing_failed : BuildError → StageFailure

-- The runtime, as far as Build fills it in for requests and for close.
pub record Assembly (H B T : Type 0) : Type 0 where
  pub router : Router T
  pub instances : Map Str (Instance H Route)
  pub backends : Map Str B

pub record Ending (H B T : Type 0) : Type 0 where
  pub runtime : Option (Assembly H B T)
  pub failure : Option StageFailure
  pub released : List (Resource (Instance H Route) B)

-- What Build is given.
pub record Inputs (H B Spec T : Type 0) : Type 0 where
  pub stores_made : Bool
  pub guard_made : Bool
  pub middleware : Run (Instance H Route)
  pub is_closer : Instance H Route → Bool
  pub names : List Str
  pub load : Str → Option Spec
  pub table : Map Str Spec → Option (List Route)
  pub new_backend : Str → Option B
  pub proxy : Route → Option B → H
  pub terminal : List Str → H
  pub bind : Route → Option B → H → T
  pub empty_router : Router T

-- Step 3, the loop over the documents.
unfoldable pub load_specs :
    {Spec : Type 0} → (Str → Option Spec) → List Str → Map Str Spec → Option (Map Str Spec)
load_specs load [] specs = some specs
load_specs load (name ∷ names) specs = elim (load name) [
  | none ↦ none
  | some spec ↦ load_specs load names (insert name spec specs)
]

-- Step 5, the loop over the backends, up to the first that fails.
unfoldable pub make_backends :
    {B : Type 0} → (Str → Option B) → List Str → Map Str B → Map Str B × Bool
make_backends new_backend [] backends = (backends, true)
make_backends new_backend (name ∷ names) backends = elim (new_backend name) [
  | none ↦ (backends, false)
  | some b ↦ make_backends new_backend names (insert name b backends)
]

module _ {H B Spec T : Type 0} (inp : Inputs H B Spec T) where
  abbrev after_bind :
      (Router T → Router T × Option BuildError)
      → Router T × Option ConflictError
      → Router T × Option BuildError
  after_bind next (router, none) = next router
  after_bind next (router, some c) = (router, some (conflict c))

  abbrev bind_assembled :
      (Router T → Router T × Option BuildError)
      → Route
      → Option B
      → Router T
      → Assembled H
      → Router T × Option BuildError
  bind_assembled next r b router (err x) = (router, some (not_assembled x))
  bind_assembled next r b router (ok h) =
      after_bind next (add r.method r.gateway_path (inp.bind r b h) router)

  -- Step 6, the loop over the routes.
  unfoldable pub bind_routes :
      Map Str (Instance H Route) → Map Str B → List Route → Router T → Router T × Option BuildError
  bind_routes instances backends [] router = (router, none)
  bind_routes instances backends (r ∷ rs) router =
      let b = lookup r.backend.name backends in
      bind_assembled (bind_routes instances backends rs) r b router
        (assemble r.middleware instances r (inp.proxy r b))

  abbrev then_preflight :
      Map Str (Instance H Route)
      → List Route
      → Router T × Option BuildError
      → Router T × Option BuildError
  then_preflight instances routes (router, some e) = (router, some e)
  then_preflight instances routes (router, none) =
      add_preflight_routes instances inp.terminal (λ r h. inp.bind r none h) routes router

  -- The deferred release; a part that was not made has nothing to release.
  abbrev pub release_all :
      Map Str (Instance H Route) → Map Str B → Bool → List (Resource (Instance H Route) B)
  release_all instances backends stores =
      the_context ∷ map instance_of (close_all inp.is_closer instances)
      ++ map backend_of (items backends)
      ++ (if stores then the_stores ∷ [] else [])

  -- Runtime.close
  abbrev pub close : Assembly H B T → List (Resource (Instance H Route) B)
  close rt = release_all rt.instances rt.backends true

  abbrev pub undo_all : StageFailure → Map Str (Instance H Route) → Map Str B → Bool → Ending H B T
  undo_all f instances backends stores = record {
    runtime = none;
    failure = some f;
    released = release_all instances backends stores;
  }

  abbrev routed :
      Map Str (Instance H Route) → Map Str B → Router T × Option BuildError → Ending H B T
  routed instances backends (router, some e) = undo_all (routing_failed e) instances backends true
  routed instances backends (router, none) = record {
    runtime = some (record { router = router; instances = instances; backends = backends });
    failure = none;
    released = [];
  }

  abbrev pub with_backends :
      Map Str (Instance H Route) → List Route → Map Str B × Bool → Ending H B T
  with_backends instances routes (backends, false) = undo_all backend_failed instances backends true
  with_backends instances routes (backends, true) =
      routed instances backends
        (then_preflight instances routes (bind_routes instances backends routes inp.empty_router))

  abbrev pub with_table : Map Str (Instance H Route) → Option (List Route) → Ending H B T
  with_table instances none = undo_all table_failed instances [] true
  with_table instances (some routes) =
      with_backends instances routes (make_backends inp.new_backend inp.names [])

  abbrev pub with_specs : Map Str (Instance H Route) → Option (Map Str Spec) → Ending H B T
  with_specs instances none = undo_all spec_failed instances [] true
  with_specs instances (some specs) = with_table instances (inp.table specs)

  -- Steps 1 to 3: the stores, the guard, the middleware and the documents.
  abbrev pub first_steps : Bool → Bool → Option (Map Str (Instance H Route)) → Ending H B T
  first_steps false guard middleware = undo_all stores_failed [] [] false
  first_steps true false middleware = undo_all guard_failed [] [] true
  first_steps true true none = undo_all middleware_failed [] [] true
  first_steps true true (some instances) = with_specs instances (load_specs inp.load inp.names [])

  -- Build
  unfoldable pub build_runtime : Ending H B T
  build_runtime = first_steps inp.stores_made inp.guard_made inp.middleware.result
