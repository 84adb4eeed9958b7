-- ===== src/Runtime/Preflight/Scenarios.antt =====
-- A path with CORS that serves GET alone.
use nina.Prelude.{
  ℕ, ◌≡◌, refl, true, false, some, none, List, [], ◌∷◌, is_some, Str, lit, str_eq, same_str,
}
use nina.Prelude.Map.{Map, lookup, insert}
use nina.RouteTable.Build.{Route, Backend}
use nina.Chain.{Instance, cat_cors, cat_auth}
use nina.Runtime.Preflight.{route_of_info, collect, add_cors}

-- A path with one GET route, whose middleware has CORS in it.
abbrev cors_only : Map Str (Instance (List ℕ) Route)
cors_only =
    (lit "cors", record { category = cat_cors; for_route = λ r. some none })
    ∷ (lit "log", record { category = cat_auth; for_route = λ r. some none })
    ∷ []

abbrev pets_backend : Backend
pets_backend = record { name = lit "pets"; namespace = []; strip = []; timeout = 0 }

abbrev pets_route : Str → Route
pets_route method = record {
  method = method;
  gateway_path = lit "/v1/pets";
  id = lit "list";
  backend = pets_backend;
  upstream_path = lit "/pets";
  upstream_id = lit "list";
  middleware = lit "log" ∷ lit "cors" ∷ [];
  timeout = 0;
  allowed_methods = lit "GET" ∷ [];
  hidden = false;
}

preflight_added :
    is_some (
      route_of_info cors_only
        (lit "/v1/pets")
        (lookup (lit "/v1/pets") (collect cors_only [] (pets_route (lit "GET") ∷ []))))
    ≡ true
unfolding collect lookup insert add_cors lit same_str
preflight_added = refl

-- A handler is what it logs, and the router holds the route's path.
abbrev told : List Str → List ℕ
told allow = 9 ∷ []

abbrev path_of : Route → List ℕ → Str
path_of r h = r.gateway_path

abbrev get_pets : List Route
get_pets = pets_route (lit "GET") ∷ []
