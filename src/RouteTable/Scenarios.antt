-- ===== src/RouteTable/Scenarios.antt =====
-- A route table of two operations, one of them hidden.
use nina.Prelude.{
  ◌≡◌, refl, Bool, true, false, Option, some, List, [], ◌∷◌, ◌++◌, map, Str, lit, same_str,
  cut_prefix, has_prefix, strip_last, trim_suffix, insert_by, sort_by, sort_strings, split, str_lt,
  here, Pairwise,
}
use nina.Prelude.Map.{Map, lookup, insert}
use nina.Router.{param_name}
use nina.RouteTable.Paths.{
  sanitise, params_of, operation_id, strip_prefix, join_path, template_params, missing_param,
}
use nina.RouteTable.Glob.{selects, path_match, some_match}
use nina.RouteTable.Build.{
  Operation, Backend, Expose, Config, Route, ExposedOp, ok, err, collision, none_selected, Table,
  build, take_exposes, take_expose, take_ops, take_op, backend_by_name, check_all_params,
  check_params, route_of, claim_slots, allow_all, exposed_of, is_hidden, methods_at, route_less,
}
use nina.RouteTable.Served.{IsRouteOf}
use nina.RouteTable.Slots.{Apart, build-Apart}
use nina.RouteTable.Params.{HasParams, build-origin}
use nina.RouteTable.Publishing.{Publishes, build-Publishes}

abbrev pets : Backend
pets = record { name = lit "pets"; namespace = lit "pets"; strip = lit "/api/v1"; timeout = 0 }

abbrev show_pet : Operation
show_pet = record {
  path = lit "/api/v1/pets/{id}";
  method = lit "GET";
  op_id = lit "showPet";
  tags = [];
}

abbrev drop_pet : Operation
drop_pet = record {
  path = lit "/api/v1/pets/{id}";
  method = lit "DELETE";
  op_id = lit "dropPet";
  tags = lit "internal" ∷ [];
}

abbrev entry : Expose
entry = record {
  backend = lit "pets";
  prefix = lit "/shop";
  include = [];
  exclude = [];
  middleware = lit "limits" ∷ [];
  overrides = [];
}

abbrev shop : Config
shop = record {
  backends = pets ∷ [];
  expose = entry ∷ [];
  default_timeout = 30;
  hide_tags = lit "internal" ∷ [];
}

abbrev specs : Map Str (List Operation)
specs = (lit "pets", show_pet ∷ drop_pet ∷ []) ∷ []

-- A merger that publishes the paths alone.
abbrev paths_of : List ExposedOp → Option (List Str)
paths_of xs = some (map (λ x. x.gateway_path) xs)

abbrev shop_route : Str → Str → Bool → Route
shop_route method op hidden = record {
  method = method;
  gateway_path = lit "/shop/pets/{id}";
  id = lit "pets_" ++ op;
  backend = pets;
  upstream_path = lit "/api/v1/pets/{id}";
  upstream_id = op;
  middleware = lit "limits" ∷ [];
  timeout = 30;
  allowed_methods = lit "DELETE" ∷ lit "GET" ∷ [];
  hidden = hidden;
}

abbrev hidden_route : Route
hidden_route = shop_route (lit "DELETE") (lit "dropPet") true

abbrev shop_table : Table (List Str)
shop_table = record {
  routes = hidden_route ∷ shop_route (lit "GET") (lit "showPet") false ∷ [];
  published =
      record {
        op = show_pet;
        backend = pets;
        gateway_path = lit "/shop/pets/{id}";
        id = lit "pets_showPet";
      }
      ∷ [];
  spec = lit "/shop/pets/{id}" ∷ [];
}

shop_table-built : build paths_of shop specs ≡ ok shop_table
unfolding build take_exposes take_expose backend_by_name same_str lookup take_ops selects some_match
    take_op check_all_params check_params missing_param template_params route_of join_path
    strip_prefix claim_slots insert cut_prefix has_prefix insert_by sort_by sort_strings split
    str_lt strip_last trim_suffix allow_all exposed_of is_hidden methods_at route_less operation_id
    params_of sanitise param_name lit
shop_table-built = refl

build-Publishes_example :
    Publishes shop_table.routes shop_table.published
    × (paths_of shop_table.published ≡ some shop_table.spec)
build-Publishes_example = build-Publishes paths_of shop specs shop_table shop_table-built

build-Apart_example : Pairwise Apart shop_table.routes
build-Apart_example = build-Apart paths_of shop specs shop_table shop_table-built

build-origin_example :
    (op : Operation) × (r0 : Route) × IsRouteOf shop specs op r0
    × (hidden_route ≡ record r0 { allowed_methods = hidden_route.allowed_methods })
    × HasParams hidden_route
build-origin_example =
    build-origin paths_of shop specs shop_table hidden_route shop_table-built (here refl)

-- A second entry that mounts the backend at the same prefix claims its slots again.
collides :
    build paths_of (record shop { expose = entry ∷ entry ∷ [] }) specs
    ≡ err (collision (lit "GET") (lit "/shop/pets/{id}") (lit "pets.showPet") (lit "pets.showPet"))
unfolding build take_exposes take_expose backend_by_name same_str lookup take_ops selects some_match
    take_op check_all_params check_params missing_param template_params route_of join_path
    strip_prefix claim_slots insert cut_prefix has_prefix insert_by sort_by sort_strings split
    str_lt strip_last trim_suffix allow_all exposed_of is_hidden methods_at route_less operation_id
    params_of sanitise param_name lit
collides = refl

-- An entry whose globs choose nothing is refused.
selects_nothing :
    build paths_of (record shop { expose = record entry { include = lit "list" ∷ [] } ∷ [] }) specs
    ≡ err (none_selected 0 (lit "pets") 2)
unfolding build take_exposes take_expose backend_by_name same_str lookup take_ops selects some_match
    take_op check_all_params check_params missing_param template_params route_of join_path
    strip_prefix claim_slots insert cut_prefix has_prefix insert_by sort_by sort_strings split
    str_lt strip_last trim_suffix allow_all exposed_of is_hidden methods_at route_less operation_id
    params_of sanitise param_name lit path_match
selects_nothing = refl
