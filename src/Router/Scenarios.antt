-- ===== src/Router/Scenarios.antt =====
-- The router's theorems at a small table, and a run of it.
use nina.Prelude.Map.{lookup, insert}
use nina.Prelude.{
  ℕ, false, ◌≡◌, ◌↔◌, ◌&&◌, refl, some, none, [], ◌∷◌, lit, str_eq, same_str, ◌==◌, to_upper,
  if◌then◌else◌, sort_strings, sort_by, insert_by, trim, trim_left, trim_right, split, join,
  strip_last, str_lt,
}
use nina.Router.{
  Router, add, match, empty_router, split_path, param_name, add_at, register, static_child,
  set_static, normalise, walk, entry_for, zip_params, path_unescape,
}
use nina.Router.Shape.{shape, same_shape, names_of, at_shape}
use nina.Router.Adding.{serves, entry, add_fresh}
use nina.Router.Walking.{Outcome, walk-Outcome, NoCandidate}
use nina.Router.Matching.{Served, match-found, match-missed_iff}

-- Every function that a run of the router calls.
computed : ℕ
unfolding add match empty_router split_path param_name add_at register static_child set_static
    normalise walk entry_for zip_params path_unescape lookup insert sort_strings sort_by insert_by
    trim trim_left trim_right split join strip_last str_lt lit same_str to_upper
computed = 0

abbrev one_route : Router ℕ
one_route = (add (lit "get") (lit "/users/{id}") 1 empty_router).0

abbrev two_routes : Router ℕ
two_routes = (add (lit "GET") (lit "/users/me/") 2 one_route).0

me : (match (lit "get") (lit "/users/me") two_routes).found ≡ some (2, [])
unfolding computed
me = refl

by_id :
    (match (lit "HEAD") (lit "users/a%2Fb") two_routes).found
    ≡ some (1, record { name = lit "id"; value = lit "a/b" } ∷ [])
unfolding computed
by_id = refl

add_fresh_example :
    let (r', err) = add (lit "POST") (lit "/users/{name}") 3 one_route in
    (err ≡ none)
    × (serves (lit "POST") (shape (split_path (lit "/users/{id}"))) r'.root ≡ (
        if same_shape
            (shape (split_path (lit "/users/{name}")))
            (shape (split_path (lit "/users/{id}")))
          && to_upper (lit "POST") == lit "POST"
        then some (entry 3 (names_of (split_path (lit "/users/{name}"))))
        else serves (lit "POST") (shape (split_path (lit "/users/{id}"))) one_route.root))
unfolding computed shape at_shape
add_fresh_example =
    add_fresh (lit "POST") (lit "/users/{name}") 3 one_route (lit "POST")
      (shape (split_path (lit "/users/{id}"))) refl

walk-Outcome_example :
    Outcome two_routes.root
      (lit "users" ∷ lit "me" ∷ [])
      []
      (walk two_routes.root (lit "users" ∷ lit "me" ∷ []) [])
walk-Outcome_example = walk-Outcome two_routes.root (lit "users" ∷ lit "me" ∷ []) []

match-found_example : Served (lit "get") (lit "/users/me") two_routes 2 []
match-found_example = match-found (lit "get") (lit "/users/me") two_routes me

match-missed_iff_example :
    ((match (lit "GET") (lit "/orders") two_routes).path_matched ≡ false)
    ↔ NoCandidate two_routes.root (split_path (lit "/orders"))
match-missed_iff_example = match-missed_iff (lit "GET") (lit "/orders") two_routes
