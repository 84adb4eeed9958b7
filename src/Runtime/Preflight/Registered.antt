-- ===== src/Runtime/Preflight/Registered.antt =====
-- Which requests for OPTIONS the router serves once addPreflightRoutes has succeeded.
use nina.Prelude.{◌≡◌, Bool, true, not, ◌&&◌, Option, none, some, List, any, Str, str_eq}
use nina.Prelude.Map.{Map}
use nina.Router.{Router}
use nina.RouteTable.Build.{Route}
use nina.Chain.{Instance}
use nina.Runtime.Preflight.{PathInfo, BuildError, add_preflight_routes}
use nina.Runtime.Preflight.Wanted.{uses_cors, serves_options}
use nina.Prelude.{All}
use nina.Runtime.Preflight.{is_cors}
use nina.Runtime.Preflight.Added.{options}

module _ {H : Type 0} (instances : Map Str (Instance H Route)) where
  abbrev IsCors : Str → Type 0
  IsCors n = is_cors instances n ≡ true

  -- The names that are kept for a path are those of CORS middleware.
  abbrev KeepsCors : Option PathInfo → Type 0
  KeepsCors none = Unit
  KeepsCors (some pi) = All IsCors pi.cors

  -- The synthetic route of a path serves OPTIONS there, with CORS middleware only.
  abbrev pub Synthetic : Str → Route → Type 0
  Synthetic p r =
      (r.gateway_path ≡ p)
      × (r.method ≡ options)
      × All (λ n. is_cors instances n ≡ true) r.middleware

  abbrev pub wanted : List Route → Str → Bool
  wanted routes p =
      any (uses_cors instances p) routes && not (any (serves_options instances p) routes)

  module _ {T : Type 0} (terminal : List Str → H) (bind : Route → H → T) (routes : List Route)
      (router : Router T) where
    abbrev pub out : Router T × Option BuildError
    out = add_preflight_routes instances terminal bind routes router
