-- ===== src/Mw/Cors.antt =====
-- internal/mw/cors/cors.go: the handler of each route, and the checks of New. time.ParseDuration is an
-- argument.
pub mod Origins
pub mod Answers
use nina.Prelude.{
  ℕ, ◌+◌, ◌/◌, nat_beq, Bool, true, false, not, ◌&&◌, ◌||◌, Option, none, some, List, [], ◌∷◌, ◌++◌,
  if◌then◌else◌, Str, lit, str_eq, ◌==◌, ℤ, pos, negsuc, any, join, to_lower, map, contains,
}
use nina.Prelude.Decimal.{decimal}
use nina.Http.{Header, get, set_header, add_header}
use nina.Http.Writing.{Action, change, write_header}
use nina.RouteTable.Build.{Route}
use nina.Reqctx.{Info, Request}
use nina.Serving.{returned, Ran, Handler}

pub record Settings : Type 0 where
  pub allow_origins : List Str
  pub allow_methods : List Str
  pub allow_headers : List Str
  pub expose_headers : List Str
  pub allow_credentials : Bool
  pub max_age : Str

-- `origins` holds the configured origins in lower case.
pub record Instance : Type 0 where
  pub set : Settings
  pub allow_all : Bool
  pub origins : List Str
  pub max_age : Str
  pub allow_headers : Str
  pub expose_headers : Str

pub data NewError : Type 0 where
  credentials_with_wildcard bad_max_age : NewError

pub data Made : Type 0 where
  made : Instance → Made
  refused : NewError → Made

-- Whole seconds of nanoseconds, toward zero, in decimal.
abbrev pub seconds_text : ℤ → Str
seconds_text (pos n) = decimal (n / 1000000000)
seconds_text (negsuc n) =
    let s : ℕ = (n + 1) / 1000000000 in if nat_beq s 0 then lit "0" else b'-' ∷ decimal s

abbrev pub with_max_age : Settings → Bool → Option Str → Made
with_max_age s all none = refused bad_max_age
with_max_age s all (some age) = made (record {
  set = s;
  allow_all = all;
  origins = map to_lower s.allow_origins;
  max_age = age;
  allow_headers = join (lit ", ") s.allow_headers;
  expose_headers = join (lit ", ") s.expose_headers;
})

abbrev age_text : Option ℤ → Option Str
age_text none = none
age_text (some d) = some (seconds_text d)

abbrev pub has_wildcard : List Str → Bool
has_wildcard origins = any (λ o. o == lit "*") origins

-- New, of settings that are decoded.
unfoldable pub new_cors : (Str → Option ℤ) → Settings → Made
new_cors parse_duration s =
    if has_wildcard s.allow_origins && s.allow_credentials
    then refused credentials_with_wildcard
    else with_max_age s (has_wildcard s.allow_origins)
        (if s.max_age == [] then some [] else age_text (parse_duration s.max_age))

-- The methods that a preflight is told, for a route.
abbrev or_else : List Str → List Str → List Str
or_else [] other = other
or_else (x ∷ xs) other = x ∷ xs

abbrev of_route : Route → List Str → List Str
of_route r [] = r.method ∷ lit "OPTIONS" ∷ []
of_route r (m ∷ ms) = (m ∷ ms) ++ lit "OPTIONS" ∷ []

unfoldable pub preflight_methods : Instance → Route → List Str
preflight_methods i r = or_else i.set.allow_methods (of_route r r.allowed_methods)

-- allowed
unfoldable pub allowed : Instance → Str → Bool
allowed i origin = i.allow_all || contains i.origins (to_lower origin)

abbrev pub when : Bool → (Header → Header) → List Action
when false f = []
when true f = change f ∷ []

abbrev pub filled : Str → Bool
filled s = not (s == [])

-- The headers for an origin that is allowed.
abbrev pub origin_part : Bool → Bool → Str → List Action
origin_part all credentials origin =
    if all && not credentials
    then change (set_header (lit "Access-Control-Allow-Origin") (lit "*")) ∷ []
    else (change (set_header (lit "Access-Control-Allow-Origin") origin)
        ∷ change (add_header (lit "Vary") (lit "Origin"))
        ∷ [])

abbrev pub origin_headers_of : Bool → Bool → Str → Str → List Action
origin_headers_of all credentials exposed origin =
    origin_part all credentials origin
    ++ when credentials (set_header (lit "Access-Control-Allow-Credentials") (lit "true"))
    ++ when (filled exposed) (set_header (lit "Access-Control-Expose-Headers") exposed)

abbrev pub origin_headers : Instance → Str → List Action
origin_headers i origin =
    origin_headers_of i.allow_all i.set.allow_credentials i.expose_headers origin

abbrev pub asked_headers : Instance → Request → List Action
asked_headers i req =
    let rh = get (lit "Access-Control-Request-Headers") req.header in
    if filled i.allow_headers
    then change (set_header (lit "Access-Control-Allow-Headers") i.allow_headers) ∷ []
    else if filled rh
    then change (set_header (lit "Access-Control-Allow-Headers") rh)
      ∷ change (add_header (lit "Vary") (lit "Access-Control-Request-Headers"))
      ∷ []
    else []

-- The answer to a preflight.
abbrev pub preflight : Instance → Route → Request → List Action
preflight i r req =
    (change
        (set_header (lit "Access-Control-Allow-Methods") (join (lit ", ") (preflight_methods i r)))
      ∷ [])
    ++ asked_headers i req
    ++ when (filled i.max_age) (set_header (lit "Access-Control-Max-Age") i.max_age)
    ++ write_header 204 ∷ []

abbrev pub is_preflight : Request → Bool
is_preflight req =
    req.method == lit "OPTIONS" && filled (get (lit "Access-Control-Request-Method") req.header)

module _ {S : Type 0} where
  -- The handler of ForRoute.
  unfoldable pub cors : Instance → Route → Handler S → Handler S
  cors i route next now req info s =
      let origin = get (lit "Origin") req.header in
      if origin == []
      then next now req info s
      else if not (allowed i origin)
      then next now req info s
      else if is_preflight req
      then record {
        actions = origin_headers i origin ++ preflight i route req;
        outcome = returned;
        info = info;
        state = s;
      }
      else (let ran : Ran S = next now req info s in
          record ran { actions = origin_headers i origin ++ ran.actions })
