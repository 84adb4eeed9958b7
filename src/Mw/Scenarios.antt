-- ===== src/Mw/Scenarios.antt =====
-- The middleware on small requests.
use RateLimit.{parse_parts}
use nina.Prelude.{split}
use nina.Prelude.{trim_space}
use nina.Prelude.{cut}
use nina.Http.{canonical}
use ApiKey.{new_api_key}
use nina.Prelude.{same_str}
use ApiKey.{index_keys}
use nina.Prelude.Map.{lookup}
use nina.Prelude.Map.{insert}
use nina.Prelude.{
  ◌+◌, nat_beq, ◌≡◌, refl, true, false, Option, none, some, List, [], ◌∷◌, ℕ, Str, lit, map, str_eq,
}
use nina.Http.{Header, get}
use nina.Http.Writing.{Action, write_header, write, act_all, fresh_writer}
use nina.Store.{Decision}
use nina.Reqctx.{Request, Info, new_info}
use nina.Httperr.{Rendering}
use nina.Serving.{Handler, returned}
use nina.Mw.RateLimit
use nina.Mw.ApiKey
use nina.Mw.Cors
use nina.Mw.RateLimit.{Extractor, part_of, build_key, parse_key, parsed}
use nina.Mw.RateLimit.Keys.{build_key-injective}
use nina.Mw.RateLimit.Limiting.{asked, run, stop_status, rate_limited-stops}
use nina.Mw.Headers.{HeaderRules}
use nina.Mw.Headers.Rules.{Ruled, outer, headers-Ruled}
use nina.Mw.ApiKey.{api_key}
use nina.Mw.ApiKey.Access.{Verdict, api_key-Verdict}
use nina.RouteTable.Build.{Route}

abbrev plain : Rendering
plain = record { marshal = λ p. some p.title; status_text = λ n. lit "Status" }

abbrev from : Str → Request
from tenant = record {
  method = lit "GET";
  path = lit "/";
  escaped_path = lit "/";
  peer = none;
  remote_addr = lit "x";
  query = [];
  header = (lit "X-Tenant", tenant ∷ []) ∷ (lit "X-Api-Key", lit "sesame" ∷ []) ∷ [];
}

abbrev fns : List Extractor
fns =
    record { kind = lit "ip"; arg = [] } ∷ record { kind = lit "header"; arg = lit "X-Tenant" } ∷ []

abbrev someone : Info
someone = new_info (lit "r1") 0 (lit "7")

build_key-injective_example :
    map (part_of (from (lit "a")) (some someone)) fns
    ≡ map (part_of (from (lit "a")) (some someone)) fns
unfolding part_of same_str lit get lookup canonical
build_key-injective_example =
    build_key-injective (lit "rl") fns (from (lit "a")) (from (lit "a")) (some someone)
      (some someone) (refl, (refl, tt)) (refl, (refl, tt)) refl

abbrev counts : Handler ℕ
counts now r info n = record {
  actions = write_header 204 ∷ [];
  outcome = returned;
  info = info;
  state = n + 1;
}

abbrev limit_of_one : RateLimit.Instance
limit_of_one = record { name = lit "rl"; limit = 1; window = 100; key_fns = fns; headers = true }

-- Lets the first request through.
abbrev once : ℕ → Str → ℕ → ℕ → ℕ → ℕ × Option Decision
once now k limit window n = (
  n + 1,
  some (record {
    allowed = nat_beq n 0;
    limit = limit;
    remaining = 0;
    retry_after = window;
    degraded = false;
  }),
)

rate_limited-stops_example :
    let q = asked plain (λ d. lit "100") limit_of_one once counts 5 (from (lit "a")) someone 1 in
    let ran = run plain (λ d. lit "100") limit_of_one once counts 5 (from (lit "a")) someone 1 in
    (h : Header) × ((act_all fresh_writer ran.actions).sent ≡ some (stop_status q.1, h))
    × (ran.state ≡ q.0)
    × (ran.outcome ≡ returned)
rate_limited-stops_example =
    rate_limited-stops plain (λ d. lit "100") limit_of_one once counts 5 (from (lit "a")) someone 1
      fresh_writer refl refl

abbrev rules : HeaderRules
rules = record {
  set = (lit "X-Frame-Options", lit "DENY") ∷ [];
  add = (lit "Vary", lit "Origin") ∷ [];
  remove = lit "Server" ∷ [];
}

abbrev writes_twice : List Action
writes_twice = write (lit "ab") ∷ write_header 500 ∷ write (lit "c") ∷ []

abbrev chats : Handler ℕ
chats now r info n = record {
  actions = writes_twice;
  outcome = returned;
  info = info;
  state = n + 1;
}

abbrev no_rules : HeaderRules
no_rules = record { set = []; add = []; remove = [] }

headers-Ruled_example :
    Ruled no_rules rules chats 5
      (from (lit "a"))
      someone
      0
      fresh_writer
      (outer no_rules rules chats 5 (from (lit "a")) someone 0)
headers-Ruled_example =
    headers-Ruled no_rules rules chats 5 (from (lit "a")) someone 0 fresh_writer
      (tt, (refl, (tt, tt))) refl

abbrev keyed : ApiKey.Settings
keyed = record {
  loc = lit "header";
  name = lit "X-API-Key";
  keys = (lit "ann", lit "sesame") ∷ [];
  scopes = (lit "ann", lit "read" ∷ []) ∷ [];
  required_scopes = lit "read" ∷ [];
  forward_consumer_header = [];
  strip_credential = none;
}

abbrev key_instance : ApiKey.Instance
key_instance = record { set = keyed; strip = true; by_hash = (lit "sesame", lit "ann") ∷ [] }

api_key-Verdict_example :
    Verdict
      (λ s. s)
      key_instance
      counts
      5
      (from (lit "a"))
      someone
      0
      (api_key (λ s. s) plain key_instance counts 5 (from (lit "a")) someone 0)
unfolding new_api_key same_str lit index_keys lookup insert
api_key-Verdict_example =
    api_key-Verdict (λ s. s) plain key_instance counts 5 (from (lit "a")) someone 0 keyed none refl

abbrev with_credentials : Cors.Settings
with_credentials = record {
  allow_origins = lit "https://App.example" ∷ [];
  allow_methods = [];
  allow_headers = [];
  expose_headers = [];
  allow_credentials = true;
  max_age = [];
}

abbrev cors_instance : Cors.Instance
cors_instance = record {
  set = with_credentials;
  allow_all = false;
  origins = lit "https://app.example" ∷ [];
  max_age = [];
  allow_headers = [];
  expose_headers = [];
}

abbrev cors_route : Route
cors_route = record {
  method = lit "GET";
  gateway_path = lit "/";
  id = lit "root";
  backend = record { name = lit "b"; namespace = []; strip = []; timeout = 0 };
  upstream_path = lit "/";
  upstream_id = lit "root";
  middleware = [];
  timeout = 0;
  allowed_methods = [];
  hidden = false;
}

abbrev from_app : Request
from_app = record (from (lit "a")) { header = (lit "Origin", lit "https://APP.example" ∷ []) ∷ [] }

two_components : parse_key (lit "ip + header.X-Tenant") ≡ parsed fns
unfolding parse_key parse_parts split same_str trim_space lit cut
two_components = refl
