-- ===== src/Config/Scenarios.antt =====
-- A small configuration.
use nina.Config.Filling.{raise_words}
use nina.Prelude.{◌≡◌, refl, false, true, none, some, [], ◌∷◌, pos, lit}
use nina.Config.{Server, Backend, Expose, Config}
use nina.Config.Filling.{namespace_for}
use nina.Config.Validation.{Parsers, is_name, validate_tags}
use nina.Config.Document.{
  validate, validate_backends, validate_name, validate_backend, validate_source, validate_hosts,
  validate_middleware, validate_exposes, validate_expose, known_backends, validate_uses,
  validate_overrides,
}
use nina.Prelude.{same_str, has_prefix, strip_last, trim_space}
use nina.Prelude.Map.{lookup}
use nina.Prelude.Decimal.{decimal, digits}
use nina.Config.Validity.{IsValid, validate-IsValid}

abbrev server : Server
server = record {
  listen = lit ":1";
  read_header_timeout = pos 1;
  idle_timeout = pos 1;
  max_request_body = pos 1;
  scan_guard = none;
}

abbrev users : Backend
users = record {
  name = lit "users";
  spec = record { file = lit "f"; url = []; refresh = pos 0; on_error = lit "fail" };
  hosts = lit "h" ∷ [];
  load_balance = lit "random";
  health_check = none;
  retry = none;
  circuit_breaker = none;
  namespace = lit "U";
  strip_prefix = [];
}

abbrev exposed : Expose
exposed = record {
  backend = lit "users";
  prefix = lit "/u";
  middleware = lit "key" ∷ [];
  overrides = [];
}

abbrev small : Config
small = record {
  version = pos 1;
  server = server;
  spec = record { title = []; version = []; dedupe = none; hide_tags = [] };
  defaults = record { timeout = pos 0; retry = none; circuit_breaker = none };
  backends = users ∷ [];
  expose = exposed ∷ [];
  middleware = (lit "key", lit "apikey") ∷ [];
  redis = false;
}

-- Every address is one of http.
abbrev all_http : Parsers
all_http = record { parse_url = λ s. some (lit "http", s); is_network = λ s. true }

no_problem : validate all_http small ≡ []
unfolding validate same_str lit validate_tags validate_backends validate_name is_name
    validate_backend validate_source validate_hosts validate_middleware validate_exposes
    validate_expose known_backends has_prefix validate_uses validate_overrides lookup strip_last
    decimal digits trim_space
no_problem = refl

validate-IsValid_example : IsValid small
validate-IsValid_example = validate-IsValid all_http small no_problem

user_profiles : namespace_for (lit "user-profiles") ≡ lit "UserProfiles"
unfolding lit namespace_for raise_words
user_profiles = refl
