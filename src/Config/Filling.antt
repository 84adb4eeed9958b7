-- ===== src/Config/Filling.antt =====
-- internal/config/validate.go: applyDefaults with normaliseRetry and namespaceFor.
use nina.Prelude.{
  ℕ, zero, suc, Bool, true, false, ◌||◌, Option, none, some, List, [], ◌∷◌, nat_beq, if◌then◌else◌,
  Str, lit, str_eq, ℤ, pos, negsuc, upper, map,
}
use nina.Config.{ScanGuard, Server, SpecPublish, Retry, HealthCheck, Backend, Config}

-- The value, or the default where it is the zero value of its type.
abbrev pub or_int : ℤ → ℕ → ℤ
or_int (pos zero) d = pos d
or_int (pos (suc n)) d = pos (suc n)
or_int (negsuc n) d = negsuc n

abbrev pub or_text : Str → Str → Str
or_text [] d = d
or_text (c ∷ s) d = c ∷ s

abbrev pub or_some : {A : Type 0} → Option A → A → Option A
or_some none d = some d
or_some (some a) d = some a

abbrev pub under : {A : Type 0} → (A → A) → Option A → Option A
under f none = none
under f (some a) = some (f a)

-- The loop of namespaceFor, with whether the next letter is raised; names are ASCII.
unfoldable pub raise_words : Bool → Str → Str
raise_words up [] = []
raise_words up (c ∷ s) =
    let after_break = raise_words true s in
    let within = raise_words false s in
    if nat_beq c b'-' || nat_beq c b'_' || nat_beq c b' '
    then after_break
    else if up
    then upper c ∷ within
    else c ∷ within

-- namespaceFor
unfoldable pub namespace_for : Str → Str
namespace_for name = raise_words true name

-- normaliseRetry
unfoldable pub normalise_retry : Retry → Retry
normalise_retry r = record r {
  backoff = or_int r.backoff 50000000;
  idempotent_only = or_some r.idempotent_only true;
}

unfoldable pub default_health : HealthCheck → HealthCheck
default_health h = record {
  path = or_text h.path (lit "/healthz");
  interval = or_int h.interval 10000000000;
  timeout = or_int h.timeout 2000000000;
  unhealthy_after = or_int h.unhealthy_after 3;
  healthy_after = or_int h.healthy_after 2;
}

-- DefaultTrapPaths
abbrev pub default_trap_paths : List Str
default_trap_paths =
    lit "*/.env*"
    ∷ lit "*/.git/*"
    ∷ lit "*/.aws/*"
    ∷ lit "*/wp-*"
    ∷ lit "*.php"
    ∷ lit "*/phpmyadmin*"
    ∷ lit "*/cgi-bin/*"
    ∷ []

unfoldable pub default_guard : ScanGuard → ScanGuard
default_guard g = record g {
  max_misses = or_int g.max_misses 20;
  window = or_int g.window 60000000000;
  ban = or_int g.ban 900000000000;
  max_ban = or_int g.max_ban 86400000000000;
  trap_paths = or_some g.trap_paths default_trap_paths;
  v6_prefix = or_int g.v6_prefix 64;
  store = or_text g.store (lit "memory");
}

unfoldable pub default_backend : Backend → Backend
default_backend b = record b {
  namespace = or_text b.namespace (namespace_for b.name);
  load_balance = or_text b.load_balance (lit "round_robin");
  spec = record b.spec { on_error = or_text b.spec.on_error (lit "fail") };
  health_check = under default_health b.health_check;
  retry = under normalise_retry b.retry;
}

unfoldable pub default_server : Server → Server
default_server s = record {
  listen = or_text s.listen (lit ":8080");
  read_header_timeout = or_int s.read_header_timeout 5000000000;
  idle_timeout = or_int s.idle_timeout 60000000000;
  max_request_body = or_int s.max_request_body 8388608;
  scan_guard = under default_guard s.scan_guard;
}

unfoldable pub default_spec : SpecPublish → SpecPublish
default_spec s = record s {
  title = or_text s.title (lit "API Gateway");
  version = or_text s.version (lit "1.0.0");
  dedupe = or_some s.dedupe true;
}

-- applyDefaults; no part reads another, so that the order of its loops does not count.
unfoldable pub apply_defaults : Config → Config
apply_defaults c = record c {
  version = or_int c.version 1;
  server = default_server c.server;
  spec = default_spec c.spec;
  defaults = record c.defaults {
    timeout = or_int c.defaults.timeout 10000000000;
    retry = under normalise_retry c.defaults.retry;
  };
  backends = map default_backend c.backends;
}
