-- ===== src/Config/Filled.antt =====
-- That the defaults are there, and stay.
use nina.Prelude.{
  ℕ, zero, suc, ◌≡◌, refl, ap, true, Option, none, some, List, [], ◌∷◌, Str, lit, ℤ, pos, negsuc,
  map,
}
use nina.Config.{ScanGuard, Server, SpecPublish, Retry, HealthCheck, Backend, Config}
use nina.Config.Filling.{
  or_int, or_text, or_some, under, normalise_retry, default_health, default_guard, default_backend,
  default_server, default_spec, apply_defaults, namespace_for, default_trap_paths,
}

or_int-again : (z : ℤ) (d : ℕ) → or_int (or_int z (suc d)) (suc d) ≡ or_int z (suc d)
or_int-again (pos zero) d = refl
or_int-again (pos (suc n)) d = refl
or_int-again (negsuc n) d = refl

or_text-again : (s d : Str) → or_text (or_text s d) d ≡ or_text s d
or_text-again [] [] = refl
or_text-again [] (c ∷ d) = refl
or_text-again (c ∷ s) d = refl

or_some-again : {A : Type 0} (o : Option A) (d : A) → or_some (or_some o d) d ≡ or_some o d
or_some-again none d = refl
or_some-again (some a) d = refl

under-again :
    {A : Type 0} (f : A → A) (o : Option A)
    → ((a : A) → f (f a) ≡ f a)
    → under f (under f o) ≡ under f o
under-again f none h = refl
under-again f (some a) h = ap some (h a)

map-again :
    {A : Type 0} (f : A → A) (xs : List A) → ((a : A) → f (f a) ≡ f a) → map f (map f xs) ≡ map f xs
map-again f [] h = refl
map-again f (x ∷ xs) h = rw (h x, map-again f xs h) refl

normalise_retry-again : (r : Retry) → normalise_retry (normalise_retry r) ≡ normalise_retry r
unfolding normalise_retry
normalise_retry-again r =
    rw (or_int-again r.backoff 49999999, or_some-again r.idempotent_only true) refl

default_health-again : (h : HealthCheck) → default_health (default_health h) ≡ default_health h
unfolding default_health
default_health-again h =
    rw
      (
        or_text-again h.path (lit "/healthz"),
        or_int-again h.interval 9999999999,
        or_int-again h.timeout 1999999999,
        or_int-again h.unhealthy_after 2,
        or_int-again h.healthy_after 1,
      )
      refl

default_guard-again : (g : ScanGuard) → default_guard (default_guard g) ≡ default_guard g
unfolding default_guard
default_guard-again g =
    rw
      (
        or_int-again g.max_misses 19,
        or_int-again g.window 59999999999,
        or_int-again g.ban 899999999999,
        or_int-again g.max_ban 86399999999999,
        or_some-again g.trap_paths default_trap_paths,
        or_int-again g.v6_prefix 63,
        or_text-again g.store (lit "memory"),
      )
      refl

default_backend-again : (b : Backend) → default_backend (default_backend b) ≡ default_backend b
unfolding default_backend
default_backend-again b =
    rw
      (
        or_text-again b.namespace (namespace_for b.name),
        or_text-again b.load_balance (lit "round_robin"),
        or_text-again b.spec.on_error (lit "fail"),
        under-again default_health b.health_check default_health-again,
        under-again normalise_retry b.retry normalise_retry-again,
      )
      refl

default_server-again : (s : Server) → default_server (default_server s) ≡ default_server s
unfolding default_server
default_server-again s =
    rw
      (
        or_text-again s.listen (lit ":8080"),
        or_int-again s.read_header_timeout 4999999999,
        or_int-again s.idle_timeout 59999999999,
        or_int-again s.max_request_body 8388607,
        under-again default_guard s.scan_guard default_guard-again,
      )
      refl

default_spec-again : (s : SpecPublish) → default_spec (default_spec s) ≡ default_spec s
unfolding default_spec
default_spec-again s =
    rw
      (
        or_text-again s.title (lit "API Gateway"),
        or_text-again s.version (lit "1.0.0"),
        or_some-again s.dedupe true,
      )
      refl

-- Filling in the defaults of a configuration that has them changes nothing: what applyDefaults sets
-- is never a value that it takes to be missing.
pub apply_defaults-again : (c : Config) → apply_defaults (apply_defaults c) ≡ apply_defaults c
unfolding apply_defaults
apply_defaults-again c =
    rw
      (
        or_int-again c.version 0,
        default_server-again c.server,
        default_spec-again c.spec,
        or_int-again c.defaults.timeout 9999999999,
        under-again normalise_retry c.defaults.retry normalise_retry-again,
        map-again default_backend c.backends default_backend-again,
      )
      refl
