-- ===== src/Config/Document.antt =====
-- internal/config/validate.go: Validate over the backends, the middleware and the exposed parts of a
-- configuration, and dedupeStrings.
use nina.Prelude.{
  ℕ, zero, suc, ◌+◌, Bool, true, false, not, ◌&&◌, ◌||◌, Option, none, some, List, [], ◌∷◌, ◌++◌,
  if◌then◌else◌, contains, is_some, Str, lit, str_eq, ◌==◌, ℤ, pos, negsuc, has_prefix, strip_last,
}
use nina.Prelude.Map.{Map, lookup}
use nina.Config.{Retry, CircuitBreaker, SpecSource, Backend, Override, Expose, ScanGuard, Config}
use nina.Config.Validation.{
  Problem, problem, when, Parsers, is_name, below, field, item, validate_breaker, validate_retry,
  validate_scan_guard, validate_tags, must_not_be_empty, bad_name, duplicate, no_source,
  two_sources, not_http_url, bad_on_error, refresh_too_short, no_hosts, not_absolute, bad_scheme,
  bad_strategy, no_leading_slash, trailing_slash, none_exposed, undefined, already_exposed,
  unsupported_version,
}

-- A name that the map of backends takes.
abbrev pub is_new : List Str → Str → Bool
is_new seen name = not (name == []) && is_name name && not (contains seen name)

unfoldable pub validate_name : List Str → Str → Str → List Problem
validate_name seen path name =
    if name == []
    then problem (field path (lit "name")) must_not_be_empty
    else if not (is_name name)
    then problem (field path (lit "name")) bad_name
    else if contains seen name
    then problem (field path (lit "name")) duplicate
    else []

abbrev pub is_http : Str → Bool
is_http scheme = scheme == lit "http" || scheme == lit "https"

abbrev not_http : Option (Str × Str) → Bool
not_http none = true
not_http (some (scheme, host)) = not (is_http scheme)

unfoldable pub validate_source : Parsers → Str → SpecSource → List Problem
validate_source p path s =
    (if s.file == [] && s.url == []
      then problem (field path (lit "spec")) no_source
      else when (not (s.file == []) && not (s.url == []))
          (problem (field path (lit "spec")) two_sources))
    ++ when (not (s.url == []) && not_http (p.parse_url s.url))
        (problem (field path (lit "spec.url")) not_http_url)
    ++ when (not (s.on_error == lit "fail") && not (s.on_error == lit "stale"))
        (problem (field path (lit "spec.on_error")) bad_on_error)
    ++ when
        (not (below s.refresh (pos 1) && below (negsuc 0) s.refresh)
          && below s.refresh (pos 1000000000))
        (problem (field path (lit "spec.refresh")) refresh_too_short)

-- One upstream address.
abbrev validate_host : Str → Option (Str × Str) → List Problem
validate_host path none = problem path not_absolute
validate_host path (some (scheme, host)) =
    if scheme == [] || host == []
    then problem path not_absolute
    else when (not (is_http scheme)) (problem path bad_scheme)

unfoldable pub validate_hosts : Parsers → Str → ℕ → List Str → List Problem
validate_hosts p path j [] = []
validate_hosts p path j (h ∷ hs) =
    validate_host (item (field path (lit "hosts")) j) (p.parse_url h)
    ++ validate_hosts p path (j + 1) hs

abbrev pub is_strategy : Str → Bool
is_strategy s = s == lit "round_robin" || s == lit "least_conn" || s == lit "random"

abbrev with_breaker : Str → Option CircuitBreaker → List Problem
with_breaker path none = []
with_breaker path (some cb) = validate_breaker path cb

abbrev with_retry : Str → Option Retry → List Problem
with_retry path none = []
with_retry path (some r) = validate_retry path r

abbrev is_none_of : List Str → Bool
is_none_of [] = true
is_none_of (x ∷ xs) = false

-- A backend, at the place that its name gives it.
unfoldable pub validate_backend : Parsers → Str → Backend → List Problem
validate_backend p path b =
    validate_source p path b.spec
    ++ when (is_none_of b.hosts) (problem (field path (lit "hosts")) no_hosts)
    ++ validate_hosts p path 0 b.hosts
    ++ when (not (is_strategy b.load_balance))
        (problem (field path (lit "load_balance")) bad_strategy)
    ++ when (not (b.strip_prefix == []) && not (has_prefix b.strip_prefix (lit "/")))
        (problem (field path (lit "strip_prefix")) no_leading_slash)
    ++ with_breaker (field path (lit "circuit_breaker")) b.circuit_breaker
    ++ with_retry (field path (lit "retry")) b.retry

-- The loop over the backends, with the names that the map has.
unfoldable pub validate_backends : Parsers → List Str → ℕ → List Backend → List Problem
validate_backends p seen i [] = []
validate_backends p seen i (b ∷ bs) =
    let later = validate_backends p (b.name ∷ seen) (i + 1) bs in
    let rest = validate_backends p seen (i + 1) bs in
    validate_name seen (item (lit "backends") i) b.name
    ++ (if is_new seen b.name
        then validate_backend p (lit "backends." ++ b.name) b ++ later
        else validate_backend p (item (lit "backends") i) b ++ rest)

-- The names of the map after the loop.
unfoldable pub known_backends : List Str → List Backend → List Str
known_backends seen [] = seen
known_backends seen (b ∷ bs) =
    let later = known_backends (b.name ∷ seen) bs in
    let rest = known_backends seen bs in if is_new seen b.name then later else rest

unfoldable pub validate_middleware : Map Str Str → List Problem
validate_middleware [] = []
validate_middleware ((name, kind) ∷ rest) =
    let path = lit "middleware." ++ name in
    when (not (is_name name)) (problem path bad_name)
    ++ when (kind == []) (problem (field path (lit "type")) must_not_be_empty)
    ++ validate_middleware rest

-- The names of a list that are not defined.
unfoldable pub validate_uses : Map Str Str → Str → List Str → List Problem
validate_uses defs path [] = []
validate_uses defs path (m ∷ ms) =
    when (not (is_some (lookup m defs))) (problem (field path (lit "middleware")) undefined)
    ++ validate_uses defs path ms

unfoldable pub validate_overrides : Map Str Str → Str → Map Str Override → List Problem
validate_overrides defs path [] = []
validate_overrides defs path ((op_id, ov) ∷ rest) =
    let opath = field (field path (lit "overrides")) op_id in
    when (not (ov.path == []) && not (has_prefix ov.path (lit "/")))
      (problem (field opath (lit "path")) no_leading_slash)
    ++ validate_uses defs opath ov.middleware
    ++ validate_overrides defs path rest

-- What tells one exposed part from another.
abbrev pub prefix_key : Expose → Str
prefix_key e = e.backend ++ 0 ∷ e.prefix

unfoldable pub validate_expose : List Str → Map Str Str → List Str → Str → Expose → List Problem
validate_expose known defs seen path e =
    (if e.backend == []
      then problem (field path (lit "backend")) must_not_be_empty
      else when (not (contains known e.backend)) (problem (field path (lit "backend")) undefined))
    ++ when (not (e.prefix == []) && not (has_prefix e.prefix (lit "/")))
        (problem (field path (lit "prefix")) no_leading_slash)
    ++ when (not (e.prefix == []) && is_some (strip_last b'/' e.prefix))
        (problem (field path (lit "prefix")) trailing_slash)
    ++ when (contains seen (prefix_key e)) (problem path already_exposed)
    ++ validate_uses defs path e.middleware
    ++ validate_overrides defs path e.overrides

unfoldable pub validate_exposes : List Str → Map Str Str → List Str → ℕ → List Expose → List Problem
validate_exposes known defs seen i [] = []
validate_exposes known defs seen i (e ∷ es) =
    validate_expose known defs seen (item (lit "expose") i) e
    ++ validate_exposes known defs (prefix_key e ∷ seen) (i + 1) es

abbrev with_guard : Parsers → Bool → Option ScanGuard → List Problem
with_guard p have_redis none = []
with_guard p have_redis (some g) = validate_scan_guard p (lit "server.scan_guard") have_redis g

abbrev is_one : ℤ → Bool
is_one (pos (suc zero)) = true
is_one _ = false

abbrev nothing_exposed : List Expose → Bool
nothing_exposed [] = true
nothing_exposed (e ∷ es) = false

-- Validate
unfoldable pub validate : Parsers → Config → List Problem
validate p c =
    when (not (is_one c.version)) (problem (lit "version") unsupported_version)
    ++ when (c.server.listen == []) (problem (lit "server.listen") must_not_be_empty)
    ++ with_guard p c.redis c.server.scan_guard
    ++ validate_tags [] 0 c.spec.hide_tags
    ++ validate_backends p [] 0 c.backends
    ++ with_breaker (lit "defaults.circuit_breaker") c.defaults.circuit_breaker
    ++ with_retry (lit "defaults.retry") c.defaults.retry
    ++ validate_middleware c.middleware
    ++ when (nothing_exposed c.expose) (problem (lit "expose") none_exposed)
    ++ validate_exposes (known_backends [] c.backends) c.middleware [] 0 c.expose
