-- ===== src/Config/Validation.antt =====
-- internal/config/validate.go: Validate. A problem is its place in the document with what is wrong
-- there; its wording is left out. url.Parse, net.ParseCIDR and net.ParseIP are arguments.
use nina.Prelude.{
  ℕ, ◌+◌, Bool, true, false, not, ◌&&◌, ◌||◌, Option, none, some, List, [], ◌∷◌, ◌++◌, ltb, leb,
  if◌then◌else◌, all, contains, Str, lit, str_eq, ◌==◌, ℤ, pos, negsuc, is_positive, pos_part,
  trim_space, has_prefix, nat_beq, nat_eq,
}
use nina.Prelude.Decimal.{decimal}
use nina.Config.{ScanGuard, Retry, CircuitBreaker}

pub data Wrong : Type 0 where
  unsupported_version must_not_be_empty surrounding_space duplicate bad_name no_source two_sources :
      Wrong
  not_http_url bad_on_error refresh_too_short no_hosts not_absolute bad_scheme bad_strategy : Wrong
  no_leading_slash trailing_slash out_of_range too_small not_positive negative too_many : Wrong
  shorter_than_ban bad_trap bad_cidr no_redis bad_store none_exposed undefined already_exposed :
      Wrong

pub record Problem : Type 0 where
  pub path : Str
  pub wrong : Wrong

abbrev pub problem : Str → Wrong → List Problem
problem path wrong = record { path = path; wrong = wrong } ∷ []

abbrev pub when : Bool → List Problem → List Problem
when false ps = []
when true ps = ps

-- What Validate asks of Go's libraries: the scheme and the host of an address, and whether a text is a
-- network or an address.
pub record Parsers : Type 0 where
  pub parse_url : Str → Option (Str × Str)
  pub is_network : Str → Bool

abbrev is_letter : ℕ → Bool
is_letter c = leb b'a' c && leb c b'z' || leb b'A' c && leb c b'Z'

abbrev is_name_byte : ℕ → Bool
is_name_byte c = is_letter c || leb b'0' c && leb c b'9' || nat_beq c b'_' || nat_beq c b'-'

-- nameRe
unfoldable pub is_name : Str → Bool
is_name [] = false
is_name (c ∷ s) = is_letter c && all is_name_byte s

abbrev pub below : ℤ → ℤ → Bool
below (pos m) (pos n) = ltb m n
below (pos m) (negsuc n) = false
below (negsuc m) (pos n) = true
below (negsuc m) (negsuc n) = ltb n m

-- The place of a field, and of an element of a list.
abbrev pub field : Str → Str → Str
field path name = path ++ lit "." ++ name

abbrev pub item : Str → ℕ → Str
item path i = path ++ lit "[" ++ decimal i ++ lit "]"

-- validateBreaker
unfoldable pub validate_breaker : Str → CircuitBreaker → List Problem
validate_breaker path cb =
    when
      (not (is_positive cb.failure_ratio.0) || ltb cb.failure_ratio.1 (pos_part cb.failure_ratio.0))
      (problem (field path (lit "failure_ratio")) out_of_range)
    ++ when (below cb.min_requests (pos 1)) (problem (field path (lit "min_requests")) too_small)
    ++ when (not (is_positive cb.open_for)) (problem (field path (lit "open_for")) not_positive)

-- validateRetry
unfoldable pub validate_retry : Str → Retry → List Problem
validate_retry path r =
    when (below r.attempts (pos 0)) (problem (field path (lit "attempts")) negative)
    ++ when (below (pos 10) r.attempts) (problem (field path (lit "attempts")) too_many)
    ++ when (below r.backoff (pos 0)) (problem (field path (lit "backoff")) negative)

unfoldable pub validate_traps : Str → ℕ → List Str → List Problem
validate_traps path i [] = []
validate_traps path i (t ∷ ts) =
    when (not (has_prefix t (lit "/")) && not (has_prefix t (lit "*")))
      (problem (item (field path (lit "trap_paths")) i) bad_trap)
    ++ validate_traps path (i + 1) ts

unfoldable pub validate_cidrs : Parsers → Str → ℕ → List Str → List Problem
validate_cidrs p path i [] = []
validate_cidrs p path i (t ∷ ts) =
    when (not (p.is_network t)) (problem (item (field path (lit "allow_cidrs")) i) bad_cidr)
    ++ validate_cidrs p path (i + 1) ts

abbrev or_none : Option (List Str) → List Str
or_none none = []
or_none (some ts) = ts

abbrev validate_store : Str → Str → Bool → List Problem
validate_store path store have_redis =
    if store == lit "memory"
    then []
    else if store == lit "redis"
    then when (not have_redis) (problem (field path (lit "store")) no_redis)
    else problem (field path (lit "store")) bad_store

-- validateScanGuard
unfoldable pub validate_scan_guard : Parsers → Str → Bool → ScanGuard → List Problem
validate_scan_guard p path have_redis g =
    when (below g.max_misses (pos 1)) (problem (field path (lit "max_misses")) too_small)
    ++ when (below g.window (pos 0)) (problem (field path (lit "window")) not_positive)
    ++ when (below g.ban (pos 0)) (problem (field path (lit "ban")) not_positive)
    ++ when (below g.max_ban g.ban) (problem (field path (lit "max_ban")) shorter_than_ban)
    ++ validate_traps path 0 (or_none g.trap_paths)
    ++ validate_cidrs p path 0 g.allow_cidrs
    ++ when (below g.v6_prefix (pos 1) || below (pos 128) g.v6_prefix)
        (problem (field path (lit "ipv6_prefix")) out_of_range)
    ++ validate_store path g.store have_redis

-- The loop over hide_tags, with the tags it has seen.
unfoldable pub validate_tags : List Str → ℕ → List Str → List Problem
validate_tags seen i [] = []
validate_tags seen i (t ∷ ts) =
    let path = item (lit "spec.hide_tags") i in
    let rest = validate_tags seen (i + 1) ts in
    let later = validate_tags (t ∷ seen) (i + 1) ts in
    if trim_space t == []
    then problem path must_not_be_empty ++ rest
    else when (not (t == trim_space t)) (problem path surrounding_space)
      ++ when (contains seen t) (problem path duplicate)
      ++ later
