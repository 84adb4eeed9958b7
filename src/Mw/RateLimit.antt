-- ===== src/Mw/RateLimit.antt =====
-- internal/mw/ratelimit/ratelimit.go, over any limiter. Metrics are left out, and time.ParseDuration is
-- an argument.
pub mod Keys
pub mod Limiting
use nina.Prelude.{
  ℕ, Bool, true, false, not, ◌||◌, Option, none, some, List, [], ◌∷◌, ◌++◌, ltb, if◌then◌else◌, Str,
  lit, str_eq, ◌==◌, ℤ, pos, negsuc, is_positive, pos_part, split, cut, trim_space,
}
use nina.Prelude.Map.{Map, lookup}
use nina.Prelude.Decimal.{decimal}
use nina.Http.{get, set_header, first_value}
use nina.Http.Writing.{Action, change}
use nina.Reqctx.{Info, Request}
use nina.Httperr.{Problem, problem, Rendering, write_problem}
use nina.Serving.{Outcome, returned, Ran, Handler, whole_seconds}
use nina.Store.{Decision}

pub record Extractor : Type 0 where
  pub kind : Str
  pub arg : Str

pub data KeyError : Type 0 where
  takes_no_argument : Str → KeyError
  needs_argument : Str → KeyError
  unknown_component : Str → KeyError

pub data Parsed (A : Type 0) : Type 0 where
  parsed : A → Parsed A
  bad_key : KeyError → Parsed A

-- The kinds without an argument, and those with one.
abbrev pub is_plain : Str → Bool
is_plain kind = kind == lit "ip" || kind == lit "consumer" || kind == lit "route"

abbrev pub is_of_argument : Str → Bool
is_of_argument kind = kind == lit "jwt" || kind == lit "header" || kind == lit "query"

-- One part of the key expression.
abbrev pub parse_part : Str → Parsed Extractor
parse_part raw =
    let part = trim_space raw in
    let kind = (cut b'.' part).0 in
    let arg = (cut b'.' part).1 in
    if is_plain kind
    then (if arg == []
        then parsed (record { kind = kind; arg = arg })
        else bad_key (takes_no_argument kind))
    else if is_of_argument kind
    then (if arg == []
        then bad_key (needs_argument kind)
        else parsed (record { kind = kind; arg = arg }))
    else bad_key (unknown_component part)

abbrev and_parsed : Parsed Extractor → Parsed (List Extractor) → Parsed (List Extractor)
and_parsed (bad_key e) rest = bad_key e
and_parsed (parsed x) (bad_key e) = bad_key e
and_parsed (parsed x) (parsed xs) = parsed (x ∷ xs)

unfoldable pub parse_parts : List Str → Parsed (List Extractor)
parse_parts [] = parsed []
parse_parts (p ∷ ps) = and_parsed (parse_part p) (parse_parts ps)

-- parseKey
unfoldable pub parse_key : Str → Parsed (List Extractor)
parse_key expr = parse_parts (split b'+' (if trim_space expr == [] then lit "ip" else expr))

abbrev claim_or_empty : Option Str → Str
claim_or_empty none = []
claim_or_empty (some v) = v

abbrev claim_of : Str → Option (Map Str Str) → Str
claim_of arg none = []
claim_of arg (some claims) = claim_or_empty (lookup arg claims)

abbrev values_or_none : Option (List Str) → List Str
values_or_none none = []
values_or_none (some vs) = vs

-- What a component of the key is for a request.
abbrev pub of_info : Option Info → (Info → Str) → Str
of_info none f = []
of_info (some info) f = f info

unfoldable pub part_of : Request → Option Info → Extractor → Str
part_of r info e =
    if e.kind == lit "ip"
    then of_info info (λ i. i.client_ip)
    else if e.kind == lit "consumer"
    then of_info info (λ i. i.consumer)
    else if e.kind == lit "route"
    then of_info info (λ i. i.operation_id)
    else if e.kind == lit "jwt"
    then of_info info (λ i. claim_of e.arg i.claims)
    else if e.kind == lit "header"
    then get e.arg r.header
    else if e.kind == lit "query"
    then first_value (values_or_none (lookup e.arg r.query))
    else []

unfoldable pub add_parts : Request → Option Info → List Extractor → Str
add_parts r info [] = []
add_parts r info (e ∷ es) = (b'|' ∷ part_of r info e) ++ add_parts r info es

-- buildKey
unfoldable pub build_key : Str → List Extractor → Request → Option Info → Str
build_key name fns r info = name ++ add_parts r info fns

pub record Settings : Type 0 where
  pub store : Str
  pub limit : ℤ
  pub window : Str
  pub key : Str
  pub max_keys : ℤ
  pub fail_open : Option Bool
  pub headers : Option Bool

abbrev pub true_unless : Option Bool → Bool
true_unless none = true
true_unless (some b) = b

-- The instance: its limiter is the argument of its handlers.
pub record Instance : Type 0 where
  pub name : Str
  pub limit : ℕ
  pub window : ℕ
  pub key_fns : List Extractor
  pub headers : Bool

pub data NewError : Type 0 where
  limit_not_positive bad_window window_not_positive no_limiter : NewError
  key_error : KeyError → NewError

pub data Made (A : Type 0) : Type 0 where
  made : A → Made A
  refused : NewError → Made A

abbrev positive_window : Option ℤ → Made ℕ
positive_window none = refused bad_window
positive_window (some d) = if is_positive d then made (pos_part d) else refused window_not_positive

abbrev pub window_of : (Str → Option ℤ) → Str → Made ℕ
window_of parse_duration w =
    if w == [] then made 60000000000 else positive_window (parse_duration w)

abbrev with_limiter : {L : Type 0} → Instance → Option L → Made (Instance × L)
with_limiter i none = refused no_limiter
with_limiter i (some l) = made (i, l)

abbrev with_key :
    {L : Type 0}
    → Str
    → Settings
    → Made ℕ
    → Parsed (List Extractor)
    → Option L
    → Made (Instance × L)
with_key name s (refused e) fns lim = refused e
with_key name s (made w) (bad_key e) lim = refused (key_error e)
with_key name s (made w) (parsed fns) lim =
    with_limiter
      (record {
        name = name;
        limit = pos_part s.limit;
        window = w;
        key_fns = fns;
        headers = true_unless s.headers;
      })
      lim

-- New: `limiter_for` is Registry.Limiter, for the name, the store, the number of keys and what to do
-- when the store fails.
unfoldable pub new_rate_limit :
    {L : Type 0}
    → (Str → Option ℤ)
    → (Str → Str → ℤ → Bool → Option L)
    → Str
    → Settings
    → Made (Instance × L)
new_rate_limit parse_duration limiter_for name s =
    if not (is_positive s.limit)
    then refused limit_not_positive
    else with_key name s (window_of parse_duration s.window) (parse_key s.key)
        (limiter_for name s.store s.max_keys (true_unless s.fail_open))

abbrev pub unavailable : Problem
unavailable =
    problem 503 (lit "Rate limiting is unavailable")
      (lit "the rate limit store could not be reached")

abbrev pub exceeded : (ℕ → Str) → Instance → Problem
exceeded print_duration i =
    problem 429 (lit "Rate limit exceeded")
      (lit "more than " ++ decimal i.limit ++ lit " requests per " ++ print_duration i.window)

-- The headers that every metered response gets.
abbrev pub limit_headers : Bool → Decision → List Action
limit_headers false d = []
limit_headers true d =
    change (set_header (lit "X-RateLimit-Limit") (decimal d.limit))
    ∷ change (set_header (lit "X-RateLimit-Remaining") (decimal d.remaining))
    ∷ []

abbrev pub retry_header : Decision → List Action
retry_header d =
    if ltb 0 d.retry_after
    then change (set_header (lit "Retry-After") (decimal (whole_seconds d.retry_after))) ∷ []
    else []

-- What a handler does, after these actions.
abbrev pub after : {S : Type 0} → List Action → Ran S → Ran S
after actions ran = record ran { actions = actions ++ ran.actions }

abbrev pub answer : {S : Type 0} → List Action → Info → S → Ran S
answer actions info s = record { actions = actions; outcome = returned; info = info; state = s }

module _ (rend : Rendering) (print_duration : ℕ → Str) {S : Type 0} where
  -- What follows a decision of the limiter, or its error.
  abbrev pub decided : Instance → Handler S → ℕ → Request → Info → S × Option Decision → Ran S
  decided i next now r info (s, none) = answer (write_problem rend (some info) unavailable) info s
  decided i next now r info (s, some d) =
      if not d.allowed
      then answer
          (limit_headers i.headers d
            ++ retry_header d
            ++ write_problem rend (some info) (exceeded print_duration i))
          info s
      else after (limit_headers i.headers d) (next now r info s)

  -- The handler of ForRoute, over a limiter that keeps its counters in the state.
  unfoldable pub rate_limited :
      Instance → (ℕ → Str → ℕ → ℕ → S → S × Option Decision) → Handler S → Handler S
  rate_limited i allow next now r info s =
      decided i next now r info
        (allow now (build_key i.name i.key_fns r (some info)) i.limit i.window s)
