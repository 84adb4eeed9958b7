-- ===== src/Proxy/Headers/Stripped.antt =====
-- Which headers reach the upstream.
use nina.Prelude.Map.{Map, lookup}
use nina.Prelude.{
  ℕ, Bool, false, ◌||◌, Option, none, some, List, [], ◌∷◌, ◌++◌, ◌≡◌, ◌∙◌, ap, refl, arith,
  if◌then◌else◌, contains, Str, lit, str_eq, map, ◌==◌, ◌&&◌, not,
}
use nina.Http.{
  Header, canonical, get, values, set_header, del_all, lookup-del_all, lookup-set_header,
}
use nina.Proxy.Headers.{
  hop_by_hop, connection_names, strip_hop_by_hop, Inbound, set_forwarded_for, set_forwarded_host,
  set_forwarded_headers, set_all, proto_of, build_upstream_request,
}

-- The canonical names of the headers that concern one connection only.
abbrev pub is_hop : Header → Str → Bool
is_hop h key =
    contains (map canonical hop_by_hop) key
    || contains (map canonical (connection_names (values (lit "Connection") h))) key

-- Stripping removes the hop-by-hop headers and those that the Connection header names, and leaves
-- every other header as it was.
pub strip_hop_by_hop_lem :
    (h : Header) (key : Str)
    → lookup key (strip_hop_by_hop h) ≡ (if is_hop h key then none else lookup key h)
unfolding strip_hop_by_hop
strip_hop_by_hop_lem h key = ground (
  arith,
  lookup-del_all hop_by_hop key (del_all (connection_names (values (lit "Connection") h)) h),
  lookup-del_all (connection_names (values (lit "Connection") h)) key h,
)

lookup-set_all :
    (key : Str) (configured : Map Str Str) (h : Header)
    → contains (map canonical (map (λ e. e.0) configured)) key ≡ false
    → lookup key (set_all configured h) ≡ lookup key h
unfolding set_all
lookup-set_all key [] h e = refl
lookup-set_all key ((k, v) ∷ rest) h e =
    ground (arith, lookup-set_all key rest (set_header k v h), lookup-set_header k v key h)

-- The forwarding headers: their values where the proxy sets them.
abbrev forwarded_for : Option Str → Str → Option Str
forwarded_for none prior = none
forwarded_for (some ip) prior = some (if prior == [] then ip else prior ++ lit ", " ++ ip)

abbrev pub forwarded : Inbound → Str → Option Str
forwarded req key =
    if canonical (lit "X-Forwarded-Host") == key && not (req.host == [])
    then some req.host
    else if canonical (lit "X-Forwarded-Proto") == key
    then some (proto_of req.tls (get (lit "X-Forwarded-Proto") req.header))
    else if canonical (lit "X-Forwarded-For") == key
    then forwarded_for req.remote_ip (get (lit "X-Forwarded-For") req.header)
    else none

abbrev pub set_or_kept : Option Str → Option (List Str) → Option (List Str)
set_or_kept none kept = kept
set_or_kept (some v) kept = some (v ∷ [])

lookup-set_forwarded_for :
    (ip : Option Str) (prior : Str) (h : Header) (key : Str)
    → lookup key (set_forwarded_for ip prior h)
      ≡ set_or_kept
          (if canonical (lit "X-Forwarded-For") == key then forwarded_for ip prior else none)
          (lookup key h)
lookup-set_forwarded_for none prior h key = ground arith
lookup-set_forwarded_for (some ip) prior h key = ground (
  arith,
  lookup-set_header (lit "X-Forwarded-For") (if prior == [] then ip else prior ++ lit ", " ++ ip)
      key h,
)

lookup-set_forwarded_host :
    (host : Str) (h : Header) (key : Str)
    → lookup key (set_forwarded_host host h)
      ≡ set_or_kept
          (if canonical (lit "X-Forwarded-Host") == key && not (host == [])
            then some host
            else none)
          (lookup key h)
lookup-set_forwarded_host host h key =
    ground (arith, lookup-set_header (lit "X-Forwarded-Host") host key h)

lookup-set_forwarded_headers :
    (req : Inbound) (h : Header) (key : Str)
    → lookup key (set_forwarded_headers req h) ≡ set_or_kept (forwarded req key) (lookup key h)
unfolding set_forwarded_headers
lookup-set_forwarded_headers req h key =
    let proto = proto_of req.tls (get (lit "X-Forwarded-Proto") req.header) in
    let prior = get (lit "X-Forwarded-For") req.header in
    let h1 = set_forwarded_for req.remote_ip prior h in
    layered _ _ (canonical (lit "X-Forwarded-For") == key) _ _ (forwarded_for req.remote_ip prior)
      (lookup key h)
      (lookup-set_forwarded_host req.host (set_header (lit "X-Forwarded-Proto") proto h1) key)
      (lookup-set_header (lit "X-Forwarded-Proto") proto key h1)
      (lookup-set_forwarded_for req.remote_ip prior h key)
  where
    layered :
        (is_host is_proto is_for : Bool) (host proto : Str) (ip : Option Str)
        {a b c : Option (List Str)} (d : Option (List Str))
        → a ≡ set_or_kept (if is_host then some host else none) b
        → b ≡ (if is_proto then some (proto ∷ []) else c)
        → c ≡ set_or_kept (if is_for then ip else none) d
        → a
          ≡ set_or_kept
              (if is_host
                then some host
                else if is_proto
                then some proto
                else if is_for
                then ip
                else none)
              d
    layered is_host is_proto is_for host proto ip d ea eb ec = ground arith

-- A header that the backend's configuration does not set reaches the upstream with the forwarding
-- value, where the proxy sets one, and else as it came in, or not at all where it concerns one
-- connection only.
pub build_upstream_request-header :
    (configured : Map Str Str) (req : Inbound) (host : ℕ) (base path : Str) (body : Option Str)
    (key : Str)
    → contains (map canonical (map (λ e. e.0) configured)) key ≡ false
    → lookup key (build_upstream_request configured req host base path body).header
      ≡ set_or_kept
          (forwarded req key)
          (if is_hop req.header key then none else lookup key req.header)
unfolding build_upstream_request
build_upstream_request-header configured req host base path body key e =
    lookup-set_all key configured (set_forwarded_headers req (strip_hop_by_hop req.header)) e
    ∙ lookup-set_forwarded_headers req (strip_hop_by_hop req.header) key
    ∙ ap (set_or_kept (forwarded req key)) (strip_hop_by_hop_lem req.header key)
