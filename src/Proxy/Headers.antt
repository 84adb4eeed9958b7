-- ===== src/Proxy/Headers.antt =====
-- internal/proxy/proxy.go: the headers and the address of the request that goes upstream.
pub mod Stripped
mod Scenarios
use nina.Prelude.{
  ℕ, Bool, true, false, Option, none, some, List, [], ◌∷◌, ◌++◌, if◌then◌else◌, filter, nat_eq,
  ◌==◌, not, Str, lit, str_eq, same_str, has_prefix, trim_suffix, trim_space, split,
}
use nina.Prelude.Map.{Map}
use nina.Http.{Header, values, get, set_header, del, del_all}

-- hopByHop
abbrev pub hop_by_hop : List Str
hop_by_hop =
    lit "Connection"
    ∷ lit "Proxy-Connection"
    ∷ lit "Keep-Alive"
    ∷ lit "Proxy-Authenticate"
    ∷ lit "Proxy-Authorization"
    ∷ lit "Te"
    ∷ lit "Trailer"
    ∷ lit "Transfer-Encoding"
    ∷ lit "Upgrade"
    ∷ []

abbrev not_empty : Str → Bool
not_empty [] = false
not_empty (c ∷ s) = true

-- The names of a value of the Connection header.
unfoldable pub named_in : List Str → List Str
named_in [] = []
named_in (n ∷ ns) =
    let name = trim_space n in if not_empty name then name ∷ named_in ns else named_in ns

unfoldable pub connection_names : List Str → List Str
unfolding named_in
connection_names [] = []
connection_names (c ∷ cs) = named_in (split b',' c) ++ connection_names cs

unfoldable pub strip_hop_by_hop : Header → Header
strip_hop_by_hop h = del_all hop_by_hop (del_all (connection_names (values (lit "Connection") h)) h)

-- The inbound request, as far as the proxy reads it. `remote_ip` is what net.SplitHostPort makes of
-- the remote address, `none` where it fails.
pub record Inbound : Type 0 where
  pub method : Str
  pub host : Str
  pub query : Str
  pub tls : Bool
  pub remote_ip : Option Str
  pub header : Header

abbrev set_forwarded_for : Option Str → Str → Header → Header
set_forwarded_for none prior h = h
set_forwarded_for (some ip) prior h =
    set_header (lit "X-Forwarded-For") (if prior == [] then ip else prior ++ lit ", " ++ ip) h

abbrev proto_of : Bool → Str → Str
proto_of tls xf = if xf == [] then (if tls then lit "https" else lit "http") else xf

abbrev set_forwarded_host : Str → Header → Header
set_forwarded_host host h = if host == [] then h else set_header (lit "X-Forwarded-Host") host h

unfoldable pub set_forwarded_headers : Inbound → Header → Header
set_forwarded_headers req h = set_forwarded_host req.host (
    set_header (lit "X-Forwarded-Proto")
      (proto_of req.tls (get (lit "X-Forwarded-Proto") req.header))
      (set_forwarded_for req.remote_ip (get (lit "X-Forwarded-For") req.header) h))

unfoldable pub set_all : Map Str Str → Header → Header
set_all [] h = h
set_all ((k, v) ∷ rest) h = set_all rest (set_header k v h)

abbrev root_if_empty : Str → Str
root_if_empty [] = lit "/"
root_if_empty (c ∷ s) = c ∷ s

unfoldable pub single_slash_join : Str → Str → Str
single_slash_join base p =
    if p == []
    then root_if_empty (trim_suffix b'/' base)
    else trim_suffix b'/' base ++ (if has_prefix p (lit "/") then p else lit "/" ++ p)

-- The request that goes upstream. `body` is the buffer of a replay, `none` where the inbound body is
-- passed on as a stream.
pub record Outgoing : Type 0 where
  pub method : Str
  pub host : ℕ
  pub path : Str
  pub query : Str
  pub header : Header
  pub body : Option Str

-- `base` is the path of the host's URL, and the map of configured headers is taken in some order.
unfoldable pub build_upstream_request :
    Map Str Str → Inbound → ℕ → Str → Str → Option Str → Outgoing
build_upstream_request forward_headers req host base upstream_path body = record {
  method = req.method;
  host = host;
  path = single_slash_join base upstream_path;
  query = req.query;
  header = set_all forward_headers (set_forwarded_headers req (strip_hop_by_hop req.header));
  body = body;
}
