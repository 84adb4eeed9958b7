-- ===== src/Reqctx.antt =====
-- internal/reqctx/reqctx.go: what is known of a request on its way through the chain, and the address
-- of the client. Parsing and printing of addresses are arguments, as they are for the scan guard.
pub mod Trust
mod Scenarios
use nina.Prelude.{
  ℕ, Bool, true, false, not, Option, none, some, List, [], ◌∷◌, ◌++◌, if◌then◌else◌, Str, lit,
  str_eq, ◌==◌, any, nat_eq, nat_beq, trim_space, split, contains,
}
use nina.Prelude.Map.{Map}
use nina.Http.{Header, get}
use nina.Router.{Param}
use nina.Scanguard.Guard.{Ip, v4, v6, Net, net_contains}

-- Claims of a token are kept as they print; times are nanoseconds. How long the upstream took is left
-- out: it is for the log alone.
pub record Info : Type 0 where
  pub request_id : Str
  pub start : ℕ
  pub client_ip : Str
  pub blocked : Bool
  pub operation_id : Str
  pub backend : Str
  pub template : Str
  pub params : List Param
  pub consumer : Str
  pub subject : Str
  pub scopes : List Str
  pub claims : Option (Map Str Str)
  pub upstream_status : ℕ
  pub upstream_attempt : ℕ
  pub upstream_host : Str

abbrev pub new_info : Str → ℕ → Str → Info
new_info id now ip = record {
  request_id = id;
  start = now;
  client_ip = ip;
  blocked = false;
  operation_id = [];
  backend = [];
  template = [];
  params = [];
  consumer = [];
  subject = [];
  scopes = [];
  claims = none;
  upstream_status = 0;
  upstream_attempt = 0;
  upstream_host = [];
}

-- An inbound request, as far as the gateway's own parts read it: `query` is the map that URL.Query
-- parses, and `peer` what net.SplitHostPort makes of the remote address, which it replaces where it
-- fails.
pub record Request : Type 0 where
  pub method : Str
  pub path : Str
  pub escaped_path : Str
  pub peer : Option Str
  pub remote_addr : Str
  pub query : Map Str (List Str)
  pub header : Header

abbrev pub peer_of : Request → Str
peer_of r = elim r.peer [ none ↦ r.remote_addr | some p ↦ p ]

unfoldable pub in_any : List (Ip × ℕ) → Ip → Bool
in_any nets ip = any (λ n. net_contains n ip) nets

module _ (net : Net) where
  -- One part of X-Forwarded-For: an address that is not trusted, or nothing to stop at.
  abbrev pub stop_at : List (Ip × ℕ) → Option Ip → Option Ip
  stop_at trusted none = none
  stop_at trusted (some ip) = if in_any trusted ip then none else some ip

  abbrev later_or : Option Ip → Option Ip → Option Ip
  later_or (some ip) earlier = some ip
  later_or none earlier = earlier

  -- The loop from the right: the parts to the right of one are looked at before it.
  unfoldable pub rightmost : List (Ip × ℕ) → List Str → Option Ip
  rightmost trusted [] = none
  rightmost trusted (part ∷ parts) =
      later_or (rightmost trusted parts) (stop_at trusted (net.parse_ip (trim_space part)))

  abbrev pub or_peer : Str → Option Ip → Str
  or_peer peer none = peer
  or_peer peer (some ip) = net.print_ip ip

  abbrev pub is_trusted : List (Ip × ℕ) → Option Ip → Bool
  is_trusted trusted none = false
  is_trusted trusted (some ip) = in_any trusted ip

  abbrev pub is_empty : List (Ip × ℕ) → Bool
  is_empty [] = true
  is_empty (n ∷ ns) = false

  -- ClientIP
  unfoldable pub client_ip : Request → List (Ip × ℕ) → Str
  client_ip r trusted =
      let peer = peer_of r in
      let xff = get (lit "X-Forwarded-For") r.header in
      if is_empty trusted
      then peer
      else if not (is_trusted trusted (net.parse_ip peer))
      then peer
      else if xff == []
      then peer
      else or_peer peer (rightmost trusted (split b',' xff))

  -- A parsed network of ParseCIDRs: of one address, all bits count. `cidr_bits` is the length of the
  -- mask that net.ParseCIDR gives with the network.
  abbrev bits_of : Ip → ℕ
  bits_of (v4 ip) = 32
  bits_of (v6 ip) = 128

  abbrev whole : Option Ip → Option (Ip × ℕ)
  whole none = none
  whole (some ip) = some (ip, bits_of ip)

  abbrev pub parse_network : (Str → Option (Ip × ℕ)) → Str → Option (Ip × ℕ)
  parse_network parse_cidr s = if contains s b'/' then parse_cidr s else whole (net.parse_ip s)

  abbrev onto : Option (Ip × ℕ) → Option (List (Ip × ℕ)) → Option (List (Ip × ℕ))
  onto none rest = none
  onto (some n) none = none
  onto (some n) (some ns) = some (n ∷ ns)

  -- ParseCIDRs, with `none` for its error.
  unfoldable pub parse_cidrs : (Str → Option (Ip × ℕ)) → List Str → Option (List (Ip × ℕ))
  parse_cidrs parse_cidr [] = some []
  parse_cidrs parse_cidr (s ∷ rest) =
      onto (parse_network parse_cidr s) (parse_cidrs parse_cidr rest)
