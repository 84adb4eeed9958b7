-- ===== src/Proxy/Headers/Scenarios.antt =====
-- A request on its way to an upstream.
use nina.Prelude.{
  true, none, some, [], ◌∷◌, ◌≡◌, refl, if◌then◌else◌, str_eq, lit, same_str, has_prefix, split,
  trim_space, trim_suffix,
}
use nina.Prelude.Map.{lookup, remove, insert}
use nina.Http.{canonical, title, values, get, del_all, set_header}
use nina.Proxy.Headers.{
  Inbound, Outgoing, build_upstream_request, connection_names, strip_hop_by_hop,
  set_forwarded_headers, set_all, single_slash_join,
}
use nina.Proxy.Headers.Stripped.{is_hop, set_or_kept, forwarded, build_upstream_request-header}

abbrev visit : Inbound
visit = record {
  method = lit "GET";
  host = lit "shop.example";
  query = [];
  tls = true;
  remote_ip = some (lit "10.0.0.7");
  header =
      (lit "Connection", lit "close, x-trace" ∷ [])
      ∷ (lit "X-Trace", lit "1" ∷ [])
      ∷ (lit "Accept", lit "*/*" ∷ [])
      ∷ (lit "X-Forwarded-For", lit "192.0.2.1" ∷ [])
      ∷ [];
}

abbrev sent : Outgoing
sent =
    build_upstream_request ((lit "x-gateway", lit "nina") ∷ []) visit 0 (lit "/v1/") (lit "pets")
      none

sent_as : sent ≡ record {
  method = lit "GET";
  host = 0;
  path = lit "/v1/pets";
  query = [];
  header =
      (lit "Accept", lit "*/*" ∷ [])
      ∷ (lit "X-Forwarded-For", lit "192.0.2.1, 10.0.0.7" ∷ [])
      ∷ (lit "X-Forwarded-Proto", lit "https" ∷ [])
      ∷ (lit "X-Forwarded-Host", lit "shop.example" ∷ [])
      ∷ (lit "X-Gateway", lit "nina" ∷ [])
      ∷ [];
  body = none;
}
unfolding build_upstream_request lit single_slash_join set_all same_str set_header trim_suffix
    insert has_prefix set_forwarded_headers strip_hop_by_hop del_all remove connection_names values
    lookup canonical split trim_space get
sent_as = refl

build_upstream_request-header_example :
    lookup (lit "X-Trace") sent.header
    ≡ set_or_kept
        (forwarded visit (lit "X-Trace"))
        (if is_hop visit.header (lit "X-Trace") then none else lookup (lit "X-Trace") visit.header)
unfolding canonical title lit same_str
build_upstream_request-header_example =
    build_upstream_request-header ((lit "x-gateway", lit "nina") ∷ []) visit 0 (lit "/v1/")
      (lit "pets") none (lit "X-Trace") refl
