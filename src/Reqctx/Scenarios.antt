-- ===== src/Reqctx/Scenarios.antt =====
-- Addresses of clients.
use nina.Prelude.Map.{lookup}
use nina.Prelude.{same_str}
use nina.Http.{canonical}
use nina.Reqctx.{rightmost}
use nina.Prelude.{split}
use nina.Prelude.{trim_space}
use nina.Scanguard.Guard.{net_contains}
use nina.Prelude.{◌≡◌, refl, false, Option, none, some, List, [], ◌∷◌, ℕ, Str, lit, if◌then◌else◌}
use nina.Http.{get}
use nina.Scanguard.Guard.{Ip, v4, Net}
use nina.Reqctx.{Request, peer_of, in_any, client_ip, is_trusted}
use nina.Reqctx.Trust.{client_ip-unforgeable}

-- An address of one byte is written as that byte.
abbrev parse_byte : Str → Option Ip
parse_byte [] = none
parse_byte (c ∷ []) = some (v4 (c ∷ []))
parse_byte (c ∷ d ∷ s) = none

abbrev print_byte : Ip → Str
print_byte (v4 bs) = bs
print_byte _ = []

abbrev bytes : Net
bytes = record {
  parse_ip = parse_byte;
  parse_cidr = λ s. none;
  print_ip = print_byte;
  print_int = λ n. [];
}

abbrev proxies : List (Ip × ℕ)
proxies = (v4 (b'1' ∷ []), 8) ∷ []

abbrev behind_proxy : Request
behind_proxy = record {
  method = lit "GET";
  path = lit "/";
  escaped_path = lit "/";
  peer = some (b'1' ∷ []);
  remote_addr = lit "1:443";
  query = [];
  header = (lit "X-Forwarded-For", lit "9,5,1" ∷ []) ∷ [];
}

client_ip-unforgeable_example :
    (client_ip bytes behind_proxy proxies ≡ (
      if is_trusted bytes proxies (bytes.parse_ip (peer_of behind_proxy))
      then b'5' ∷ []
      else peer_of behind_proxy))
    × (in_any proxies (v4 (b'5' ∷ [])) ≡ false)
unfolding get lookup same_str lit canonical rightmost split trim_space in_any net_contains
client_ip-unforgeable_example =
    client_ip-unforgeable bytes behind_proxy proxies (b'9' ∷ []) (b'5' ∷ b',' ∷ b'1' ∷ [])
      (v4 (b'5' ∷ [])) refl refl

spoofed : client_ip bytes behind_proxy proxies ≡ lit "5"
unfolding lit client_ip in_any net_contains same_str get lookup canonical rightmost split trim_space
spoofed = refl
