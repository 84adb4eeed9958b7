-- ===== src/Runtime/Terminal/Scenarios.antt =====
-- An upstream that answers at its second host, and a client that hangs up.
use nina.Proxy.Forward.{forward}
use nina.Proxy.Forward.{attempt_loop}
use nina.Proxy.Forward.{retryable}
use nina.Prelude.{same_str}
use nina.Proxy.Forward.{wait}
use nina.Proxy.Forward.{try_once}
use nina.Proxy.Pool.{pick}
use nina.Proxy.Pool.{healthy_hosts}
use nina.Proxy.Pool.{candidates}
use nina.Proxy.Forward.{exchange}
use nina.Proxy.Breaker.{allow_ptr}
use nina.Proxy.Forward.{after_round_trip}
use nina.Prelude.Map.{lookup, insert, remove}
use nina.Prelude.{
  ℕ, same_str, split, trim_space, zero, suc, ◌≡◌, refl, true, false, none, some, [], ◌∷◌, ◌++◌,
  if◌then◌else◌, Str, lit, pos,
}
use nina.Http.{Header, values, canonical, title, add_header, del, del_all}
use nina.Http.Writing.{Writer, act_all, act}
use nina.Reqctx.{Info, new_info}
use nina.Httperr.{Rendering}
use nina.Proxy.Pool.{new_pool, pick, healthy_hosts, candidates}
use nina.Proxy.Headers.{Inbound, strip_hop_by_hop, connection_names}
use nina.Proxy.Headers.Stripped.{is_hop}
use nina.Proxy.Forward.{
  Turn, Outcome, replied, failed, canceled, kind_canceled, Run, response, error, Backend, no_body,
  forward, attempt_loop, retryable, wait, try_once, exchange, after_round_trip, snapshot_body,
  classify,
}
use nina.Proxy.Breaker.{allow_ptr}
use nina.Serving.{Ran}
use nina.Runtime.Terminal.{Content, add_each, add_values, copy_response, proxy_handler}
use nina.Runtime.Terminal.Copied.{gathered}
use nina.Runtime.Terminal.Relayed.{
  concat, upstream_report, ran, Told, proxy_handler-relays, proxy_handler-fails,
}

abbrev plain : Rendering
plain = record { marshal = λ p. some p.title; status_text = λ n. lit "Status" }

abbrev host_name : ℕ → Str
host_name zero = lit "a"
host_name (suc i) = lit "b"

abbrev once_more : Backend
once_more = record {
  retry = record { attempts = pos 1; backoff = 0; jitter = false; idempotent_only = true };
  forward_headers = [];
  max_retry_body = 16;
  base = λ i. [];
}

abbrev get_pets : Inbound
get_pets = record {
  method = lit "GET";
  host = [];
  query = [];
  tls = false;
  remote_ip = none;
  header = [];
}

abbrev idle : Run
idle = record {
  shared = record {
    pool = new_pool (lit "http://a" ∷ lit "http://b" ∷ []) (lit "round_robin");
    breaker = none;
  };
  sent = [];
}

abbrev turn : Outcome → Turn
turn o = record {
  interrupted = none;
  random = 0;
  before = λ s. s;
  during = λ s. s;
  intn = λ n. 0;
  now = 0;
  outcome = o;
  later = 0;
}

abbrev second_answers : ℕ → Turn
second_answers zero = turn (replied 503)
second_answers (suc a) = turn (replied 200)

abbrev hangs_up : ℕ → Turn
hangs_up a = turn (failed canceled (some canceled))

-- The upstream names a header of the gateway in its Connection header.
abbrev pets : Content
pets = record {
  header = (lit "Connection", lit "X-Request-Id" ∷ []) ∷ (lit "Vary", lit "Accept" ∷ []) ∷ [];
  pieces = lit "pe" ∷ lit "ts" ∷ [];
}

abbrev waiting : Writer
waiting = record {
  header = (lit "Vary", lit "Origin" ∷ []) ∷ (lit "X-Request-Id", lit "7" ∷ []) ∷ [];
  sent = none;
  body = [];
}

abbrev asked : Info
asked = new_info (lit "7") 0 (lit "10.0.0.1")

abbrev answered : Ran Run
answered =
    ran plain host_name once_more (lit "/pets") get_pets no_body second_answers pets asked idle

abbrev abandoned : Ran Run
abandoned = ran plain host_name once_more (lit "/pets") get_pets no_body hangs_up pets asked idle

answered-sent :
    ((act_all waiting answered.actions).sent
      ≡ some (200, (lit "Vary", lit "Origin" ∷ lit "Accept" ∷ []) ∷ []))
    × ((act_all waiting answered.actions).body ≡ lit "pets")
    × (answered.info.upstream_attempt ≡ 2)
    × (answered.info.upstream_host ≡ lit "b")
unfolding forward lit attempt_loop retryable same_str wait try_once pick healthy_hosts new_pool
    candidates exchange allow_ptr after_round_trip snapshot_body proxy_handler copy_response act_all
    act strip_hop_by_hop del_all del remove connection_names values add_each add_values add_header
    insert lookup canonical title split trim_space
answered-sent = (refl, refl, refl, refl)

second_answers-reply :
    (upstream_report plain host_name once_more
      (lit "/pets")
      get_pets
      no_body
      second_answers
      pets
      asked
      idle).reply
    ≡ response 200
unfolding forward lit attempt_loop retryable same_str wait try_once pick healthy_hosts new_pool
    candidates exchange allow_ptr after_round_trip snapshot_body
second_answers-reply = refl

proxy_handler-relays_example :
    (h : Header) × ((act_all waiting answered.actions).sent ≡ some (200, h))
    × ((name : Str)
        → values name h ≡ (
            if is_hop (add_each pets.header waiting.header) (canonical name)
            then []
            else values name waiting.header ++ gathered name pets.header))
    × ((act_all waiting answered.actions).body ≡ waiting.body ++ concat pets.pieces)
    × (answered.info.upstream_status ≡ 200)
proxy_handler-relays_example =
    proxy_handler-relays plain host_name once_more (lit "/pets") get_pets no_body second_answers
      pets asked idle 200 waiting second_answers-reply refl refl

hangs_up-reply :
    (upstream_report plain host_name once_more
      (lit "/pets")
      get_pets
      no_body
      hangs_up
      pets
      asked
      idle).reply
    ≡ error kind_canceled
unfolding forward lit attempt_loop retryable same_str wait try_once pick healthy_hosts new_pool
    candidates exchange allow_ptr after_round_trip snapshot_body classify
hangs_up-reply = refl

proxy_handler-fails_example : Told none waiting abandoned.actions
proxy_handler-fails_example =
    proxy_handler-fails plain host_name once_more (lit "/pets") get_pets no_body hangs_up pets asked
      idle kind_canceled waiting hangs_up-reply refl refl
