-- ===== src/Proxy/Forward/Scenarios.antt =====
-- A request whose first attempt is refused by the upstream.
use nina.Proxy.Forward.{attempt_loop}
use nina.Proxy.Forward.{try_once}
use nina.Proxy.Forward.{exchange}
use nina.Proxy.Breaker.{allow_ptr}
use nina.Proxy.Forward.{after_round_trip}
use nina.Prelude.{
  ℕ, ◌+◌, ◌<◌, ◌≡◌, refl, subst, true, false, none, some, [], ◌∷◌, arith, lit, same_str, pos, zero,
  suc,
}
use nina.Proxy.Pool.{healthy_hosts, pick, candidates, new_pool}
use nina.Proxy.Headers.{Inbound}
use nina.Proxy.Forward.{
  Turn, Outcome, replied, Shared, Run, response, Backend, Body, stream, forward, attempts_of,
  retryable, retryable_status, snapshot, snapshot_body, wait,
}
use nina.Proxy.Forward.Attempts.{IsFrugal, forward-IsFrugal}
use nina.Proxy.Forward.Recovery.{
  IsBystander, IsClear, CallsForRetry, pick-IsClear, forward-recovers,
}

abbrev twice : Backend
twice = record {
  retry = record { attempts = pos 1; backoff = 0; jitter = false; idempotent_only = true };
  forward_headers = [];
  max_retry_body = 16;
  base = λ i. [];
}

abbrev put : Inbound
put = record {
  method = lit "PUT";
  host = [];
  query = [];
  tls = false;
  remote_ip = none;
  header = [];
}

abbrev two_hosts : Shared
two_hosts = record {
  pool = new_pool (lit "http://a" ∷ lit "http://b" ∷ []) (lit "round_robin");
  breaker = none;
}

abbrev fresh : Run
fresh = record { shared = two_hosts; sent = [] }

-- A request beside this one, which picks a host.
abbrev neighbour : Shared → Shared
neighbour s = record s { pool = (pick (λ n. 0) none s.pool).0 }

abbrev turn : Outcome → Turn
turn o = record {
  interrupted = none;
  random = 0;
  before = neighbour;
  during = neighbour;
  intn = λ n. 0;
  now = 0;
  outcome = o;
  later = 0;
}

abbrev second_answers : ℕ → Turn
second_answers zero = turn (replied 503)
second_answers (suc a) = turn (replied 200)

abbrev always_unavailable : ℕ → Turn
always_unavailable a = turn (replied 503)

abbrev payload : Body
payload = stream (lit "pet") false

saved :
    (forward twice put payload (lit "/pets") second_answers fresh).1
    ≡ record { reply = response 200; host = some 0; attempts = 2 }
unfolding forward lit attempt_loop retryable same_str wait try_once pick healthy_hosts new_pool
    candidates exchange allow_ptr after_round_trip
saved = refl

payload-snapshot : snapshot_body twice.retry 16 payload ≡ snapshot (some (lit "pet")) true
unfolding snapshot_body lit
payload-snapshot = refl

two_attempts : attempts_of twice.retry put true ≡ 2
unfolding retryable lit same_str
two_attempts = refl

beside : (o : Outcome) → IsBystander 1 (turn o)
beside o = record {
  before = λ n s c. pick-IsClear (λ m. 0) none n s (subst (λ m. IsClear m s) (omega arith) c);
  during = λ n s c. pick-IsClear (λ m. 0) none n s (subst (λ m. IsClear m s) (omega arith) c);
  intn_lt = λ n l. l;
}

second_answers-alone : (a : ℕ) → IsBystander 1 (second_answers a)
second_answers-alone zero = beside (replied 503)
second_answers-alone (suc a) = beside (replied 200)

second_answers-in_time : (a : ℕ) → wait twice.retry (second_answers a) a ≡ none
unfolding wait
second_answers-in_time zero = refl
second_answers-in_time (suc a) = ground arith

first_fails : (i : ℕ) → i < 1 → CallsForRetry (second_answers i).outcome
unfolding retryable_status
first_fails zero l = refl
first_fails (suc i) l = ground (arith, l)

forward-recovers_example :
    ((forward twice put payload (lit "/pets") second_answers fresh).1.reply ≡ response 200)
    × ((forward twice put payload (lit "/pets") second_answers fresh).1.attempts ≡ 1 + 1)
unfolding healthy_hosts new_pool retryable same_str lit
forward-recovers_example =
    forward-recovers twice put payload (lit "/pets") second_answers fresh 200 1 1 (some (lit "pet"))
      true (omega arith) second_answers-alone second_answers-in_time payload-snapshot
      (omega (arith, two_attempts)) first_fails refl
      (record { off = refl; up = omega arith; room = omega (arith, two_attempts) })

unavailable :
    (forward twice put payload (lit "/pets") always_unavailable fresh).1.reply ≡ response 503
unfolding forward lit attempt_loop retryable same_str wait try_once pick healthy_hosts new_pool
    candidates exchange allow_ptr after_round_trip
unavailable = refl

forward-IsFrugal_example :
    IsFrugal twice put payload
      (lit "/pets")
      (forward twice put payload (lit "/pets") always_unavailable fresh)
forward-IsFrugal_example =
    forward-IsFrugal twice put payload (lit "/pets") always_unavailable two_hosts
