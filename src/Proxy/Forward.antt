-- ===== src/Proxy/Forward.antt =====
-- internal/proxy/proxy.go: Do, the forwarding of one request with its retries. What the code does not
-- decide (the context's end, random numbers, the clock, the upstream's answers, and what requests
-- beside this one do to the pool and the breaker) is given by a `Turn` for each attempt.
pub mod Attempts
pub mod Retries
pub mod Recovery
mod Scenarios
use nina.Prelude.{
  ℕ, zero, suc, ◌+◌, ◌-◌, ◌*◌, ◌/◌, ◌%◌, ◌^◌, Bool, true, false, not, ◌&&◌, ◌||◌, Option, none,
  some, List, [], ◌∷◌, ◌++◌, ltb, leb, nat_beq, if◌then◌else◌, length, contains, Str, lit, str_eq,
  same_str, ◌==◌, ℤ, pos, is_positive, pos_part,
}
use nina.Prelude.Map.{Map}
use nina.Http.{get}
use nina.Proxy.Breaker.{Breaker, Done, allow_ptr, finish}
use nina.Proxy.Pool.{Host, Pool, Picked, picked, err_no_healthy_host, index_panic, pick}
use nina.Proxy.Headers.{Inbound, Outgoing, build_upstream_request}

pub record RetryPolicy : Type 0 where
  pub attempts : ℤ
  pub backoff : ℕ
  pub jitter : Bool
  pub idempotent_only : Bool

pub data Kind : Type 0 where
  kind_breaker_open kind_no_host kind_timeout kind_connect kind_canceled : Kind

-- The errors as `classify` tells them apart: context.DeadlineExceeded, context.Canceled, a net.Error
-- that is a timeout, and any other.
pub data Failure : Type 0 where
  deadline_exceeded canceled net_timeout other_failure : Failure

-- Error.StatusCode
unfoldable pub status_code : Kind → ℕ
status_code kind_timeout = 504
status_code kind_breaker_open = 503
status_code kind_no_host = 503
status_code kind_canceled = 499
status_code kind_connect = 502

unfoldable pub classify : Failure → Kind
classify deadline_exceeded = kind_timeout
classify canceled = kind_canceled
classify net_timeout = kind_timeout
classify other_failure = kind_connect

unfoldable pub retryable_status : ℕ → Bool
retryable_status code = nat_beq code 502 || nat_beq code 503 || nat_beq code 504

abbrev pub idempotent_methods : List Str
idempotent_methods =
    lit "GET" ∷ lit "HEAD" ∷ lit "OPTIONS" ∷ lit "TRACE" ∷ lit "PUT" ∷ lit "DELETE" ∷ []

unfoldable pub retryable : RetryPolicy → Inbound → Bool → Bool
retryable retry req replayable =
    if not (is_positive retry.attempts)
    then false
    else if not replayable
    then false
    else if not retry.idempotent_only
    then true
    else if contains idempotent_methods req.method
    then true
    else not (get (lit "Idempotency-Key") req.header == [])

-- The inbound body: its bytes, and whether reading it fails after them.
pub data Body : Type 0 where
  no_body : Body
  stream : Str → Bool → Body

-- What snapshotBody returns: the buffer (nil is `none`) and whether it can be replayed, or an error.
pub data Snapshot : Type 0 where
  snapshot : Option Str → Bool → Snapshot
  read_failed : Snapshot

-- At most `max_retry_body + 1` bytes are read, so a later failure is not met. A body that is too
-- large is put back whole.
unfoldable pub snapshot_body : RetryPolicy → ℕ → Body → Snapshot
snapshot_body retry max_retry_body no_body = snapshot none true
snapshot_body retry max_retry_body (stream bytes broken) =
    if not (is_positive retry.attempts)
    then snapshot none false
    else if ltb max_retry_body (length bytes)
    then snapshot none false
    else if broken
    then read_failed
    else snapshot (some bytes) true

-- An int64 duration, 0 where it is not positive.
abbrev int64_positive : ℕ → ℕ
int64_positive n = let m = n % 2 ^ 64 in if ltb m (2 ^ 63) then m else 0

-- The time to sleep; `random` stands for what rand.Int63n draws from.
unfoldable pub backoff_delay : RetryPolicy → ℕ → ℕ → ℕ
backoff_delay retry random attempt =
    let d = int64_positive (retry.backoff * 2 ^ (attempt - 1)) in
    if retry.jitter && ltb 0 d then int64_positive (random % d + d / 2) else d

pub data Outcome : Type 0 where
  -- RoundTrip's response.
  replied : ℕ → Outcome
  -- RoundTrip's error, and the context's own error if it has ended.
  failed : Failure → Option Failure → Outcome

-- The pool and the breaker, which requests share.
pub record Shared : Type 0 where
  pub pool : Pool
  pub breaker : Option Breaker

-- With what this request has sent upstream, newest first.
pub record Run : Type 0 where
  pub shared : Shared
  pub sent : List Outgoing

pub record Turn : Type 0 where
  -- The context's error, if it ends while the backoff sleeps.
  pub interrupted : Option Failure
  pub random : ℕ
  -- What other requests did before this attempt, and while it is on its way.
  pub before : Shared → Shared
  pub during : Shared → Shared
  pub intn : ℕ → ℕ
  pub now : ℕ
  pub outcome : Outcome
  pub later : ℕ

unfoldable pub sleep_backoff : RetryPolicy → Turn → ℕ → Option Failure
unfolding backoff_delay
sleep_backoff retry t attempt =
    if nat_beq (backoff_delay retry t.random attempt) 0 then none else t.interrupted

pub data Reply : Type 0 where
  response : ℕ → Reply
  error : Kind → Reply
  -- The pool's index panic.
  panicked : Reply

-- What Do returns: the reply with Result's host and attempts; `none` stands for a nil Result.
pub record Report : Type 0 where
  pub reply : Reply
  pub host : Option ℕ
  pub attempts : ℕ

-- How an attempt ends: by another one, with the error to remember, or for good.
pub data Progress : Type 0 where
  again : Failure → Progress
  ended : Reply → Progress

abbrev pub at_host : ℕ → (Host → Host) → List Host → List Host
at_host i f [] = []
at_host zero f (h ∷ hs) = f h ∷ hs
at_host (suc i) f (h ∷ hs) = h ∷ at_host i f hs

abbrev pub host_change : ℕ → (Host → Host) → Shared → Shared
host_change i f s = record s { pool = record s.pool { hosts = at_host i f s.pool.hosts } }

abbrev pub enter : Host → Host
enter h = record h { inflight = h.inflight + 1 }

abbrev pub leave : Host → Host
leave h = record h { inflight = h.inflight - 1 }

abbrev finish_ptr : Done → ℕ → Bool → Option Breaker → Option Breaker
finish_ptr done now success none = none
finish_ptr done now success (some b) = some (finish done now success b)

abbrev pub settle : Done → ℕ → Bool → Shared → Shared
settle done now success s = record s { breaker = finish_ptr done now success s.breaker }

-- After RoundTrip. `last` is whether no attempt is left.
unfoldable pub after_round_trip : Bool → Done → Turn → Outcome → Shared → Shared × Progress
unfolding classify retryable_status
after_round_trip last done t (failed f none) s = (settle done t.later false s, again f)
after_round_trip last done t (failed f (some c)) s =
    (settle done t.later false s, ended (error (classify c)))
after_round_trip last done t (replied code) s =
    let success = ltb code 500 in
    (
      settle done t.later success s,
      if not success && not last && retryable_status code
          then again other_failure
          else ended (response code),
    )

abbrev round_trip : (ℕ → Outgoing) → Bool → Turn → ℕ → Done → Run → Shared × Progress
round_trip build last t host done s =
    after_round_trip last done t t.outcome
      (host_change host leave (t.during (host_change host enter s.shared)))

-- From the breaker's answer to the end of the attempt.
unfoldable pub exchange : (ℕ → Outgoing) → Bool → Turn → ℕ → Option Done → Run → Run × Progress
exchange build last t host none s = (s, ended (error kind_breaker_open))
exchange build last t host (some done) s =
    let (shared, progress) = round_trip build last t host done s in
    (record { shared = shared; sent = build host ∷ s.sent }, progress)

abbrev ask_breaker : (ℕ → Outgoing) → Bool → Turn → ℕ → Run → Run × Progress
ask_breaker build last t host s =
    let (breaker, admitted) = allow_ptr t.now s.shared.breaker in
    exchange build last t host admitted
      (record s { shared = record s.shared { breaker = breaker } })

-- An attempt from the choice of a host on.
abbrev pub try_host : (ℕ → Outgoing) → Bool → Turn → Picked → Run → Run × Progress
try_host build last t err_no_healthy_host s = (s, ended (error kind_no_host))
try_host build last t index_panic s = (s, ended panicked)
try_host build last t (picked host) s = ask_breaker build last t host s

abbrev host_of : Option ℕ → Picked → Option ℕ
host_of last_host (picked host) = some host
host_of last_host other = last_host

unfoldable pub try_once :
    (ℕ → Outgoing) → Bool → Turn → Option ℕ → Run → (Run × Progress) × Option ℕ
try_once build last t last_host s =
    let shared = t.before s.shared in
    let (pool, choice) = pick t.intn last_host shared.pool in
    (
      try_host build last t choice (record s { shared = record shared { pool = pool } }),
      host_of last_host choice,
    )

-- The wait before any attempt but the first; `some` if the context ends in it.
unfoldable pub wait : RetryPolicy → Turn → ℕ → Option Failure
unfolding sleep_backoff
wait retry t attempt = if nat_beq attempt 0 then none else sleep_backoff retry t attempt

-- The attempts that are left, of which this is number `attempt`, counted from 0.
unfoldable pub attempt_loop :
    RetryPolicy → (ℕ → Outgoing) → (ℕ → Turn) → ℕ → ℕ → Option ℕ → Failure → Run → Run × Report
attempt_loop retry build env zero attempt last_host last_err s =
    (s, record { reply = error (classify last_err); host = last_host; attempts = attempt })
attempt_loop retry build env (suc left) attempt last_host last_err s =
    elim (wait retry (env attempt) attempt) [
      | some c ↦ (s, record { reply = error (classify c); host = last_host; attempts = attempt })
      | none ↦
          let ((s1, progress), host) = try_once build (nat_beq left 0) (env attempt) last_host s in
          elim progress [
            | again f ↦ attempt_loop retry build env left (attempt + 1) host f s1
            | ended r ↦ (s1, record { reply = r; host = host; attempts = attempt + 1 })
          ]
    ]

pub record Backend : Type 0 where
  pub retry : RetryPolicy
  pub forward_headers : Map Str Str
  pub max_retry_body : ℕ
  -- The path of a host's URL.
  pub base : ℕ → Str

abbrev pub attempts_of : RetryPolicy → Inbound → Bool → ℕ
attempts_of retry req replayable =
    if retryable retry req replayable then 1 + pos_part retry.attempts else 1

-- The loop starts with no error; it always makes an attempt, so "no attempt was made" is not met.
abbrev pub forward_snapshot : Backend → Inbound → Str → (ℕ → Turn) → Snapshot → Run → Run × Report
forward_snapshot b req path env read_failed s =
    (s, record { reply = error kind_connect; host = none; attempts = 0 })
forward_snapshot b req path env (snapshot buf replayable) s =
    attempt_loop b.retry (λ i. build_upstream_request b.forward_headers req i (b.base i) path buf)
      env (attempts_of b.retry req replayable) 0 none other_failure s

-- Do
unfoldable pub forward : Backend → Inbound → Body → Str → (ℕ → Turn) → Run → Run × Report
unfolding snapshot_body
forward b req body path env s =
    forward_snapshot b req path env (snapshot_body b.retry b.max_retry_body body) s
