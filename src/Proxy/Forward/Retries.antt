-- ===== src/Proxy/Forward/Retries.antt =====
-- When Do gives up, and when a retry saves the request.
use nina.Prelude.{
  ℕ, ◌+◌, ◌≡◌, ap, Bool, true, false, Option, none, some, arith, nat_beq, ltb, Str, ◌∙◌,
}
use nina.Proxy.Breaker.{Done}
use nina.Proxy.Pool.{Picked, picked, err_no_healthy_host, index_panic}
use nina.Proxy.Headers.{Inbound, Outgoing, build_upstream_request}
use nina.Proxy.Forward.{
  RetryPolicy, Failure, other_failure, Turn, Outcome, replied, failed, Shared, Run, response, ended,
  exchange, try_host, try_once, attempt_loop, Backend, Body, forward, attempts_of, snapshot_body,
  snapshot, retryable_status, after_round_trip,
}
use nina.Proxy.Forward.Attempts.{attempt_loop-ind}

pub retryable_status-ge : (code : ℕ) → retryable_status code ≡ true → ltb code 500 ≡ false
unfolding retryable_status
retryable_status-ge code h = ground arith

-- A response that calls for a retry ends the loop at the last attempt only.
after_round_trip-last :
    (last : Bool) (done : Done) (t : Turn) (o : Outcome) (s : Shared) (code : ℕ)
    → (after_round_trip last done t o s).1 ≡ ended (response code)
    → retryable_status code ≡ true
    → last ≡ true
unfolding after_round_trip
after_round_trip-last last done t (failed f none) s code e r = ground arith
after_round_trip-last last done t (failed f (some c)) s code e r = ground arith
after_round_trip-last last done t (replied x) s code e r =
    ground (arith, retryable_status-ge code r)

exchange-last :
    (build : ℕ → Outgoing) (last : Bool) (t : Turn) (host : ℕ) (d : Option Done) (s : Run)
    (code : ℕ)
    → (exchange build last t host d s).1 ≡ ended (response code)
    → retryable_status code ≡ true
    → last ≡ true
unfolding exchange
exchange-last build last t host none s code e r = ground arith
exchange-last build last t host (some d) s code e r =
    after_round_trip-last last d t t.outcome _ code e r

try_host-last :
    (build : ℕ → Outgoing) (last : Bool) (t : Turn) (c : Picked) (s : Run) (code : ℕ)
    → (try_host build last t c s).1 ≡ ended (response code)
    → retryable_status code ≡ true
    → last ≡ true
try_host-last build last t err_no_healthy_host s code e r = ground arith
try_host-last build last t index_panic s code e r = ground arith
try_host-last build last t (picked host) s code e r = exchange-last build last t host _ _ code e r

try_once-last :
    (build : ℕ → Outgoing) (last : Bool) (t : Turn) (h : Option ℕ) (s : Run) (code : ℕ)
    → (try_once build last t h s).0.1 ≡ ended (response code)
    → retryable_status code ≡ true
    → last ≡ true
unfolding try_once
try_once-last build last t h s code e r = try_host-last build last t _ _ code e r

module _ (retry : RetryPolicy) (build : ℕ → Outgoing) (env : ℕ → Turn) where
  attempt_loop-exhausts :
      (n a : ℕ) (h : Option ℕ) (f : Failure) (s : Run) (code : ℕ)
      → (attempt_loop retry build env n a h f s).1.reply ≡ response code
      → retryable_status code ≡ true
      → (attempt_loop retry build env n a h f s).1.attempts ≡ a + n
  attempt_loop-exhausts =
      attempt_loop-ind retry build env
        (λ n a f s res.
          (code : ℕ)
          → res.1.reply ≡ response code
          → retryable_status code ≡ true
          → res.1.attempts ≡ a + n)
        (λ a h f s code e r. ground arith) (λ n a h f c s w code e r. ground arith)
        (λ n a h f s reply ends code e r.
          ground (arith, try_once-last build (nat_beq n 0) (env a) h s code (ends ∙ ap ended e) r))
        (λ n a h f g s res e later code p r. ground (arith, later code p r))

-- A response with a status that calls for a retry reaches the client only when every attempt that the
-- request may have was made.
pub forward-exhausts :
    (b : Backend) (req : Inbound) (body : Body) (path : Str) (env : ℕ → Turn) (s : Run) (code : ℕ)
    (buf : Option Str) (replayable : Bool)
    → snapshot_body b.retry b.max_retry_body body ≡ snapshot buf replayable
    → (forward b req body path env s).1.reply ≡ response code
    → retryable_status code ≡ true
    → (forward b req body path env s).1.attempts ≡ attempts_of b.retry req replayable
unfolding forward
forward-exhausts b req body path env s code buf replayable snap = rw snap (λ e r. omega (
  arith,
  attempt_loop-exhausts b.retry
      (λ i. build_upstream_request b.forward_headers req i (b.base i) path buf) env
      (attempts_of b.retry req replayable) 0 none other_failure s code e r,
))
