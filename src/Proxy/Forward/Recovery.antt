-- ===== src/Proxy/Forward/Recovery.antt =====
-- The run of Do in which a retry saves the request.
use nina.Prelude.{
  ℕ, zero, suc, ◌+◌, ◌<◌, ◌^◌, ◌≡◌, refl, sym, ap, subst, Bool, true, false, not, Option, none,
  some, List, [], ◌∷◌, arith, nat_beq, lt→ltb, Str, str_eq, ◌∙◌, is_positive, length, filter,
}
use nina.Proxy.Breaker.{done_nothing, Breaker, allow_ptr, allow, finish}
use nina.Proxy.Pool.{Host, Pool, number_from, is_up, healthy_hosts, pick}
use nina.Proxy.Pool.Choice.{pick_sound, pick-pool}
use nina.Proxy.Headers.{Inbound, Outgoing, build_upstream_request}
use nina.Proxy.Forward.Retries.{retryable_status-ge}
use nina.Proxy.Forward.{
  RetryPolicy, Failure, other_failure, Turn, Outcome, replied, failed, Shared, Run, Reply, response,
  Progress, again, ended, exchange, try_once, attempt_loop, retryable_status, after_round_trip,
  wait, at_host, host_change, enter, leave, settle, Backend, Body, forward, attempts_of,
  snapshot_body, snapshot,
}

abbrev pub is_off : Option Breaker → Bool
is_off none = true
is_off (some b) = not (is_positive b.failure_ratio.num)

-- The breaker is switched off, a host is healthy, and `n` more hosts can be picked before the
-- counter reaches 2^63.
pub record IsClear (n : ℕ) (s : Shared) : Type 0 where
  pub off : is_off s.breaker ≡ true
  pub up : 0 < length (healthy_hosts s.pool)
  pub room : s.pool.rr + n < 2 ^ 63

allow_ptr-off :
    (now : ℕ) (b : Option Breaker) → is_off b ≡ true → allow_ptr now b ≡ (b, some done_nothing)
unfolding allow_ptr allow
allow_ptr-off now none h = refl
allow_ptr-off now (some b) h = ground arith

settle-off : (now : ℕ) (success : Bool) (s : Shared) → settle done_nothing now success s ≡ s
unfolding finish
settle-off now success s = by_breaker s.breaker s.pool
  where
    by_breaker :
        (b : Option Breaker) (p : Pool)
        → settle done_nothing now success (record { pool = p; breaker = b })
          ≡ record { pool = p; breaker = b }
    by_breaker none p = refl
    by_breaker (some b) p = refl

-- Counting a request in or out of a host leaves the healthy hosts as many as they were.
length-healthy_at :
    (f : Host → Host) (same : (h : Host) → (f h).healthy ≡ h.healthy) (i k : ℕ) (hs : List Host)
    → length (filter is_up (number_from k (at_host i f hs)))
      ≡ length (filter is_up (number_from k hs))
length-healthy_at f same i k [] = refl
length-healthy_at f same zero k (h ∷ hs) = ground (arith, same h)
length-healthy_at f same (suc i) k (h ∷ hs) = ground (arith, length-healthy_at f same i (suc k) hs)

host_change-IsClear :
    (n i : ℕ) (f : Host → Host) (s : Shared)
    → ((h : Host) → (f h).healthy ≡ h.healthy)
    → IsClear n s
    → IsClear n (host_change i f s)
unfolding healthy_hosts
host_change-IsClear n i f s same c = record {
  off = c.off;
  up = omega (arith, length-healthy_at f same i 0 s.pool.hosts, c.up);
  room = c.room;
}

-- What calls for another attempt: an error while the context lasts, or one of the three statuses.
abbrev pub CallsForRetry : Outcome → Type 0
CallsForRetry (failed f none) = Unit
CallsForRetry (failed f (some c)) = ⊥
CallsForRetry (replied code) = retryable_status code ≡ true

-- Requests beside this one neither take the last healthy host away nor switch a breaker on, and they
-- pick at most `k` hosts before the attempt and `k` while it is on its way.
pub record IsBystander (k : ℕ) (t : Turn) : Type 0 where
  pub before : (n : ℕ) (s : Shared) → IsClear (k + n) s → IsClear n (t.before s)
  pub during : (n : ℕ) (s : Shared) → IsClear (k + n) s → IsClear n (t.during s)
  pub intn_lt : (n : ℕ) → 0 < n → t.intn n < n

-- The shared state of an attempt that was let through.
abbrev landed : Turn → ℕ → Shared → Shared
landed t host s = host_change host leave (t.during (host_change host enter s))

-- The hosts that are picked in so many attempts, this request's and those beside it.
abbrev pub picks : ℕ → ℕ → ℕ
picks k zero = 0
picks k (suc n) = k + suc (k + picks k n)

landed-IsClear :
    (k : ℕ) (t : Turn) (n host : ℕ) (s : Shared)
    → IsBystander k t
    → IsClear (k + n) s
    → IsClear n (landed t host s)
landed-IsClear k t n host s b c =
    host_change-IsClear n host leave _ (λ h. refl)
      (b.during n _ (host_change-IsClear (k + n) host enter s (λ h. refl) c))

-- An attempt of a clear state reaches RoundTrip's outcome.
record Reaches (build : ℕ → Outgoing) (last : Bool) (t : Turn) (n : ℕ)
    (res : (Run × Progress) × Option ℕ) : Type 0 where
  landing : Shared
  clear : IsClear n landing
  outcome : (res.0.0.shared, res.0.1) ≡ after_round_trip last done_nothing t t.outcome landing

healthy_hosts-same : (p q : Pool) → p.hosts ≡ q.hosts → healthy_hosts p ≡ healthy_hosts q
unfolding healthy_hosts
healthy_hosts-same p q e = ap (λ hs. filter is_up (number_from 0 hs)) e

-- A pick uses one number of the counter.
pub pick-IsClear :
    (intn : ℕ → ℕ) (h : Option ℕ) (n : ℕ) (s : Shared)
    → IsClear (suc n) s
    → IsClear n (record s { pool = (pick intn h s.pool).0 })
pick-IsClear intn h n s c =
    let (hosts, rr) = pick-pool intn h s.pool in
    record {
      off = c.off;
      up = subst (λ hs. 0 < length hs) (sym (healthy_hosts-same _ s.pool hosts)) c.up;
      room = omega (arith, c.room, rr);
    }

try_once-Reaches :
    (k : ℕ) (build : ℕ → Outgoing) (last : Bool) (t : Turn) (n : ℕ) (h : Option ℕ) (s : Run)
    → IsBystander k t
    → IsClear (k + suc (k + n)) s.shared
    → Reaches build last t n (try_once build last t h s)
unfolding try_once exchange
try_once-Reaches k build last t n h s b c =
    let s1 = t.before s.shared in
    let c1 = b.before (suc (k + n)) s.shared c in
    let (i, host, chosen, at, up, other) =
      pick_sound t.intn b.intn_lt h s1.pool (omega (arith, c1.room)) c1.up in
    rw chosen (
      rw (allow_ptr-off t.now s1.breaker c1.off) (record {
        landing = landed t i (record { pool = (pick t.intn h s1.pool).0; breaker = s1.breaker });
        clear =
            landed-IsClear k t n i
              (record { pool = (pick t.intn h s1.pool).0; breaker = s1.breaker }) b
              (pick-IsClear t.intn h (k + n) s1 c1);
        outcome = refl;
      }))

after_round_trip-retries :
    (t : Turn) (o : Outcome) (s : Shared)
    → CallsForRetry o
    → (f : Failure) × (after_round_trip false done_nothing t o s ≡ (s, again f))
unfolding after_round_trip
after_round_trip-retries t (failed f none) s c =
    (f, ap (λ x. (x, again f)) (settle-off t.later false s))
after_round_trip-retries t (failed f (some x)) s c = elim c [ ]
after_round_trip-retries t (replied code) s c = (
  other_failure,
  rw (retryable_status-ge code c)
      (rw c (ap (λ x. (x, again other_failure)) (settle-off t.later false s))),
)

after_round_trip-succeeds :
    (last : Bool) (t : Turn) (code : ℕ) (s : Shared)
    → code < 500
    → after_round_trip last done_nothing t (replied code) s ≡ (s, ended (response code))
unfolding after_round_trip
after_round_trip-succeeds last t code s l =
    rw (lt→ltb code 500 l) (ap (λ x. (x, ended (response code))) (settle-off t.later true s))

attempt_loop-ended :
    (retry : RetryPolicy) (build : ℕ → Outgoing) (env : ℕ → Turn) (n a : ℕ) (h : Option ℕ)
    (f : Failure) (s : Run) (r : Reply)
    → wait retry (env a) a ≡ none
    → (try_once build (nat_beq n 0) (env a) h s).0.1 ≡ ended r
    → (attempt_loop retry build env (suc n) a h f s).1
      ≡ record { reply = r; host = (try_once build (nat_beq n 0) (env a) h s).1; attempts = a + 1 }
unfolding attempt_loop try_once
attempt_loop-ended retry build env n a h f s r w e =
    rw (w, attempt_loop) (rw (e, attempt_loop) refl)

attempt_loop-again :
    (retry : RetryPolicy) (build : ℕ → Outgoing) (env : ℕ → Turn) (n a : ℕ) (h : Option ℕ)
    (f g : Failure) (s : Run)
    → wait retry (env a) a ≡ none
    → (try_once build (nat_beq n 0) (env a) h s).0.1 ≡ again g
    → attempt_loop retry build env (suc n) a h f s
      ≡ attempt_loop retry build env n
          (a + 1)
          (try_once build (nat_beq n 0) (env a) h s).1
          g
          (try_once build (nat_beq n 0) (env a) h s).0.0
unfolding attempt_loop
attempt_loop-again retry build env n a h f g s w e =
    rw (w, attempt_loop) (rw (e, attempt_loop) refl)

module _ (retry : RetryPolicy) (build : ℕ → Outgoing) (env : ℕ → Turn) (code : ℕ) (k : ℕ)
    (fine : code < 500) (bystanders : (a : ℕ) → IsBystander k (env a))
    (in_time : (a : ℕ) → wait retry (env a) a ≡ none) where
  -- `j` attempts from number `a` on fail, and the one after them succeeds.
  attempt_loop-recovers :
      (j n a : ℕ) (h : Option ℕ) (f : Failure) (s : Run)
      → j < n
      → ((i : ℕ) → i < j → CallsForRetry (env (a + i)).outcome)
      → (env (a + j)).outcome ≡ replied code
      → IsClear (picks k n) s.shared
      → ((attempt_loop retry build env n a h f s).1.reply ≡ response code)
        × ((attempt_loop retry build env n a h f s).1.attempts ≡ a + j + 1)
  attempt_loop-recovers j zero a h f s l fails good c = elim l [ ]
  attempt_loop-recovers zero (suc n) a h f s l fails good c =
      let reached =
        try_once-Reaches k build (nat_beq n 0) (env a) (picks k n) h s (bystanders a) c in
      let e =
        reached.outcome
        ∙ ap (λ o. after_round_trip (nat_beq n 0) done_nothing (env a) o reached.landing)
            (subst (λ k. (env k).outcome ≡ replied code) (omega arith) good)
        ∙ after_round_trip-succeeds (nat_beq n 0) (env a) code reached.landing fine in
      let left =
        attempt_loop-ended retry build env n a h f s (response code) (in_time a)
          (ap (λ x. x.1) e) in
      (ap (λ x. x.reply) left, omega (arith, ap (λ x. x.attempts) left))
  attempt_loop-recovers (suc j) (suc n) a h f s l fails good c =
      let reached =
        try_once-Reaches k build (nat_beq n 0) (env a) (picks k n) h s (bystanders a) c in
      let (g, retried) =
        after_round_trip-retries (env a) (env a).outcome reached.landing
          (subst (λ k. CallsForRetry (env k).outcome) (omega arith) (fails 0 (omega arith))) in
      let more : nat_beq n 0 ≡ false = ground (arith, l) in
      let e =
        reached.outcome
        ∙ ap (λ last. after_round_trip last done_nothing (env a) (env a).outcome reached.landing)
            more
        ∙ retried in
      let (reply, attempts) =
        attempt_loop-recovers j n (a + 1) (try_once build (nat_beq n 0) (env a) h s).1 g
          (try_once build (nat_beq n 0) (env a) h s).0.0 (omega (arith, l))
          (λ i l'.
            subst (λ m. CallsForRetry (env m).outcome) (omega arith)
              (fails (i + 1) (omega (arith, l'))))
          (subst (λ m. (env m).outcome ≡ replied code) (omega arith) good)
          (subst (IsClear (picks k n)) (sym (ap (λ x. x.0) e)) reached.clear) in
      let on = attempt_loop-again retry build env n a h f g s (in_time a) (ap (λ x. x.1) e) in
      (ap (λ x. x.1.reply) on ∙ reply, omega (arith, ap (λ x. x.1.attempts) on, attempts))

-- Do recovers: with the breaker off, a healthy host, random numbers in their range and a context that
-- lasts; with requests beside this one that leave a host healthy and the breaker off, and pick at most
-- `k` hosts before each attempt and `k` during it; and with a counter of the pool that all these picks
-- leave below 2^63: if the first `j` attempts fail in a way that calls for a retry, the next one is
-- answered below 500 and the request may have that many attempts, then the client gets that answer, at
-- that attempt.
pub forward-recovers :
    (b : Backend) (req : Inbound) (body : Body) (path : Str) (env : ℕ → Turn) (s : Run) (code : ℕ)
    (j k : ℕ) (buf : Option Str) (replayable : Bool)
    → code < 500
    → ((a : ℕ) → IsBystander k (env a))
    → ((a : ℕ) → wait b.retry (env a) a ≡ none)
    → snapshot_body b.retry b.max_retry_body body ≡ snapshot buf replayable
    → j < attempts_of b.retry req replayable
    → ((i : ℕ) → i < j → CallsForRetry (env i).outcome)
    → (env j).outcome ≡ replied code
    → IsClear (picks k (attempts_of b.retry req replayable)) s.shared
    → ((forward b req body path env s).1.reply ≡ response code)
      × ((forward b req body path env s).1.attempts ≡ j + 1)
unfolding forward
forward-recovers b req body path env s code j k buf replayable fine by in_time snap l fails good c =
    let (reply, attempts) =
      attempt_loop-recovers b.retry
        (λ i. build_upstream_request b.forward_headers req i (b.base i) path buf) env code k fine by
        in_time j (attempts_of b.retry req replayable) 0 none other_failure s l
        (λ i l'. subst (λ m. CallsForRetry (env m).outcome) (omega arith) (fails i l'))
        (subst (λ m. (env m).outcome ≡ replied code) (omega arith) good) c in
    rw snap (reply, omega (arith, attempts))
