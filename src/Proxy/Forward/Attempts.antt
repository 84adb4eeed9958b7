-- ===== src/Proxy/Forward/Attempts.antt =====
-- How many requests Do sends, and which.
use nina.Prelude.{
  ℕ, zero, suc, ◌+◌, ◌≤◌, ◌<◌, ◌≡◌, ◌⊎◌, inl, inr, refl, ap, subst, Bool, true, false, Option, none,
  some, List, [], ◌∷◌, arith, nat_beq, Bool-cases, ◌∙◌, length, Str, lit, str_eq, same_str_iff,
  contains, In, here, there, is_positive, pos_part,
}
use nina.Proxy.Breaker.{Done}
use nina.Proxy.Pool.{Picked, picked, err_no_healthy_host, index_panic}
use nina.Proxy.Headers.{Inbound, Outgoing, build_upstream_request}
use nina.Http.{get}
use nina.Proxy.Forward.{
  RetryPolicy, Failure, Turn, Shared, Run, Report, Reply, error, Progress, again, ended, exchange,
  try_host, try_once, attempt_loop, Backend, Body, forward, attempts_of, other_failure,
  forward_snapshot, retryable, no_body, stream, idempotent_methods, snapshot_body, Snapshot,
  snapshot, read_failed, wait, classify,
}

-- Induction on the loop: what holds of each way to leave it and is kept by a round holds of its
-- result.
module _ (retry : RetryPolicy) (build : ℕ → Outgoing) (env : ℕ → Turn)
    (P : ℕ → ℕ → Failure → Run → Run × Report → Type 0)
    (exhausted : (a : ℕ) (h : Option ℕ) (f : Failure) (s : Run)
      → P 0 a f s (s, record { reply = error (classify f); host = h; attempts = a }))
    (interrupted : (n a : ℕ) (h : Option ℕ) (f c : Failure) (s : Run)
      → wait retry (env a) a ≡ some c
      → P (suc n) a f s (s, record { reply = error (classify c); host = h; attempts = a }))
    (stopped : (n a : ℕ) (h : Option ℕ) (f : Failure) (s : Run) (r : Reply)
      → (try_once build (nat_beq n 0) (env a) h s).0.1 ≡ ended r
      → P (suc n) a f s (
        (try_once build (nat_beq n 0) (env a) h s).0.0,
        record { reply = r; host = (try_once build (nat_beq n 0) (env a) h s).1; attempts = a + 1 },
      ))
    (repeated : (n a : ℕ) (h : Option ℕ) (f g : Failure) (s : Run) (res : Run × Report)
      → (try_once build (nat_beq n 0) (env a) h s).0.1 ≡ again g
      → P n (a + 1) g (try_once build (nat_beq n 0) (env a) h s).0.0 res
      → P (suc n) a f s res) where
  pub attempt_loop-ind :
      (n a : ℕ) (h : Option ℕ) (f : Failure) (s : Run)
      → P n a f s (attempt_loop retry build env n a h f s)
  unfolding attempt_loop
  attempt_loop-ind zero a h f s = exhausted a h f s
  attempt_loop-ind (suc n) a h f s =
      of_wait (wait retry (env a) a) refl (try_once build (nat_beq n 0) (env a) h s).0.1 refl
        (λ h' g s'. attempt_loop-ind n (a + 1) h' g s')
    where
      of_wait :
          (w : Option Failure)
          → wait retry (env a) a ≡ w
          → (p : Progress) → (try_once build (nat_beq n 0) (env a) h s).0.1 ≡ p
          → ((h' : Option ℕ) (g : Failure) (s' : Run)
              → P n (a + 1) g s' (attempt_loop retry build env n (a + 1) h' g s'))
          → P (suc n) a f s (elim w [
            | some c ↦ (s, record { reply = error (classify c); host = h; attempts = a })
            | none ↦ elim p [
              | again g ↦
                  attempt_loop retry build env n
                    (a + 1)
                    (try_once build (nat_beq n 0) (env a) h s).1
                    g
                    (try_once build (nat_beq n 0) (env a) h s).0.0
              | ended r ↦ (
                (try_once build (nat_beq n 0) (env a) h s).0.0,
                record {
                  reply = r;
                  host = (try_once build (nat_beq n 0) (env a) h s).1;
                  attempts = a + 1;
                },
              )
            ]
          ])
      of_wait (some c) e p e' later = interrupted n a h f c s e
      of_wait none e (again g) e' later = repeated n a h f g s _ e' (
          later (try_once build (nat_beq n 0) (env a) h s).1 g
            (try_once build (nat_beq n 0) (env a) h s).0.0)
      of_wait none e (ended r) e' later = stopped n a h f s r e'

-- One attempt sends at most one request, which is built for some host.
abbrev Adds : (ℕ → Outgoing) → List Outgoing → List Outgoing → Type 0
Adds build before after = (after ≡ before) ⊎ ((i : ℕ) × (after ≡ build i ∷ before))

exchange-Adds :
    (build : ℕ → Outgoing) (last : Bool) (t : Turn) (host : ℕ) (d : Option Done) (s : Run)
    → Adds build s.sent (exchange build last t host d s).0.sent
unfolding exchange
exchange-Adds build last t host none s = inl refl
exchange-Adds build last t host (some d) s = inr (host, refl)

try_host-Adds :
    (build : ℕ → Outgoing) (last : Bool) (t : Turn) (c : Picked) (s : Run)
    → Adds build s.sent (try_host build last t c s).0.sent
try_host-Adds build last t err_no_healthy_host s = inl refl
try_host-Adds build last t index_panic s = inl refl
try_host-Adds build last t (picked host) s = exchange-Adds build last t host _ _

try_once-Adds :
    (build : ℕ → Outgoing) (last : Bool) (t : Turn) (h : Option ℕ) (s : Run)
    → Adds build s.sent (try_once build last t h s).0.0.sent
unfolding try_once
try_once-Adds build last t h s = try_host-Adds build last t _ _

-- What an attempt loop has added to the requests sent, and how many attempts it counts.
record IsBounded (build : ℕ → Outgoing) (n a : ℕ) (before : List Outgoing) (res : Run × Report)
    : Type 0 where
  counted : a ≤ res.1.attempts
  limited : res.1.attempts ≤ a + n
  few : length res.0.sent + a ≤ length before + res.1.attempts
  built : (o : Outgoing) → In o res.0.sent → In o before ⊎ ((i : ℕ) × (o ≡ build i))

Adds-length :
    (build : ℕ → Outgoing) (before after : List Outgoing)
    → Adds build before after
    → length after ≤ length before + 1
Adds-length build before after (inl e) = rw e (omega arith)
Adds-length build before after (inr (i, e)) = rw e (omega arith)

Adds-built :
    (build : ℕ → Outgoing) (before after : List Outgoing) (o : Outgoing)
    → Adds build before after
    → In o after
    → In o before ⊎ ((i : ℕ) × (o ≡ build i))
Adds-built build before after o (inl e) j = inl (subst (In o) e j)
Adds-built build before after o (inr (i, e)) j = of_cons (subst (In o) e j)
  where
    of_cons : In o (build i ∷ before) → In o before ⊎ ((k : ℕ) × (o ≡ build k))
    of_cons (here p) = inr (i, p)
    of_cons (there k) = inl k

module _ (retry : RetryPolicy) (build : ℕ → Outgoing) (env : ℕ → Turn) where
  attempt_loop-IsBounded :
      (n a : ℕ) (h : Option ℕ) (f : Failure) (s : Run)
      → IsBounded build n a s.sent (attempt_loop retry build env n a h f s)
  attempt_loop-IsBounded =
      attempt_loop-ind retry build env (λ n a f s res. IsBounded build n a s.sent res)
        (λ a h f s. record {
          counted = omega arith;
          limited = omega arith;
          few = omega arith;
          built = λ o i. inl i;
        })
        (λ n a h f c s e. record {
          counted = omega arith;
          limited = omega arith;
          few = omega arith;
          built = λ o i. inl i;
        })
        (λ n a h f s r e. ended_bounds n a s r _ _ (try_once-Adds build (nat_beq n 0) (env a) h s))
        (λ n a h f g s res e b.
          repeat_bounds n a s (try_once build (nat_beq n 0) (env a) h s).0.0 res
            (try_once-Adds build (nat_beq n 0) (env a) h s) b)
    where
      ended_bounds :
          (n a : ℕ) (s : Run) (r : Reply) (h : Option ℕ) (s' : Run)
          → Adds build s.sent s'.sent
          → IsBounded build (suc n) a s.sent (s', record { reply = r; host = h; attempts = a + 1 })
      ended_bounds n a s r h s' d = record {
        counted = omega arith;
        limited = omega arith;
        few = omega (arith, Adds-length build s.sent s'.sent d);
        built = λ o i. Adds-built build s.sent s'.sent o d i;
      }

      repeat_bounds :
          (n a : ℕ) (s s' : Run) (res : Run × Report)
          → Adds build s.sent s'.sent
          → IsBounded build n (a + 1) s'.sent res
          → IsBounded build (suc n) a s.sent res
      repeat_bounds n a s s' res d b = record {
        counted = omega (arith, b.counted);
        limited = omega (arith, b.limited);
        few = omega (arith, b.few, Adds-length build s.sent s'.sent d);
        built = λ o i. elim (b.built o i) [
          | inl j ↦ Adds-built build s.sent s'.sent o d j
          | inr x ↦ inr x
        ];
      }

-- Why a request must not be sent twice: no retries are configured, its body is too large to keep, or
-- only idempotent requests are retried and it is none.
pub data IsUnrepeatable (b : Backend) (req : Inbound) : Body → Type 0 where
  no_retries : {body : Body} → is_positive b.retry.attempts ≡ false → IsUnrepeatable b req body
  too_large :
      {bytes : Str} {broken : Bool}
      → b.max_retry_body < length bytes
      → IsUnrepeatable b req (stream bytes broken)
  not_idempotent :
      {body : Body}
      → b.retry.idempotent_only ≡ true
      → contains idempotent_methods req.method ≡ false
      → get (lit "Idempotency-Key") req.header ≡ []
      → IsUnrepeatable b req body

abbrev pub bytes_of : Body → Option Str
bytes_of no_body = none
bytes_of (stream bytes broken) = some bytes

pub record IsFrugal (b : Backend) (req : Inbound) (inbound : Body) (path : Str) (res : Run × Report)
    : Type 0 where
  pub few : length res.0.sent ≤ res.1.attempts
  pub limited : res.1.attempts ≤ 1 + pos_part b.retry.attempts
  pub once : IsUnrepeatable b req inbound → res.1.attempts ≤ 1
  pub body : Option Str
  pub built :
      (o : Outgoing)
      → In o res.0.sent
      → (i : ℕ) × (o ≡ build_upstream_request b.forward_headers req i (b.base i) path body)
  pub whole : 2 ≤ res.1.attempts → body ≡ bytes_of inbound

retryable-unrepeatable :
    (b : Backend) (req : Inbound) (body : Body) (replayable : Bool) (buf : Option Str)
    → IsUnrepeatable b req body
    → snapshot_body b.retry b.max_retry_body body ≡ snapshot buf replayable
    → retryable b.retry req replayable ≡ false
unfolding retryable snapshot_body
retryable-unrepeatable b req body replayable buf (no_retries e) h = rw e refl
retryable-unrepeatable b req (stream bytes broken) replayable buf (too_large l) h = ground arith
retryable-unrepeatable b req body replayable buf (not_idempotent e m k) h =
    grind (arith, e, m, (same_str_iff (get (lit "Idempotency-Key") req.header) []).1 k)

snapshot_body-whole :
    (b : Backend) (body : Body) (buf : Option Str)
    → snapshot_body b.retry b.max_retry_body body ≡ snapshot buf true
    → buf ≡ bytes_of body
unfolding snapshot_body
snapshot_body-whole b no_body buf h = ground arith
snapshot_body-whole b (stream bytes broken) buf h = ground arith

retryable-replayable :
    (retry : RetryPolicy) (req : Inbound) (replayable : Bool)
    → retryable retry req replayable ≡ true
    → replayable ≡ true
unfolding retryable
retryable-replayable retry req replayable h = ground arith

-- Every request that Do sends is the inbound one built for some host with one and the same body, and
-- there are at most as many as attempts. There are at most 1 + retry.Attempts attempts, at most one
-- where the request must not be sent twice, and where there are two or more the body of each is the
-- whole inbound body.
pub forward-IsFrugal :
    (b : Backend) (req : Inbound) (body : Body) (path : Str) (env : ℕ → Turn) (shared : Shared)
    → IsFrugal b req body path (forward b req body path env (record { shared = shared; sent = [] }))
unfolding forward
forward-IsFrugal b req body path env shared =
    of_snapshot (snapshot_body b.retry b.max_retry_body body) refl
  where
    of_snapshot :
        (w : Snapshot)
        → snapshot_body b.retry b.max_retry_body body ≡ w
        → IsFrugal b req body path
            (forward_snapshot b req path env w (record { shared = shared; sent = [] }))
    of_snapshot read_failed e = record {
      few = omega arith;
      limited = omega arith;
      once = λ u. omega arith;
      body = none;
      built = λ o i. elim i [ ];
      whole = λ h. ground arith;
    }
    of_snapshot (snapshot buf replayable) e =
        let n = attempts_of b.retry req replayable in
        let bounds =
          attempt_loop-IsBounded b.retry
            (λ i. build_upstream_request b.forward_headers req i (b.base i) path buf) env n 0 none
            other_failure (record { shared = shared; sent = [] }) in
        record {
          few = omega (arith, bounds.few);
          limited = ground (arith, bounds.limited);
          once = λ u.
              ground (arith, bounds.limited, retryable-unrepeatable b req body replayable buf u e);
          body = buf;
          built = λ o i. elim (bounds.built o i) [ inl j ↦ elim j [ ] | inr x ↦ x ];
          whole = λ two. elim (Bool-cases (retryable b.retry req replayable)) [
            | inl may ↦
                snapshot_body-whole b body buf
                  (e ∙ ap (snapshot buf) (retryable-replayable b.retry req replayable may))
            | inr once ↦ ground (arith, bounds.limited, once, two)
          ];
        }
