-- ===== src/Proxy/Pool.antt =====
-- internal/proxy/pool.go. A `*Host` is its index in the pool; the atomic fields of a host are read
-- and written one at a time. `rand.Intn` is the argument `intn`.
pub mod Choice
pub mod Health
mod Scenarios
use nina.Prelude.{
  ℕ, suc, ◌+◌, ◌-◌, ◌%◌, ◌^◌, Bool, true, false, not, ◌&&◌, Option, none, some, List, [], ◌∷◌, ltb,
  leb, nat_beq, ◌==◌, nat_eq, if◌then◌else◌, Str, lit, str_eq, length, get_elem?, set, filter,
}

pub record Host : Type 0 where
  pub url : Str
  pub healthy : Bool
  pub inflight : ℕ
  pub ok_streak : ℕ
  pub fail_streak : ℕ

pub record Pool : Type 0 where
  pub hosts : List Host
  pub strategy : Str
  -- atomic.Uint64
  pub rr : ℕ

new_hosts : List Str → List Host
new_hosts [] = []
new_hosts (u ∷ us) =
    record { url = u; healthy = true; inflight = 0; ok_streak = 0; fail_streak = 0 } ∷ new_hosts us

unfoldable pub new_pool : List Str → Str → Pool
unfolding new_hosts
new_pool urls strategy = record { hosts = new_hosts urls; strategy = strategy; rr = 0 }

-- A host with its index.
abbrev pub Numbered : Type 0
Numbered = ℕ × Host

abbrev pub number_from : ℕ → List Host → List Numbered
number_from i [] = []
number_from i (h ∷ hs) = (i, h) ∷ number_from (suc i) hs

abbrev pub is_up : Numbered → Bool
is_up c = c.1.healthy

unfoldable pub healthy_hosts : Pool → List Numbered
healthy_hosts p = filter is_up (number_from 0 p.hosts)

abbrev pub is_other : ℕ → Numbered → Bool
is_other x c = not (nat_beq c.0 x)

abbrev or_else : List Numbered → List Numbered → List Numbered
or_else [] healthy = healthy
or_else (c ∷ cs) healthy = c ∷ cs

unfoldable pub candidates : Option ℕ → List Numbered → List Numbered
candidates none healthy = healthy
candidates (some x) healthy =
    if ltb 1 (length healthy) then or_else (filter (is_other x) healthy) healthy else healthy

-- The loop of "least_conn": the first host with the fewest requests in flight.
unfoldable pub least : Numbered → List Numbered → Numbered
least best [] = best
least best (h ∷ hs) = least (if ltb h.1.inflight best.1.inflight then h else best) hs

pub data Picked : Type 0 where
  picked : ℕ → Picked
  err_no_healthy_host : Picked
  -- The run-time panic of a slice index out of range.
  index_panic : Picked

abbrev at_index : List Numbered → ℕ → Picked
at_index cs i = elim (get_elem? cs i) [ none ↦ index_panic | some c ↦ picked c.0 ]

-- candidates[int(i)%len(candidates)] for a uint64 `i`; the conversion to int makes the upper half
-- of the range negative, and Go's remainder has the sign of the dividend.
abbrev pub at_counter : List Numbered → ℕ → Picked
at_counter cs i =
    if ltb i (2 ^ 63)
    then at_index cs (i % length cs)
    else if nat_beq ((2 ^ 64 - i) % length cs) 0
    then at_index cs 0
    else index_panic

abbrev first_least : List Numbered → Picked
first_least [] = index_panic
first_least (c ∷ cs) = picked (least c cs).0

-- The switch on the strategy; `rr.Add(1)` wraps, and `i-1` is the value before it.
choose : (ℕ → ℕ) → List Numbered → Pool → Pool × Picked
choose intn cs p =
    if p.strategy == lit "random"
    then (p, at_index cs (intn (length cs)))
    else if p.strategy == lit "least_conn"
    then (p, first_least cs)
    else (record p { rr = (p.rr + 1) % 2 ^ 64 }, at_counter cs p.rr)

abbrev choose_among : (ℕ → ℕ) → Option ℕ → List Numbered → Pool → Pool × Picked
choose_among intn exclude [] p = (p, err_no_healthy_host)
choose_among intn exclude (c ∷ cs) p = choose intn (candidates exclude (c ∷ cs)) p

unfoldable pub pick : (ℕ → ℕ) → Option ℕ → Pool → Pool × Picked
unfolding choose
pick intn exclude p = choose_among intn exclude (healthy_hosts p) p

pub record HealthCheckConfig : Type 0 where
  pub unhealthy_after : ℕ
  pub healthy_after : ℕ

-- Whether a poll passed: its status code, or `none` where the request failed.
unfoldable pub poll_ok : Option ℕ → Bool
poll_ok none = false
poll_ok (some code) = leb 200 code && ltb code 400

-- The part of `check` under the lock: the host after a poll, and the argument of `onChange` where
-- that is called.
unfoldable pub check : HealthCheckConfig → Bool → Host → Host × Option Bool
check cfg true h =
    let h' = record h { fail_streak = 0; ok_streak = h.ok_streak + 1 } in
    if not h.healthy && leb cfg.healthy_after h'.ok_streak
    then (record h' { healthy = true }, some true)
    else (h', none)
check cfg false h =
    let h' = record h { ok_streak = 0; fail_streak = h.fail_streak + 1 } in
    if h.healthy && leb cfg.unhealthy_after h'.fail_streak
    then (record h' { healthy = false }, some false)
    else (h', none)
