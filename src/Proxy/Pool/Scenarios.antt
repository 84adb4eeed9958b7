-- ===== src/Proxy/Pool/Scenarios.antt =====
-- The pool's theorems at concrete inputs.
use nina.Prelude.{
  ℕ, ◌<◌, ◌≡◌, refl, Bool, true, false, not, some, none, [], ◌∷◌, arith, lit, same_str, get_elem?,
  In,
}
use nina.Proxy.Pool.{
  Host, Pool, Numbered, HealthCheckConfig, healthy_hosts, candidates, picked, pick, check,
}
use nina.Proxy.Pool.Choice.{pick_sound}
use nina.Proxy.Pool.Health.{check-changes}

abbrev up : Host
up = record { url = lit "http://a"; healthy = true; inflight = 2; ok_streak = 0; fail_streak = 0 }

abbrev idle : Host
idle = record up { inflight = 1 }

abbrev down : Host
down = record up { healthy = false }

abbrev two_up : Pool
two_up = record { hosts = down ∷ up ∷ idle ∷ []; strategy = lit "round_robin"; rr = 4 }

abbrev first : ℕ → ℕ
first n = 0

first-lt : (n : ℕ) → 0 < n → first n < n
first-lt n h = h

round_robin_skips_the_excluded : (pick first (some 1) two_up).1 ≡ picked 2
unfolding pick healthy_hosts candidates lit same_str
round_robin_skips_the_excluded = refl

pick_sound_example :
    (i : ℕ) × (h : Host) × ((pick first (some 1) two_up).1 ≡ picked i)
    × (get_elem? two_up.hosts i ≡ some h)
    × (h.healthy ≡ true)
    × ((d : Numbered) → some 1 ≡ some i → In d (healthy_hosts two_up) → d.0 ≡ i)
unfolding healthy_hosts
pick_sound_example = pick_sound first first-lt (some 1) two_up (omega arith) (omega arith)

abbrev config : HealthCheckConfig
config = record { unhealthy_after = 3; healthy_after = 2 }

check-changes_example :
    ((check config false up).1 ≡ none → (check config false up).0.healthy ≡ true)
    × ((b : Bool)
        → (check config false up).1 ≡ some b
        → ((check config false up).0.healthy ≡ b) × (true ≡ not b))
check-changes_example = check-changes config false up
