-- ===== src/Proxy/Pool/Health.antt =====
-- The active health check of a host, against its meaning as a function of the polls so far.
use nina.Prelude.{
  suc, ◌≡◌, ℕ, Bool, true, false, not, ◌||◌, ◌&&◌, List, [], ◌∷◌, arith, leb, some, none,
}
use nina.Proxy.Pool.{Host, HealthCheckConfig, check}

-- A host after the polls, the newest first.
unfoldable pub polled : HealthCheckConfig → Host → List Bool → Host
polled cfg h [] = h
polled cfg h (ok ∷ past) = (check cfg ok (polled cfg h past)).0

-- How many of the newest polls in a row came out as `b`.
abbrev pub run_of : Bool → List Bool → ℕ
run_of b [] = 0
run_of true (true ∷ past) = suc (run_of true past)
run_of true (false ∷ past) = 0
run_of false (true ∷ past) = 0
run_of false (false ∷ past) = suc (run_of false past)

-- A host goes down after `unhealthy_after` failures in a row, and comes back after `healthy_after`
-- passes in a row.
abbrev pub status : HealthCheckConfig → List Bool → Bool
status cfg [] = true
status cfg (true ∷ past) = status cfg past || leb cfg.healthy_after (suc (run_of true past))
status cfg (false ∷ past) =
    status cfg past && not (leb cfg.unhealthy_after (suc (run_of false past)))

abbrev pub IsFresh : Host → Type 0
IsFresh h = (h.healthy ≡ true) × (h.ok_streak ≡ 0) × (h.fail_streak ≡ 0)

pub record Agrees (cfg : HealthCheckConfig) (polls : List Bool) (h : Host) : Type 0 where
  pub same_status : h.healthy ≡ status cfg polls
  pub passes : h.ok_streak ≡ run_of true polls
  pub failures : h.fail_streak ≡ run_of false polls

check-Agrees :
    (cfg : HealthCheckConfig) (ok : Bool) (polls : List Bool) (h : Host)
    → Agrees cfg polls h
    → Agrees cfg (ok ∷ polls) (check cfg ok h).0
unfolding check
check-Agrees cfg true polls h a = ground arith
check-Agrees cfg false polls h a = ground arith

-- After any polls the host of a new pool has the health that the polls call for, and its streaks
-- are the lengths of the last runs of passes and of failures.
pub polled-Agrees :
    (cfg : HealthCheckConfig) (h : Host) (polls : List Bool)
    → IsFresh h
    → Agrees cfg polls (polled cfg h polls)
unfolding polled
polled-Agrees cfg h [] f = ground arith
polled-Agrees cfg h (ok ∷ polls) f =
    check-Agrees cfg ok polls (polled cfg h polls) (polled-Agrees cfg h polls f)

-- `onChange` is called exactly when the health changes, with the new health.
pub check-changes :
    (cfg : HealthCheckConfig) (ok : Bool) (h : Host)
    → ((check cfg ok h).1 ≡ none → (check cfg ok h).0.healthy ≡ h.healthy)
      × ((up : Bool)
          → (check cfg ok h).1 ≡ some up
          → ((check cfg ok h).0.healthy ≡ up) × (h.healthy ≡ not up))
unfolding check
check-changes cfg true h = (ground arith, λ up. ground arith)
check-changes cfg false h = (ground arith, λ up. ground arith)
