-- ===== src/Proxy/Breaker/Window.antt =====
-- The counting window of the breaker, and when it trips.
use nina.Prelude.{
  ℕ, ◌+◌, ◌*◌, ◌<◌, ◌≤◌, ◌≡◌, none, ◌↔◌, Bool, true, false, arith, is_positive, some,
}
use nina.Proxy.Breaker.{
  Breaker, BreakerConfig, Done, state_closed, state_open, state_half_open, done_probe, reaches,
  new_breaker, allow, report, report_probe, finish,
}

-- What holds of a breaker between two calls: the window has fewer than twice `min_requests`
-- outcomes, so the counters are bounded whatever the traffic.
pub record IsSound (b : Breaker) : Type 0 where
  pub asks : 0 < b.min_requests
  pub waits : 0 < b.open_for
  pub bounded : b.successes + b.failures < b.min_requests * 2

-- A new breaker is sound, whatever its configuration says.
pub new_breaker-IsSound : (c : BreakerConfig) → IsSound (new_breaker c)
unfolding new_breaker
new_breaker-IsSound c = ground arith

-- Asking for a slot keeps the breaker sound.
pub allow-IsSound : (now : ℕ) {b : Breaker} → IsSound b → IsSound (allow now b).0
unfolding allow
allow-IsSound now s = ground arith

-- Every report of an outcome, late ones included, keeps a breaker sound: its window stays below twice
-- `min_requests`.
pub finish-IsSound :
    (done : Done) (now : ℕ) (success : Bool) {b : Breaker}
    → IsSound b
    → IsSound (finish done now success b)
unfolding finish
finish-IsSound done now success s = ground arith

abbrev failures_with : Bool → Breaker → ℕ
failures_with true b = b.failures
failures_with false b = b.failures + 1

-- The outcome, counted, fills a window in which the failure ratio is reached.
abbrev pub Trips : Bool → Breaker → Type 0
Trips success b =
    let total = b.successes + b.failures + 1 in
    (b.min_requests ≤ total) × (reaches (failures_with success b) total b.failure_ratio ≡ true)

-- A closed breaker opens exactly when the reported outcome fills a window of at least
-- `min_requests` outcomes in which the failure ratio is reached.
pub report-eq-open_iff :
    (now : ℕ) (success : Bool) (b : Breaker)
    → b.state ≡ state_closed
    → ((report now success b).state ≡ state_open) ↔ Trips success b
unfolding report
report-eq-open_iff now success b h = ground arith

-- An open breaker refuses every call until `open_for` has passed since it opened, and then admits
-- one as a probe.
pub allow_open :
    (now : ℕ) (b : Breaker)
    → is_positive b.failure_ratio.num ≡ true
    → b.state ≡ state_open
    → (now < b.opened_at + b.open_for → allow now b ≡ (b, none))
      × (b.opened_at + b.open_for ≤ now → (allow now b).1 ≡ some done_probe)
unfolding allow
allow_open now b on opened = ground arith

-- The outcome of the probe decides: success closes the breaker with an empty window, failure opens
-- it again from that moment, and neither leaves the slot taken.
pub report_probe_decides :
    (now : ℕ) (b : Breaker)
    → b.state ≡ state_half_open
    → let closed = report_probe now true b in
      let reopened = report_probe now false b in
      (closed.state ≡ state_closed)
      × (closed.successes + closed.failures ≡ 0)
      × (closed.probing ≡ false)
      × (reopened.state ≡ state_open)
      × (reopened.opened_at ≡ now)
      × (reopened.probing ≡ false)
unfolding report_probe
report_probe_decides now b half = ground arith
