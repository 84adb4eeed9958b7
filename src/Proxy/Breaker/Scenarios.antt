-- ===== src/Proxy/Breaker/Scenarios.antt =====
-- The breaker's theorems at concrete inputs, and runs of it.
use nina.Prelude.{◌≤◌, ◌≡◌, refl, true, false, arith, some, pos, [], ◌∷◌}
use nina.Proxy.Breaker.{
  Breaker, BreakerConfig, state_closed, state_open, state_half_open, done_probe, new_breaker, allow,
  report,
}
use nina.Proxy.Breaker.Window.{IsSound, new_breaker-IsSound}
use nina.Proxy.Breaker.Probes.{
  start, begin, next, ask, after_allow, one_probe_at_a_time, straggler_admits_second_probe,
}

-- Half of two requests, and a hundred nanoseconds.
abbrev config : BreakerConfig
config = record {
  failure_ratio = record { num = pos 1; den = 2 };
  min_requests = pos 2;
  open_for = pos 100;
  on_change = true;
}

abbrev one_failed : Breaker
one_failed = record {
  failure_ratio = record { num = pos 1; den = 2 };
  min_requests = 2;
  open_for = 100;
  state = state_closed;
  successes = 0;
  failures = 1;
  opened_at = 0;
  probing = false;
  on_change = true;
  changes = [];
}

abbrev opened : Breaker
opened = record one_failed { state = state_open; failures = 0; opened_at = 7 }

-- A probe is in flight, and one straggler has failed since.
abbrev probing : Breaker
probing = record one_failed { state = state_half_open; probing = true; opened_at = 7 }

new_breaker-IsSound_example : IsSound (new_breaker config)
new_breaker-IsSound_example = new_breaker-IsSound config

trips_on_the_second : report 7 false one_failed ≡ record opened { changes = state_open ∷ [] }
unfolding report
trips_on_the_second = refl

one_probe_at_a_time_example :
    let w = after_allow 5 (start config) in (w.probes ≤ 1) × (w.probes ≡ 1 → after_allow 6 w ≡ w)
one_probe_at_a_time_example = one_probe_at_a_time config 6 (next begin (ask 5 (start config)))

straggler_admits_second_probe_example : (allow 400 (report 200 false probing)).1 ≡ some done_probe
straggler_admits_second_probe_example =
    straggler_admits_second_probe probing 200 400 refl refl refl (omega arith, refl) (omega arith)
