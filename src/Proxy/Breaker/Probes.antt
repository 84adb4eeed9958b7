-- ===== src/Proxy/Breaker/Probes.antt =====
-- The breaker with the calls that are in flight, as a step relation: who may hold a probe.
use nina.Prelude.{
  ℕ, ◌+◌, ◌-◌, ◌<◌, ◌≤◌, ◌≡◌, is_positive, Bool, true, false, arith, Option, none, some,
}
use nina.Proxy.Breaker.{
  Breaker, BreakerConfig, Done, state_closed, state_half_open, done_nothing, done_report,
  done_probe, new_breaker, allow, maybe_half_open, report, report_probe,
}
use nina.Proxy.Breaker.Window.{Trips}

pub record World : Type 0 where
  pub breaker : Breaker
  -- The closures that Allow has returned and nobody has called yet.
  pub calls : ℕ
  pub probes : ℕ

abbrev pub start : BreakerConfig → World
start c = record { breaker = new_breaker c; calls = 0; probes = 0 }

abbrev hold : Option Done → Breaker → World → World
hold (some done_report) b w = record w { breaker = b; calls = w.calls + 1 }
hold (some done_probe) b w = record w { breaker = b; probes = w.probes + 1 }
hold (some done_nothing) b w = record w { breaker = b }
hold none b w = record w { breaker = b }

-- A request asks for a slot.
abbrev pub after_allow : ℕ → World → World
after_allow now w = hold (allow now w.breaker).1 (allow now w.breaker).0 w

-- One step of the program; `Timely` says when an ordinary call may still report its outcome.
pub data Step (Timely : Breaker → Type 0) : World → World → Type 0 where
  ask : (now : ℕ) (w : World) → Step Timely w (after_allow now w)
  observe :
      (now : ℕ) (w : World) → Step Timely w (record w { breaker = maybe_half_open now w.breaker })
  answer :
      (now : ℕ) (success : Bool) (w : World)
      → 0 < w.calls
      → Timely w.breaker
      → Step Timely w (record w { breaker = report now success w.breaker; calls = w.calls - 1 })
  answer_probe :
      (now : ℕ) (success : Bool) (w : World)
      → 0 < w.probes
      → Step Timely w
          (record w { breaker = report_probe now success w.breaker; probes = w.probes - 1 })

pub data Reach (Timely : Breaker → Type 0) (s : World) : World → Type 0 where
  begin : Reach Timely s s
  next : {t u : World} → Reach Timely s t → Step Timely t u → Reach Timely s u

-- No call outlives the closed period in which it was admitted.
abbrev pub IsClosed : Breaker → Type 0
IsClosed b = b.state ≡ state_closed

pub record IsOrderly (w : World) : Type 0 where
  pub one : w.probes ≤ 1
  pub taken : w.breaker.probing ≡ true → w.probes ≡ 1
  pub free : w.breaker.probing ≡ false → w.probes ≡ 0
  pub where_probed : w.probes ≡ 1 → w.breaker.state ≡ state_half_open

Step-IsOrderly : {w u : World} → Step IsClosed w u → IsOrderly w → IsOrderly u
unfolding allow maybe_half_open report report_probe
Step-IsOrderly (ask now w) o = ground arith
Step-IsOrderly (observe now w) o = ground arith
Step-IsOrderly (answer now success w some_call closed) o = ground arith
Step-IsOrderly (answer_probe now success w some_probe) o = ground arith

Reach-IsOrderly : (c : BreakerConfig) {w : World} → Reach IsClosed (start c) w → IsOrderly w
unfolding new_breaker
Reach-IsOrderly c begin = ground arith
Reach-IsOrderly c (next r st) = Step-IsOrderly st (Reach-IsOrderly c r)

after_allow_busy : (now : ℕ) (w : World) → IsOrderly w → w.probes ≡ 1 → after_allow now w ≡ w
unfolding allow
after_allow_busy now w o busy = ground arith

-- Whatever requests arrive, in any order and at any times, as long as no ordinary call reports
-- after the closed period in which it was admitted: at most one probe is in flight, and while one
-- is, a further Allow admits nothing and leaves the breaker as it was.
pub one_probe_at_a_time :
    (c : BreakerConfig) (now : ℕ) {w : World}
    → Reach IsClosed (start c) w
    → (w.probes ≤ 1) × (w.probes ≡ 1 → after_allow now w ≡ w)
one_probe_at_a_time c now {w} r =
    let o = Reach-IsOrderly c r in (o.one, λ busy. after_allow_busy now w o busy)

-- If an ordinary call reports late, a second probe is admitted while the first is in flight: of a
-- half-open breaker that is switched on and has handed out its probe, a failure reported by an
-- ordinary call which fills the window and reaches the ratio reopens it, and once `open_for` has
-- passed Allow hands out another probe.
pub straggler_admits_second_probe :
    (b : Breaker) (t now : ℕ)
    → is_positive b.failure_ratio.num ≡ true
    → b.state ≡ state_half_open
    → b.probing ≡ true
    → Trips false b
    → t + b.open_for ≤ now
    → (allow now (report t false b)).1 ≡ some done_probe
unfolding allow report
straggler_admits_second_probe b t now on half probing trips late = ground arith
