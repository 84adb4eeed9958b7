-- ===== src/Proxy/Breaker.antt =====
-- internal/proxy/breaker.go. The mutex makes each method one step; a method that reads the clock
-- takes its value as `now`, in nanoseconds. `now.Sub(t) >= d` is `t + d <= now`.
pub mod Window
pub mod Probes
mod Scenarios
use nina.Prelude.{
  ℕ, ◌+◌, ◌*◌, Bool, true, false, ◌&&◌, Option, none, some, List, [], ◌∷◌, ltb, leb, if◌then◌else◌,
  ℤ, pos, negsuc, is_positive, pos_part,
}

-- `open` is a word of the language, so the constructors keep the source's prefix.
pub data State : Type 0 where
  state_closed state_open state_half_open : State

-- A float64 ratio, as a fraction with a positive denominator.
pub record Ratio : Type 0 where
  pub num : ℤ
  pub den : ℕ

-- float64(failures)/float64(total) >= ratio, for a positive total
abbrev pub reaches : ℕ → ℕ → Ratio → Bool
reaches failures total r = leb (pos_part r.num * total) (failures * r.den)

pub record Breaker : Type 0 where
  pub failure_ratio : Ratio
  pub min_requests : ℕ
  pub open_for : ℕ
  pub state : State
  pub successes : ℕ
  pub failures : ℕ
  pub opened_at : ℕ
  pub probing : Bool
  -- Whether there is a callback, and the states that it was called with, newest first.
  pub on_change : Bool
  pub changes : List State

pub record BreakerConfig : Type 0 where
  pub failure_ratio : Ratio
  pub min_requests : ℤ
  pub open_for : ℤ
  pub on_change : Bool

-- 10 * time.Second
abbrev pub ten_seconds : ℕ
ten_seconds = 10000000000

unfoldable pub new_breaker : BreakerConfig → Breaker
new_breaker c = record {
  failure_ratio = c.failure_ratio;
  min_requests = if is_positive c.min_requests then pos_part c.min_requests else 20;
  open_for = if is_positive c.open_for then pos_part c.open_for else ten_seconds;
  state = state_closed;
  successes = 0;
  failures = 0;
  opened_at = 0;
  probing = false;
  on_change = c.on_change;
  changes = [];
}

abbrev pub same_state : State → State → Bool
same_state state_closed state_closed = true
same_state state_open state_open = true
same_state state_half_open state_half_open = true
same_state _ _ = false

unfoldable pub set_state : State → Breaker → Breaker
set_state s b =
    if same_state b.state s
    then b
    else record b { state = s; changes = if b.on_change then s ∷ b.changes else b.changes }

abbrev is_open : State → Bool
is_open state_open = true
is_open _ = false

unfoldable pub maybe_half_open : ℕ → Breaker → Breaker
unfolding set_state
maybe_half_open now b =
    if is_open b.state && leb (b.opened_at + b.open_for) now
    then record (set_state state_half_open b) { probing = false }
    else b

-- The closure that Allow returns, to be called with the outcome.
pub data Done : Type 0 where
  done_nothing done_report done_probe : Done

-- The switch of Allow on the state; `none` is ErrBreakerOpen.
abbrev admit : State → Breaker → Breaker × Option Done
admit state_open b = (b, none)
admit state_half_open b =
    if b.probing then (b, none) else (record b { probing = true }, some done_probe)
admit state_closed b = (b, some done_report)

unfoldable pub allow : ℕ → Breaker → Breaker × Option Done
unfolding maybe_half_open
allow now b =
    if is_positive b.failure_ratio.num
    then (let b' = maybe_half_open now b in admit b'.state b')
    else (b, some done_nothing)

-- The methods on a pointer that may be nil.
unfoldable pub allow_ptr : ℕ → Option Breaker → Option Breaker × Option Done
unfolding allow
allow_ptr now none = (none, some done_nothing)
allow_ptr now (some b) = let (b', done) = allow now b in (some b', done)

unfoldable pub state_ptr : ℕ → Option Breaker → Option Breaker × State
unfolding maybe_half_open
state_ptr now none = (none, state_closed)
state_ptr now (some b) = let b' = maybe_half_open now b in (some b', b'.state)

unfoldable pub trip : ℕ → Breaker → Breaker
unfolding set_state
trip now b = set_state state_open (record b { opened_at = now; successes = 0; failures = 0 })

abbrev count_outcome : Bool → Breaker → Breaker
count_outcome true b = record b { successes = b.successes + 1 }
count_outcome false b = record b { failures = b.failures + 1 }

-- The rest of `report`, once the outcome is counted.
judge : ℕ → ℕ → Breaker → Breaker
unfolding trip
judge now total b =
    if ltb total b.min_requests
    then b
    else if reaches b.failures total b.failure_ratio
    then trip now b
    else if leb (b.min_requests * 2) total
    then record b { successes = 0; failures = 0 }
    else b

unfoldable pub report : ℕ → Bool → Breaker → Breaker
unfolding judge
report now success b = let b' = count_outcome success b in judge now (b'.successes + b'.failures) b'

unfoldable pub report_probe : ℕ → Bool → Breaker → Breaker
unfolding set_state trip
report_probe now success b =
    let b' = record b { probing = false } in
    if success
    then set_state state_closed (record b' { successes = 0; failures = 0 })
    else trip now b'

-- A call of the closure that Allow returned.
unfoldable pub finish : Done → ℕ → Bool → Breaker → Breaker
unfolding report report_probe
finish done_nothing now success b = b
finish done_report now success b = report now success b
finish done_probe now success b = report_probe now success b
