-- ===== src/Runtime.antt =====
-- internal/runtime/build.go: the life of a Runtime from its first request to its close. Each atomic
-- operation is a step of its own, so that the requests and the goroutine that retires the runtime
-- interleave as they may; the numbers of requests between two operations are part of the state.
pub mod Draining
pub mod Substitution
pub mod Preflight
pub mod Terminal
pub mod Assembly
mod Scenarios
use nina.Prelude.{ℕ, ◌+◌, ◌-◌, ◌<◌, ◌≡◌, Bool, true, false, ◌||◌, nat_beq, if◌then◌else◌}

-- Where the call of Retire is.
pub data Phase : Type 0 where
  in_use : Phase
  -- `retired` is stored, `refs` is not looked at yet.
  retiring : Phase
  draining : Phase
  finished : Phase

pub record Life : Type 0 where
  -- atomic.Int64 and atomic.Bool
  pub refs : ℕ
  pub retired : Bool
  -- Whether the sync.Once of close has run.
  pub closed : Bool
  pub phase : Phase
  -- Requests in Acquire: after the addition, and after they have read that it is retired.
  pub entering : ℕ
  pub refusing : ℕ
  -- Requests that hold the runtime.
  pub serving : ℕ
  -- Calls of Release that have counted down to 0 and not read `retired` yet.
  pub leaving : ℕ
  -- Whether the grace period ended before the requests did.
  pub expired : Bool

abbrev pub fresh : Life
fresh = record {
  refs = 0;
  retired = false;
  closed = false;
  phase = in_use;
  entering = 0;
  refusing = 0;
  serving = 0;
  leaving = 0;
  expired = false;
}

-- Acquire: refs.Add(1)
unfoldable pub acquire_add : Life → Life
acquire_add l = record l { refs = l.refs + 1; entering = l.entering + 1 }

-- Acquire: retired.Load()
unfoldable pub acquire_load : Life → Life
acquire_load l =
    if l.retired
    then record l { entering = l.entering - 1; refusing = l.refusing + 1 }
    else record l { entering = l.entering - 1; serving = l.serving + 1 }

-- Release: refs.Add(-1) == 0
abbrev release_add : Life → Life
release_add l = record l {
  refs = l.refs - 1;
  leaving = if nat_beq (l.refs - 1) 0 then l.leaving + 1 else l.leaving;
}

-- Release of a request that is done, and that of an Acquire which has failed.
unfoldable pub release_served : Life → Life
release_served l = release_add (record l { serving = l.serving - 1 })

unfoldable pub release_refused : Life → Life
release_refused l = release_add (record l { refusing = l.refusing - 1 })

-- Release: retired.Load(), and close.
unfoldable pub release_load : Life → Life
release_load l = record l { leaving = l.leaving - 1; closed = l.closed || l.retired }

-- Retire: retired.Store(true)
unfoldable pub retire_store : Life → Life
retire_store l = record l { retired = true; phase = retiring }

abbrev closing : Life → Life
closing l = record l { closed = true; phase = finished }

-- Retire: refs.Load() == 0
unfoldable pub retire_load : Life → Life
retire_load l = if nat_beq l.refs 0 then closing l else record l { phase = draining }

-- The goroutine of Retire, at a tick and at the deadline.
unfoldable pub drain_tick : Life → Life
drain_tick l = if nat_beq l.refs 0 then closing l else l

unfoldable pub drain_deadline : Life → Life
drain_deadline l = record (closing l) { expired = true }

-- One atomic operation. `Calm` says in which states Retire may begin.
pub data Step (Calm : Life → Type 0) : Life → Life → Type 0 where
  add : (l : Life) → Step Calm l (acquire_add l)
  load : (l : Life) → 0 < l.entering → Step Calm l (acquire_load l)
  release : (l : Life) → 0 < l.serving → Step Calm l (release_served l)
  refuse : (l : Life) → 0 < l.refusing → Step Calm l (release_refused l)
  leave : (l : Life) → 0 < l.leaving → Step Calm l (release_load l)
  retire : (l : Life) → l.phase ≡ in_use → Calm l → Step Calm l (retire_store l)
  look : (l : Life) → l.phase ≡ retiring → Step Calm l (retire_load l)
  tick : (l : Life) → l.phase ≡ draining → Step Calm l (drain_tick l)
  deadline : (l : Life) → l.phase ≡ draining → Step Calm l (drain_deadline l)

pub data Reach (Calm : Life → Type 0) : Life → Type 0 where
  begin : Reach Calm fresh
  next : {l m : Life} → Reach Calm l → Step Calm l m → Reach Calm m
