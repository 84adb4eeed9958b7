-- ===== src/Store/Metering.antt =====
-- The sliding window of one key.
use native.Mathlib.Nat.{div-add-mod, mod-lt, div-lt_iff_lt-mul, zero-div}
use nina.Prelude.{
  ℕ, zero, suc, ◌+◌, ◌-◌, ◌*◌, ◌/◌, ◌%◌, ◌<◌, ◌≤◌, ◌≡◌, inl, inr, refl, Bool, true, false, arith,
  List, [], ◌∷◌, Str, some, leb, if◌then◌else◌, Bool-cases,
}
use Prim.Native.Nat.{min}
use nina.Store.{
  Window, Decision, roll, estimate, decide, meter, RedisData, counter_at, previous_at,
  sliding_window, read_reply,
}

-- Neither counter of a window passes the limit.
abbrev pub IsBounded : ℕ → Window → Type 0
IsBounded limit w = (w.count ≤ limit) × (w.prev ≤ limit)

-- Whatever the times of its requests, a key's window never counts more than the limit.
pub meter-IsBounded :
    (now limit dur : ℕ) (w : Window) → IsBounded limit w → IsBounded limit (meter now limit dur w).0
unfolding meter
meter-IsBounded now limit dur w b = ground arith

-- A full count of the window before has faded below the limit once part of the window is over.
fading-lt : (c l limit dur : ℕ) → c ≤ limit → l < dur → 0 < limit → c * l / dur < limit
fading-lt c l limit dur h k p =
    let below : c * l < limit * dur = grind arith in
    let ordered : 0 < dur = omega arith in (div-lt_iff_lt-mul ordered).1 below

meter_waited :
    (later limit dur : ℕ) (v : Window)
    → 0 < limit
    → 0 < dur
    → IsBounded limit v
    → v.start + dur < later
    → (meter later limit dur v).1.allowed ≡ true
unfolding meter
meter_waited later limit dur v p q b h =
    ground (arith, fading-lt v.count (v.start + dur + dur - later) limit dur, zero-div dur)

refused_until :
    (now limit dur : ℕ) (w : Window)
    → (meter now limit dur w).1.allowed ≡ false
    → (later : ℕ) → now + (meter now limit dur w).1.retry_after < later
    → (meter now limit dur w).0.start + dur < later
unfolding meter
refused_until now limit dur w refused later late = ground arith

-- A refused request of a window within bounds leaves the window as it was rolled, and names a time
-- past which, if no other request of the key comes first, a request is allowed.
pub meter_retry :
    (now later limit dur : ℕ) (w : Window)
    → 0 < limit
    → 0 < dur
    → IsBounded limit w
    → (meter now limit dur w).1.allowed ≡ false
    → now + (meter now limit dur w).1.retry_after < later
    → (meter later limit dur (meter now limit dur w).0).1.allowed ≡ true
meter_retry now later limit dur w p q b refused late =
    meter_waited later limit dur (meter now limit dur w).0 p q (meter-IsBounded now limit dur w b)
      (refused_until now limit dur w refused later late)

-- The number of requests that are allowed, of `n` at one instant.
unfoldable pub allowed_of : ℕ → ℕ → ℕ → ℕ → Window → ℕ
allowed_of zero now limit dur w = 0
allowed_of (suc n) now limit dur w =
    let (w', d) = meter now limit dur w in
    let rest = allowed_of n now limit dur w' in if d.allowed then suc rest else rest

-- A window that is rolled already stays as it is.
IsCurrent : ℕ → ℕ → Window → Type 0
IsCurrent now dur w = now < w.start + dur

meter_current :
    (now limit dur : ℕ) (w : Window)
    → IsCurrent now dur w
    → meter now limit dur w ≡ decide now limit dur w
unfolding meter IsCurrent
meter_current now limit dur w c = ground arith

decide_full :
    (now limit dur : ℕ) (w : Window)
    → leb limit (estimate now dur w) ≡ true
    → ((decide now limit dur w).0 ≡ w) × ((decide now limit dur w).1.allowed ≡ false)
unfolding decide
decide_full now limit dur w full = rw full (refl, refl)

decide_room :
    (now limit dur : ℕ) (w : Window)
    → leb limit (estimate now dur w) ≡ false
    → ((decide now limit dur w).0 ≡ record w { count = w.count + 1 })
      × ((decide now limit dur w).1.allowed ≡ true)
unfolding decide
decide_room now limit dur w room = rw room (refl, refl)

allowed_of_current :
    (n now limit dur : ℕ) (w : Window)
    → IsCurrent now dur w
    → allowed_of n now limit dur w ≡ min n (limit - estimate now dur w)
unfolding allowed_of IsCurrent
allowed_of_current zero now limit dur w c = omega arith
allowed_of_current (suc n) now limit dur w c =
    rw (meter_current now limit dur w c) (elim (Bool-cases (leb limit (estimate now dur w))) [
      | inl full ↦
          let (same, refused) = decide_full now limit dur w full in
          rw (refused, same) (ground (arith, allowed_of_current n now limit dur w c))
      | inr room ↦
          let (more, passed) = decide_room now limit dur w room in
          rw (passed, more)
            (ground
              (arith, allowed_of_current n now limit dur (record w { count = w.count + 1 }) c))
    ])

roll-IsCurrent : (now dur : ℕ) (w : Window) → 0 < dur → IsCurrent now dur (roll now dur w)
unfolding roll IsCurrent
roll-IsCurrent now dur w p = ground arith

-- Of any number of requests of one key at one instant, exactly those are allowed that fit between
-- the estimate of the rolled window and the limit.
pub allowed_of_burst :
    (n now limit dur : ℕ) (w : Window)
    → 0 < dur
    → allowed_of n now limit dur (roll now dur w)
      ≡ min n (limit - estimate now dur (roll now dur w))
allowed_of_burst n now limit dur w p =
    allowed_of_current n now limit dur (roll now dur w) (roll-IsCurrent now dur w p)

-- The script's counters as a window that starts at its bucket.
abbrev pub bucket_window : Str → ℕ → ℕ → RedisData → Window
bucket_window key dur now db = record {
  start = now / dur * dur;
  count = counter_at now key (now / dur) db;
  prev = previous_at now key (now / dur) db;
}

-- A decision as the script writes it.
abbrev reply_of : Decision → List ℕ
reply_of d = if d.allowed then 1 ∷ d.remaining ∷ 0 ∷ [] else 0 ∷ 0 ∷ d.retry_after ∷ []

left-eq : (now dur : ℕ) → 0 < dur → dur - now % dur ≡ now / dur * dur + dur - now
left-eq now dur p = omega (arith, div-add-mod now dur, mod-lt now p)

sliding_window-reply :
    (key : Str) (limit dur now : ℕ) (db : RedisData)
    → 0 < dur
    → (sliding_window key limit dur now db).1
      ≡ reply_of (decide now limit dur (bucket_window key dur now db)).1
unfolding sliding_window decide
sliding_window-reply key limit dur now db p =
    rw (left-eq now dur p) (ground (arith, div-add-mod now dur, mod-lt now p))

read_reply-decide :
    (fail_open : Bool) (now limit dur : ℕ) (w : Window)
    → let d = (decide now limit dur w).1 in
      let (reply, err) = read_reply fail_open limit (some (reply_of d)) in
      (err ≡ false)
      × (reply.allowed ≡ d.allowed)
      × (reply.limit ≡ d.limit)
      × (reply.remaining ≡ d.remaining)
      × (reply.retry_after ≡ d.retry_after * 1000000)
unfolding read_reply decide
read_reply-decide true now limit dur w = ground arith
read_reply-decide false now limit dur w = ground arith

-- The script's reply, read by RedisLimiter, is the decision of the memory limiter on a window that
-- holds the script's two counters and starts at the script's bucket; the times are in milliseconds
-- there and in nanoseconds in the reply.
pub sliding_window-decide :
    (key : Str) (limit dur now : ℕ) (db : RedisData) (fail_open : Bool)
    → 0 < dur
    → let d = (decide now limit dur (bucket_window key dur now db)).1 in
      let (reply, err) =
        read_reply fail_open limit (some (sliding_window key limit dur now db).1) in
      (err ≡ false)
      × (reply.allowed ≡ d.allowed)
      × (reply.limit ≡ d.limit)
      × (reply.remaining ≡ d.remaining)
      × (reply.retry_after ≡ d.retry_after * 1000000)
sliding_window-decide key limit dur now db fail_open p =
    rw (sliding_window-reply key limit dur now db p)
      (read_reply-decide fail_open now limit dur (bucket_window key dur now db))
