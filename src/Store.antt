-- ===== src/Store.antt =====
-- internal/store/store.go. Times and durations are nanoseconds, and the redis script's are
-- milliseconds. A `*window` is an address in a heap of windows, since Allow changes it in place.
-- float64 estimates are exact: `int(prev*frac + count)` is `prev * left / dur + count`.
pub mod Metering
pub mod Sharing
mod Scenarios
use nina.Prelude.Map.{Map, lookup, insert}
use nina.Prelude.{
  ℕ, suc, ◌+◌, ◌-◌, ◌*◌, ◌/◌, ◌%◌, Bool, true, false, Option, none, some, List, [], ◌∷◌, ltb, leb,
  nat_beq, ◌==◌, if◌then◌else◌, Eq, Str, lit, str_eq, same_str, ℤ, pos, is_positive, pos_part, ◌||◌,
  ◌&&◌, zero, ◌&&◌, zero,
}
use nina.Lru.{Lru}

pub record Decision : Type 0 where
  pub allowed : Bool
  pub limit : ℕ
  pub remaining : ℕ
  pub retry_after : ℕ
  pub degraded : Bool

pub record Window : Type 0 where
  pub start : ℕ
  pub count : ℕ
  pub prev : ℕ

-- The switch that rolls the window forward.
unfoldable pub roll : ℕ → ℕ → Window → Window
roll now dur w =
    if leb (w.start + 2 * dur) now
    then record { start = now; count = 0; prev = 0 }
    else if leb (w.start + dur) now
    then record { start = w.start + dur; count = 0; prev = w.count }
    else w

-- The time that is left of the window, 0 where it is over: the numerator of `frac`. If another
-- request has opened the window since `now` was read, it is more than the window's length.
abbrev pub left_of : ℕ → ℕ → Window → ℕ
left_of now dur w = w.start + dur - now

abbrev pub estimate : ℕ → ℕ → Window → ℕ
estimate now dur w = w.prev * left_of now dur w / dur + w.count

-- The rest of Allow, once the window is rolled.
unfoldable pub decide : ℕ → ℕ → ℕ → Window → Window × Decision
decide now limit dur w =
    let est = estimate now dur w in
    if leb limit est
    then (
      w,
      record {
        allowed = false;
        limit = limit;
        remaining = 0;
        retry_after = if leb now (w.start + dur) then w.start + dur - now else dur;
        degraded = false;
      },
    )
    else (
      record w { count = w.count + 1 },
      record {
        allowed = true;
        limit = limit;
        remaining = limit - est - 1;
        retry_after = 0;
        degraded = false;
      },
    )

-- What Allow does to the window of its key.
unfoldable pub meter : ℕ → ℕ → ℕ → Window → Window × Decision
unfolding roll decide
meter now limit dur w = decide now limit dur (roll now dur w)

abbrev pub store_window : ℕ → Window → (ℕ → Window) → ℕ → Window
store_window p w heap q = if nat_beq p q then w else heap q

module _ (lru : Lru ℕ) where
  open lru use {Cache}

  -- The limiter: addresses by key, the windows that they stand for, and the next free address.
  pub record MemoryLimiter : Type 0 where
    pub cache : Cache
    pub heap : ℕ → Window
    pub next : ℕ

  unfoldable pub new_memory_limiter : ℤ → MemoryLimiter
  new_memory_limiter max_keys = record {
    cache = lru.new (if is_positive max_keys then pos_part max_keys else 100000);
    heap = λ p. record { start = 0; count = 0; prev = 0 };
    next = 0;
  }

  -- The window of the key, made afresh if the cache does not have it.
  abbrev pub window_of : ℕ → Str → MemoryLimiter → Option ℕ → MemoryLimiter × ℕ
  window_of now key m (some p) = (m, p)
  window_of now key m none = (
    record m {
      cache = lru.add key m.next m.cache;
      heap = store_window m.next (record { start = now; count = 0; prev = 0 }) m.heap;
      next = m.next + 1;
    },
    m.next,
  )

  abbrev finish_allow : ℕ → ℕ → ℕ → MemoryLimiter × ℕ → MemoryLimiter × Decision
  finish_allow now limit dur (m, p) =
      let (w, d) = meter now limit dur (m.heap p) in
      (record m { heap = store_window p w m.heap }, d)

  unfoldable pub allow : ℕ → Str → ℕ → ℕ → MemoryLimiter → MemoryLimiter × Decision
  allow now key limit dur m =
      let (cache, found) = lru.get key m.cache in
      finish_allow now limit dur (window_of now key (record m { cache = cache }) found)

-- The keys that the script builds: the limiter's key with a bucket.
pub record BucketKey : Type 0 where
  pub key : Str
  pub bucket : ℕ

abbrev same_bucket : BucketKey → BucketKey → Bool
same_bucket a b = same_str a.key b.key && nat_beq a.bucket b.bucket

-- What redis holds of them: a counter and the time at which it expires, in milliseconds.
pub record Counter : Type 0 where
  pub value : ℕ
  pub expires : Option ℕ

abbrev RedisData : Type 0
RedisData = BucketKey → Option Counter

abbrev live : ℕ → Option Counter → ℕ
live now none = 0
live now (some c) = elim c.expires [ none ↦ c.value | some t ↦ if ltb now t then c.value else 0 ]

-- redis GET of a counter, 0 where it is missing.
unfoldable pub counter_at : ℕ → Str → ℕ → RedisData → ℕ
counter_at now key bucket db = live now (db (record { key = key; bucket = bucket }))

-- INCR and PEXPIRE: the counter goes up by one and lives for two windows from now.
unfoldable pub bump : ℕ → Str → ℕ → ℕ → RedisData → RedisData
unfolding counter_at
bump now key bucket window db b =
    if same_bucket (record { key = key; bucket = bucket }) b
    then some
        (record { value = counter_at now key bucket db + 1; expires = some (now + window * 2) })
    else db b

-- The counter of the bucket before; before the first one there is none.
abbrev pub previous_at : ℕ → Str → ℕ → RedisData → ℕ
previous_at now key zero db = 0
previous_at now key (suc b) db = counter_at now key b db

-- The Lua script of `slidingWindow`.
unfoldable pub sliding_window : Str → ℕ → ℕ → ℕ → RedisData → RedisData × List ℕ
sliding_window key limit window now db =
    let bucket = now / window in
    let elapsed = now % window in
    let cur = counter_at now key bucket db in
    let est = previous_at now key bucket db * (window - elapsed) / window + cur in
    if leb limit est
    then (db, 0 ∷ 0 ∷ (window - elapsed) ∷ [])
    else (bump now key bucket window db, 1 ∷ (limit - est - 1) ∷ 0 ∷ [])

-- What RedisLimiter.Allow makes of the script's reply, in nanoseconds; `none` is an error of the
-- client, and the second component tells whether Allow returns an error.
unfoldable pub read_reply : Bool → ℕ → Option (List ℕ) → Decision × Bool
read_reply true limit none = (
  record { allowed = true; limit = limit; remaining = limit; retry_after = 0; degraded = true },
  false,
)
read_reply false limit none =
    (record { allowed = false; limit = 0; remaining = 0; retry_after = 0; degraded = true }, true)
read_reply fail_open limit (some (ok ∷ left ∷ wait ∷ more)) = (
  record {
    allowed = nat_beq ok 1;
    limit = limit;
    remaining = left;
    retry_after = wait * 1000000;
    degraded = false;
  },
  false,
)
read_reply fail_open limit (some short) = (
  record { allowed = true; limit = limit; remaining = 0; retry_after = 0; degraded = true },
  false,
)

-- Registry: the memory limiters by name, and whether a redis client is configured.
pub record Registry (L : Type 0) : Type 0 where
  pub redis : Bool
  pub mem_limiters : Map Str L

-- What Limiter returns; a memory limiter is shared by reference.
pub data Limiter (L : Type 0) : Type 0 where
  memory : L → Limiter L
  redis_limiter : Bool → Limiter L
  err_no_redis : Limiter L
  err_unknown_store : Limiter L

module _ {L : Type 0} where
  abbrev shared_limiter : Str → L → Registry L → Option L → Registry L × Limiter L
  shared_limiter name fresh r (some l) = (r, memory l)
  shared_limiter name fresh r none =
      (record r { mem_limiters = insert name fresh r.mem_limiters }, memory fresh)

  -- `fresh` is the limiter that NewMemoryLimiter makes, if it is called.
  unfoldable pub limiter : Str → Str → Bool → L → Registry L → Registry L × Limiter L
  limiter name store fail_open fresh r =
      if store == [] || store == lit "memory"
      then shared_limiter name fresh r (lookup name r.mem_limiters)
      else if store == lit "redis"
      then (r, if r.redis then redis_limiter fail_open else err_no_redis)
      else (r, err_unknown_store)
