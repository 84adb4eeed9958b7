-- ===== src/Scanguard/Memory.antt =====
-- internal/scanguard/memory.go. Each method is one step under the mutex, with the clock's value as
-- `now`. A miss window is held by reference; bans and strikes are values.
pub mod Banning
use nina.Prelude.{
  ℕ, zero, suc, ◌+◌, ◌-◌, Bool, true, false, not, ◌&&◌, Option, none, some, List, [], ◌∷◌, ltb, leb,
  nat_beq, if◌then◌else◌, Str, sort_by,
}
use nina.Lru.{Lru}
use nina.Scanguard.Lengths.{ban_length}

pub data Reason : Type 0 where
  reason_trap reason_threshold : Reason

pub record Ban : Type 0 where
  pub client : Str
  pub reason : Reason
  pub path : Str
  pub strikes : ℕ
  pub since : ℕ
  pub until : ℕ

pub record MissWindow : Type 0 where
  pub start : ℕ
  pub count : ℕ

pub record Strike : Type 0 where
  pub count : ℕ
  pub expires : ℕ

abbrev pub store_at : ℕ → MissWindow → (ℕ → MissWindow) → ℕ → MissWindow
store_at p w heap q = if nat_beq p q then w else heap q

-- The strikes that still count.
unfoldable pub live_strikes : ℕ → Option Strike → ℕ
live_strikes now none = 0
live_strikes now (some s) = if ltb now s.expires then s.count else 0

abbrev pub is_stale : ℕ → ℕ → MissWindow → Bool
is_stale now window w = leb (w.start + window) now

abbrev pub in_force : ℕ → Option Ban → List Ban → List Ban
in_force now none rest = rest
in_force now (some b) rest = if ltb now b.until then b ∷ rest else rest

abbrev pub is_in_force : ℕ → Option Ban → Bool
is_in_force now none = false
is_in_force now (some b) = ltb now b.until

module _ (ms : Lru ℕ) (bs : Lru Ban) (ss : Lru Strike) where
  -- The misses are addresses of windows; `next` is the next free one.
  pub record MemoryStore : Type 0 where
    pub misses : ms.Cache
    pub heap : ℕ → MissWindow
    pub next : ℕ
    pub bans : bs.Cache
    pub strikes : ss.Cache

  unfoldable pub new_memory_store : MemoryStore
  new_memory_store = record {
    misses = ms.new 100000;
    heap = λ p. record { start = 0; count = 0 };
    next = 0;
    bans = bs.new 100000;
    strikes = ss.new 100000;
  }

  abbrev pub time_left : ℕ → Str → MemoryStore → Option Ban → MemoryStore × ℕ
  time_left now key m none = (m, 0)
  time_left now key m (some b) =
      if leb b.until now then (record m { bans = bs.remove key m.bans }, 0) else (m, b.until - now)

  unfoldable pub banned_for : ℕ → Str → MemoryStore → MemoryStore × ℕ
  banned_for now key m = time_left now key m (bs.peek key m.bans)

  abbrev pub fresh_window : ℕ → Str → MemoryStore → MemoryStore × ℕ
  fresh_window now key m = (
    record m {
      misses = ms.add key m.next m.misses;
      heap = store_at m.next (record { start = now; count = 0 }) m.heap;
      next = m.next + 1;
    },
    m.next,
  )

  -- The window that a miss counts in: the key's own, if it has not passed.
  abbrev pub miss_window : ℕ → Str → ℕ → MemoryStore → Option ℕ → MemoryStore × ℕ
  miss_window now key window m none = fresh_window now key m
  miss_window now key window m (some p) =
      if is_stale now window (m.heap p) then fresh_window now key m else (m, p)

  abbrev pub count_miss : MemoryStore × ℕ → MemoryStore × ℕ
  count_miss (m, p) =
      let w = m.heap p in
      (record m { heap = store_at p (record w { count = w.count + 1 }) m.heap }, w.count + 1)

  unfoldable pub record_miss : ℕ → Str → ℕ → MemoryStore → MemoryStore × ℕ
  record_miss now key window m =
      let (misses, found) = ms.get key m.misses in
      count_miss (miss_window now key window (record m { misses = misses }) found)

  -- Ban, with the client, the reason and the path of the ban that is passed in.
  unfoldable pub impose : ℕ → Str → Reason → Str → ℕ → ℕ → MemoryStore → MemoryStore × Ban
  impose now client reason path base longest m =
      let (strikes, found) = ss.get client m.strikes in
      let count = live_strikes now found + 1 in
      let until = now + ban_length count base longest in
      let b : Ban = record {
        client = client;
        reason = reason;
        path = path;
        strikes = count;
        since = now;
        until = until;
      } in
      (
        record m {
          strikes = ss.add client (record { count = count; expires = until + longest }) strikes;
          bans = bs.add client b m.bans;
          misses = ms.remove client m.misses;
        },
        b,
      )

  unfoldable pub unban : ℕ → Str → MemoryStore → MemoryStore × Bool
  unban now key m = (
    record m {
      strikes = ss.remove key m.strikes;
      misses = ms.remove key m.misses;
      bans = bs.remove key m.bans;
    },
    is_in_force now (bs.peek key m.bans),
  )

  abbrev pub bans_of : ℕ → List Str → bs.Cache → List Ban
  bans_of now [] c = []
  bans_of now (k ∷ ks) c = in_force now (bs.peek k c) (bans_of now ks c)

  -- List: the bans in force, the latest first.
  unfoldable pub list_bans : ℕ → MemoryStore → List Ban
  list_bans now m = sort_by (λ a b. ltb b.since a.since) (bans_of now (bs.keys m.bans) m.bans)
