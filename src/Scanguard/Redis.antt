-- ===== src/Scanguard/Redis.antt =====
-- internal/scanguard/redis.go: the store that gateways share. Each call is one step at a time of the
-- clock, which redis and the gateway read alike; redis counts in milliseconds. A stored ban is kept as
-- the record that its JSON stands for, and Lua's numbers are exact, as they are below 2^53. What the
-- documentation of redis says of INCR and PEXPIRE is written out.
pub mod Banning
use nina.Prelude.{
  ℕ, zero, suc, ◌+◌, ◌-◌, ◌*◌, ◌/◌, Bool, true, false, ◌&&◌, Option, none, some, List, [], ◌∷◌,
  ◌++◌, ltb, leb, nat_beq, if◌then◌else◌, Str, lit, str_eq, sort_by,
}
use nina.Prelude.Map.{Map, lookup, insert, remove}
use nina.Scanguard.Memory.{Reason, Ban}
use nina.Scanguard.Guard.{Store}

-- redisKey
abbrev pub redis_key : Str → Str → Str
redis_key client kind = lit "nina:sg:{" ++ client ++ lit "}:" ++ kind

-- A counter with the time at which it expires, if it has one.
abbrev pub Expiring : Type 0
Expiring = ℕ × Option ℕ

-- What redis holds, by the last part of its keys; a ban always expires.
pub record Db : Type 0 where
  pub bans : Map Str (Ban × ℕ)
  pub strikes : Map Str Expiring
  pub misses : Map Str Expiring

abbrev pub alive : ℕ → Option Expiring → Option Expiring
alive at none = none
alive at (some (n, none)) = some (n, none)
alive at (some (n, some e)) = if ltb at e then some (n, some e) else none

abbrev pub count_of : Option Expiring → ℕ
count_of none = 0
count_of (some (n, e)) = n

abbrev pub expiry_of : Option Expiring → Option ℕ
expiry_of none = none
expiry_of (some (n, e)) = e

-- INCR, which starts at 0 and keeps the time of expiry.
unfoldable pub incr : ℕ → Str → Map Str Expiring → Map Str Expiring × ℕ
incr at key m =
    let c = alive at (lookup key m) in (insert key (count_of c + 1, expiry_of c) m, count_of c + 1)

abbrev pub expire_at : Str → ℕ → Map Str Expiring → Option Expiring → Map Str Expiring
expire_at key e m none = m
expire_at key e m (some (n, old)) = insert key (n, some e) m

-- PEXPIRE, which deletes the key where the time is 0.
unfoldable pub pexpire : ℕ → Str → ℕ → Map Str Expiring → Map Str Expiring
pexpire at key ms m =
    if nat_beq ms 0 then remove key m else expire_at key (at + ms) m (alive at (lookup key m))

-- missScript
unfoldable pub miss_script : ℕ → Str → ℕ → Map Str Expiring → Map Str Expiring × ℕ
miss_script at key window m =
    let (counted, n) = incr at key m in
    (if nat_beq n 1 then pexpire at key window counted else counted, n)

-- The loop of banScript, with the rounds that are left of it.
unfoldable pub doubled_until : ℕ → ℕ → ℕ → ℕ
doubled_until zero len longest = len
doubled_until (suc rounds) len longest =
    if leb longest len then len else doubled_until rounds (len * 2) longest

unfoldable pub script_length : ℕ → ℕ → ℕ → ℕ
script_length strikes base longest =
    let len = doubled_until (strikes - 1) base longest in if ltb longest len then longest else len

abbrev pub scripted_ban : ℕ → Str → Reason → Str → ℕ → ℕ → Ban
scripted_ban now client reason path strikes len = record {
  client = client;
  reason = reason;
  path = path;
  strikes = strikes;
  since = now;
  until = now + len;
}

-- SET and DEL, where redis holds the strikes already.
abbrev pub with_ban : ℕ → Ban → ℕ → Map Str Expiring → Db → Db
with_ban at b len strikes db = record {
  bans = insert (redis_key b.client (lit "ban")) (b, at + len) db.bans;
  strikes = strikes;
  misses = remove (redis_key b.client (lit "miss")) db.misses;
}

-- From the length of a ban on; SET fails where the length is 0, and leaves the strikes as they are by
-- then.
abbrev pub set_ban : ℕ → Ban → ℕ → ℕ → Map Str Expiring → Db → Db × Option Ban
set_ban at b len longest counted db =
    let strikes = pexpire at (redis_key b.client (lit "strikes")) (len + longest) counted in
    if nat_beq len 0
    then (record db { strikes = strikes }, none)
    else (with_ban at b len strikes db, some b)

-- banScript
unfoldable pub ban_script : ℕ → Str → Reason → Str → ℕ → ℕ → Db → Db × Option Ban
ban_script at client reason path base longest db =
    let (counted, strikes) = incr at (redis_key client (lit "strikes")) db.strikes in
    let len = script_length strikes base longest in
    set_ban at (scripted_ban at client reason path strikes len) len longest counted db

abbrev pub million : ℕ
million = 1000000

-- redisBan.ban
abbrev pub ban_of_redis : Ban → Ban
ban_of_redis b = record b { since = b.since * million; until = b.until * million }

abbrev pub ban_of_reply : Option Ban → Option Ban
ban_of_reply none = none
ban_of_reply (some b) = some (ban_of_redis b)

abbrev pub ttl : ℕ → Option (Ban × ℕ) → ℕ
ttl at none = 0
ttl at (some (b, e)) = e - at

-- BannedFor: PTTL is negative where there is no such key.
unfoldable pub redis_banned_for : ℕ → Str → Db → ℕ
redis_banned_for now key db =
    ttl (now / million) (lookup (redis_key key (lit "ban")) db.bans) * million

-- Miss
unfoldable pub redis_miss : ℕ → Str → ℕ → Db → Db × ℕ
redis_miss now key window db =
    let (misses, n) =
      miss_script (now / million) (redis_key key (lit "miss")) (window / million) db.misses in
    (record db { misses = misses }, n)

-- Ban
unfoldable pub redis_ban : ℕ → Str → Reason → Str → ℕ → ℕ → Db → Db × Option Ban
redis_ban now client reason path base longest db =
    let (after, reply) =
      ban_script (now / million) client reason path (base / million) (longest / million) db in
    (after, ban_of_reply reply)

-- Unban
unfoldable pub redis_unban : ℕ → Str → Db → Db × Bool
redis_unban now key db = (
  record {
    bans = remove (redis_key key (lit "ban")) db.bans;
    strikes = remove (redis_key key (lit "strikes")) db.strikes;
    misses = remove (redis_key key (lit "miss")) db.misses;
  },
  ltb 0 (ttl (now / million) (lookup (redis_key key (lit "ban")) db.bans)),
)

-- The bans that are there and in force, in any order of SCAN; here in that of the map.
abbrev pub live_bans : ℕ → Map Str (Ban × ℕ) → List Ban
live_bans at [] = []
live_bans at ((key, (b, e)) ∷ rest) =
    if ltb at e && ltb at b.until then ban_of_redis b ∷ live_bans at rest else live_bans at rest

-- List: the latest first.
unfoldable pub redis_list_bans : ℕ → Db → List Ban
redis_list_bans now db = sort_by (λ a b. ltb b.since a.since) (live_bans (now / million) db.bans)

abbrev pub unless_down : {A : Type 0} → Bool → Db → Db × Option A → Db × Option A
unless_down false db answer = (db, none)
unless_down true db answer = answer

-- The redis store as a Store. `up` is whether redis answers at a time.
abbrev pub redis_store : (ℕ → Bool) → Store
redis_store up = record {
  State = Db;
  banned_for = λ now k db. unless_down (up now) db (db, some (redis_banned_for now k db));
  miss = λ now k window db.
      let (after, n) = redis_miss now k window db in unless_down (up now) db (after, some n);
  ban = λ now k reason path base longest db.
      unless_down (up now) db (redis_ban now k reason path base longest db);
  unban = λ now k db.
      let (after, was) = redis_unban now k db in unless_down (up now) db (after, some was);
}
