-- ===== src/Scanguard/Redis/Banning.antt =====
-- A ban of the shared store, as long as the in-process one's.
use Prim.Native.Nat.{min}
use native.Mathlib.Nat.{mul_assoc, mul_comm, pow-suc}
use nina.Prelude.{
  ℕ, zero, suc, ◌+◌, ◌-◌, ◌*◌, ◌/◌, ◌^◌, ◌≤◌, ◌≡◌, ◌∙◌, inl, inr, refl, sym, ap, subst, true, false,
  Option, none, some, arith, ltb, leb, if◌then◌else◌, Str, lit, str_eq, same_str_refl, Bool-cases,
  nat_beq, is_some,
}
use nina.Prelude.Map.{Map, lookup, insert, remove, lookup-insert, lookup-remove}
use nina.Scanguard.Lengths.{pow_pos, le-mul}
use nina.Scanguard.Memory.{Reason, Ban}
use nina.Scanguard.Redis.{
  Db, Expiring, redis_key, alive, count_of, expiry_of, incr, with_ban, scripted_ban, ban_of_reply,
  pexpire, expire_at, doubled_until, script_length, set_ban, ban_script, million, ttl,
  redis_banned_for, redis_ban,
}

doubled_until-min :
    (rounds len longest : ℕ)
    → min (doubled_until rounds len longest) longest ≡ min (len * 2 ^ rounds) longest
unfolding doubled_until
doubled_until-min zero len longest = omega arith
doubled_until-min (suc r) len longest = elim (Bool-cases (leb longest len)) [
  | inl t ↦ rw t (ground (arith, t, le-mul len (2 ^ suc r) (pow_pos (suc r))))
  | inr f ↦ rw f (
      doubled_until-min r (len * 2) longest
      ∙ ap (λ x. min x longest)
          (mul_assoc len 2 (2 ^ r) ∙ ap (λ x. len * x) (mul_comm 2 (2 ^ r) ∙ sym (pow-suc 2 r))))
]

-- The script's length of a ban is the base doubled once per strike after the first, at most the longest.
pub script_length-min :
    (strikes base longest : ℕ)
    → script_length strikes base longest ≡ min (base * 2 ^ (strikes - 1)) longest
unfolding script_length
script_length-min strikes base longest =
    ground (arith, doubled_until-min (strikes - 1) base longest)

-- The strikes of a client that count at a time.
abbrev pub redis_strikes : ℕ → Str → Db → ℕ
redis_strikes t client db =
    count_of (alive (t / million) (lookup (redis_key client (lit "strikes")) db.strikes))

-- What a ban imposed at `now` has done to redis, and its answer.
pub record Shared (now : ℕ) (client : Str) (base longest : ℕ) (db : Db) (ran : Db × Option Ban)
    : Type 0 where
  pub length : ℕ
  pub doubled : length ≡ min (base / million * 2 ^ redis_strikes now client db) (longest / million)
  pub answered : is_some ran.1 ≡ true
  pub left :
      (t : ℕ) → redis_banned_for t client ran.0 ≡ (now / million + length - t / million) * million
  pub strikes :
      (t : ℕ)
      → redis_strikes t client ran.0 ≡ (
          if ltb (t / million) (now / million + (length + longest / million))
          then redis_strikes now client db + 1
          else 0)
  pub cleared : lookup (redis_key client (lit "miss")) ran.0.misses ≡ none

lookup-insert_self :
    {V : Type 0} (key : Str) (v : V) (m : Map Str V) → lookup key (insert key v m) ≡ some v
lookup-insert_self key v m = lookup-insert key key v m ∙ rw (same_str_refl key) refl

lookup-remove_self : {V : Type 0} (key : Str) (m : Map Str V) → lookup key (remove key m) ≡ none
lookup-remove_self key m = lookup-remove key key m ∙ rw (same_str_refl key) refl

alive-kept :
    (at : ℕ) (o : Option Expiring)
    → let c = alive at o in
      alive at (some (count_of c + 1, expiry_of c)) ≡ some (count_of c + 1, expiry_of c)
alive-kept at none = refl
alive-kept at (some (n, none)) = refl
alive-kept at (some (n, some e)) = elim (Bool-cases (ltb at e)) [
  | inl t ↦ rw (t) (rw (t) refl)
  | inr f ↦ rw (f) refl
]

lookup-expire_at :
    (at e : ℕ) (key : Str) (c : Expiring) (m : Map Str Expiring)
    → lookup key m ≡ some c
    → alive at (some c) ≡ some c
    → lookup key (expire_at key e m (alive at (lookup key m))) ≡ some (c.0, some e)
lookup-expire_at at e key c m h a =
    ap (λ o. lookup key (expire_at key e m (alive at o))) h
    ∙ ap (λ o. lookup key (expire_at key e m o)) a
    ∙ lookup-insert_self key (c.0, some e) m

count-alive : (t n e : ℕ) → count_of (alive t (some (n, some e))) ≡ (if ltb t e then n else 0)
count-alive t n e = ground arith

-- The counter after INCR and a PEXPIRE that is not 0.
expired_at :
    (at t ms : ℕ) (key : Str) (m : Map Str Expiring)
    → nat_beq ms 0 ≡ false
    → count_of (alive t (lookup key (pexpire at key ms (incr at key m).0)))
      ≡ (if ltb t (at + ms) then count_of (alive at (lookup key m)) + 1 else 0)
unfolding pexpire incr
expired_at at t ms key m n = rw (n) (
    ap (λ o. count_of (alive t o))
      (lookup-expire_at at (at + ms) key _ _ (lookup-insert_self key _ m)
        (alive-kept at (lookup key m)))
    ∙ count-alive t (count_of (alive at (lookup key m)) + 1) (at + ms))

stored :
    (at : ℕ) (b : Ban) (len longest : ℕ) (counted : Map Str Expiring) (db : Db)
    → nat_beq len 0 ≡ false
    → set_ban at b len longest counted db ≡ (
      with_ban at b len
          (pexpire at (redis_key b.client (lit "strikes")) (len + longest) counted)
          db,
      some b,
    )
stored at b len longest counted db n = rw (n) refl

script_length-pos :
    (strikes base longest : ℕ) → 1 ≤ base → 1 ≤ longest → 1 ≤ script_length strikes base longest
script_length-pos strikes base longest b l = omega (
  arith,
  script_length-min strikes base longest,
  le-mul base (2 ^ (strikes - 1)) (pow_pos (strikes - 1)),
)

-- A ban of the shared store, with lengths of a millisecond at least, does what one of the in-process
-- store does, in milliseconds: it is answered, and lasts for the base length doubled once per strike
-- that still counts, at most the longest; there is one strike more until the longest has passed since
-- its end; and the client's misses are cleared.
pub redis_ban-Shared :
    (now : ℕ) (client : Str) (reason : Reason) (path : Str) (base longest : ℕ) (db : Db)
    → million ≤ base
    → million ≤ longest
    → Shared now client base longest db (redis_ban now client reason path base longest db)
unfolding redis_ban ban_script incr redis_banned_for
redis_ban-Shared now client reason path base longest db b l =
    let at = now / million in
    let key = redis_key client (lit "strikes") in
    let count = count_of (alive at (lookup key db.strikes)) + 1 in
    let len = script_length count (base / million) (longest / million) in
    let long : 1 ≤ len =
      script_length-pos count (base / million) (longest / million) (omega (arith, b))
        (omega (arith, l)) in
    let set =
      stored at (scripted_ban at client reason path count len) len (longest / million)
        (incr at key db.strikes).0 db (ground (arith, long)) in
    subst (λ r. Shared now client base longest db (r.0, ban_of_reply r.1)) (sym set)
      (record {
        length = len;
        doubled =
            script_length-min count (base / million) (longest / million)
            ∙ ap (λ n. min (base / million * 2 ^ n) (longest / million)) (omega arith);
        answered = refl;
        left = λ t.
            ap (λ o. ttl (t / million) o * million)
              (lookup-insert_self (redis_key client (lit "ban")) _ db.bans);
        strikes = λ t.
            expired_at at (t / million) (len + longest / million) key db.strikes
              (ground (arith, long));
        cleared = lookup-remove_self (redis_key client (lit "miss")) db.misses;
      })
