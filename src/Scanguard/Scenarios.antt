-- ===== src/Scanguard/Scenarios.antt =====
-- A scanner at work.
use nina.Prelude.{
  ℕ, ◌≡◌, refl, true, false, Option, none, some, [], ◌∷◌, arith, str_eq, ◌==◌, lit, same_str, any,
}
use nina.Prelude.Map.{lookup, insert, remove}
use nina.Scanguard.Redis.{
  Db, redis_key, redis_ban, redis_banned_for, ban_script, incr, pexpire, script_length,
  doubled_until,
}
use nina.Scanguard.Redis.Banning.{Shared, redis_ban-Shared}
use nina.Lru.Listed.{listed}
use nina.Scanguard.Memory.{Ban, Strike, reason_trap, MemoryStore, new_memory_store, impose}
use nina.Scanguard.Memory.Banning.{Imposed, impose-Imposed}
use nina.Scanguard.Guard.{Net, Guard, v4, key, trap_match, normalise}
use nina.Scanguard.Guard.Bounds.{HasLengths, blocked_at, miss_at, misses, threshold-blocks}

abbrev MemoryState : Type 0
MemoryState = MemoryStore (listed ℕ) (listed Ban) (listed Strike)

abbrev empty : MemoryState
empty = new_memory_store (listed ℕ) (listed Ban) (listed Strike)

abbrev banned : MemoryState
banned =
    (impose (listed ℕ) (listed Ban) (listed Strike) 1000 (lit "c") reason_trap (lit "/.env") 60 200
      empty).0

impose-Imposed_example :
    Imposed (listed ℕ) (listed Ban) (listed Strike) 1000 (lit "c") 60 200 empty banned
impose-Imposed_example =
    impose-Imposed (listed ℕ) (listed Ban) (listed Strike) 1000 (lit "c") reason_trap (lit "/.env")
      60 200 empty (omega arith) (omega arith)

-- Every client is one address, and is printed so.
abbrev one_client : Net
one_client = record {
  parse_ip = λ s. some (v4 (10 ∷ 0 ∷ 0 ∷ 7 ∷ []));
  parse_cidr = λ s. none;
  print_ip = λ ip. lit "10.0.0.7";
  print_int = λ n. [];
}

abbrev guard : Guard
guard = record {
  max_misses = 3;
  window = 100;
  ban = 60;
  max_ban = 200;
  traps = lit "/.env*" ∷ [];
  allow = [];
  v6_prefix = 64;
}

guard-HasLengths : HasLengths guard
guard-HasLengths = record { ban = omega arith; max_ban = omega arith }

client-key : key one_client guard (lit "10.0.0.7") == [] ≡ false
unfolding key same_str normalise lit
client-key = refl

is_trap : any (λ p. trap_match p (lit "/.ENV.bak")) guard.traps ≡ true
unfolding trap_match lit
is_trap = refl

is_no_trap : any (λ p. trap_match p (lit "/about")) guard.traps ≡ false
unfolding trap_match lit
is_no_trap = refl

threshold-blocks_example :
    (blocked_at (listed ℕ) (listed Ban) (listed Strike) one_client guard (lit "10.0.0.7") 1100 (
      miss_at
        (listed ℕ)
        (listed Ban)
        (listed Strike)
        one_client
        guard
        (lit "10.0.0.7")
        1060
        (lit "/about")
        (misses
          (listed ℕ)
          (listed Ban)
          (listed Strike)
          one_client
          guard
          (lit "10.0.0.7")
          (lit "/about")
          (1000 ∷ 1030 ∷ [])
          empty))).1
    ≡ true
unfolding new_memory_store lookup
threshold-blocks_example =
    threshold-blocks (listed ℕ) (listed Ban) (listed Strike) one_client guard (lit "10.0.0.7") 1000
      (1030 ∷ []) 1060 1100 (lit "/about") empty guard-HasLengths client-key is_no_trap refl refl
      (omega arith, tt) (omega arith) (omega arith)

-- A client with one strike, and a redis that has no bans yet.
abbrev one_strike : Db
one_strike = record {
  bans = [];
  strikes = (redis_key (lit "c") (lit "strikes"), (1, some 900)) ∷ [];
  misses = (redis_key (lit "c") (lit "miss"), (4, some 20)) ∷ [];
}

abbrev banned_again : Db × Option Ban
banned_again = redis_ban 5000000 (lit "c") reason_trap (lit "/.env") 60000000 1000000000 one_strike

banned_again-length : redis_banned_for 15000000 (lit "c") banned_again.0 ≡ 110000000
unfolding redis_banned_for redis_ban ban_script incr pexpire script_length doubled_until lookup
    insert remove lit same_str
banned_again-length = refl

redis_ban-Shared_example : Shared 5000000 (lit "c") 60000000 1000000000 one_strike banned_again
redis_ban-Shared_example =
    redis_ban-Shared 5000000 (lit "c") reason_trap (lit "/.env") 60000000 1000000000 one_strike
      (omega arith) (omega arith)
