-- ===== src/Scanguard/Guard.antt =====
-- internal/scanguard/scanguard.go: the guard over a store. A context and the log are left out.
pub mod Bounds
use nina.Prelude.{
  ℕ, zero, suc, ◌+◌, ◌-◌, ◌*◌, ◌%◌, ◌^◌, Bool, true, false, not, ◌&&◌, ◌||◌, Option, none, some,
  List, [], ◌∷◌, ◌++◌, ltb, leb, nat_beq, nat_eq, if◌then◌else◌, Str, lit, str_eq, same_str, ◌==◌,
  any, lower,
}
use nina.Lru.{Lru}
use nina.Scanguard.Memory.{
  Reason, reason_trap, reason_threshold, Ban, Strike, MemoryStore, banned_for, record_miss, impose,
  unban,
}

-- An address as Go's net package has it: the 4 bytes of an IPv4 address or the 16 of another.
pub data Ip : Type 0 where
  v4 : List ℕ → Ip
  v6 : List ℕ → Ip

-- What the guard calls of the net package: ParseIP, the address of ParseCIDR, and IP.String.
pub record Net : Type 0 where
  pub parse_ip : Str → Option Ip
  pub parse_cidr : Str → Option Ip
  pub print_ip : Ip → Str
  pub print_int : ℕ → Str

-- The first `ones` bits of the bytes, with the others cleared.
unfoldable pub mask_bytes : ℕ → List ℕ → List ℕ
mask_bytes ones [] = []
mask_bytes ones (b ∷ bs) =
    (if leb 8 ones then b else b - b % 2 ^ (8 - ones)) ∷ mask_bytes (ones - 8) bs

unfoldable pub same_bytes : List ℕ → List ℕ → Bool
same_bytes [] [] = true
same_bytes (x ∷ xs) (y ∷ ys) = nat_beq x y && same_bytes xs ys
same_bytes _ _ = false

-- IPNet.Contains
unfoldable pub net_contains : Ip × ℕ → Ip → Bool
unfolding mask_bytes same_bytes
net_contains (v4 n, ones) (v4 ip) = same_bytes (mask_bytes ones n) (mask_bytes ones ip)
net_contains (v6 n, ones) (v6 ip) = same_bytes (mask_bytes ones n) (mask_bytes ones ip)
net_contains _ _ = false

abbrev some_suffix : (Str → Bool) → Str → Bool
some_suffix p [] = p []
some_suffix p (c ∷ s) = p (c ∷ s) || not (nat_beq c 10) && some_suffix p s

-- A glob of compileTraps: `*` is any run of characters but the newline, and case does not count.
unfoldable pub trap_match : Str → Str → Bool
trap_match [] [] = true
trap_match [] (c ∷ s) = false
trap_match (g ∷ gs) s = elim (nat_beq g b'*') [
  | true ↦ some_suffix (trap_match gs) s
  | false ↦ elim s [ [] ↦ false | c ∷ rest ↦ nat_beq (lower g) (lower c) && trap_match gs rest ]
]

-- No traps are configured if the list is empty.
pub record Guard : Type 0 where
  pub max_misses : ℕ
  pub window : ℕ
  pub ban : ℕ
  pub max_ban : ℕ
  pub traps : List Str
  pub allow : List (Ip × ℕ)
  pub v6_prefix : ℕ

unfoldable pub normalise : Net → Guard → Ip → Str
unfolding mask_bytes
normalise net g (v4 ip) = net.print_ip (v4 ip)
normalise net g (v6 ip) =
    net.print_ip (v6 (mask_bytes g.v6_prefix ip)) ++ lit "/" ++ net.print_int g.v6_prefix

abbrev key_of_ip : Net → Guard → Option Ip → Str
key_of_ip net g none = []
key_of_ip net g (some ip) = if any (λ n. net_contains n ip) g.allow then [] else normalise net g ip

unfoldable pub key : Net → Guard → Str → Str
key net g client_ip = key_of_ip net g (net.parse_ip client_ip)

-- A store: its state with its operations, each at a time of the clock; `none` is an error.
pub record Store : Type 1 where
  pub State : Type 0
  pub banned_for : ℕ → Str → State → State × Option ℕ
  pub miss : ℕ → Str → ℕ → State → State × Option ℕ
  pub ban : ℕ → Str → Reason → Str → ℕ → ℕ → State → State × Option Ban
  pub unban : ℕ → Str → State → State × Option Bool

-- MemoryStore as a Store: it never fails.
abbrev pub memory_store : Lru ℕ → Lru Ban → Lru Strike → Store
memory_store ms bs ss = record {
  State = MemoryStore ms bs ss;
  banned_for = λ now k s. let (s', left) = banned_for ms bs ss now k s in (s', some left);
  miss = λ now k window s. let (s', n) = record_miss ms bs ss now k window s in (s', some n);
  ban = λ now k reason path base longest s.
      let (s', b) = impose ms bs ss now k reason path base longest s in (s', some b);
  unban = λ now k s. let (s', was) = unban ms bs ss now k s in (s', some was);
}

module _ (net : Net) (store : Store) where
  abbrev left_or_none : store.State × Option ℕ → store.State × (ℕ × Bool)
  left_or_none (s, none) = (s, (0, false))
  left_or_none (s, some d) = (s, (d, ltb 0 d))

  -- Blocked: how much longer the client is banned, and whether it is.
  unfoldable pub blocked : Guard → ℕ → Str → store.State → store.State × (ℕ × Bool)
  blocked g now client_ip s =
      if key net g client_ip == []
      then (s, (0, false))
      else left_or_none (store.banned_for now (key net g client_ip) s)

  abbrev ban_for : Guard → ℕ → Str → Reason → Str → store.State → store.State
  ban_for g now k reason path s = (store.ban now k reason path g.ban g.max_ban s).0

  abbrev judge_count : Guard → ℕ → Str → Str → store.State × Option ℕ → store.State
  judge_count g now k path (s, none) = s
  judge_count g now k path (s, some n) =
      if ltb n g.max_misses then s else ban_for g now k reason_threshold path s

  -- Miss
  unfoldable pub miss : Guard → ℕ → Str → Str → store.State → store.State
  miss g now client_ip path s =
      let k = key net g client_ip in
      if k == []
      then s
      else if any (λ t. trap_match t path) g.traps
      then ban_for g now k reason_trap path s
      else judge_count g now k path (store.miss now k g.window s)

  abbrev unban_at : Guard → ℕ → Option Ip → Option Ip → store.State → store.State × Option Bool
  unban_at g now (some ip) plain s = store.unban now (normalise net g ip) s
  unban_at g now none (some ip) s = store.unban now (normalise net g ip) s
  unban_at g now none none s = (s, none)

  -- Unban, with an error for what is no address.
  unfoldable pub unban_client : Guard → ℕ → Str → store.State → store.State × Option Bool
  unban_client g now client s = unban_at g now (net.parse_cidr client) (net.parse_ip client) s
