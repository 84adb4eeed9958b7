-- ===== src/Scanguard/Guard/Bounds.antt =====
-- When the guard bans over the in-process store, and for how long.
use Prim.Native.Nat.{min}
use nina.Prelude.{
  ℕ, ◌+◌, ◌-◌, ◌*◌, ◌^◌, ◌<◌, ◌≡◌, ◌∙◌, refl, sym, ap, subst, Bool, true, false, none, some, List,
  [], ◌∷◌, arith, ltb, if◌then◌else◌, Str, str_eq, ◌==◌, any, All, length, lt→ltb,
}
use nina.Lru.{Lru}
use nina.Scanguard.Lengths.{pow_pos, le-mul}
use nina.Scanguard.Memory.{
  Ban, Strike, MissWindow, MemoryStore, reason_trap, reason_threshold, banned_for, impose,
  record_miss,
}
use nina.Scanguard.Memory.Banning.{
  impose-Imposed, record_miss-Counted, window_at, missed, strikes_at,
}
use nina.Scanguard.Guard.{Net, Guard, key, trap_match, memory_store, blocked, miss}

-- The lengths of a guard's configuration are in the range of an int64, with room for a doubling.
pub record HasLengths (g : Guard) : Type 0 where
  pub ban : g.ban < 2 ^ 63
  pub max_ban : g.max_ban < 2 ^ 62

module _ (ms : Lru ℕ) (bs : Lru Ban) (ss : Lru Strike) (net : Net) (g : Guard)
    (client_ip : Str) where
  abbrev State : Type 0
  State = MemoryStore ms bs ss

  abbrev pub blocked_at : ℕ → State → ℕ × Bool
  blocked_at t s = (blocked net (memory_store ms bs ss) g t client_ip s).1

  abbrev pub miss_at : ℕ → Str → State → State
  miss_at now path s = miss net (memory_store ms bs ss) g now client_ip path s

  blocked-left :
      (t : ℕ) (s : State)
      → key net g client_ip == [] ≡ false
      → let left = (banned_for ms bs ss t (key net g client_ip) s).1 in
        blocked_at t s ≡ (left, ltb 0 left)
  unfolding blocked
  blocked-left t s k = rw (k, blocked_at) refl

  miss-trap :
      (now : ℕ) (path : Str) (s : State)
      → key net g client_ip == [] ≡ false
      → any (λ t. trap_match t path) g.traps ≡ true
      → miss_at now path s
        ≡ (impose ms bs ss now (key net g client_ip) reason_trap path g.ban g.max_ban s).0
  unfolding miss
  miss-trap now path s k t = rw (k, miss) (rw (t, miss) refl)

  miss-count :
      (now : ℕ) (path : Str) (s : State)
      → key net g client_ip == [] ≡ false
      → any (λ t. trap_match t path) g.traps ≡ false
      → miss_at now path s ≡ (
          let (s1, n) = record_miss ms bs ss now (key net g client_ip) g.window s in
          if ltb n g.max_misses
          then s1
          else (impose ms bs ss now
              (key net g client_ip)
              reason_threshold
              path
              g.ban
              g.max_ban
              s1).0)
  unfolding miss
  miss-count now path s k t = rw (k, miss) (rw (t, miss) refl)

  -- With lengths in range: a client that the guard does not ignore and that asks for a trap is blocked
  -- at once, for the base length doubled once per strike that still counts, or the longest if that
  -- is less, and no longer.
  pub trap-blocks :
      (now t : ℕ) (path : Str) (s : State)
      → HasLengths g
      → key net g client_ip == [] ≡ false
      → any (λ p. trap_match p path) g.traps ≡ true
      → let len = min (g.ban * 2 ^ strikes_at ms bs ss now (key net g client_ip) s) g.max_ban in
        blocked_at t (miss_at now path s) ≡ (now + len - t, ltb 0 (now + len - t))
  trap-blocks now t path s h k p =
      let i =
        impose-Imposed ms bs ss now (key net g client_ip) reason_trap path g.ban g.max_ban s
          h.max_ban h.ban in
      ap (blocked_at t) (miss-trap now path s k p)
      ∙ blocked-left t _ k
      ∙ ap (λ n. (n, ltb 0 n)) (i.left t ∙ ap (λ n. now + n - t) i.doubled)

  abbrev pub misses : Str → List ℕ → State → State
  misses path [] s = s
  misses path (t ∷ ts) s = misses path ts (miss_at t path s)

  missed-live :
      (now start c : ℕ) (s : State)
      → window_at ms bs ss (key net g client_ip) s ≡ some (record { start = start; count = c })
      → now < start + g.window
      → missed ms bs ss now g.window (window_at ms bs ss (key net g client_ip) s)
        ≡ record { start = start; count = c + 1 }
  missed-live now start c s w l = ap (missed ms bs ss now g.window) w ∙ ground (arith, l)

  below-miss :
      (now : ℕ) (path : Str) (s : State) {start n : ℕ}
      → key net g client_ip == [] ≡ false
      → any (λ t. trap_match t path) g.traps ≡ false
      → missed ms bs ss now g.window (window_at ms bs ss (key net g client_ip) s)
        ≡ record { start = start; count = n }
      → n < g.max_misses
      → window_at ms bs ss (key net g client_ip) (miss_at now path s)
        ≡ some (record { start = start; count = n })
  below-miss now path s k p w l =
      let c = record_miss-Counted ms bs ss now (key net g client_ip) g.window s in
      let below =
        lt→ltb _ g.max_misses
          (subst (λ x. x < g.max_misses) (sym (c.count ∙ ap (λ x. x.count) w)) l) in
      let s1 : State = (record_miss ms bs ss now (key net g client_ip) g.window s).0 in
      let s2 : State =
        (impose ms bs ss now (key net g client_ip) reason_threshold path g.ban g.max_ban s1).0 in
      ap (window_at ms bs ss (key net g client_ip))
        (miss-count now path s k p ∙ ap (λ x. if x then s1 else s2) below)
      ∙ c.stored
      ∙ ap some w

  at-threshold :
      (now t : ℕ) (path : Str) (s : State) {start : ℕ}
      → HasLengths g
      → key net g client_ip == [] ≡ false
      → any (λ p. trap_match p path) g.traps ≡ false
      → missed ms bs ss now g.window (window_at ms bs ss (key net g client_ip) s)
        ≡ record { start = start; count = g.max_misses }
      → t < now + min g.ban g.max_ban
      → (blocked_at t (miss_at now path s)).1 ≡ true
  at-threshold now t path s h k p w l =
      let c = record_miss-Counted ms bs ss now (key net g client_ip) g.window s in
      let (s1, n) = record_miss ms bs ss now (key net g client_ip) g.window s in
      let reached : ltb n g.max_misses ≡ false = ground (arith, c.count ∙ ap (λ x. x.count) w) in
      let i =
        impose-Imposed ms bs ss now (key net g client_ip) reason_threshold path g.ban g.max_ban s1
          h.max_ban h.ban in
      let s2 : State =
        (impose ms bs ss now (key net g client_ip) reason_threshold path g.ban g.max_ban s1).0 in
      ap (λ x. (blocked_at t x).1)
        (miss-count now path s k p ∙ ap (λ x. if x then s1 else s2) reached)
      ∙ ap (λ x. x.1) (blocked-left t _ k)
      ∙ lt→ltb 0 _ (
          subst (λ x. 0 < x) (sym (i.left t ∙ ap (λ n. now + n - t) i.doubled))
            (omega (
              arith,
              l,
              le-mul g.ban (2 ^ strikes_at ms bs ss now (key net g client_ip) s1)
                  (pow_pos (strikes_at ms bs ss now (key net g client_ip) s1)),
            )))

  run-blocks :
      (ts : List ℕ) (last t start c : ℕ) (path : Str) (s : State)
      → HasLengths g
      → key net g client_ip == [] ≡ false
      → any (λ p. trap_match p path) g.traps ≡ false
      → window_at ms bs ss (key net g client_ip) s ≡ some (record { start = start; count = c })
      → c + length ts + 1 ≡ g.max_misses
      → All (λ u. u < start + g.window) ts
      → last < start + g.window
      → t < last + min g.ban g.max_ban
      → (blocked_at t (miss_at last path (misses path ts s))).1 ≡ true
  run-blocks [] last t start c path s h k p w n inside l b =
      at-threshold last t path s h k p
        (missed-live last start c s w l
          ∙ ap {A = ℕ} {B = MissWindow} (λ x. record { start = start; count = x })
              (omega (arith, n)))
        b
  run-blocks (u ∷ ts) last t start c path s h k p w n (first, inside) l b =
      run-blocks ts last t start (c + 1) path (miss_at u path s) h k p
        (below-miss u path s k p (missed-live u start c s w first) (omega (arith, n)))
        (omega (arith, n)) inside l b

  -- With lengths in range: a client that the guard does not ignore, that has no window of misses yet
  -- and that asks max_misses times (two or more) in one window for a path that is no trap, with no
  -- other client's request in between, is blocked from then on for the base length, or the longest
  -- if that is less.
  pub threshold-blocks :
      (first : ℕ) (ts : List ℕ) (last t : ℕ) (path : Str) (s : State)
      → HasLengths g
      → key net g client_ip == [] ≡ false
      → any (λ p. trap_match p path) g.traps ≡ false
      → window_at ms bs ss (key net g client_ip) s ≡ none
      → length ts + 2 ≡ g.max_misses
      → All (λ u. u < first + g.window) ts
      → last < first + g.window
      → t < last + min g.ban g.max_ban
      → (blocked_at t (miss_at last path (misses path (first ∷ ts) s))).1 ≡ true
  threshold-blocks first ts last t path s h k p w n inside l b =
      run-blocks ts last t first 1 path (miss_at first path s) h k p
        (below-miss first path s k p (ap (missed ms bs ss first g.window) w) (omega (arith, n)))
        (omega (arith, n)) inside l b
