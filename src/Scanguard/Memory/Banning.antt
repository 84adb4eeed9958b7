-- ===== src/Scanguard/Memory/Banning.antt =====
-- How long a ban lasts, what it remembers, and how misses are counted.
use Prim.Native.Nat.{min}
use nina.Prelude.{
  ℕ, ◌+◌, ◌-◌, ◌*◌, ◌^◌, ◌<◌, ◌≡◌, ◌≢◌, ◌⊎◌, ◌∙◌, inl, inr, refl, sym, ap, Option, none, some,
  arith, ltb, if◌then◌else◌, Str, same_str_refl, str_eq, Bool-cases,
}
use nina.Lru.{Lru}
use nina.Scanguard.Lengths.{ban_length, ban_length-min}
use nina.Scanguard.Memory.{
  Reason, Ban, MissWindow, Strike, store_at, live_strikes, is_stale, MemoryStore, banned_for,
  record_miss, impose, unban, is_in_force, miss_window, count_miss, fresh_window, time_left,
}

abbrev bumped : MissWindow → MissWindow
bumped w = record w { count = w.count + 1 }

peek-remove_self :
    {V : Type 0} (lru : Lru V) (key : Str) (c : lru.Cache) → lru.peek key (lru.remove key c) ≡ none
peek-remove_self lru key c = lru.peek-remove key key c ∙ rw (same_str_refl key) refl

module _ (ms : Lru ℕ) (bs : Lru Ban) (ss : Lru Strike) where
  abbrev pub Bans : Type 0
  Bans = MemoryStore ms bs ss

  -- The client's strikes that count at a time.
  abbrev pub strikes_at : ℕ → Str → Bans → ℕ
  strikes_at t key m = live_strikes t (ss.peek key m.strikes)

  abbrev left_of : ℕ → Option Ban → ℕ
  left_of t none = 0
  left_of t (some b) = b.until - t

  banned_for-left :
      (t : ℕ) (key : Str) (m : Bans)
      → (banned_for ms bs ss t key m).1 ≡ left_of t (bs.peek key m.bans)
  unfolding banned_for
  banned_for-left t key m = by_ban (bs.peek key m.bans)
    where
      by_ban : (o : Option Ban) → (time_left ms bs ss t key m o).1 ≡ left_of t o
      by_ban none = refl
      by_ban (some b) = ground arith

  -- What a ban imposed at `now` has done to the store.
  pub record Imposed (now : ℕ) (client : Str) (base longest : ℕ) (m m' : Bans) : Type 0 where
    pub length : ℕ
    pub doubled : length ≡ min (base * 2 ^ strikes_at now client m) longest
    pub left : (t : ℕ) → (banned_for ms bs ss t client m').1 ≡ now + length - t
    pub strikes :
        (t : ℕ)
        → strikes_at t client m'
          ≡ (if ltb t (now + length + longest) then strikes_at now client m + 1 else 0)
    pub cleared : ms.peek client m'.misses ≡ none
    pub others :
        (j : Str) → j ≢ client → (bs.peek j m'.bans ≡ bs.peek j m.bans) ⊎ (bs.peek j m'.bans ≡ none)

  -- A ban of the in-process store, with lengths in range: it lasts for the base length doubled once per
  -- strike that still counts, at most the longest; there is one strike more until the longest has
  -- passed since its end; the client's misses are cleared; and another client's ban is untouched,
  -- unless the cache forgets it.
  pub impose-Imposed :
      (now : ℕ) (client : Str) (reason : Reason) (path : Str) (base longest : ℕ) (m : Bans)
      → longest < 2 ^ 62
      → base < 2 ^ 63
      → Imposed now client base longest m (impose ms bs ss now client reason path base longest m).0
  unfolding impose live_strikes
  impose-Imposed now client reason path base longest m l k =
      let count = live_strikes now (ss.get client m.strikes).1 + 1 in
      let found : live_strikes now (ss.get client m.strikes).1 ≡ strikes_at now client m =
        ap (live_strikes now) (ss.get-peek client m.strikes) in
      record {
        length = ban_length count base longest;
        doubled =
            ban_length-min count base longest l k
            ∙ ap (λ n. min (base * 2 ^ n) longest) (omega (arith, found));
        left = λ t.
            banned_for-left t client (impose ms bs ss now client reason path base longest m).0
            ∙ ap (left_of t) (bs.peek-add_self client _ m.bans);
        strikes = λ t.
            ap (live_strikes t) (ss.peek-add_self client _ (ss.get client m.strikes).0)
            ∙ ground (arith, found);
        cleared = peek-remove_self ms client m.misses;
        others = λ j ne. bs.peek-add j client _ m.bans ne;
      }

  -- After Unban a client is not banned, has no strikes and no misses, and Unban has told whether it
  -- was banned.
  pub unban-forgets :
      (now : ℕ) (key : Str) (m : Bans)
      → let (m', was) = unban ms bs ss now key m in
        ((t : ℕ) → (banned_for ms bs ss t key m').1 ≡ 0)
        × ((t : ℕ) → strikes_at t key m' ≡ 0)
        × (ms.peek key m'.misses ≡ none)
        × (was ≡ ltb 0 (banned_for ms bs ss now key m).1)
  unfolding unban live_strikes
  unban-forgets now key m = (
    λ t.
        banned_for-left t key (unban ms bs ss now key m).0
        ∙ ap (left_of t) (peek-remove_self bs key m.bans),
    λ t. ap (live_strikes t) (peek-remove_self ss key m.strikes),
    peek-remove_self ms key m.misses,
    by_ban (bs.peek key m.bans) ∙ ap (ltb 0) (sym (banned_for-left now key m)),
  )
    where
      by_ban : (o : Option Ban) → is_in_force now o ≡ ltb 0 (left_of now o)
      by_ban none = refl
      by_ban (some b) = ground arith

  abbrev pub at_address : (ℕ → MissWindow) → Option ℕ → Option MissWindow
  at_address heap none = none
  at_address heap (some p) = some (heap p)

  -- The window in which the store counts a key's misses.
  abbrev pub window_at : Str → Bans → Option MissWindow
  window_at key m = at_address m.heap (ms.peek key m.misses)

  -- The window after one more miss.
  abbrev pub missed : ℕ → ℕ → Option MissWindow → MissWindow
  missed now window none = record { start = now; count = 1 }
  missed now window (some w) =
      if is_stale now window w
      then record { start = now; count = 1 }
      else record w { count = w.count + 1 }

  pub record Counted (now : ℕ) (key : Str) (window : ℕ) (m m' : Bans) (n : ℕ) : Type 0 where
    pub count : n ≡ (missed now window (window_at key m)).count
    pub stored : window_at key m' ≡ some (missed now window (window_at key m))
    pub bans : m'.bans ≡ m.bans
    pub strikes : m'.strikes ≡ m.strikes

  store_at-same : (p : ℕ) (w : MissWindow) (heap : ℕ → MissWindow) → store_at p w heap p ≡ w
  store_at-same p w heap = ground arith

  -- Miss counts the key's window up, or begins a new one where there is none or it has passed, and
  -- touches no ban and no strike.
  pub record_miss-Counted :
      (now : ℕ) (key : Str) (window : ℕ) (m : Bans)
      → let (m', n) = record_miss ms bs ss now key window m in Counted now key window m m' n
  unfolding record_miss
  record_miss-Counted now key window m = by_found (ms.get key m.misses).1 (ms.get-peek key m.misses)
    where
      first : ℕ → MissWindow
      first = store_at m.next (record { start = now; count = 0 }) m.heap

      begin :
          (v : Option MissWindow)
          → missed now window v ≡ record { start = now; count = 1 }
          → window_at key m ≡ v
          → let (m', n) =
              count_miss ms bs ss
                (fresh_window ms bs ss now key (record m { misses = (ms.get key m.misses).0 })) in
            Counted now key window m m' n
      begin v e same = record {
        count =
            ap (λ w. w.count + 1) (store_at-same m.next _ m.heap)
            ∙ ap (λ w. w.count) (sym (ap (missed now window) same ∙ e));
        stored =
            ap (at_address _) (ms.peek-add_self key m.next (ms.get key m.misses).0)
            ∙ ap some (
                store_at-same m.next (bumped (first m.next)) first
                ∙ ap bumped (store_at-same m.next (record { start = now; count = 0 }) m.heap)
                ∙ sym (ap (missed now window) same ∙ e));
        bans = refl;
        strikes = refl;
      }

      by_found :
          (o : Option ℕ)
          → o ≡ ms.peek key m.misses
          → let (m', n) = count_miss ms bs ss (
              miss_window ms bs ss now key window
                (record m { misses = (ms.get key m.misses).0 })
                o) in
            Counted now key window m m' n
      by_found none e = begin none refl (ap (at_address m.heap) (sym e))
      by_found (some p) e = elim (Bool-cases (is_stale now window (m.heap p))) [
        | inl stale ↦
            rw stale (begin (some (m.heap p)) (rw stale refl) (ap (at_address m.heap) (sym e)))
        | inr live ↦
            let same : missed now window (window_at key m)
                ≡ record (m.heap p) { count = (m.heap p).count + 1 } =
              ap (λ a. missed now window (at_address m.heap a)) (sym e) ∙ rw live refl in
            rw live (record {
              count = ap (λ w. w.count) (sym same);
              stored =
                  ap (at_address _) (ms.peek-get key key m.misses ∙ sym e)
                  ∙ ap some (store_at-same p _ m.heap ∙ sym same);
              bans = refl;
              strikes = refl;
            })
      ]
