-- ===== src/Store/Sharing.antt =====
-- The memory limiter refines a map from keys to windows that may forget entries; the registry
-- shares one limiter among the uses of a name.
use nina.Prelude.Map.{lookup, lookup-insert}
use nina.Prelude.{
  ℕ, ◌+◌, ◌<◌, ◌≡◌, ◌≢◌, ◌⊎◌, ◌∙◌, inl, inr, refl, sym, ap, Bool, arith, Option, none, some, Str,
  same_str_iff, same_str_refl, lit, str_eq, same_str, nat_beq_iff, Bool-cases, [],
}
use nina.Lru.{Lru}
use nina.Store.{
  Window, Decision, meter, MemoryLimiter, store_window, window_of, allow, Registry, memory, limiter,
  finish_allow,
}

store_window_ne :
    (p q : ℕ) (w : Window) (heap : ℕ → Window) → p ≢ q → store_window p w heap q ≡ heap q
store_window_ne p q w heap ne = ground (arith, nat_beq_iff p q)

store_window_self : (p : ℕ) (w : Window) (heap : ℕ → Window) → store_window p w heap p ≡ w
store_window_self p w heap = ground (arith, nat_beq_iff p p)

module _ (lru : Lru ℕ) where
  open lru use {Cache}

  abbrev pub Limits : Type 0
  Limits = MemoryLimiter lru

  -- The window of a key, if the limiter still has it.
  abbrev at_address : (ℕ → Window) → Option ℕ → Option Window
  at_address heap none = none
  at_address heap (some p) = some (heap p)

  abbrev pub view : Str → Limits → Option Window
  view key m = at_address m.heap (lru.peek key m.cache)

  abbrev pub or_fresh : ℕ → Option Window → Window
  or_fresh now none = record { start = now; count = 0; prev = 0 }
  or_fresh now (some w) = w

  -- No two keys share a window, and every address is taken.
  pub record IsSound (m : Limits) : Type 0 where
    pub apart :
        (j k : Str) (p : ℕ) → lru.peek j m.cache ≡ some p → lru.peek k m.cache ≡ some p → j ≡ k
    pub taken : (j : Str) (p : ℕ) → lru.peek j m.cache ≡ some p → p < m.next

  -- The state with the key's window in place, before the window is metered.
  module _ (now : ℕ) (key : Str) (m : Limits) (s : IsSound m) where
    abbrev marked : Limits
    marked = record m { cache = (lru.get key m.cache).0 }

    peek-marked : (j : Str) → lru.peek j marked.cache ≡ lru.peek j m.cache
    peek-marked j = lru.peek-get j key m.cache

    marked-IsSound : IsSound marked
    marked-IsSound = record {
      apart = λ j k p e f. s.apart j k p (sym (peek-marked j) ∙ e) (sym (peek-marked k) ∙ f);
      taken = λ j p e. s.taken j p (sym (peek-marked j) ∙ e);
    }

  -- An entry after an addition is the added one or an old one of another key.
  peek-added :
      (j k : Str) (v q : ℕ) (c : Cache)
      → lru.peek j (lru.add k v c) ≡ some q
      → ((j ≡ k) × (q ≡ v)) ⊎ ((j ≢ k) × (lru.peek j c ≡ some q))
  peek-added j k v q c e = elim (Bool-cases (same_str j k)) [
    | inl t ↦
        let same : j ≡ k = (same_str_iff j k).0 t in
        inl (same, sym (ground (arith, rw same at e, lru.peek-add_self k v c)))
    | inr f ↦
        let other : j ≢ k = λ same. cc (f, (same_str_iff j k).1 same) in
        inr (other, kept (lru.peek-add j k v c other))
  ]
    where
      kept :
          (lru.peek j (lru.add k v c) ≡ lru.peek j c) ⊎ (lru.peek j (lru.add k v c) ≡ none)
          → lru.peek j c ≡ some q
      kept (inl p) = sym p ∙ e
      kept (inr n) = cc

  -- What holds once the key has its window at an address.
  record HasWindow (now : ℕ) (key : Str) (m m' : Limits) (p : ℕ) : Type 0 where
    sound : IsSound m'
    placed : lru.peek key m'.cache ≡ some p
    window : m'.heap p ≡ or_fresh now (view key m)
    others : (j : Str) → j ≢ key → (view j m' ≡ view j m) ⊎ (view j m' ≡ none)

  module _ (now : ℕ) (key : Str) (m : Limits) (s : IsSound m) where
    fresh-IsSound : IsSound (window_of lru now key m none).0
    fresh-IsSound = record {
      apart = λ j k p e f.
          either j k p (peek-added j key m.next p m.cache e) (peek-added k key m.next p m.cache f);
      taken = λ j p e. below j p (peek-added j key m.next p m.cache e);
    }
      where
        either :
            (j k : Str) (p : ℕ)
            → ((j ≡ key) × (p ≡ m.next)) ⊎ ((j ≢ key) × (lru.peek j m.cache ≡ some p))
            → ((k ≡ key) × (p ≡ m.next)) ⊎ ((k ≢ key) × (lru.peek k m.cache ≡ some p))
            → j ≡ k
        either j k p (inl (a, _)) (inl (b, _)) = a ∙ sym b
        either j k p (inl (_, n)) (inr (_, f)) = absurd (omega (arith, s.taken k p f))
        either j k p (inr (_, e)) (inl (_, n)) = absurd (omega (arith, s.taken j p e))
        either j k p (inr (_, e)) (inr (_, f)) = s.apart j k p e f

        below :
            (j : Str) (p : ℕ)
            → ((j ≡ key) × (p ≡ m.next)) ⊎ ((j ≢ key) × (lru.peek j m.cache ≡ some p))
            → p < m.next + 1
        below j p (inl (_, n)) = omega arith
        below j p (inr (_, e)) = omega (arith, s.taken j p e)

    fresh_others :
        (j : Str)
        → j ≢ key
        → let m' = (window_of lru now key m none).0 in (view j m' ≡ view j m) ⊎ (view j m' ≡ none)
    fresh_others j ne = elim (lru.peek-add j key m.next m.cache ne) [
      | inr gone ↦ inr (ap (at_address _) gone)
      | inl kept ↦ inl (rw kept (old (lru.peek j m.cache) refl))
    ]
      where
        old :
            (o : Option ℕ)
            → lru.peek j m.cache ≡ o
            → at_address
                (store_window m.next (record { start = now; count = 0; prev = 0 }) m.heap)
                o
              ≡ at_address m.heap o
        old none e = refl
        old (some q) e =
            ap some (store_window_ne m.next q _ m.heap (λ n. absurd (omega (arith, s.taken j q e))))

    open_window :
        (o : Option ℕ)
        → lru.peek key m.cache ≡ o
        → let (m', p) = window_of lru now key m o in HasWindow now key m m' p
    open_window (some p) e = record {
      sound = s;
      placed = e;
      window = ap (or_fresh now) (sym (ap (at_address m.heap) e));
      others = λ j ne. inl refl;
    }
    open_window none e = record {
      sound = fresh-IsSound;
      placed = lru.peek-add_self key m.next m.cache;
      window =
          store_window_self m.next _ m.heap ∙ ap (or_fresh now) (sym (ap (at_address m.heap) e));
      others = fresh_others;
    }

  -- The state after the key's window is metered.
  abbrev after : ℕ → ℕ → ℕ → Limits → ℕ → Limits
  after now limit dur m p = record m {
    heap = store_window p (meter now limit dur (m.heap p)).0 m.heap;
  }

  after-IsSound :
      (now limit dur : ℕ) (m : Limits) (p : ℕ) → IsSound m → IsSound (after now limit dur m p)
  after-IsSound now limit dur m p s = record { apart = s.apart; taken = s.taken }

  after_others :
      (now limit dur : ℕ) (m : Limits) (p : ℕ) (key j : Str)
      → IsSound m
      → lru.peek key m.cache ≡ some p
      → j ≢ key
      → view j (after now limit dur m p) ≡ view j m
  after_others now limit dur m p key j s placed ne = go (lru.peek j m.cache) refl
    where
      go :
          (o : Option ℕ)
          → lru.peek j m.cache ≡ o
          → at_address (store_window p (meter now limit dur (m.heap p)).0 m.heap) o
            ≡ at_address m.heap o
      go none e = refl
      go (some q) e =
          ap some
            (store_window_ne p q _ m.heap (λ same. ne (s.apart j key q e (rw same at placed))))

  -- What a call of Allow has done.
  pub record Metered (now : ℕ) (key : Str) (limit dur : ℕ) (m m' : Limits) (d : Decision)
      : Type 0 where
    pub sound : IsSound m'
    pub decided : d ≡ (meter now limit dur (or_fresh now (view key m))).1
    pub stored : view key m' ≡ some (meter now limit dur (or_fresh now (view key m))).0
    pub others : (j : Str) → j ≢ key → (view j m' ≡ view j m) ⊎ (view j m' ≡ none)

  finish_allow-Metered :
      (now limit dur : ℕ) (key : Str) (m m1 : Limits) (p : ℕ)
      → HasWindow now key m m1 p
      → let (m', d) = finish_allow lru now limit dur (m1, p) in Metered now key limit dur m m' d
  finish_allow-Metered now limit dur key m m1 p w = record {
    sound = after-IsSound now limit dur m1 p w.sound;
    decided = ap (λ x. (meter now limit dur x).1) w.window;
    stored =
        ap (at_address _) w.placed
        ∙ ap some (store_window_self p _ m1.heap ∙ ap (λ x. (meter now limit dur x).0) w.window);
    others = λ j ne. rw (after_others now limit dur m1 p key j w.sound w.placed ne) (w.others j ne);
  }

  -- Allow on a sound limiter, whatever the cache evicts: the key's window, or a fresh one if the
  -- cache has forgotten it, is metered and stored, the decision is the meter's, every other key
  -- keeps its window or is forgotten, and the limiter stays sound.
  pub allow-Metered :
      (now limit dur : ℕ) (key : Str) (m : Limits)
      → IsSound m
      → let (m', d) = allow lru now key limit dur m in Metered now key limit dur m m' d
  unfolding allow
  allow-Metered now limit dur key m s =
      let m0 = marked now key m s in
      let same : (j : Str) → view j m0 ≡ view j m =
        λ j. ap (at_address m.heap) (peek-marked now key m s j) in
      let found = (lru.get key m.cache).1 in
      let opened =
        open_window now key m0 (marked-IsSound now key m s) found
          (peek-marked now key m s key ∙ sym (lru.get-peek key m.cache)) in
      let (m1, p) = window_of lru now key m0 found in
      let done = finish_allow-Metered now limit dur key m0 m1 p opened in
      record {
        sound = done.sound;
        decided = done.decided ∙ ap (λ v. (meter now limit dur (or_fresh now v)).1) (same key);
        stored = done.stored ∙ ap (λ v. some (meter now limit dur (or_fresh now v)).0) (same key);
        others = λ j ne. rw (← same j) (done.others j ne);
      }

abbrev pub IsMemory : Str → Type 0
IsMemory store = (store ≡ []) ⊎ (store ≡ lit "memory")

module _ {L : Type 0} where
  limiter_kept :
      (name store : Str) (fail_open : Bool) (fresh l : L) (r : Registry L)
      → (limiter name store fail_open fresh r).1 ≡ memory l
      → lookup name (limiter name store fail_open fresh r).0.mem_limiters ≡ some l
  unfolding limiter
  limiter_kept name store fail_open fresh l r e =
      ground (arith, lookup-insert name name fresh r.mem_limiters, same_str_refl name)

  limiter_reuse :
      (name store : Str) (fail_open : Bool) (fresh l : L) (r : Registry L)
      → IsMemory store
      → lookup name r.mem_limiters ≡ some l
      → limiter name store fail_open fresh r ≡ (r, memory l)
  unfolding limiter
  limiter_reuse name store fail_open fresh l r m e =
      ground (arith, same_str_iff store [], same_str_iff store (lit "memory"))

  -- Once a name has its memory limiter, every later use of the name gets that very limiter, and the
  -- registry stays as it is.
  pub limiter_shares :
      (name store store' : Str) (fail_open fail_open' : Bool) (fresh fresh' l : L) (r : Registry L)
      → IsMemory store'
      → (limiter name store fail_open fresh r).1 ≡ memory l
      → let r' = (limiter name store fail_open fresh r).0 in
        limiter name store' fail_open' fresh' r' ≡ (r', memory l)
  limiter_shares name store store' f f' fresh fresh' l r m e =
      limiter_reuse name store' f' fresh' l (limiter name store f fresh r).0 m
        (limiter_kept name store f fresh l r e)
