-- ===== src/Proxy/Pool/Choice.antt =====
-- What `Pick` promises: a healthy host of the pool, not the excluded one if another is healthy.
use nina.Prelude.{
  ℕ, suc, ◌+◌, ◌^◌, ◌<◌, ◌≤◌, ◌≡◌, refl, sym, ap, subst, ◌↔◌, same_str, same_str_refl, ◌⊎◌, inl,
  inr, true, false, Option, none, some, List, [], ◌∷◌, arith, length, get_elem?, filter, In, here,
  there, In-filter, In-filter_intro, In-get_elem?, get_elem?_in_range, Bool-cases, ltb, nat_beq,
  nat_beq_iff, ◌∙◌, ◌==◌, str_eq, lit, ◌%◌, lt→ltb,
}
use native.Mathlib.Nat.{mod-lt}
use nina.Proxy.Pool.{
  Host, Pool, Numbered, number_from, is_up, is_other, healthy_hosts, candidates, or_else, least,
  first_least, Picked, picked, err_no_healthy_host, at_index, choose, choose_among, pick,
}

number_from-In :
    (n : ℕ) (hs : List Host) {c : Numbered}
    → In c (number_from n hs)
    → (j : ℕ) × (c.0 ≡ n + j) × (get_elem? hs j ≡ some c.1)
number_from-In n [] i = elim i [ ]
number_from-In n (h ∷ hs) (here e) = (0, rw e (omega arith), ap (λ c. some c.1) (sym e))
number_from-In n (h ∷ hs) (there i) =
    let (j, e, g) = number_from-In (suc n) hs i in (suc j, omega arith, g)

-- Every numbered healthy host is the host of the pool at that index, and is up.
healthy_hosts-In :
    (p : Pool) {c : Numbered}
    → In c (healthy_hosts p)
    → (get_elem? p.hosts c.0 ≡ some c.1) × (c.1.healthy ≡ true)
unfolding healthy_hosts
healthy_hosts-In p {c} i =
    let (listed, up) = In-filter is_up (number_from 0 p.hosts) i in
    let (j, e, g) = number_from-In 0 p.hosts listed in
    let same : c.0 ≡ j = omega arith in (rw same g, up)

least-In : (best : Numbered) (hs : List Numbered) → In (least best hs) (best ∷ hs)
unfolding least
least-In best [] = here refl
least-In best (h ∷ hs) = elim (Bool-cases (ltb h.1.inflight best.1.inflight)) [
  | inl less ↦ rw less (there (least-In h hs))
  | inr more ↦ rw more (skip (least-In best hs))
]
  where
    skip : {c : Numbered} → In c (best ∷ hs) → In c (best ∷ h ∷ hs)
    skip (here e) = here e
    skip (there i) = there (there i)

least-le :
    (best : Numbered) (hs : List Numbered) {c : Numbered}
    → In c (best ∷ hs)
    → (least best hs).1.inflight ≤ c.1.inflight
unfolding least
least-le best [] (here e) = rw e (omega arith)
least-le best [] (there i) = elim i [ ]
least-le best (h ∷ hs) (here e) =
    rw e (ground (arith, least-le h hs (here refl), least-le best hs (here refl)))
least-le best (h ∷ hs) (there (here e)) =
    rw e (ground (arith, least-le h hs (here refl), least-le best hs (here refl)))
least-le best (h ∷ hs) (there (there i)) =
    ground (arith, least-le h hs (there i), least-le best hs (there i))

not-In-nil : {c : Numbered} → In c [] → ⊥
not-In-nil i = elim i [ ]

-- The candidates are healthy hosts, and there is one if there is a healthy host.
candidates-In :
    (exclude : Option ℕ) (healthy : List Numbered) {c : Numbered}
    → In c (candidates exclude healthy)
    → In c healthy
unfolding candidates
candidates-In none healthy i = i
candidates-In (some x) healthy {c} i = elim (Bool-cases (ltb 1 (length healthy))) [
  | inl many ↦ either (filter (is_other x) healthy) refl (rw many at i)
  | inr few ↦ rw few at i
]
  where
    either :
        (f : List Numbered)
        → f ≡ filter (is_other x) healthy
        → In c (or_else f healthy)
        → In c healthy
    either [] e j = j
    either (d ∷ ds) e j = (In-filter (is_other x) healthy (rw e at j)).0

candidates-ne-nil :
    (exclude : Option ℕ) (c : Numbered) (cs : List Numbered)
    → 0 < length (candidates exclude (c ∷ cs))
unfolding candidates
candidates-ne-nil none c cs = omega arith
candidates-ne-nil (some x) c cs = elim (Bool-cases (ltb 1 (length (c ∷ cs)))) [
  | inl many ↦ rw many (either (filter (is_other x) (c ∷ cs)))
  | inr few ↦ rw few (omega arith)
]
  where
    either : (f : List Numbered) → 0 < length (or_else f (c ∷ cs))
    either [] = omega arith
    either (d ∷ ds) = omega arith

-- The excluded host is a candidate only if it is the one healthy host.
candidates-exclude :
    (x : ℕ) (healthy : List Numbered) {c d : Numbered}
    → In c (candidates (some x) healthy)
    → In d healthy
    → c.0 ≡ x
    → d.0 ≡ x
unfolding candidates
candidates-exclude x [] i j e = elim j [ ]
candidates-exclude x (c' ∷ []) (here p) (here q) e = ap (λ (n : Numbered). n.0) (q ∙ sym p) ∙ e
candidates-exclude x (c' ∷ []) (here p) (there j) e = elim j [ ]
candidates-exclude x (c' ∷ []) (there i) j e = elim i [ ]
candidates-exclude x (c' ∷ b ∷ bs) {c} {d} i j e =
    either (filter (is_other x) (c' ∷ b ∷ bs)) refl
      (rw (lt→ltb 1 (suc (suc (length bs))) (omega arith)) at i) (Bool-cases (nat_beq d.0 x))
  where
    either :
        (f : List Numbered)
        → f ≡ filter (is_other x) (c' ∷ b ∷ bs)
        → In c (or_else f (c' ∷ b ∷ bs))
        → (nat_beq d.0 x ≡ true) ⊎ (nat_beq d.0 x ≡ false)
        → d.0 ≡ x
    either f eq k (inl same) = (nat_beq_iff d.0 x).0 same
    either [] eq k (inr other) =
        absurd (not-In-nil (rw (← eq) at (In-filter_intro (is_other x) (c' ∷ b ∷ bs) j (rw other))))
    either (y ∷ ys) eq k (inr other) =
        let q = (In-filter (is_other x) (c' ∷ b ∷ bs) {a = c} (rw eq at k)).1 in
        ground (arith, nat_beq_iff c.0 x)

-- A request is given a host: either way of indexing the candidates stays in range.
at_index-In :
    (cs : List Numbered) (i : ℕ)
    → i < length cs
    → (c : Numbered) × (at_index cs i ≡ picked c.0) × In c cs
at_index-In cs i h =
    let (c, e) = get_elem?_in_range cs i h in (c, rw (e, at_index), In-get_elem? cs i e)

module _ (intn : ℕ → ℕ) (intn_lt : (n : ℕ) → 0 < n → intn n < n) where
  choose-In :
      (cs : List Numbered) (p : Pool)
      → 0 < length cs
      → p.rr < 2 ^ 63
      → (c : Numbered) × ((choose intn cs p).1 ≡ picked c.0) × In c cs
  unfolding choose
  choose-In cs p h r = elim (Bool-cases (p.strategy == lit "random")) [
    | inl random ↦ rw random (at_index-In cs (intn (length cs)) (intn_lt (length cs) h))
    | inr n ↦ rw n (elim (Bool-cases (p.strategy == lit "least_conn")) [
      | inl least_conn ↦ rw least_conn (first cs h)
      | inr robin ↦
          rw robin (rw (lt→ltb p.rr (2 ^ 63) r) (at_index-In cs (p.rr % length cs) (mod-lt p.rr h)))
    ])
  ]
    where
      first :
          (ds : List Numbered)
          → 0 < length ds
          → (c : Numbered) × (first_least ds ≡ picked c.0) × In c ds
      first [] k = elim k [ ]
      first (d ∷ ds) k = (least d ds, refl, least-In d ds)

  pick_from :
      (exclude : Option ℕ) (healthy : List Numbered) (p : Pool)
      → p.rr < 2 ^ 63
      → (0 < length healthy)
      → (c : Numbered) × ((choose_among intn exclude healthy p).1 ≡ picked c.0)
        × In c (candidates exclude healthy)
  pick_from exclude [] p r h = elim h [ ]
  pick_from exclude (d ∷ ds) p r h =
      choose-In (candidates exclude (d ∷ ds)) p (candidates-ne-nil exclude d ds) r

  -- Unless 2^63 hosts have been picked already, and as `rand.Intn` stays in its range: if a host of
  -- the pool is healthy, Pick returns the index of a healthy host, which is the excluded host only
  -- if every healthy host is.
  pub pick_sound :
      (exclude : Option ℕ) (p : Pool)
      → p.rr < 2 ^ 63
      → 0 < length (healthy_hosts p)
      → (i : ℕ) × (h : Host) × ((pick intn exclude p).1 ≡ picked i)
        × (get_elem? p.hosts i ≡ some h)
        × (h.healthy ≡ true)
        × ((d : Numbered) → exclude ≡ some i → In d (healthy_hosts p) → d.0 ≡ i)
  unfolding pick
  pick_sound exclude p r h =
      let (c, e, i) = pick_from exclude (healthy_hosts p) p r h in
      let (listed, up) = healthy_hosts-In p (candidates-In exclude (healthy_hosts p) i) in
      (
        c.0,
        c.1,
        e,
        listed,
        up,
        λ d same j.
            candidates-exclude c.0 (healthy_hosts p)
              (subst (λ x. In c (candidates x (healthy_hosts p))) same i) j refl,
      )

-- Pick changes nothing but the counter, by one at most.
choose-pool :
    (intn : ℕ → ℕ) (cs : List Numbered) (p : Pool)
    → ((choose intn cs p).0.hosts ≡ p.hosts) × ((choose intn cs p).0.rr ≤ p.rr + 1)
unfolding choose
choose-pool intn cs p = (ground arith, ground arith)

pub pick-pool :
    (intn : ℕ → ℕ) (exclude : Option ℕ) (p : Pool)
    → ((pick intn exclude p).0.hosts ≡ p.hosts) × ((pick intn exclude p).0.rr ≤ p.rr + 1)
unfolding pick choose
pick-pool intn exclude p = by_healthy (healthy_hosts p)
  where
    by_healthy :
        (hs : List Numbered)
        → ((choose_among intn exclude hs p).0.hosts ≡ p.hosts)
          × ((choose_among intn exclude hs p).0.rr ≤ p.rr + 1)
    by_healthy [] = (refl, omega arith)
    by_healthy (c ∷ cs) = choose-pool intn (candidates exclude (c ∷ cs)) p

-- Pick fails exactly when no host is healthy, and then leaves the pool alone.
pub pick-eq-err_iff :
    (intn : ℕ → ℕ) (exclude : Option ℕ) (p : Pool)
    → p.rr < 2 ^ 63
    → ((n : ℕ) → 0 < n → intn n < n)
    → (pick intn exclude p ≡ (p, err_no_healthy_host)) ↔ (healthy_hosts p ≡ [])
unfolding pick
pick-eq-err_iff intn exclude p r law = (only (healthy_hosts p), λ e. rw e refl)
  where
    only :
        (hs : List Numbered) → choose_among intn exclude hs p ≡ (p, err_no_healthy_host) → hs ≡ []
    only [] e = refl
    only (d ∷ ds) e = let (c, ok, i) = pick_from intn law exclude (d ∷ ds) p r (omega arith) in cc

-- "least_conn" returns a candidate with the fewest requests in flight, and counts nothing.
pub pick_least_conn :
    (intn : ℕ → ℕ) (exclude : Option ℕ) (p : Pool) {d : Numbered}
    → p.strategy ≡ lit "least_conn"
    → In d (candidates exclude (healthy_hosts p))
    → (c : Numbered) × (pick intn exclude p ≡ (p, picked c.0))
      × In c (candidates exclude (healthy_hosts p))
      × (c.1.inflight ≤ d.1.inflight)
unfolding pick choose
pick_least_conn intn exclude p {d} s i = among (healthy_hosts p) i
  where
    is_random : same_str p.strategy (lit "random") ≡ false
    is_random = rw s (unfold lit same_str in refl)

    is_least : same_str p.strategy (lit "least_conn") ≡ true
    is_least = rw s (same_str_refl (lit "least_conn"))

    first :
        (ds : List Numbered)
        → In d ds
        → (c : Numbered) × (◌≡◌ {A = Pool × Picked} (p, first_least ds) (p, picked c.0))
          × In c ds
          × (c.1.inflight ≤ d.1.inflight)
    first [] k = elim k [ ]
    first (x ∷ ds) k = (least x ds, refl, least-In x ds, least-le x ds k)

    among :
        (hs : List Numbered)
        → In d (candidates exclude hs)
        → (c : Numbered) × (choose_among intn exclude hs p ≡ (p, picked c.0))
          × In c (candidates exclude hs)
          × (c.1.inflight ≤ d.1.inflight)
    among [] k = elim (candidates-In exclude [] k) [ ]
    among (x ∷ hs) k = rw (is_random, is_least) (first (candidates exclude (x ∷ hs)) k)
