-- ===== src/Chain/Order.antt =====
-- In which order the middleware of a route stands.
use nina.Prelude.{
  ℕ, zero, suc, ◌+◌, ◌-◌, ◌<◌, ◌≤◌, ◌≡◌, ◌⊎◌, ◌∙◌, inl, inr, refl, sym, ap, subst, Bool, true,
  false, Option, none, some, List, [], ◌∷◌, arith, Str, str_eq, sort_by, insert_by, In, here, there,
  Pairwise, Bool-cases, Option-cases, get_elem?,
}
use nina.Prelude.Map.{Map, lookup}
use nina.RouteTable.Sorting.{In-insert_by, In-sort_by, sort_by-In}
use nina.Chain.{
  rank, Instance, Entry, Error, Assembled, ok, err, unknown_middleware, entries, entry_less,
  wrap_one, wrap, assemble,
}

-- Sorting by a test sorts by a transitive relation that the test decides between any two.
module _ {A : Type 0} (less : A → A → Bool) (R : A → A → Type 0)
    (lower : (a b : A) → less a b ≡ true → R a b) (upper : (a b : A) → less a b ≡ false → R b a)
    (trans : (a b c : A) → R a b → R b c → R a c) where
  Pairwise-insert : (x : A) (ys : List A) → Pairwise R ys → Pairwise R (insert_by less x ys)
  unfolding insert_by
  Pairwise-insert x [] p = (λ y i. elim i [ ], tt)
  Pairwise-insert x (y ∷ ys) (q, p) = elim (Bool-cases (less y x)) [
    | inl t ↦ rw t (λ z i. after z t (In-insert_by less x ys i), Pairwise-insert x ys p)
    | inr f ↦ rw f (λ z i. before z f i, (q, p))
  ]
    where
      after : (z : A) → less y x ≡ true → (z ≡ x) ⊎ In z ys → R y z
      after z t (inl e) = subst (R y) (sym e) (lower y x t)
      after z t (inr i) = q z i

      before : (z : A) → less y x ≡ false → In z (y ∷ ys) → R x z
      before z f (here e) = subst (R x) (sym e) (upper y x f)
      before z f (there i) = trans x y z (upper y x f) (q z i)

  Pairwise-sort : (xs : List A) → Pairwise R (sort_by less xs)
  unfolding sort_by
  Pairwise-sort [] = tt
  Pairwise-sort (x ∷ xs) = Pairwise-insert x (sort_by less xs) (Pairwise-sort xs)

get_elem?-first : {A : Type 0} (n : A) (ns : List A) (k : ℕ) → k ≡ 0 → get_elem? (n ∷ ns) k ≡ some n
get_elem?-first n ns zero e = refl
get_elem?-first n ns (suc k) e = cc

get_elem?-next :
    {A : Type 0} (n : A) (ns : List A) (k m : ℕ) → k ≡ suc m → get_elem? (n ∷ ns) k ≡ get_elem? ns m
get_elem?-next n ns k m e = rw e refl

-- The handler that a middleware makes of another, if it has one for the route.
abbrev pub apply : {H : Type 0} → Option (Option (H → H)) → H → H
apply (some (some mw)) h = mw h
apply other h = h

module _ {H R : Type 0} where
  -- `a` stands outside `b`: its category comes first, or it is the same and `a` is named first.
  abbrev pub Outside : Entry H R → Entry H R → Type 0
  Outside a b =
      (rank a.inst.category < rank b.inst.category)
      ⊎ ((rank a.inst.category ≡ rank b.inst.category) × (a.order ≤ b.order))

  entry_less-lower : (a b : Entry H R) → entry_less a b ≡ true → Outside a b
  unfolding entry_less
  entry_less-lower a b h = ground arith

  entry_less-upper : (a b : Entry H R) → entry_less a b ≡ false → Outside b a
  unfolding entry_less
  entry_less-upper a b h = ground arith

  Outside-trans : (a b c : Entry H R) → Outside a b → Outside b c → Outside a c
  Outside-trans a b c p q = ground (arith, p, q)

  -- The entry at a place of the configured names.
  pub record IsAt (instances : Map Str (Instance H R)) (i : ℕ) (names : List Str) (e : Entry H R)
      : Type 0 where
    pub after : i ≤ e.order
    pub named : get_elem? names (e.order - i) ≡ some e.name
    pub looked_up : lookup e.name instances ≡ some e.inst

  -- The first of the list is outermost.
  abbrev pub around : R → List (Entry H R) → H → H
  around r [] h = h
  around r (e ∷ es) h = apply (e.inst.for_route r) (around r es h)

  wrap-cases :
      (r : R) (es : List (Entry H R)) (h : H)
      → (wrap r es h ≡ ok (around r es h)) ⊎ ((x : Error) × (wrap r es h ≡ err x))
  unfolding wrap
  wrap-cases r [] h = inl refl
  wrap-cases r (e ∷ es) h = elim (wrap-cases r es h) [
    | inr (x, p) ↦ inr (x, rw p refl)
    | inl p ↦ rw p (by_route (e.inst.for_route r) (around r es h))
  ]
    where
      by_route :
          (o : Option (Option (H → H))) (g : H)
          → (wrap_one e.name o g ≡ ok (apply o g)) ⊎ ((x : Error) × (wrap_one e.name o g ≡ err x))
      by_route none g = inr (_, refl)
      by_route (some none) g = inl refl
      by_route (some (some mw)) g = inl refl

  -- The entries are those of the configured names, each once per place.
  pub record Lists (instances : Map Str (Instance H R)) (i : ℕ) (names : List Str)
      (es : List (Entry H R)) : Type 0 where
    pub each : (e : Entry H R) → In e es → IsAt instances i names e
    pub all :
        (j : ℕ) (n : Str)
        → get_elem? names j ≡ some n
        → (e : Entry H R) × In e es × (e.order ≡ i + j) × (e.name ≡ n)

  Lists-cons :
      (instances : Map Str (Instance H R)) (i : ℕ) (n : Str) (ns : List Str) (inst : Instance H R)
      (es : List (Entry H R))
      → lookup n instances ≡ some inst
      → Lists instances (i + 1) ns es
      → Lists instances i (n ∷ ns) (record { inst = inst; order = i; name = n } ∷ es)
  Lists-cons instances i n ns inst es found l = record { each = each; all = all }
    where
      first : Entry H R
      first = record { inst = inst; order = i; name = n }

      each : (e : Entry H R) → In e (first ∷ es) → IsAt instances i (n ∷ ns) e
      each e (here same) = subst (IsAt instances i (n ∷ ns)) (sym same) (record {
        after = omega arith;
        named = get_elem?-first n ns (i - i) (omega arith);
        looked_up = found;
      })
      each e (there k) =
          let a = l.each e k in
          record {
            after = omega (arith, a.after);
            named =
                get_elem?-next n ns (e.order - i) (e.order - (i + 1)) (omega (arith, a.after))
                ∙ a.named;
            looked_up = a.looked_up;
          }

      all :
          (j : ℕ) (m : Str)
          → get_elem? (n ∷ ns) j ≡ some m
          → (e : Entry H R) × In e (first ∷ es) × (e.order ≡ i + j) × (e.name ≡ m)
      all zero m h = (first, here refl, omega arith, ground (arith, h))
      all (suc j) m h = let (e, k, o, p) = l.all j m h in (e, there k, omega (arith, o), p)

  entries-Lists :
      (instances : Map Str (Instance H R)) (i : ℕ) (names : List Str)
      → ((es : List (Entry H R)) × (entries instances i names ≡ ok es) × Lists instances i names es)
        ⊎ ((x : Error) × (entries instances i names ≡ err x))
  unfolding entries
  entries-Lists instances i [] =
      inl ([], refl, record { each = λ e j. elim j [ ]; all = λ j n h. cc })
  entries-Lists instances i (n ∷ ns) = elim (Option-cases (lookup n instances)) [
    | inl missing ↦ inr (unknown_middleware n, rw (missing, entries) refl)
    | inr (inst, found) ↦ elim (entries-Lists instances (i + 1) ns) [
      | inr (x, p) ↦ inr (x, rw (found, entries) (rw p refl))
      | inl (es, p, l) ↦ inl (
        record { inst = inst; order = i; name = n } ∷ es,
        rw (found, entries) (rw p refl),
        Lists-cons instances i n ns inst es found l,
      )
    ]
  ]

  -- What Assemble makes of the final handler: it is inside the entries of the configured names, each
  -- once, which stand by category and, within one, in the configured order.
  pub record IsOrdered (names : List Str) (instances : Map Str (Instance H R)) (r : R) (final h : H)
      : Type 0 where
    pub chain : List (Entry H R)
    pub lists : Lists instances 0 names chain
    pub sorted : Pairwise Outside chain
    pub made : h ≡ around r chain final

  -- The handler that Assemble returns has the middleware of every configured name around the final
  -- handler, the outermost of the first category, whatever the order of the names; within a category
  -- the order of the names decides.
  pub assemble-IsOrdered :
      (names : List Str) (instances : Map Str (Instance H R)) (r : R) (final h : H)
      → assemble names instances r final ≡ ok h
      → IsOrdered names instances r final h
  unfolding assemble
  assemble-IsOrdered names instances r final h eq = elim (entries-Lists instances 0 names) [
    | inr (x, p) ↦ cc (rw p at eq)
    | inl (es, p, l) ↦ elim (wrap-cases r (sort_by entry_less es) final) [
      | inr (x, q) ↦ cc (rw q at (rw p at eq))
      | inl q ↦ record {
        chain = sort_by entry_less es;
        lists = record {
          each = λ e i. l.each e (In-sort_by entry_less es i);
          all = λ j n g. let (e, k, o, m) = l.all j n g in (e, sort_by-In entry_less es k, o, m);
        };
        sorted =
            Pairwise-sort entry_less Outside entry_less-lower entry_less-upper Outside-trans es;
        made = from_ok (sym (rw q at (rw p at eq)));
      }
    ]
  ]
    where
      from_ok : {a b : H} → ok a ≡ ok b → a ≡ b
      from_ok {a} e = ap (value a) e
        where
          value : H → Assembled H → H
          value d (ok x) = x
          value d (err x) = d
