-- ===== src/RouteTable/Slots.antt =====
-- The slots of a table's routes, and the methods that each route advertises.
use nina.Prelude.Map.{Map, lookup, insert, lookup-insert}
use nina.Prelude.{
  ◌≡◌, ◌≢◌, ◌∙◌, inl, inr, refl, sym, ap, ap, subst, Option, none, List, [], ◌∷◌, ◌++◌, arith, Str,
  str_eq, lit, same_str, same_str_iff, In, here, there, Pairwise, Bool-cases, Option-cases, sort_by,
  sort_strings, str_lt,
}
use nina.RouteTable.Build.{
  Operation, Config, Route, ExposedOp, ok, slot, claim_slots, route_less, methods_at, allow_all,
  Table, build,
}
use nina.RouteTable.Sorting.{In-sort_by, sort_by-In, Pairwise-sort_by}
use nina.RouteTable.Served.{build-Built}

-- The route as the table holds it.
abbrev pub with_methods : List Route → Route → Route
with_methods table r = record r { allowed_methods = sort_strings (methods_at r.gateway_path table) }

pub In-allow_all :
    (table rs : List Route) {r : Route}
    → In r (allow_all table rs)
    → (r0 : Route) × In r0 rs × (r ≡ with_methods table r0)
unfolding allow_all
In-allow_all table [] i = elim i [ ]
In-allow_all table (x ∷ rs) (here e) = (x, here refl, e)
In-allow_all table (x ∷ rs) (there i) = let (r0, j, e) = In-allow_all table rs i in (r0, there j, e)

pub allow_all-In :
    (table rs : List Route) {r : Route} → In r rs → In (with_methods table r) (allow_all table rs)
unfolding allow_all
allow_all-In table [] i = elim i [ ]
allow_all-In table (x ∷ rs) (here e) = here (ap (with_methods table) e)
allow_all-In table (x ∷ rs) (there i) = there (allow_all-In table rs i)

-- Two routes that do not claim one method of one path.
abbrev pub Apart : Route → Route → Type 0
Apart a b = a.method ≡ b.method → a.gateway_path ≢ b.gateway_path

Apart-symm : (a b : Route) → Apart a b → Apart b a
Apart-symm a b h m p = h (sym m) (sym p)

Apart-of_slot : (a b : Route) → slot a ≢ slot b → Apart a b
Apart-of_slot a b h m p = h (λ i. m i ++ lit " " ++ p i)

record Claims (claimed : Map Str Route) (rs : List Route) : Type 0 where
  free : (r : Route) → In r rs → lookup (slot r) claimed ≡ none
  apart : Pairwise Apart rs

claim_slots-Claims :
    (claimed : Map Str Route) (rs : List Route) → claim_slots claimed rs ≡ ok tt → Claims claimed rs
unfolding claim_slots
claim_slots-Claims claimed [] e = record { free = λ r i. elim i [ ]; apart = tt }
claim_slots-Claims claimed (r ∷ rs) e = elim (Option-cases (lookup (slot r) claimed)) [
  | inr (prev, taken) ↦ cc (rw (taken, claim_slots) at e)
  | inl unclaimed ↦
      go unclaimed
        (claim_slots-Claims (insert (slot r) r claimed) rs (rw (unclaimed, claim_slots) at e))
]
  where
    after :
        (x : Route)
        → lookup (slot x) (insert (slot r) r claimed) ≡ none
        → (lookup (slot x) claimed ≡ none) × (slot r ≢ slot x)
    after x f = (
      ground (arith, lookup-insert (slot r) (slot x) r claimed),
      λ same.
          ground (arith, lookup-insert (slot r) (slot x) r claimed, same_str_iff (slot r) (slot x)),
    )

    go :
        lookup (slot r) claimed ≡ none
        → Claims (insert (slot r) r claimed) rs
        → Claims claimed (r ∷ rs)
    go unclaimed c = record {
      free = λ x i. first x i;
      apart = (λ x i. Apart-of_slot r x (after x (c.free x i)).1, c.apart);
    }
      where
        first : (x : Route) → In x (r ∷ rs) → lookup (slot x) claimed ≡ none
        first x (here same) = rw same unclaimed
        first x (there i) = (after x (c.free x i)).0

Pairwise-allow_all :
    (table rs : List Route) → Pairwise Apart rs → Pairwise Apart (allow_all table rs)
unfolding allow_all
Pairwise-allow_all table [] p = p
Pairwise-allow_all table (r ∷ rs) (q, p) =
    (λ y i. later y (In-allow_all table rs i), Pairwise-allow_all table rs p)
  where
    later :
        (y : Route)
        → (r0 : Route) × In r0 rs × (y ≡ with_methods table r0)
        → Apart (with_methods table r) y
    later y (r0, i, e) m g = q r0 i (m ∙ ap (λ x. x.method) e) (g ∙ ap (λ x. x.gateway_path) e)

-- Of a table that was built, no two routes serve one method at one gateway path, whether or not
-- either is hidden.
pub build-Apart :
    {D : Type 0} (merge : List ExposedOp → Option D) (cfg : Config)
    (specs : Map Str (List Operation)) (t : Table D)
    → build merge cfg specs ≡ ok t
    → Pairwise Apart t.routes
build-Apart merge cfg specs t eq =
    let b = build-Built merge cfg specs eq in
    let sorted = sort_by route_less b.acc.routes in
    subst (λ x. Pairwise Apart x.routes) (sym b.table)
      (Pairwise-allow_all sorted sorted (
        Pairwise-sort_by route_less Apart Apart-symm b.acc.routes
          (claim_slots-Claims [] b.acc.routes b.claimed).apart))

In-methods_at :
    (path : Str) (rs : List Route) {m : Str}
    → In m (methods_at path rs)
    → (r : Route) × In r rs × (r.gateway_path ≡ path) × (m ≡ r.method)
unfolding methods_at
In-methods_at path [] i = elim i [ ]
In-methods_at path (r ∷ rs) {m} i = elim (Bool-cases (same_str r.gateway_path path)) [
  | inl t ↦ here_or (rw t at i) ((same_str_iff r.gateway_path path).0 t) (In-methods_at path rs)
  | inr f ↦ let (x, j, p, e) = In-methods_at path rs (rw f at i) in (x, there j, p, e)
]
  where
    here_or :
        In m (r.method ∷ methods_at path rs)
        → r.gateway_path ≡ path
        → (In m (methods_at path rs)
            → (x : Route) × In x rs × (x.gateway_path ≡ path) × (m ≡ x.method))
        → (x : Route) × In x (r ∷ rs) × (x.gateway_path ≡ path) × (m ≡ x.method)
    here_or (here e) p rest = (r, here refl, p, e)
    here_or (there j) p rest = let (x, k, q, e) = rest j in (x, there k, q, e)

methods_at-In :
    (path : Str) (rs : List Route) (r : Route)
    → In r rs
    → r.gateway_path ≡ path
    → In r.method (methods_at path rs)
unfolding methods_at
methods_at-In path [] r i p = elim i [ ]
methods_at-In path (x ∷ rs) r (here e) p =
    rw ((same_str_iff x.gateway_path path).1 (ap (λ y. y.gateway_path) (sym e) ∙ p))
      (here (ap (λ y. y.method) e))
methods_at-In path (x ∷ rs) r (there i) p = elim (Bool-cases (same_str x.gateway_path path)) [
  | inl t ↦ rw t (there (methods_at-In path rs r i p))
  | inr f ↦ rw f (methods_at-In path rs r i p)
]

-- The routes of `rs` are those at the path of `r`, as far as its methods tell.
abbrev pub Advertises : List Route → Route → Type 0
Advertises rs r =
    ((m : Str)
      → In m r.allowed_methods
      → (x : Route) × In x rs × (x.gateway_path ≡ r.gateway_path) × (m ≡ x.method))
    × ((x : Route) → In x rs → x.gateway_path ≡ r.gateway_path → In x.method r.allowed_methods)

with_methods-Advertises :
    (table : List Route) (r0 : Route) → Advertises (allow_all table table) (with_methods table r0)
unfolding sort_strings
with_methods-Advertises table r0 = (λ m i. to m i, λ x i p. from x (In-allow_all table table i) p)
  where
    to :
        (m : Str)
        → In m (sort_strings (methods_at r0.gateway_path table))
        → (x : Route) × In x (allow_all table table)
          × (x.gateway_path ≡ r0.gateway_path)
          × (m ≡ x.method)
    to m i =
        let (x, j, p, e) = In-methods_at r0.gateway_path table (In-sort_by str_lt _ i) in
        (with_methods table x, allow_all-In table table j, p, e)

    from :
        (x : Route)
        → (y : Route) × In y table × (x ≡ with_methods table y)
        → x.gateway_path ≡ r0.gateway_path
        → In x.method (sort_strings (methods_at r0.gateway_path table))
    from x (y, j, e) p = sort_by-In str_lt _ (
        subst (λ n. In n (methods_at r0.gateway_path table)) (sym (ap (λ z. z.method) e))
          (methods_at-In r0.gateway_path table y j (sym (ap (λ z. z.gateway_path) e) ∙ p)))

-- Every route of a table that was built advertises exactly the methods of the table's routes at its
-- path.
pub build-Advertises :
    {D : Type 0} (merge : List ExposedOp → Option D) (cfg : Config)
    (specs : Map Str (List Operation)) (t : Table D) (r : Route)
    → build merge cfg specs ≡ ok t
    → In r t.routes
    → Advertises t.routes r
build-Advertises merge cfg specs t r eq =
    let b = build-Built merge cfg specs eq in
    let sorted = sort_by route_less b.acc.routes in
    subst (λ x. In r x.routes → Advertises x.routes r) (sym b.table) (λ i. of_table sorted i)
  where
    of_table :
        (table : List Route) → In r (allow_all table table) → Advertises (allow_all table table) r
    of_table table i =
        let (r0, j, e) = In-allow_all table table i in
        subst (Advertises (allow_all table table)) (sym e) (with_methods-Advertises table r0)
