-- ===== src/Chain/Releasing.antt =====
-- That a build of the middleware which fails leaves nothing open.
use nina.Prelude.{
  arith, ◌≡◌, refl, sym, ◌∙◌, ap, Bool, false, Option, none, some, List, [], ◌∷◌, ◌++◌, filter, Str,
  str_eq, ◌==◌, All, In, here, there, Pairwise, sort_strings,
}
use nina.Prelude.Map.{Map, lookup, insert, lookup-insert}
use nina.Chain.Registry.{
  Registry, MiddlewareDef, Run, items, keys, construct, constructed, onto, continue, build_loop,
  build,
}

module _ {V : Type 0} where
  pub items-insert :
      (k : Str) (v : V) (m : Map Str V)
      → lookup k m ≡ none
      → items (insert k v m) ≡ items m ++ v ∷ []
  unfolding lookup insert
  items-insert k v [] e = refl
  items-insert k v ((own, val) ∷ rest) e = ground (arith, e, items-insert k v rest)

  -- The names still to come are not in the map.
  pub still-fresh :
      (k : Str) (v : V) (m : Map Str V) (names : List Str)
      → ((n : Str) → In n names → k == n ≡ false)
      → All (λ n. lookup n m ≡ none) names
      → All (λ n. lookup n (insert k v m) ≡ none) names
  still-fresh k v m [] d f = f
  still-fresh k v m (n ∷ names) d (f, fs) =
      let other = d n (here refl) in
      (
        ground (arith, other, f, lookup-insert k n v m),
        still-fresh k v m names (λ y i. d y (there i)) fs,
      )

pub nothing-taken : (V : Type 0) (names : List Str) → All (λ n. lookup {V = V} n [] ≡ none) names
unfolding lookup
nothing-taken V [] = tt
nothing-taken V (n ∷ names) = (refl, nothing-taken V names)

module _ {A : Type 0} where
  append_nil : (xs : List A) → xs ++ [] ≡ xs
  append_nil [] = refl
  append_nil (x ∷ xs) = ap (λ r. x ∷ r) (append_nil xs)

  append_assoc : (xs ys zs : List A) → (xs ++ ys) ++ zs ≡ xs ++ (ys ++ zs)
  append_assoc [] ys zs = refl
  append_assoc (x ∷ xs) ys zs = ap (λ r. x ∷ r) (append_assoc xs ys zs)

module _ {I Raw : Type 0} (is_closer : I → Bool) (r : Registry Raw I)
    (defs : Map Str (MiddlewareDef Raw)) where
  -- What must have been closed when a run ends.
  abbrev pub due : Option (Map Str I) → List I → List I
  due (some m) open_ = []
  due none open_ = filter is_closer open_

  continue-releases :
      (name : Str) (out : Map Str I) (next : I → Run I) (rest : List I) (o : Option (Option I))
      → lookup name out ≡ none
      → ((inst : I)
          → (next inst).closed ≡ due (next inst).result (items (insert name inst out) ++ rest))
      → let run = continue is_closer r defs name out next o in
        run.closed ≡ due run.result (items out ++ onto is_closer r defs o rest)
  continue-releases name out next rest none f later =
      ap (filter is_closer) (sym (append_nil (items out)))
  continue-releases name out next rest (some none) f later =
      ap (filter is_closer) (sym (append_nil (items out)))
  continue-releases name out next rest (some (some inst)) f later =
      later inst
      ∙ ap (due (next inst).result) (
          ap (λ xs. xs ++ rest) (items-insert name inst out f)
          ∙ append_assoc (items out) (inst ∷ []) rest)

  build_loop-releases :
      (names : List Str) (out : Map Str I)
      → Pairwise (λ a b. a == b ≡ false) names
      → All (λ n. lookup n out ≡ none) names
      → let run = build_loop is_closer r defs names out in
        run.closed ≡ due run.result (items out ++ constructed is_closer r defs names)
  unfolding build_loop constructed
  build_loop-releases [] out d f = refl
  build_loop-releases (name ∷ names) out (d, ds) (f, fs) =
      continue-releases name out (λ inst. build_loop is_closer r defs names (insert name inst out))
        (constructed is_closer r defs names) (construct is_closer r defs name) f
        (λ inst.
          build_loop-releases names (insert name inst out) ds
            (still-fresh name inst out names d fs))

  -- If the configuration names each middleware once, a build that fails has closed every instance that
  -- a constructor has made and that has a Close, and a build that succeeds has closed none.
  pub build-releases :
      Pairwise (λ a b. a == b ≡ false) (sort_strings (keys defs))
      → let run = build is_closer r defs in
        run.closed ≡ due run.result (constructed is_closer r defs (sort_strings (keys defs)))
  unfolding build
  build-releases d =
      build_loop-releases (sort_strings (keys defs)) [] d
        (nothing-taken I (sort_strings (keys defs)))
