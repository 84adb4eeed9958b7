-- ===== src/Config/Validity.antt =====
-- What holds of a configuration that Validate finds no problem in.
use nina.Prelude.{
  ℕ, arith, ◌+◌, ◌≡◌, sym, subst, true, false, not, List, [], ◌∷◌, ◌⊎◌, inl, inr, In, here, there,
  Pairwise, contains, is_some, Str, str_eq, ◌==◌, lit,
}
use nina.Prelude.Map.{Map, lookup}
use nina.Config.{Backend, Expose, Override, Config}
use nina.Config.Validation.{
  problem, when, Parsers, is_name, field, item, undefined, already_exposed,
}
use nina.Config.Document.{
  validate_backends, known_backends, validate_uses, validate_overrides, validate_expose,
  validate_exposes, prefix_key, validate,
}
use nina.Config.Names.{
  empty_left, empty_right, when-false, backed, backends-fresh, backends-apart, known_backends-In,
}

module _ (defs : Map Str Str) where
  -- A middleware that is defined.
  abbrev pub IsDefined : Str → Type 0
  IsDefined m = is_some (lookup m defs) ≡ true

  uses-step :
      (path m : Str) (ms : List Str)
      → validate_uses defs path (m ∷ ms) ≡ []
      → IsDefined m × (validate_uses defs path ms ≡ [])
  unfolding validate_uses
  uses-step path m ms e =
      let bad =
        when (not (is_some (lookup m defs))) (problem (field path (lit "middleware")) undefined) in
      let c : bad ≡ [] = empty_left bad _ e in
      let f =
        when-false (not (is_some (lookup m defs))) (field path (lit "middleware")) undefined c in
      (ground (arith, f), empty_right bad _ e)

  uses-IsDefined :
      (path : Str) (ms : List Str) (m : Str)
      → validate_uses defs path ms ≡ []
      → In m ms
      → IsDefined m
  uses-IsDefined path [] m e i = elim i [ ]
  uses-IsDefined path (x ∷ ms) m e (here q) = subst IsDefined (sym q) (uses-step path x ms e).0
  uses-IsDefined path (x ∷ ms) m e (there i) = uses-IsDefined path ms m (uses-step path x ms e).1 i

  overrides-step :
      (path op_id : Str) (ov : Override) (rest : Map Str Override)
      → validate_overrides defs path ((op_id, ov) ∷ rest) ≡ []
      → (validate_uses defs (field (field path (lit "overrides")) op_id) ov.middleware ≡ [])
        × (validate_overrides defs path rest ≡ [])
  unfolding validate_overrides
  overrides-step path op_id ov rest e =
      (empty_right _ (validate_uses defs _ ov.middleware) (empty_left _ _ e), empty_right _ _ e)

  overrides-IsDefined :
      (path : Str) (ovs : Map Str Override) (kv : Str × Override) (m : Str)
      → validate_overrides defs path ovs ≡ []
      → In kv ovs
      → In m kv.1.middleware
      → IsDefined m
  overrides-IsDefined path [] kv m e i j = elim i [ ]
  overrides-IsDefined path ((k, x) ∷ ovs) kv m e (here q) j =
      uses-IsDefined _ x.middleware m (overrides-step path k x ovs e).0
        (subst (λ (y : Str × Override). In m y.1.middleware) q j)
  overrides-IsDefined path ((k, x) ∷ ovs) kv m e (there i) j =
      overrides-IsDefined path ovs kv m (overrides-step path k x ovs e).1 i j

  module _ (known : List Str) where
    -- An exposed part whose backend and middleware are there.
    pub record IsBacked (e : Expose) : Type 0 where
      pub backend : contains known e.backend ≡ true
      pub middleware : (m : Str) → In m e.middleware → IsDefined m
      pub overrides :
          (kv : Str × Override) (m : Str) → In kv e.overrides → In m kv.1.middleware → IsDefined m

    expose-IsBacked :
        (seen : List Str) (path : Str) (e : Expose)
        → validate_expose known defs seen path e ≡ []
        → IsBacked e × (contains seen (prefix_key e) ≡ false)
    unfolding validate_expose
    expose-IsBacked seen path e v =
        let o : validate_overrides defs path e.overrides ≡ [] = empty_right _ _ v in
        let five = empty_left _ (validate_overrides defs path e.overrides) v in
        let u : validate_uses defs path e.middleware ≡ [] = empty_right _ _ five in
        let four = empty_left _ (validate_uses defs path e.middleware) five in
        let again = when (contains seen (prefix_key e)) (problem path already_exposed) in
        let d : again ≡ [] = empty_right _ again four in
        let back = empty_left _ _ (empty_left _ _ (empty_left _ again four)) in
        (
          record {
            backend = backed _ _ _ back;
            middleware = λ m i. uses-IsDefined path e.middleware m u i;
            overrides = λ kv m i j. overrides-IsDefined path e.overrides kv m o i j;
          },
          when-false _ _ _ d,
        )

    exposes-IsBacked :
        (seen : List Str) (i : ℕ) (es : List Expose) (e : Expose)
        → validate_exposes known defs seen i es ≡ []
        → In e es
        → IsBacked e × (contains seen (prefix_key e) ≡ false)
    unfolding validate_exposes
    exposes-IsBacked seen i [] e v m = elim m [ ]
    exposes-IsBacked seen i (x ∷ es) e v (here q) =
        subst (λ y. IsBacked y × (contains seen (prefix_key y) ≡ false)) (sym q)
          (expose-IsBacked seen _ x (empty_left _ _ v))
    exposes-IsBacked seen i (x ∷ es) e v (there m) =
        let rest = empty_right (validate_expose known defs seen (item (lit "expose") i) x) _ v in
        let (f, g) = exposes-IsBacked (prefix_key x ∷ seen) (i + 1) es e rest m in
        (f, ground (arith, g))

-- What a configuration without problems promises the rest of the gateway.
pub record IsValid (c : Config) : Type 0 where
  pub named : (b : Backend) → In b c.backends → is_name b.name ≡ true
  pub apart : Pairwise (λ a b. a.name == b.name ≡ false) c.backends
  pub backed : (e : Expose) → In e c.expose → (b : Backend) × In b c.backends × (b.name ≡ e.backend)
  pub defined :
      (e : Expose) (m : Str)
      → In e c.expose
      → In m e.middleware
      → is_some (lookup m c.middleware) ≡ true
  pub overridden :
      (e : Expose) (kv : Str × Override) (m : Str)
      → In e c.expose
      → In kv e.overrides
      → In m kv.1.middleware
      → is_some (lookup m c.middleware) ≡ true

none-known :
    (c : Config) {n : Str}
    → (contains [] n ≡ true) ⊎ ((b : Backend) × In b c.backends × (b.name ≡ n))
    → (b : Backend) × In b c.backends × (b.name ≡ n)
none-known c (inl e) = cc
none-known c (inr x) = x

-- If Validate finds no problem, the backends have proper names and no two the same, every exposed part
-- is of one of them, and every middleware that an exposed part or an override names is defined.
pub validate-IsValid : (p : Parsers) (c : Config) → validate p c ≡ [] → IsValid c
unfolding validate
validate-IsValid p c v =
    let es : validate_exposes (known_backends [] c.backends) c.middleware [] 0 c.expose ≡ [] =
      empty_right _ _ v in
    let nine = empty_left _ (validate_exposes _ c.middleware [] 0 c.expose) v in
    let five = empty_left _ _ (empty_left _ _ (empty_left _ _ (empty_left _ _ nine))) in
    let bs : validate_backends p [] 0 c.backends ≡ [] = empty_right _ _ five in
    record {
      named = λ b m. (backends-fresh p [] 0 c.backends b bs m).0;
      apart = backends-apart p [] 0 c.backends bs;
      backed = λ e m.
          let (x, f) = exposes-IsBacked c.middleware _ [] 0 c.expose e es m in
          none-known c (known_backends-In [] c.backends e.backend x.backend);
      defined = λ e m i j.
          let (x, f) = exposes-IsBacked c.middleware _ [] 0 c.expose e es i in x.middleware m j;
      overridden = λ e kv m i j k.
          let (x, f) = exposes-IsBacked c.middleware _ [] 0 c.expose e es i in x.overrides kv m j k;
    }
