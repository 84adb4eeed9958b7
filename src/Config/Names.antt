-- ===== src/Config/Names.antt =====
-- The names of the backends that Validate finds no problem in, and those that its map has.
use nina.Prelude.{
  ℕ, arith, ◌+◌, ◌≡◌, refl, sym, subst, Bool, true, false, not, List, [], ◌∷◌, ◌++◌, ◌⊎◌, inl, inr,
  In, here, there, Pairwise, contains, Bool-cases, if◌then◌else◌, Str, str_eq, ◌==◌, lit,
  same_str_iff,
}
use nina.Config.{Backend}
use nina.Config.Validation.{problem, when, Parsers, is_name, Wrong, undefined, must_not_be_empty}
use nina.Config.Document.{
  is_new, validate_name, validate_backend, validate_backends, known_backends,
}

module _ {A : Type 0} where
  pub empty_left : (xs ys : List A) → xs ++ ys ≡ [] → xs ≡ []
  empty_left [] ys e = refl
  empty_left (x ∷ xs) ys e = cc

  pub empty_right : (xs ys : List A) → xs ++ ys ≡ [] → ys ≡ []
  empty_right [] ys e = e
  empty_right (x ∷ xs) ys e = cc

pub when-false : (b : Bool) (path : Str) (w : Wrong) → when b (problem path w) ≡ [] → b ≡ false
when-false true path w e = cc
when-false false path w e = refl

validate_name-new :
    (seen : List Str) (path name : Str)
    → validate_name seen path name ≡ []
    → is_new seen name ≡ true
unfolding validate_name
validate_name-new seen path name e = ground (arith, e)

if-chosen : {A : Type 0} (b : Bool) (x y z : A) → b ≡ true → (if b then x else y) ≡ z → x ≡ z
if-chosen true x y z b e = e
if-chosen false x y z b e = cc

pub backed :
    (b c : Bool) (path : Str)
    → (if b then problem path must_not_be_empty else when (not c) (problem path undefined)) ≡ []
    → c ≡ true
backed true c path e = cc
backed false true path e = refl
backed false false path e = cc

module _ (p : Parsers) where
  -- The first backend has a new name, and the others are checked behind it.
  validate_backends-step :
      (seen : List Str) (i : ℕ) (b : Backend) (bs : List Backend)
      → validate_backends p seen i (b ∷ bs) ≡ []
      → (is_new seen b.name ≡ true) × (validate_backends p (b.name ∷ seen) (i + 1) bs ≡ [])
  unfolding validate_backends
  validate_backends-step seen i b bs e =
      let n = validate_name-new seen _ b.name (empty_left _ _ e) in
      let rest =
        if-chosen (is_new seen b.name) _ _ [] n (empty_right (validate_name seen _ b.name) _ e) in
      (n, empty_right (validate_backend p (lit "backends." ++ b.name) b) _ rest)

  pub backends-fresh :
      (seen : List Str) (i : ℕ) (bs : List Backend) (b : Backend)
      → validate_backends p seen i bs ≡ []
      → In b bs
      → (is_name b.name ≡ true) × (contains seen b.name ≡ false)
  backends-fresh seen i [] b e m = elim m [ ]
  backends-fresh seen i (x ∷ bs) b e (here q) =
      let (n, rest) = validate_backends-step seen i x bs e in
      let s = subst (λ y. is_new seen y.name ≡ true) (sym q) n in
      (ground (arith, s), ground (arith, s))
  backends-fresh seen i (x ∷ bs) b e (there m) =
      let (n, rest) = validate_backends-step seen i x bs e in
      let (f, g) = backends-fresh (x.name ∷ seen) (i + 1) bs b rest m in (f, ground (arith, g))

  pub backends-apart :
      (seen : List Str) (i : ℕ) (bs : List Backend)
      → validate_backends p seen i bs ≡ []
      → Pairwise (λ a b. a.name == b.name ≡ false) bs
  backends-apart seen i [] e = tt
  backends-apart seen i (x ∷ bs) e =
      let (n, rest) = validate_backends-step seen i x bs e in
      (
        λ y m. let (f, g) = backends-fresh (x.name ∷ seen) (i + 1) bs y rest m in ground (arith, g),
        backends-apart (x.name ∷ seen) (i + 1) bs rest,
      )

either-known :
    (b : Bool) (l r : List Str) (n : Str)
    → contains (if b then l else r) n ≡ true
    → (contains l n ≡ true) ⊎ (contains r n ≡ true)
either-known true l r n e = inl e
either-known false l r n e = inr e

-- A name that the map of backends has is a backend's.
pub known_backends-In :
    (seen : List Str) (bs : List Backend) (n : Str)
    → contains (known_backends seen bs) n ≡ true
    → (contains seen n ≡ true) ⊎ ((b : Backend) × In b bs × (b.name ≡ n))
unfolding known_backends
known_backends-In seen [] n e = inl e
known_backends-In seen (b ∷ bs) n e =
    elim (either-known (is_new seen b.name) (known_backends (b.name ∷ seen) bs)
      (known_backends seen bs) n e) [
        | inl l ↦ elim (known_backends-In (b.name ∷ seen) bs n l) [
          | inr (x, m, q) ↦ inr (x, there m, q)
          | inl c ↦ elim (Bool-cases (b.name == n)) [
            | inl same ↦ inr (b, here refl, (same_str_iff b.name n).0 same)
            | inr other ↦ inl (ground (arith, c, other))
          ]
        ]
        | inr r ↦ elim (known_backends-In seen bs n r) [
          | inl c ↦ inl c
          | inr (x, m, q) ↦ inr (x, there m, q)
        ]
      ]
