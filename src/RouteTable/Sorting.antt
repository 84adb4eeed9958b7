-- ===== src/RouteTable/Sorting.antt =====
-- Sorting keeps the elements, and any symmetric relation between them.
use nina.Prelude.{
  Bool, List, [], ◌∷◌, ◌≡◌, ◌⊎◌, inl, inr, refl, sym, insert_by, sort_by, In, here, there, Pairwise,
  Bool-cases, subst,
}

module _ {A : Type 0} (less : A → A → Bool) where
  pub In-insert_by : (x : A) (ys : List A) {a : A} → In a (insert_by less x ys) → (a ≡ x) ⊎ In a ys
  unfolding insert_by
  In-insert_by x [] (here e) = inl e
  In-insert_by x [] (there i) = elim i [ ]
  In-insert_by x (y ∷ ys) {a} i = elim (Bool-cases (less y x)) [
    | inl t ↦ deeper (rw t at i) (In-insert_by x ys)
    | inr f ↦ first (rw f at i)
  ]
    where
      deeper :
          In a (y ∷ insert_by less x ys)
          → (In a (insert_by less x ys) → (a ≡ x) ⊎ In a ys)
          → (a ≡ x) ⊎ In a (y ∷ ys)
      deeper (here e) rest = inr (here e)
      deeper (there j) rest = elim (rest j) [ inl e ↦ inl e | inr k ↦ inr (there k) ]

      first : In a (x ∷ y ∷ ys) → (a ≡ x) ⊎ In a (y ∷ ys)
      first (here e) = inl e
      first (there j) = inr j

  insert_by-In : (x : A) (ys : List A) {a : A} → (a ≡ x) ⊎ In a ys → In a (insert_by less x ys)
  unfolding insert_by
  insert_by-In x [] (inl e) = here e
  insert_by-In x [] (inr i) = elim i [ ]
  insert_by-In x (y ∷ ys) {a} h = elim (Bool-cases (less y x)) [
    | inl t ↦ rw t (deeper h (insert_by-In x ys))
    | inr f ↦ rw f (first h)
  ]
    where
      deeper :
          (a ≡ x) ⊎ In a (y ∷ ys)
          → ((a ≡ x) ⊎ In a ys → In a (insert_by less x ys))
          → In a (y ∷ insert_by less x ys)
      deeper (inl e) rest = there (rest (inl e))
      deeper (inr (here e)) rest = here e
      deeper (inr (there j)) rest = there (rest (inr j))

      first : (a ≡ x) ⊎ In a (y ∷ ys) → In a (x ∷ y ∷ ys)
      first (inl e) = here e
      first (inr j) = there j

  pub In-sort_by : (xs : List A) {a : A} → In a (sort_by less xs) → In a xs
  unfolding sort_by
  In-sort_by [] i = i
  In-sort_by (x ∷ xs) i = elim (In-insert_by x (sort_by less xs) i) [
    | inl e ↦ here e
    | inr j ↦ there (In-sort_by xs j)
  ]

  pub sort_by-In : (xs : List A) {a : A} → In a xs → In a (sort_by less xs)
  unfolding sort_by
  sort_by-In [] i = i
  sort_by-In (x ∷ xs) (here e) = insert_by-In x (sort_by less xs) (inl e)
  sort_by-In (x ∷ xs) (there j) = insert_by-In x (sort_by less xs) (inr (sort_by-In xs j))

  module _ (R : A → A → Type 0) (symm : (a b : A) → R a b → R b a) where
    Pairwise-insert_by :
        (x : A) (ys : List A)
        → ((y : A) → In y ys → R x y)
        → Pairwise R ys
        → Pairwise R (insert_by less x ys)
    unfolding insert_by
    Pairwise-insert_by x [] h p = (λ y i. elim i [ ], tt)
    Pairwise-insert_by x (y ∷ ys) h (q, p) = elim (Bool-cases (less y x)) [
      | inl t ↦
          rw t
            (λ z i. after z (In-insert_by x ys i), Pairwise-insert_by x ys (λ z i. h z (there i)) p)
      | inr f ↦ rw f (h, (q, p))
    ]
      where
        after : (z : A) → (z ≡ x) ⊎ In z ys → R y z
        after z (inl e) = subst (λ w. R y w) (sym e) (symm x y (h y (here refl)))
        after z (inr i) = q z i

    pub Pairwise-sort_by : (xs : List A) → Pairwise R xs → Pairwise R (sort_by less xs)
    unfolding sort_by
    Pairwise-sort_by [] p = p
    Pairwise-sort_by (x ∷ xs) (q, p) =
        Pairwise-insert_by x (sort_by less xs) (λ y i. q y (In-sort_by xs i))
          (Pairwise-sort_by xs p)
