-- ===== src/Lru/Listed.antt =====
-- A cache that never evicts: the interface can be met.
use nina.Prelude.Map.{Map, lookup, insert, remove, lookup-insert, lookup-remove}
use nina.Prelude.{
  ℕ, none, some, List, [], ◌∷◌, ◌≡◌, ◌≢◌, ◌⊎◌, inl, refl, sym, Str, str_eq, same_str, same_str_refl,
  same_str_iff, In, here, there, arith, Bool-cases, inr,
}
use nina.Lru.{Lru}

module _ {V : Type 0} where
  abbrev pub keys_of : Map Str V → List Str
  keys_of [] = []
  keys_of ((k, v) ∷ m) = k ∷ keys_of m

  pub lookup-new : (size : ℕ) (k : Str) → lookup {V = V} k [] ≡ none
  unfolding lookup
  lookup-new size k = refl

  pub lookup-insert_self : (k : Str) (v : V) (m : Map Str V) → lookup k (insert k v m) ≡ some v
  lookup-insert_self k v m = ground (arith, lookup-insert k k v m, same_str_refl k)

  pub lookup-insert_ne :
      (j k : Str) (v : V) (m : Map Str V)
      → j ≢ k
      → (lookup j (insert k v m) ≡ lookup j m) ⊎ (lookup j (insert k v m) ≡ none)
  lookup-insert_ne j k v m ne =
      inl (ground (arith, lookup-insert k j v m, same_str_iff k j, λ (e : k ≡ j). ne (sym e)))

  pub In-keys_of : (k : Str) (m : Map Str V) {v : V} → lookup k m ≡ some v → In k (keys_of m)
  unfolding lookup
  In-keys_of k [] e = cc
  In-keys_of k ((j, w) ∷ m) e = elim (Bool-cases (same_str j k)) [
    | inl same ↦ here (sym ((same_str_iff j k).0 same))
    | inr other ↦ there (In-keys_of k m (rw other at e))
  ]

-- The maps of the model as caches.
abbrev pub listed : (V : Type 0) → Lru V
listed V = record {
  Cache = Map Str V;
  new = λ size. [];
  get = λ k m. (m, lookup k m);
  peek = λ k m. lookup k m;
  add = λ k v m. insert k v m;
  remove = λ k m. remove k m;
  keys = λ m. keys_of m;
  peek-new = lookup-new;
  get-peek = λ k m. refl;
  peek-get = λ j k m. refl;
  peek-add_self = lookup-insert_self;
  peek-add = lookup-insert_ne;
  peek-remove = λ j k m. lookup-remove k j m;
  keys-peek = In-keys_of;
}
