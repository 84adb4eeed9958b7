-- ===== src/Lru.antt =====
-- github.com/hashicorp/golang-lru/v2, which the repository only calls: the operations that the code
-- uses, with the documented behaviour that the proofs rely on. Which entries an addition evicts is
-- left open.
pub mod Listed
use nina.Prelude.{
  ℕ, Bool, Option, none, some, List, ◌≡◌, ◌≢◌, ◌⊎◌, ◌↔◌, Str, str_eq, ◌==◌, if◌then◌else◌, In,
}

pub record Lru (V : Type 0) : Type 1 where
  pub Cache : Type 0
  -- New, with a positive size.
  pub new : ℕ → Cache
  -- Get also marks the entry as used.
  pub get : Str → Cache → Cache × Option V
  pub peek : Str → Cache → Option V
  pub add : Str → V → Cache → Cache
  pub remove : Str → Cache → Cache
  pub keys : Cache → List Str
  pub peek-new : (size : ℕ) (k : Str) → peek k (new size) ≡ none
  pub get-peek : (k : Str) (c : Cache) → (get k c).1 ≡ peek k c
  pub peek-get : (j k : Str) (c : Cache) → peek j (get k c).0 ≡ peek j c
  pub peek-add_self : (k : Str) (v : V) (c : Cache) → peek k (add k v c) ≡ some v
  pub peek-add :
      (j k : Str) (v : V) (c : Cache)
      → j ≢ k
      → (peek j (add k v c) ≡ peek j c) ⊎ (peek j (add k v c) ≡ none)
  pub peek-remove :
      (j k : Str) (c : Cache) → peek j (remove k c) ≡ (if k == j then none else peek j c)
  pub keys-peek : (k : Str) (c : Cache) {v : V} → peek k c ≡ some v → In k (keys c)
