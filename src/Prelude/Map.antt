-- ===== src/Prelude/Map.antt =====
-- Go maps as association lists, in the order of insertion.
use mathlib.Core.Path.{◌≡◌, refl}
use mathlib.Core.List.{List, [], ◌∷◌}
use mathlib.Core.Option.{Option, none, some}
use native.Mathlib.Omega.{arith}
use nina.Prelude.Tests.{if◌then◌else◌, Eq, ◌==◌}

abbrev pub Map {ℓ κ} : Type ℓ → Type κ → Type (ℓ ⊔ κ)
Map K V = List (K × V)

module _ {ℓ κ} {K : Type ℓ} {V : Type κ} ⦃eq : Eq K⦄ where
  unfoldable pub lookup : K → Map K V → Option V
  lookup key [] = none
  lookup key ((own, val) ∷ rest) = if own == key then some val else lookup key rest

  -- An assignment to a key that is there replaces its value in place.
  unfoldable pub insert : K → V → Map K V → Map K V
  insert key new [] = (key, new) ∷ []
  insert key new ((own, val) ∷ rest) =
      if own == key then (key, new) ∷ rest else (own, val) ∷ insert key new rest

  unfoldable pub remove : K → Map K V → Map K V
  remove key [] = []
  remove key ((own, val) ∷ rest) =
      if own == key then remove key rest else (own, val) ∷ remove key rest

  pub lookup-insert :
      (key at : K) (new : V) (entries : Map K V)
      → lookup at (insert key new entries) ≡ (if key == at then some new else lookup at entries)
  unfolding lookup insert
  lookup-insert key at new [] = refl
  lookup-insert key at new ((own, val) ∷ rest) = ground (
    arith,
    lookup-insert key at new rest,
    eq.same_iff own at,
    eq.same_iff own key,
    eq.same_iff key at,
  )

  pub lookup-remove :
      (key at : K) (entries : Map K V)
      → lookup at (remove key entries) ≡ (if key == at then none else lookup at entries)
  unfolding lookup remove
  lookup-remove key at [] = ground arith
  lookup-remove key at ((own, val) ∷ rest) = ground (
    arith,
    lookup-remove key at rest,
    eq.same_iff own at,
    eq.same_iff own key,
    eq.same_iff key at,
  )
