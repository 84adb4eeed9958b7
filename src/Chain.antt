-- ===== src/Chain.antt =====
-- internal/chain/chain.go: the middleware of a route around its final handler. Handlers are of any
-- type `H`, and routes of any type `R`; ForRoute gives an error, no middleware
-- for this route, or a wrapper.
pub mod Order
pub mod Registry
pub mod Releasing
mod Scenarios
use nina.Prelude.{
  ℕ, zero, suc, ◌+◌, ◌≡◌, Bool, true, false, Option, none, some, List, [], ◌∷◌, ltb, nat_beq,
  if◌then◌else◌, Str, str_eq, sort_by,
}
use nina.Prelude.Map.{Map, lookup}

pub data Category : Type 0 where
  cat_cors cat_auth cat_rate_limit cat_validate cat_cache cat_transform cat_script : Category

-- The value of the Go constant.
unfoldable pub rank : Category → ℕ
rank cat_cors = 0
rank cat_auth = 1
rank cat_rate_limit = 2
rank cat_validate = 3
rank cat_cache = 4
rank cat_transform = 5
rank cat_script = 6

-- A configured middleware; ForRoute's error is `none`.
pub record Instance (H R : Type 0) : Type 0 where
  pub category : Category
  pub for_route : R → Option (Option (H → H))

pub record Entry (H R : Type 0) : Type 0 where
  pub inst : Instance H R
  pub order : ℕ
  pub name : Str

pub data Error : Type 0 where
  unknown_middleware : Str → Error
  route_refused : Str → Error

pub data Assembled (A : Type 0) : Type 0 where
  ok : A → Assembled A
  err : Error → Assembled A

abbrev pub add_entry : {A : Type 0} → A → Assembled (List A) → Assembled (List A)
add_entry e (ok es) = ok (e ∷ es)
add_entry e (err x) = err x

-- What an entry makes of the handler inside it.
abbrev pub wrap_one : {H : Type 0} → Str → Option (Option (H → H)) → H → Assembled H
wrap_one name none h = err (route_refused name)
wrap_one name (some none) h = ok h
wrap_one name (some (some mw)) h = ok (mw h)

module _ {H R : Type 0} where
  -- The loop that looks the names up, from position `i` on.
  unfoldable pub entries : Map Str (Instance H R) → ℕ → List Str → Assembled (List (Entry H R))
  entries instances i [] = ok []
  entries instances i (n ∷ ns) = elim (lookup n instances) [
    | none ↦ err (unknown_middleware n)
    | some inst ↦
        add_entry (record { inst = inst; order = i; name = n }) (entries instances (i + 1) ns)
  ]

  unfoldable pub entry_less : Entry H R → Entry H R → Bool
  entry_less a b =
      if nat_beq (rank a.inst.category) (rank b.inst.category)
      then ltb a.order b.order
      else ltb (rank a.inst.category) (rank b.inst.category)

  abbrev pub wrap_next : Entry H R → R → Assembled H → Assembled H
  wrap_next e r (err x) = err x
  wrap_next e r (ok h) = wrap_one e.name (e.inst.for_route r) h

  -- The loop from the last entry to the first.
  unfoldable pub wrap : R → List (Entry H R) → H → Assembled H
  wrap r [] h = ok h
  wrap r (e ∷ es) h = wrap_next e r (wrap r es h)

  abbrev pub wrap_sorted : R → H → Assembled (List (Entry H R)) → Assembled H
  wrap_sorted r final (err x) = err x
  wrap_sorted r final (ok es) = wrap r (sort_by entry_less es) final

  unfoldable pub assemble : List Str → Map Str (Instance H R) → R → H → Assembled H
  assemble names instances r final = wrap_sorted r final (entries instances 0 names)
