-- ===== src/Chain/Registry.antt =====
-- internal/chain/chain.go: the registry of constructors, Build and CloseAll. An instance is of any type
-- `I`; `is_closer` tells which instances have a Close. What a constructor makes of a name and a
-- configuration block is an argument, with `none` for its error.
use nina.Prelude.{
  Bool, Option, none, some, List, [], ◌∷◌, filter, Str, str_eq, sort_strings, is_some,
}
use nina.Prelude.Map.{Map, lookup, insert}

pub record MiddlewareDef (Raw : Type 0) : Type 0 where
  pub kind : Str
  pub raw : Raw

-- Registry
abbrev pub Registry : Type 0 → Type 0 → Type 0
Registry Raw I = Map Str (Str → Raw → Option I)

module _ {Raw I : Type 0} where
  -- Register and Has
  abbrev pub register : Str → (Str → Raw → Option I) → Registry Raw I → Registry Raw I
  register typ ctor r = insert typ ctor r

  abbrev pub has : Str → Registry Raw I → Bool
  has typ r = is_some (lookup typ r)

abbrev pub keys : {V : Type 0} → Map Str V → List Str
keys [] = []
keys ((k, v) ∷ rest) = k ∷ keys rest

abbrev pub items : {V : Type 0} → Map Str V → List V
items [] = []
items ((k, v) ∷ rest) = v ∷ items rest

-- Types
unfoldable pub types : {Raw I : Type 0} → Registry Raw I → List Str
types r = sort_strings (keys r)

pub data BuildError : Type 0 where
  unknown_type : Str → Str → List Str → BuildError
  refused : Str → Str → BuildError

-- What Build gives, and the instances whose Close it has called.
pub record Run (I : Type 0) : Type 0 where
  pub result : Option (Map Str I)
  pub error : Option BuildError
  pub closed : List I

module _ {I : Type 0} (is_closer : I → Bool) where
  -- CloseAll
  abbrev pub close_all : Map Str I → List I
  close_all instances = filter is_closer (items instances)

  abbrev pub fail : Map Str I → BuildError → Run I
  fail out e = record { result = none; error = some e; closed = close_all out }

  module _ {Raw : Type 0} (r : Registry Raw I) (defs : Map Str (MiddlewareDef Raw)) where
    -- The definition and the constructor of a name, and what the constructor makes of it.
    abbrev pub ctor_of : Str → Option (MiddlewareDef Raw × (Str → Raw → Option I))
    ctor_of name = elim (lookup name defs) [
      | none ↦ none
      | some d ↦ elim (lookup d.kind r) [ none ↦ none | some c ↦ some (d, c) ]
    ]

    abbrev kind_of : Option (MiddlewareDef Raw) → Str
    kind_of none = []
    kind_of (some d) = d.kind

    abbrev applied : Str → Option (MiddlewareDef Raw × (Str → Raw → Option I)) → Option (Option I)
    applied name none = none
    applied name (some (d, c)) = some (c name d.raw)

    -- One name: no constructor is known, or what it makes.
    unfoldable pub construct : Str → Option (Option I)
    construct name = applied name (ctor_of name)

    -- What follows from what was made of a name.
    abbrev pub continue : Str → Map Str I → (I → Run I) → Option (Option I) → Run I
    continue name out next none =
        fail out (unknown_type name (kind_of (lookup name defs)) (types r))
    continue name out next (some none) = fail out (refused name (kind_of (lookup name defs)))
    continue name out next (some (some inst)) = next inst

    -- The loop over the sorted names, with the instances so far.
    unfoldable pub build_loop : List Str → Map Str I → Run I
    build_loop [] out = record { result = some out; error = none; closed = [] }
    build_loop (name ∷ names) out =
        continue name out (λ inst. build_loop names (insert name inst out)) (construct name)

    -- Build
    unfoldable pub build : Run I
    build = build_loop (sort_strings (keys defs)) []

    -- All that the constructors have made, up to the first name that fails.
    abbrev pub onto : Option (Option I) → List I → List I
    onto none rest = []
    onto (some none) rest = []
    onto (some (some inst)) rest = inst ∷ rest

    unfoldable pub constructed : List Str → List I
    constructed [] = []
    constructed (name ∷ names) = onto (construct name) (constructed names)
